-- ===== src/RateLimit.antt =====
-- app/core/rate_limit.py: the brute-force guard of the two authenticated areas. Every method
-- holds the lock from its first access of the two dictionaries to its return, so a method is one
-- step. `time.monotonic()` is an argument, a whole number of nanoseconds; the settings are whole
-- seconds, as in app/core/settings.py. `now - window` may be negative, so the comparison with the
-- cutoff adds the window on the other side.
pub mod Window
pub mod Lockout
mod Tests
use fire2api.Base.{
  ℕ, ◌+◌, ◌-◌, ◌*◌, ◌/◌, max, String, List, [], ◌∷◌, ◌++◌, Option, none, some, leb, ltb, length,
  if◌then◌else◌, Dict, get, put, pop, pair_eq, string_eq,
}

abbrev pub second : ℕ
second = 1_000_000_000

-- The three settings that the limiter reads, in seconds and attempts.
pub record Limits : Type 0 where
  pub attempts : ℕ
  pub window_seconds : ℕ
  pub lockout_seconds : ℕ

-- `(scope, remote)`.
abbrev pub Key : Type 0
Key = String × String

pub record Limiter : Type 0 where
  pub failures : Dict Key (List ℕ)
  pub blocked_until : Dict Key ℕ

abbrev pub or_else {ℓ} : {A : Type ℓ} → Option A → A → A
or_else none d = d
or_else (some a) d = a

-- `math.ceil` of a span in seconds.
abbrev pub ceil_seconds : ℕ → ℕ
ceil_seconds t = (t + (second - 1)) / second

unfoldable pub retry_after : Limiter → Key → ℕ → Limiter × ℕ
retry_after l key now =
    let until = or_else (get l.blocked_until key) 0 in
    if leb until now
    then (record l { blocked_until = pop l.blocked_until key }, 0)
    else (l, max 1 (ceil_seconds (until - now)))

-- `while failures and failures[0] <= cutoff: failures.popleft()`.
unfoldable pub drop_stale : Limits → ℕ → List ℕ → List ℕ
drop_stale s now [] = []
drop_stale s now (t ∷ ts) =
    let rest = drop_stale s now ts in
    if leb (t + s.window_seconds * second) now then rest else t ∷ ts

-- The deque after the purge and `failures.append(now)`.
unfoldable pub recorded : Limits → Limiter → Key → ℕ → List ℕ
unfolding drop_stale
recorded s l key now = drop_stale s now (or_else (get l.failures key) []) ++ now ∷ []

unfoldable pub register_failure : Limits → Limiter → Key → ℕ → Limiter × ℕ
register_failure s l key now =
    let failures = recorded s l key now in
    if ltb (length failures) s.attempts
    then (record l { failures = put l.failures key failures }, 0)
    else (
      record {
        failures = put l.failures key [];
        blocked_until = put l.blocked_until key (now + s.lockout_seconds * second);
      },
      s.lockout_seconds,
    )

unfoldable pub register_success : Limiter → Key → Limiter
register_success l key = record {
  failures = pop l.failures key;
  blocked_until = pop l.blocked_until key;
}

pub clear : Limiter
clear = record { failures = []; blocked_until = [] }
