-- ===== src/RateLimit/Tests.antt =====
-- The limiter on concrete failures.
use fire2api.Base.{◌+◌, ◌*◌, ◌≡◌, refl, [], ◌∷◌, arith, get, All}
use fire2api.RateLimit.{second, Limits, Key, Limiter, recorded, register_failure}
use fire2api.RateLimit.Lockout.{register_failures, attempts_lock}

abbrev limits : Limits
limits = record { attempts = 3; window_seconds = 60; lockout_seconds = 300 }

abbrev key : Key
key = ("api", "10.0.0.1")

abbrev other : Key
other = ("api", "10.0.0.2")

abbrev empty : Limiter
empty = record { failures = []; blocked_until = [] }

-- Two failures are held.
abbrev warned : Limiter
warned = record { failures = (key, 1 ∷ 2 ∷ []) ∷ []; blocked_until = [] }

-- Locked until five seconds.
abbrev locked : Limiter
locked = record { failures = []; blocked_until = (key, 5 * second) ∷ [] }

third_failure_locks : (register_failure limits warned key 3).1 ≡ 300
unfolding register_failure recorded get
third_failure_locks = refl

stale_failures_do_not : (register_failure limits warned key (60 * second + 1)).1 ≡ 0
unfolding register_failure recorded get
stale_failures_do_not = refl

attempts_lock_example :
    All (λ a. a ≡ 0) (register_failures limits empty key (1 ∷ 2 ∷ [])).1
    × ((register_failure limits (register_failures limits empty key (1 ∷ 2 ∷ [])).0 key 3).1 ≡ 300)
unfolding get
attempts_lock_example =
    attempts_lock limits empty key (1 ∷ 2 ∷ []) 3 refl (omega arith) (omega arith) (omega arith)
