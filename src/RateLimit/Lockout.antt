-- ===== src/RateLimit/Lockout.antt =====
-- What a client of the limiter sees: when a key is locked, for how long, and that keys do not
-- disturb one another.
use fire2api.Base.{
  ℕ, suc, ◌+◌, ◌-◌, ◌*◌, ◌≤◌, ◌<◌, ◌≡◌, ◌≢◌, refl, sym, ◌∙◌, List, [], ◌∷◌, ◌++◌, arith, length,
  length-append, leb, ltb, le→leb, Bool-cases, inl, inr, get, get-put, get-pop, All, All-append,
  ==-refl, ==-ne, pair_eq, string_eq, true, false, max,
}
use mathlib.Core.List.{append_assoc, append-nil}
use fire2api.RateLimit.{
  second, Limits, Key, Limiter, or_else, ceil_seconds, drop_stale, recorded, retry_after,
  register_failure, register_success,
}
use fire2api.RateLimit.Window.{held}

-- The lock of a key at a time: whether a caller is turned away.
abbrev pub locked_until : Limiter → Key → ℕ
locked_until l key = or_else (get l.blocked_until key) 0

wait_bound : (d : ℕ) → 0 < d → d ≤ max 1 (ceil_seconds d) * second
wait_bound d h = omega arith

-- A caller that is told to wait and waits so many seconds is let through.
pub retry_after_suffices :
    (l : Limiter) (key : Key) (now : ℕ)
    → (retry_after (retry_after l key now).0 key (now + (retry_after l key now).1 * second)).1 ≡ 0
unfolding retry_after
retry_after_suffices l key now = elim (Bool-cases (leb (locked_until l key) now)) [
  | inl free ↦ rw free (rw get-pop (rw (==-refl key) (ground arith)))
  | inr shut ↦ rw shut (rw (passed (locked_until l key) now shut) refl)
]
  where
    passed : (u n : ℕ) → leb u n ≡ false → leb u (n + max 1 (ceil_seconds (u - n)) * second) ≡ true
    passed u n h = ground (arith, wait_bound (u - n))

not_below : (a n : ℕ) → a ≤ n → ltb n a ≡ false
not_below a n h = ground arith

module _ (s : Limits) (l : Limiter) (key : Key) (now : ℕ)
    (full : s.attempts ≤ length (recorded s l key now)) where
  -- A failure that makes the window full, of at least `attempts` failures, answers with the
  -- lockout, and every caller of that key before the lockout's end is told to wait between one
  -- second and the lockout.
  pub register_failure_locks :
      (t : ℕ)
      → now ≤ t
      → t < now + s.lockout_seconds * second
      → ((register_failure s l key now).1 ≡ s.lockout_seconds)
        × (1 ≤ (retry_after (register_failure s l key now).0 key t).1)
        × ((retry_after (register_failure s l key now).0 key t).1 ≤ s.lockout_seconds)
  unfolding register_failure retry_after
  register_failure_locks t le early =
      rw (not_below s.attempts (length (recorded s l key now)) full)
        (rw get-put (rw (==-refl key) (refl, ground arith, ground arith)))

  -- From the lockout's end on the key is free again, with no failure held against it.
  pub register_failure_unlocks :
      (t : ℕ)
      → now + s.lockout_seconds * second ≤ t
      → ((retry_after (register_failure s l key now).0 key t).1 ≡ 0)
        × (held (retry_after (register_failure s l key now).0 key t).0 key ≡ [])
  unfolding register_failure retry_after
  register_failure_unlocks t late =
      rw (not_below s.attempts (length (recorded s l key now)) full)
        (rw get-put (rw (==-refl key) (rw (le→leb _ t late) (refl, rw get-put (rw (==-refl key))))))

-- No time in the list is stale yet.
abbrev pub AllFresh : Limits → ℕ → List ℕ → Type 0
AllFresh s now = All (λ t. now < t + s.window_seconds * second)

drop_stale-fresh :
    (s : Limits) (now : ℕ) (ts : List ℕ) → AllFresh s now ts → drop_stale s now ts ≡ ts
unfolding drop_stale
drop_stale-fresh s now [] h = refl
drop_stale-fresh s now (t ∷ ts) h = ground arith

fresh_before :
    (s : Limits) (t now : ℕ) (ts : List ℕ) → t ≤ now → AllFresh s now ts → AllFresh s t ts
fresh_before s t now [] le h = tt
fresh_before s t now (u ∷ ts) le h = (omega arith, fresh_before s t now ts le h.1)

-- Failures at the given times, and the answers.
unfoldable pub register_failures : Limits → Limiter → Key → List ℕ → Limiter × List ℕ
register_failures s l key [] = (l, [])
register_failures s l key (t ∷ ts) =
    let (l', answer) = register_failure s l key t in
    let (l'', answers) = register_failures s l' key ts in (l'', answer ∷ answers)

fail_below :
    (s : Limits) (l : Limiter) (key : Key) (now : ℕ)
    → AllFresh s now (held l key)
    → suc (length (held l key)) < s.attempts
    → ((register_failure s l key now).1 ≡ 0)
      × (held (register_failure s l key now).0 key ≡ held l key ++ now ∷ [])
unfolding register_failure recorded
fail_below s l key now fresh room =
    rw (drop_stale-fresh s now (held l key) fresh)
      (rw (below (held l key) room) (rw get-put (rw (==-refl key) (refl, refl))))
  where
    below :
        (ts : List ℕ)
        → suc (length ts) < s.attempts
        → ltb (length (ts ++ now ∷ [])) s.attempts ≡ true
    below ts h = ground (arith, length-append ts (now ∷ []))

-- Failures of one key at the times `ts`, all inside the window at their last: each of them is
-- answered by 0 and held, as long as they are fewer than `attempts` together.
fails_below :
    (s : Limits) (l : Limiter) (key : Key) (now : ℕ) (ts : List ℕ)
    → AllFresh s now (held l key)
    → AllFresh s now ts
    → All (λ t. t ≤ now) ts
    → length (held l key) + length ts < s.attempts
    → All (λ a. a ≡ 0) (register_failures s l key ts).1
      × (held (register_failures s l key ts).0 key ≡ held l key ++ ts)
unfolding register_failures
fails_below s l key now [] hh ht le room = (tt, sym (append-nil (held l key)))
fails_below s l key now (t ∷ ts) hh ht le room =
    let once = fail_below s l key t (fresh_before s t now (held l key) le.0 hh) (omega arith) in
    let rest =
      fails_below s (register_failure s l key t).0 key now ts
        (rw once.1 (All-append _ (held l key) (t ∷ []) hh (ht.0, tt))) ht.1 le.1
        (rw once.1 (omega (arith, length-append (held l key) (t ∷ [])))) in
    ((once.0, rest.0), rest.1 ∙ rw once.1 (append_assoc (held l key) (t ∷ []) ts))

-- For a key with nothing held, failures one less than `attempts`, all within the window of a last
-- one and not behind it, are never answered by a lock, and that last failure is answered with the
-- lockout.
pub attempts_lock :
    (s : Limits) (l : Limiter) (key : Key) (ts : List ℕ) (now : ℕ)
    → held l key ≡ []
    → AllFresh s now ts
    → All (λ t. t ≤ now) ts
    → length ts + 1 ≡ s.attempts
    → All (λ a. a ≡ 0) (register_failures s l key ts).1
      × ((register_failure s (register_failures s l key ts).0 key now).1 ≡ s.lockout_seconds)
attempts_lock s l key ts now empty fresh le full =
    let below = fails_below s l key now ts (rw empty tt) fresh le (rw empty (omega arith)) in
    (below.0, last (register_failures s l key ts).0 (below.1 ∙ rw empty))
  where
    last : (m : Limiter) → held m key ≡ ts → (register_failure s m key now).1 ≡ s.lockout_seconds
    last m e =
        unfold register_failure recorded in
        rw e (
          rw (drop_stale-fresh s now ts fresh) (
            rw (
              not_below s.attempts (length (ts ++ now ∷ []))
                (omega (arith, length-append ts (now ∷ []))))))

-- A failure of one key leaves every other key as it was: its failures and its lock.
pub register_failure_frame :
    (s : Limits) (l : Limiter) (key other : Key) (now : ℕ)
    → key ≢ other
    → (held (register_failure s l key now).0 other ≡ held l other)
      × (locked_until (register_failure s l key now).0 other ≡ locked_until l other)
unfolding register_failure
register_failure_frame s l key other now ne =
    elim (Bool-cases (ltb (length (recorded s l key now)) s.attempts)) [
      | inl few ↦ rw few (simp (get-put, ==-ne ne) (refl, refl))
      | inr full ↦ rw full ((simp (get-put, ==-ne ne) (refl, refl)))
    ]

-- A success forgets the failures and the lock of its key, whatever they were.
pub register_success_frees :
    (l : Limiter) (key : Key) (now : ℕ)
    → (held (register_success l key) key ≡ [])
      × ((retry_after (register_success l key) key now).1 ≡ 0)
unfolding register_success retry_after
register_success_frees l key now = simp (get-pop, ==-refl key) (refl, ground arith)
