-- ===== src/RateLimit/Window.antt =====
-- The sliding window of one key: which failures it holds, and when it locks.
use fire2api.Base.{
  ℕ, ◌+◌, ◌*◌, ◌≤◌, ◌≡◌, refl, List, [], ◌∷◌, ◌++◌, arith, leb, Bool-cases, inl, inr, get, All,
  pair_eq, string_eq, keep_if, false, not,
}
use fire2api.RateLimit.{second, Limits, Key, Limiter, or_else, drop_stale, recorded}

-- The failures that the limiter keeps for a key.
abbrev pub held : Limiter → Key → List ℕ
held l key = or_else (get l.failures key) []

-- Times that never fall, all at or before `now`.
pub data Rising : List ℕ → ℕ → Type 0 where
  nil : {now : ℕ} → Rising [] now
  cons :
      {t now : ℕ} {ts : List ℕ}
      → All (λ u. t ≤ u) ts
      → t ≤ now
      → Rising ts now
      → Rising (t ∷ ts) now

-- The specification of the purge: the times inside the window.
abbrev pub in_window : Limits → ℕ → List ℕ → List ℕ
in_window s now = keep_if (λ t. not (leb (t + s.window_seconds * second) now))

fresh-in_window :
    (s : Limits) (now t : ℕ) (ts : List ℕ)
    → leb (t + s.window_seconds * second) now ≡ false
    → All (λ u. t ≤ u) ts
    → in_window s now ts ≡ ts
fresh-in_window s now t [] e h = refl
fresh-in_window s now t (u ∷ ts) e h = ground (arith, fresh-in_window s now t ts e h.1)

-- On times in order, dropping from the front until the first fresh one leaves exactly the fresh.
pub drop_stale-in_window :
    (s : Limits) {now : ℕ} {ts : List ℕ} (later : ℕ)
    → Rising ts now
    → drop_stale s later ts ≡ in_window s later ts
unfolding drop_stale
drop_stale-in_window s later nil = refl
drop_stale-in_window s later (cons {t} {now} {ts} h le r) =
    elim (Bool-cases (leb (t + s.window_seconds * second) later)) [
      | inl old ↦ rw old (drop_stale-in_window s later r)
      | inr fresh ↦ rw fresh (rw (fresh-in_window s later t ts fresh h))
    ]

-- Where the failures of a key were held in the order of time, a failure is counted with exactly
-- those of them that the window still holds.
pub recorded-in_window :
    (s : Limits) (l : Limiter) (key : Key) (last now : ℕ)
    → Rising (held l key) last
    → recorded s l key now ≡ in_window s now (held l key) ++ now ∷ []
unfolding recorded
recorded-in_window s l key last now r = rw (drop_stale-in_window s now r)
