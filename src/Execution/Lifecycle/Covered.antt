-- ===== src/Execution/Lifecycle/Covered.antt =====
-- What a write of a status leaves open.
use fire2api.Base.{
  ℕ, String, ◌≡◌, ◌⊎◌, inl, inr, refl, sym, ap, ◌∙◌, Bool, true, false, ◌&&◌, ◌||◌, not, List, [],
  ◌∷◌, ◌==◌, string_eq, if◌then◌else◌, any, All, All-keep_if, Bool-cases, arith,
}
use fire2api.Execution.History.{
  History, Change, Row, set_status, is_terminal, selects, changed, update, trim, surplus, names,
}
use fire2api.Execution.Lifecycle.{Context, Service, cancel_context, pop_context}

abbrev pub has_context : String → List Context → Bool
has_context id = any (λ c. c.execution_id == id)

-- A row is terminal, or its execution has a context still.
abbrev pub IsCovered : List Context → Row → Type 0
IsCovered cs r = (has_context r.execution_id cs ≡ true) ⊎ (is_terminal r.status ≡ true)

abbrev pub IsLive : Service → Type 0
IsLive s = All (IsCovered s.contexts) s.history

pub has_context-cancel_context :
    (id j : String) (cs : List Context) → has_context j (cancel_context id cs) ≡ has_context j cs
has_context-cancel_context id j [] = refl
has_context-cancel_context id j (c ∷ cs) = elim (Bool-cases (c.execution_id == id)) [
  | inl own ↦ rw own (ap (λ b. c.execution_id == j || b) (has_context-cancel_context id j cs))
  | inr other ↦ rw other (ap (λ b. c.execution_id == j || b) (has_context-cancel_context id j cs))
]

pub has_context-pop_context :
    (id j : String) (cs : List Context)
    → (j == id) ≡ false
    → has_context j cs ≡ true
    → has_context j (pop_context id cs) ≡ true
has_context-pop_context id j [] other h = h
has_context-pop_context id j (c ∷ cs) other h = elim (Bool-cases (c.execution_id == id)) [
  | inl own ↦
      rw own
        (has_context-pop_context id j cs other (rest _ _ (differ (c.execution_id == j) refl own) h))
  | inr kept ↦ rw kept (either _ _ _ (has_context-pop_context id j cs other) h)
]
  where
    rest : (a b : Bool) → a ≡ false → (a || b) ≡ true → b ≡ true
    rest a b x y = ground arith

    either : (a b c : Bool) → (b ≡ true → c ≡ true) → (a || b) ≡ true → (a || c) ≡ true
    either true b c f y = refl
    either false b c f y = f y

    apart : (b : Bool) → b ≡ true → b ≡ false → ⊥
    apart b x y = cc

    differ : (b : Bool) → (c.execution_id == j) ≡ b → (c.execution_id == id) ≡ true → b ≡ false
    differ false e own = refl
    differ true e own = absurd (
        apart (j == id)
          (ap (λ (k : String). k == id) (sym ((string_eq.beq_iff c.execution_id j).0 e)) ∙ own)
          other)

-- A write of a status turns what holds of the rows into what is to hold of them.
pub set_status-All :
    {P Q : Row → Type 0} (size : ℕ) (id : String) (c : Change) (h : History)
    → ((r : Row) → P r → selects id r ≡ true → Q (changed c r))
    → ((r : Row) → P r → selects id r ≡ false → Q r)
    → All P h
    → All Q (set_status size id c h).0
unfolding set_status
set_status-All {P} {Q} size id c h hit miss all = kept (is_terminal c.status) (updated h all)
  where
    updated : (h : History) → All P h → All Q (update id c h)
    updated [] x = tt
    updated (r ∷ h) x = elim (Bool-cases (selects id r)) [
      | inl own ↦ rw own (hit r x.0 own, updated h x.1)
      | inr other ↦ rw other (miss r x.0 other, updated h x.1)
    ]

    kept :
        (b : Bool)
        → All Q (update id c h)
        → All Q (if b then trim size (update id c h) else update id c h)
    kept true x =
        All-keep_if Q (λ r. not (names r.execution_id (surplus size (update id c h))))
          (update id c h) x
    kept false x = x

-- An execution that has a context goes on.
pub set_status-goes_on :
    (size : ℕ) (id : String) (c : Change) (cs : List Context) (h : History)
    → All (IsCovered cs) h
    → All (IsCovered cs) (set_status size id c h).0
set_status-goes_on size id c cs h all = set_status-All size id c h hit (λ r x _. x) all
  where
    open_row : (a b : Bool) → b ≡ true → (a && not b) ≡ true → ⊥
    open_row a b x y = ground arith

    hit : (r : Row) → IsCovered cs r → selects id r ≡ true → IsCovered cs (changed c r)
    hit r (inl there) own = inl there
    hit r (inr ended) own = absurd (open_row (r.execution_id == id) _ ended own)

-- One that ends leaves its context.
pub set_status-ends :
    (size : ℕ) (id : String) (c : Change) (cs : List Context) (h : History)
    → is_terminal c.status ≡ true
    → All (IsCovered cs) h
    → All (IsCovered (pop_context id cs)) (set_status size id c h).0
set_status-ends size id c cs h ends all = set_status-All size id c h (λ r _ _. inr ends) miss all
  where
    ended : (a b : Bool) → a ≡ true → (a && not b) ≡ false → b ≡ true
    ended a b x y = ground arith

    miss : (r : Row) → IsCovered cs r → selects id r ≡ false → IsCovered (pop_context id cs) r
    miss r (inr over) other = inr over
    miss r (inl there) other = elim (Bool-cases (r.execution_id == id)) [
      | inl own ↦ inr (ended _ _ own other)
      | inr differs ↦ inl (has_context-pop_context id r.execution_id cs differs there)
    ]

pub cancel_context-IsCovered :
    (id : String) (cs : List Context) (h : History)
    → All (IsCovered cs) h
    → All (IsCovered (cancel_context id cs)) h
cancel_context-IsCovered id cs [] x = tt
cancel_context-IsCovered id cs (r ∷ h) x = (one x.0, cancel_context-IsCovered id cs h x.1)
  where
    one : IsCovered cs r → IsCovered (cancel_context id cs) r
    one (inl there) = inl (has_context-cancel_context id r.execution_id cs ∙ there)
    one (inr over) = inr over
