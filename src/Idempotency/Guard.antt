-- ===== src/Idempotency/Guard.antt =====
-- An Idempotency-Key runs at most once.
use fire2api.Base.{
  ℕ, ◌≡◌, ◌≢◌, ◌<◌, sym, ap, ◌∙◌, String, Bool, true, false, not, List, [], ◌∷◌, ◌++◌, Option, none,
  some, leb, ◌==◌, nat_eq, string_eq, pair_eq, if◌then◌else◌, keep_if, arith, All, Bool-cases, inl,
  inr,
}
use fire2api.Text.{Text}
use fire2api.Idempotency.{
  Scope, Entry, Table, find, is_valid_key, purge, decide, Request, scope_of, begin, selects,
  completed_row, complete_rows, complete, abandon,
}

-- The steps that requests may take in between: of other executions and of this one.
pub data Step : Type 0 where
  begins : Request → Step
  completes : ℕ → String → String → Step
  abandons : ℕ → Step

-- A record of the scope is there, with this id and end.
pub record IsGuarded (s : Scope) (id expires : ℕ) (t : Table) : Type 0 where
  pub entry : Entry
  pub found : find s t.rows ≡ some entry
  pub same_id : entry.id ≡ id
  pub same_end : entry.expires_at ≡ expires

pub same_entry : {a b : Entry} → some a ≡ some b → a ≡ b
same_entry h = cc

pub find-keep_if :
    (p : Entry → Bool) (s : Scope) (rs : List Entry) (r : Entry)
    → find s rs ≡ some r
    → p r ≡ true
    → find s (keep_if p rs) ≡ some r
find-keep_if p s [] r e h = cc
find-keep_if p s (q ∷ rs) r e h = elim (Bool-cases (q.scope == s)) [
  | inl same ↦
      let q_is_r : some q ≡ some r = rw same at e in
      rw (ap p (same_entry q_is_r) ∙ h) (rw same q_is_r)
  | inr other ↦
      let later : find s rs ≡ some r = rw other at e in
      elim (Bool-cases (p q)) [
        | inl kept ↦ rw kept (rw other (find-keep_if p s rs r later h))
        | inr gone ↦ rw gone (find-keep_if p s rs r later h)
      ]
]

find-append :
    (s : Scope) (rs qs : List Entry) (r : Entry) → find s rs ≡ some r → find s (rs ++ qs) ≡ some r
find-append s [] qs r e = cc
find-append s (q ∷ rs) qs r e = elim (Bool-cases (q.scope == s)) [
  | inl same ↦ rw same (rw same at e)
  | inr other ↦ rw other (find-append s rs qs r (rw other at e))
]

pub find-new :
    (s : Scope) (rs : List Entry) (r : Entry)
    → find s rs ≡ none
    → (r.scope == s) ≡ true
    → find s (rs ++ r ∷ []) ≡ some r
find-new s [] r e same = rw same
find-new s (q ∷ rs) r e same = elim (Bool-cases (q.scope == s)) [
  | inl hit ↦ absurd (some_not_none (rw hit at e))
  | inr other ↦ rw other (find-new s rs r (rw other at e) same)
]
  where
    some_not_none : {a : Entry} → some a ≡ none → ⊥
    some_not_none h = cc

abbrev pub changed : ℕ → String → String → Entry → Entry
changed id response execution r = if selects id r then completed_row response execution r else r

pub find-complete_rows :
    (id : ℕ) (response execution : String) (s : Scope) (rs : List Entry) (r : Entry)
    → find s rs ≡ some r
    → find s (complete_rows id response execution rs) ≡ some (changed id response execution r)
unfolding complete_rows
find-complete_rows id response execution s [] r e = cc
find-complete_rows id response execution s (q ∷ rs) r e = elim (Bool-cases (q.scope == s)) [
  | inl same ↦
      let q_is_r : some q ≡ some r = rw same at e in
      elim (Bool-cases (selects id q)) [
        | inl hit ↦ rw hit (
            rw same (
              ap (λ (x : Entry). some (completed_row response execution x)) (same_entry q_is_r)
              ∙ rw (hit_too q r hit (same_entry q_is_r))))
        | inr miss ↦ rw miss (rw same (q_is_r ∙ rw (miss_too q r miss (same_entry q_is_r))))
      ]
  | inr other ↦
      let rest = find-complete_rows id response execution s rs r (rw other at e) in
      elim (Bool-cases (selects id q)) [
        | inl hit ↦ rw hit (rw other rest)
        | inr miss ↦ rw miss (rw other rest)
      ]
]
  where
    hit_too : (q r : Entry) → selects id q ≡ true → q ≡ r → selects id r ≡ true
    hit_too q r h e = ap (selects id) (sym e) ∙ h

    miss_too : (q r : Entry) → selects id q ≡ false → q ≡ r → selects id r ≡ false
    miss_too q r h e = ap (selects id) (sym e) ∙ h

complete-IsGuarded :
    (s : Scope) (id expires j : ℕ) (response execution : String) (t : Table)
    → IsGuarded s id expires t
    → IsGuarded s id expires (complete t j response execution).0
unfolding complete
complete-IsGuarded s id expires j response execution t g = record {
  entry = changed j response execution g.entry;
  found = find-complete_rows j response execution s t.rows g.entry g.found;
  same_id = ground (arith, g.same_id);
  same_end = ground (arith, g.same_end);
}

abandon-IsGuarded :
    (s : Scope) (id expires j : ℕ) (t : Table)
    → j ≢ id
    → IsGuarded s id expires t
    → IsGuarded s id expires (abandon t j)
unfolding abandon
abandon-IsGuarded s id expires j t ne g = record {
  entry = g.entry;
  found =
      find-keep_if (λ r. not (selects j r)) s t.rows g.entry g.found (ground (arith, g.same_id));
  same_id = g.same_id;
  same_end = g.same_end;
}

decide-IsGuarded :
    (s s' : Scope) (id expires end' : ℕ) (request : String) (t : Table) (rows : List Entry)
    (o : Option Entry)
    → IsGuarded s id expires (record { rows = rows })
    → IsGuarded s id expires (decide t s' request end' rows o).0
decide-IsGuarded s s' id expires end' request t rows none g = record {
  entry = g.entry;
  found = find-append s rows _ g.entry g.found;
  same_id = g.same_id;
  same_end = g.same_end;
}
decide-IsGuarded s s' id expires end' request t rows (some r) g = g

module _ (sha256 : Text → String) (ttl_hours : ℕ) where
  abbrev pub apply : Table → Step → Table
  apply t (begins q) = (begin sha256 ttl_hours t q).0
  apply t (completes id response execution) = (complete t id response execution).0
  apply t (abandons id) = abandon t id

  abbrev pub run : Table → List Step → Table
  run t [] = t
  run t (x ∷ xs) = run (apply t x) xs

  -- Before the end of the record, and without giving that record up.
  abbrev pub Spares : ℕ → ℕ → Step → Type 0
  Spares id expires (begins q) = q.now < expires
  Spares id expires (completes _ _ _) = Unit
  Spares id expires (abandons j) = j ≢ id

  purge-IsGuarded :
      (s : Scope) (id expires now : ℕ) (t : Table)
      → now < expires
      → IsGuarded s id expires t
      → IsGuarded s id expires (record { rows = purge now t.rows })
  purge-IsGuarded s id expires now t lt g = record {
    entry = g.entry;
    found =
        find-keep_if (λ r. not (leb r.expires_at now)) s t.rows g.entry g.found
          (ground (arith, g.same_end));
    same_id = g.same_id;
    same_end = g.same_end;
  }

  begin-IsGuarded :
      (s : Scope) (id expires : ℕ) (t : Table) (q : Request)
      → q.now < expires
      → IsGuarded s id expires t
      → IsGuarded s id expires (begin sha256 ttl_hours t q).0
  unfolding begin
  begin-IsGuarded s id expires t q lt g = elim (Bool-cases (is_valid_key q.idempotency_key)) [
    | inl good ↦ rw good (
        decide-IsGuarded s (scope_of sha256 ttl_hours q) id expires _ q.request_hash t
          (purge q.now t.rows) _ (purge-IsGuarded s id expires q.now t lt g))
    | inr bad ↦ rw bad g
  ]

  apply-IsGuarded :
      (s : Scope) (id expires : ℕ) (t : Table) (x : Step)
      → Spares id expires x
      → IsGuarded s id expires t
      → IsGuarded s id expires (apply t x)
  apply-IsGuarded s id expires t (begins q) h g = begin-IsGuarded s id expires t q h g
  apply-IsGuarded s id expires t (completes j response execution) h g =
      complete-IsGuarded s id expires j response execution t g
  apply-IsGuarded s id expires t (abandons j) h g = abandon-IsGuarded s id expires j t h g

  pub run-IsGuarded :
      (s : Scope) (id expires : ℕ) (xs : List Step) (t : Table)
      → All (Spares id expires) xs
      → IsGuarded s id expires t
      → IsGuarded s id expires (run t xs)
  run-IsGuarded s id expires [] t h g = g
  run-IsGuarded s id expires (x ∷ xs) t h g =
      run-IsGuarded s id expires xs (apply t x) h.1 (apply-IsGuarded s id expires t x h.0 g)
