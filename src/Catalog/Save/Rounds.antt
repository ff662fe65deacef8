-- ===== src/Catalog/Save/Rounds.antt =====
-- The rounds of the last loop of a save.
use mathlib.Core.Path.{subst}
use fire2api.Base.{
  ℕ, ◌+◌, ◌≡◌, ◌<◌, inl, inr, refl, ap, ◌∙◌, Bool, true, false, ◌&&◌, ◌||◌, not, List, [], ◌∷◌,
  ◌++◌, Option, none, some, ◌==◌, nat_eq, list_eq, pair_eq, All, arith, Bool-cases, any-append,
}
use fire2api.Catalog.{Parameter}
use fire2api.Catalog.Drafts.{Draft}
use fire2api.Catalog.Save.{
  row_of, is_row, name_taken, map_row, update_parameter_row, Rows, store_draft, store_all, with_id,
  retained_ids, mem_id,
}
use fire2api.Catalog.Save.Others.{and_then-some, stored_at-some}
use fire2api.Catalog.Save.HasRow.{
  HasRow, IsStored, IsReady, HasRow-append, HasRow-last, HasRow-map_row, HasRow-updated,
  any-map_row, All-keeps, updated-rows,
}

-- One round: what is left is ready still, and the draft has its row.
abbrev IsRound : ℕ → ℕ → Draft → List ℕ → Rows → Type 0
IsRound q n d ids r =
    IsReady q ids r × ((id : ℕ) × HasRow (row_of id q n d) r.0 × (mem_id id ids ≡ false))

inserted-IsRound :
    (q n : ℕ) (d : Draft) (ids : List ℕ) (rows : List Parameter) (next : ℕ)
    → IsReady q ids (rows, next)
    → IsRound q n d ids (rows ++ row_of next q n d ∷ [], next + 1)
inserted-IsRound q n d ids rows next h = (
  (
    h.0,
    All-keeps ids (λ i x. any-append (is_row q i) rows (row_of next q n d) ∙ either _ _ x) h.1,
    All-keeps ids (λ i x. higher i next x) h.2,
  ),
  (next, HasRow-last (row_of next q n d) rows, fresh ids h.2),
)
  where
    either : (a b : Bool) → a ≡ true → (a || b) ≡ true
    either a b x = ground arith

    higher : (a b : ℕ) → a < b → a < b + 1
    higher a b x = omega arith

    apart : (a b : ℕ) → a < b → (c : Bool) → c ≡ false → (a == b || c) ≡ false
    apart a b l c x = ground arith

    fresh : (ids : List ℕ) → All (λ i. i < next) ids → mem_id next ids ≡ false
    fresh [] x = refl
    fresh (i ∷ ids) x = apart i next x.0 (mem_id next ids) (fresh ids x.1)

updated-IsRound :
    (q id n : ℕ) (d : Draft) (ids : List ℕ) (rows : List Parameter) (next : ℕ)
    → IsReady q (id ∷ ids) (rows, next)
    → IsRound q n d ids (map_row q id (λ p. row_of p.id p.query_id n d) rows, next)
updated-IsRound q id n d ids rows next h = (
  (
    right _ _ h.0,
    All-keeps ids (λ i x. any-map_row q id i (λ p. row_of p.id p.query_id n d) rows (λ p. refl) ∙ x)
        h.1.1,
    h.2.1,
  ),
  (id, HasRow-updated q id n d rows h.1.0, absent _ _ h.0),
)
  where
    right : (a b : Bool) → (not a && b) ≡ true → b ≡ true
    right a b x = ground arith

    absent : (a b : Bool) → (not a && b) ≡ true → a ≡ false
    absent a b x = ground arith

store_draft-IsRound :
    (q n : ℕ) (d : Draft) (o : Option ℕ) (ids : List ℕ) (r r' : Rows)
    → IsReady q (with_id o ids) r
    → store_draft q n d o r ≡ some r'
    → IsRound q n d ids r'
store_draft-IsRound q n d none ids (rows, next) r' ready h =
    elim (Bool-cases (name_taken q next d.name rows)) [
      | inl clash ↦ absurd (differ (rw clash at h))
      | inr free ↦
          subst (IsRound q n d ids) (same (rw free at h))
            (inserted-IsRound q n d ids rows next ready)
    ]
  where
    differ : none ≡ some r' → ⊥
    differ x = cc

    same : {a b : Rows} → some a ≡ some b → a ≡ b
    same x = cc
store_draft-IsRound q n d (some id) ids (rows, next) r' ready h =
    let f = λ (p : Parameter). row_of p.id p.query_id n d in
    let (rows', is, e) = stored_at-some next (update_parameter_row q id d.name f rows) r' h in
    subst (IsRound q n d ids)
      (ap (λ (x : List Parameter). (x, next)) (updated-rows q id d.name f rows rows' is) ∙ e)
      (updated-IsRound q id n d ids rows next ready)

-- A row whose id no later draft has is kept.
store_draft-HasRow :
    (q n : ℕ) (d : Draft) (o : Option ℕ) (ids : List ℕ) (p : Parameter) (r r' : Rows)
    → mem_id p.id (with_id o ids) ≡ false
    → HasRow p r.0
    → store_draft q n d o r ≡ some r'
    → HasRow p r'.0 × (mem_id p.id ids ≡ false)
store_draft-HasRow q n d none ids p (rows, next) r' absent has h =
    elim (Bool-cases (name_taken q next d.name rows)) [
      | inl clash ↦ absurd (differ (rw clash at h))
      | inr free ↦ (
        subst (λ (x : Rows). HasRow p x.0) (same (rw free at h))
            (HasRow-append p (row_of next q n d) rows has),
        absent,
      )
    ]
  where
    differ : none ≡ some r' → ⊥
    differ x = cc

    same : {a b : Rows} → some a ≡ some b → a ≡ b
    same x = cc
store_draft-HasRow q n d (some id) ids p (rows, next) r' absent has h =
    let f = λ (p : Parameter). row_of p.id p.query_id n d in
    let (rows', is, e) = stored_at-some next (update_parameter_row q id d.name f rows) r' h in
    (
      subst (λ (x : Rows). HasRow p x.0)
          (ap (λ (x : List Parameter). (x, next)) (updated-rows q id d.name f rows rows' is) ∙ e)
          (HasRow-map_row q id f p rows (other id p.id _ _ absent) has),
      rest _ _ absent,
    )
  where
    rest : (a b : Bool) → (a || b) ≡ false → b ≡ false
    rest a b x = ground arith

    other : (a b : ℕ) (c e : Bool) → (a == b || c) ≡ false → (b == a && e) ≡ false
    other a b c e x = ground arith

store_all-HasRow :
    (q n : ℕ) (ds : List Draft) (p : Parameter) (r r' : Rows)
    → mem_id p.id (retained_ids ds) ≡ false
    → HasRow p r.0
    → store_all q n ds r ≡ some r'
    → HasRow p r'.0
unfolding store_all
store_all-HasRow q n [] p r r' absent has h = subst (λ (x : Rows). HasRow p x.0) (same h) has
  where
    same : some r ≡ some r' → r ≡ r'
    same x = cc
store_all-HasRow q n (d ∷ ds) p r r' absent has h =
    let (mid, first, later) = and_then-some (store_draft q n d d.id r) _ r' h in
    let (has', absent') =
      store_draft-HasRow q n d d.id (retained_ids ds) p r mid absent has first in
    store_all-HasRow q (n + 1) ds p mid r' absent' has' later

pub store_all-IsStored :
    (q n : ℕ) (ds : List Draft) (r r' : Rows)
    → IsReady q (retained_ids ds) r
    → store_all q n ds r ≡ some r'
    → IsStored q n ds r'.0
unfolding store_all
store_all-IsStored q n [] r r' ready h = tt
store_all-IsStored q n (d ∷ ds) r r' ready h =
    let (mid, first, later) = and_then-some (store_draft q n d d.id r) _ r' h in
    let (ready', found) = store_draft-IsRound q n d d.id (retained_ids ds) r mid ready first in
    let (id, has, absent) = found in
    (
      (id, store_all-HasRow q (n + 1) ds (row_of id q n d) mid r' absent has later),
      store_all-IsStored q (n + 1) ds mid r' ready' later,
    )
