-- ===== src/Catalog/Save/Others.antt =====
-- The parameters of the other routes, through each step of a save.
use fire2api.Base.{
  ℕ, ◌+◌, ◌≡◌, inl, inr, refl, sym, ap, ◌∙◌, Bool, true, false, ◌&&◌, not, List, [], ◌∷◌, ◌++◌,
  Option, none, some, ◌==◌, nat_eq, list_eq, pair_eq, keep_if, any, arith, Bool-cases, ==-refl,
}
use fire2api.Text.{Text}
use fire2api.Catalog.{Parameter}
use fire2api.Catalog.Drafts.{Draft}
use fire2api.Catalog.Save.{
  row_of, is_row, name_taken, map_row, update_parameter_row, with_name, bind_rows, rename_all, Rows,
  stored_at, store_draft, and_then, store_all, mem_id, without_removed,
}

-- The rows of the other routes.
abbrev pub others : ℕ → List Parameter → List Parameter
others q = keep_if (λ p. not (p.query_id == q))

-- A change of a row keeps its route.
abbrev pub Keeps : (Parameter → Parameter) → Type 0
Keeps f = (p : Parameter) → (f p).query_id ≡ p.query_id

pub others-map_row :
    (q id : ℕ) (f : Parameter → Parameter) (rows : List Parameter)
    → Keeps f
    → others q (map_row q id f rows) ≡ others q rows
others-map_row q id f [] k = refl
others-map_row q id f (p ∷ ps) k = elim (Bool-cases (p.query_id == q)) [
  | inr other ↦
      rw (no_row p.id id (p.query_id == q) other)
        (rw other (ap (◌∷◌ p) (others-map_row q id f ps k)))
  | inl own ↦ elim (Bool-cases (is_row q id p)) [
    | inl row ↦ rw row (rw (ap (λ n. n == q) (k p) ∙ own) (rw own (others-map_row q id f ps k)))
    | inr not_row ↦ rw not_row (rw own (others-map_row q id f ps k))
  ]
]
  where
    no_row : (a b : ℕ) (c : Bool) → c ≡ false → (a == b && c) ≡ false
    no_row a b c h = ground arith

pub others-append :
    (q : ℕ) (rows : List Parameter) (p : Parameter)
    → (p.query_id == q) ≡ true
    → others q (rows ++ p ∷ []) ≡ others q rows
others-append q [] p h = rw h refl
others-append q (r ∷ rows) p h = elim (Bool-cases (r.query_id == q)) [
  | inl own ↦ rw own (others-append q rows p h)
  | inr other ↦ rw other (ap (◌∷◌ r) (others-append q rows p h))
]

pub others-without_removed :
    (q : ℕ) (ids : List ℕ) (rows : List Parameter)
    → others q (without_removed q ids rows) ≡ others q rows
others-without_removed q ids [] = refl
others-without_removed q ids (p ∷ rows) = elim (Bool-cases (p.query_id == q)) [
  | inr other ↦ rw other (rw other (ap (◌∷◌ p) (others-without_removed q ids rows)))
  | inl own ↦ elim (Bool-cases (mem_id p.id ids)) [
    | inl kept ↦ rw own (rw kept (rw own (others-without_removed q ids rows)))
    | inr gone ↦ rw own (rw gone (others-without_removed q ids rows))
  ]
]

pub others-update :
    (q id : ℕ) (name : Text) (f : Parameter → Parameter) (rows rows' : List Parameter)
    → Keeps f
    → update_parameter_row q id name f rows ≡ some rows'
    → others q rows' ≡ others q rows
others-update q id name f rows rows' k h =
    elim (Bool-cases (any (is_row q id) rows && name_taken q id name rows)) [
      | inl clash ↦ absurd (differ (rw clash at h))
      | inr free ↦ sym (ap (others q) (same (rw free at h))) ∙ others-map_row q id f rows k
    ]
  where
    differ : none ≡ some rows' → ⊥
    differ x = cc

    same : {a b : List Parameter} → some a ≡ some b → a ≡ b
    same x = cc

pub bind_rows-some :
    (o : Option (List Parameter)) (f : List Parameter → Option (List Parameter))
    (r : List Parameter)
    → bind_rows o f ≡ some r
    → (rows : List Parameter) × (o ≡ some rows) × (f rows ≡ some r)
bind_rows-some none f r h = cc
bind_rows-some (some rows) f r h = (rows, refl, h)

pub and_then-some :
    (o : Option Rows) (f : Rows → Option Rows) (r : Rows)
    → and_then o f ≡ some r
    → (rows : Rows) × (o ≡ some rows) × (f rows ≡ some r)
and_then-some none f r h = absurd (differ h)
  where
    differ : none ≡ some r → ⊥
    differ x = cc
and_then-some (some rows) f r h = (rows, refl, h)

pub stored_at-some :
    (next : ℕ) (o : Option (List Parameter)) (r : Rows)
    → stored_at next o ≡ some r
    → (rows : List Parameter) × (o ≡ some rows) × ((rows, next) ≡ r)
stored_at-some next none r h = absurd (differ h)
  where
    differ : none ≡ some r → ⊥
    differ x = cc
stored_at-some next (some rows) r h = (rows, refl, same h)
  where
    same : some (rows, next) ≡ some r → (rows, next) ≡ r
    same x = cc

pub others-rename_all :
    (temporary : ℕ → Text) (q : ℕ) (ids : List ℕ) (rows rows' : List Parameter)
    → rename_all temporary q ids rows ≡ some rows'
    → others q rows' ≡ others q rows
unfolding rename_all
others-rename_all temporary q [] rows rows' h = ap (others q) (sym (same h))
  where
    same : some rows ≡ some rows' → rows ≡ rows'
    same x = cc
others-rename_all temporary q (id ∷ ids) rows rows' h =
    let (mid, first, later) =
      bind_rows-some (update_parameter_row q id (temporary id) (with_name (temporary id)) rows) _
        rows' h in
    others-rename_all temporary q ids mid rows' later
    ∙ others-update q id (temporary id) (with_name (temporary id)) rows mid (λ p. refl) first

pub others-store_draft :
    (q position : ℕ) (d : Draft) (o : Option ℕ) (r r' : Rows)
    → store_draft q position d o r ≡ some r'
    → others q r'.0 ≡ others q r.0
others-store_draft q position d none (rows, next) r' h =
    elim (Bool-cases (name_taken q next d.name rows)) [
      | inl clash ↦ absurd (differ (rw clash at h))
      | inr free ↦
          ap (λ (x : Rows). others q x.0) (sym (same (rw free at h)))
          ∙ others-append q rows (row_of next q position d) (==-refl q)
    ]
  where
    differ : none ≡ some r' → ⊥
    differ x = cc

    same : {a b : Rows} → some a ≡ some b → a ≡ b
    same x = cc
others-store_draft q position d (some id) (rows, next) r' h =
    let (rows', is, e) = stored_at-some next _ r' h in
    ap (λ (x : Rows). others q x.0) (sym e)
    ∙ others-update q id d.name (λ p. row_of p.id p.query_id position d) rows rows' (λ p. refl) is

pub others-store_all :
    (q position : ℕ) (ds : List Draft) (r r' : Rows)
    → store_all q position ds r ≡ some r'
    → others q r'.0 ≡ others q r.0
unfolding store_all
others-store_all q position [] r r' h = ap (λ (x : Rows). others q x.0) (sym (same h))
  where
    same : some r ≡ some r' → r ≡ r'
    same x = cc
others-store_all q position (d ∷ ds) r r' h =
    let (mid, first, later) = and_then-some (store_draft q position d d.id r) _ r' h in
    others-store_all q (position + 1) ds mid r' later
    ∙ others-store_draft q position d d.id r mid first
