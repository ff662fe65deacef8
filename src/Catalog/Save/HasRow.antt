-- ===== src/Catalog/Save/HasRow.antt =====
-- The rows of a route through the steps of a save.
use fire2api.Base.{
  ℕ, ◌+◌, ◌≡◌, ◌<◌, ◌⊎◌, inl, inr, refl, sym, ap, ◌∙◌, Bool, true, false, ◌&&◌, ◌||◌, List, [], ◌∷◌,
  ◌++◌, none, some, nat_eq, list_eq, pair_eq, if◌then◌else◌, any, All, arith, Bool-cases,
  nat_beq_iff,
}
use fire2api.Text.{Text}
use fire2api.Catalog.{Parameter}
use fire2api.Catalog.Drafts.{Draft}
use fire2api.Catalog.Save.{
  row_of, is_row, name_taken, map_row, update_parameter_row, Rows, distinct_ids,
}

abbrev pub HasRow : Parameter → List Parameter → Type 0
HasRow p [] = ⊥
HasRow p (r ∷ rows) = (p ≡ r) ⊎ HasRow p rows

-- Each draft is a row of the route, with the position that it has in the list.
abbrev pub IsStored : ℕ → ℕ → List Draft → List Parameter → Type 0
IsStored q n [] rows = Unit
IsStored q n (d ∷ ds) rows = ((id : ℕ) × HasRow (row_of id q n d) rows) × IsStored q (n + 1) ds rows

-- The ids differ, each has a row of the route, and none is given to a new row.
abbrev pub IsReady : ℕ → List ℕ → Rows → Type 0
IsReady q ids (rows, next) =
    (distinct_ids ids ≡ true)
    × All (λ i. any (is_row q i) rows ≡ true) ids
    × All (λ i. i < next) ids

pub HasRow-append :
    (p r : Parameter) (rows : List Parameter) → HasRow p rows → HasRow p (rows ++ r ∷ [])
HasRow-append p r [] h = absurd h
HasRow-append p r (x ∷ rows) (inl e) = inl e
HasRow-append p r (x ∷ rows) (inr h) = inr (HasRow-append p r rows h)

pub HasRow-last : (p : Parameter) (rows : List Parameter) → HasRow p (rows ++ p ∷ [])
HasRow-last p [] = inl refl
HasRow-last p (x ∷ rows) = inr (HasRow-last p rows)

pub HasRow-map_row :
    (q id : ℕ) (f : Parameter → Parameter) (p : Parameter) (rows : List Parameter)
    → is_row q id p ≡ false
    → HasRow p rows
    → HasRow p (map_row q id f rows)
HasRow-map_row q id f p [] other h = absurd h
HasRow-map_row q id f p (x ∷ rows) other (inl e) =
    inl (e ∙ kept (is_row q id x) (sym (ap (is_row q id) e) ∙ other))
  where
    kept : (b : Bool) → b ≡ false → x ≡ (if b then f x else x)
    kept true y = cc
    kept false y = refl
HasRow-map_row q id f p (x ∷ rows) other (inr h) = inr (HasRow-map_row q id f p rows other h)

-- The row of the id gets the draft's values.
pub HasRow-updated :
    (q id n : ℕ) (d : Draft) (rows : List Parameter)
    → any (is_row q id) rows ≡ true
    → HasRow (row_of id q n d) (map_row q id (λ p. row_of p.id p.query_id n d) rows)
HasRow-updated q id n d [] h = absurd (apart h)
  where
    apart : false ≡ true → ⊥
    apart x = cc
HasRow-updated q id n d (x ∷ rows) h = go (is_row q id x) refl (HasRow-updated q id n d rows)
  where
    left : (a b : Bool) → (a && b) ≡ true → a ≡ true
    left a b y = ground arith

    right : (a b : Bool) → (a && b) ≡ true → b ≡ true
    right a b y = ground arith

    rest : (a b : Bool) → a ≡ false → (a || b) ≡ true → b ≡ true
    rest a b y z = ground arith

    go :
        (b : Bool)
        → is_row q id x ≡ b
        → (any (is_row q id) rows ≡ true
            → HasRow (row_of id q n d) (map_row q id (λ p. row_of p.id p.query_id n d) rows))
        → HasRow (row_of id q n d) (
            (if b then row_of x.id x.query_id n d else x)
            ∷ map_row q id (λ p. row_of p.id p.query_id n d) rows)
    go true e ih = inl (
        ap (λ i. row_of i q n d) (sym ((nat_beq_iff x.id id).0 (left _ _ e)))
        ∙ ap (λ j. row_of x.id j n d) (sym ((nat_beq_iff x.query_id q).0 (right _ _ e))))
    go false e ih = inr (ih (rest _ _ e h))

-- A row of an id stays one.
pub any-map_row :
    (q id i : ℕ) (f : Parameter → Parameter) (rows : List Parameter)
    → ((p : Parameter) → is_row q i (f p) ≡ is_row q i p)
    → any (is_row q i) (map_row q id f rows) ≡ any (is_row q i) rows
any-map_row q id i f [] k = refl
any-map_row q id i f (x ∷ rows) k =
    ap (λ b. b || any (is_row q i) (map_row q id f rows)) (same (is_row q id x))
    ∙ ap (λ b. is_row q i x || b) (any-map_row q id i f rows k)
  where
    same : (b : Bool) → is_row q i (if b then f x else x) ≡ is_row q i x
    same true = k x
    same false = refl

pub All-keeps : {P Q : ℕ → Type 0} (ids : List ℕ) → ((i : ℕ) → P i → Q i) → All P ids → All Q ids
All-keeps [] k h = tt
All-keeps (i ∷ ids) k h = (k i h.0, All-keeps ids k h.1)

pub updated-rows :
    (q id : ℕ) (name : Text) (f : Parameter → Parameter) (rows rows' : List Parameter)
    → update_parameter_row q id name f rows ≡ some rows'
    → map_row q id f rows ≡ rows'
updated-rows q id name f rows rows' h =
    elim (Bool-cases (any (is_row q id) rows && name_taken q id name rows)) [
      | inl clash ↦ absurd (differ (rw clash at h))
      | inr free ↦ same (rw free at h)
    ]
  where
    differ : none ≡ some rows' → ⊥
    differ x = cc

    same : {a b : List Parameter} → some a ≡ some b → a ≡ b
    same x = cc
