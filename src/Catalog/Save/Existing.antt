-- ===== src/Catalog/Save/Existing.antt =====
-- The ids that a save retains have rows to the end.
use fire2api.Base.{
  ℕ, ◌≡◌, ◌<◌, inl, inr, refl, sym, ap, ◌∙◌, Bool, true, false, ◌&&◌, ◌||◌, not, List, [], ◌∷◌,
  some, ◌==◌, nat_eq, list_eq, pair_eq, any, all, All, arith, Bool-cases, nat_beq_iff, ==-refl,
}
use fire2api.Text.{Text}
use fire2api.Catalog.{Parameter}
use fire2api.Catalog.Save.{
  is_row, update_parameter_row, with_name, rename_all, mem_id, existing_ids, without_removed,
}
use fire2api.Catalog.Save.Others.{bind_rows-some}
use fire2api.Catalog.Save.HasRow.{any-map_row, All-keeps, updated-rows}

pub existing-any :
    (q i : ℕ) (rows : List Parameter)
    → mem_id i (existing_ids q rows) ≡ true
    → any (is_row q i) rows ≡ true
existing-any q i [] h = h
existing-any q i (x ∷ rows) h = elim (Bool-cases (x.query_id == q)) [
  | inr other ↦ later _ _ (existing-any q i rows (rw other at h))
  | inl own ↦ go own (existing-any q i rows) (x.id == i) refl (rw own at h)
]
  where
    later : (a b : Bool) → b ≡ true → (a || b) ≡ true
    later a b y = ground arith

    here : (a b c : Bool) → a ≡ true → b ≡ true → ((a && b) || c) ≡ true
    here a b c y z = ground arith

    go :
        (x.query_id == q) ≡ true
        → (mem_id i (existing_ids q rows) ≡ true → any (is_row q i) rows ≡ true)
        → (b : Bool) → (x.id == i) ≡ b
        → (b || mem_id i (existing_ids q rows)) ≡ true
        → any (is_row q i) (x ∷ rows) ≡ true
    go own ih true e y = here _ _ _ e own
    go own ih false e y = later _ _ (ih y)

pub existing-below :
    (q i next : ℕ) (rows : List Parameter)
    → All (λ p. p.id < next) rows
    → mem_id i (existing_ids q rows) ≡ true
    → i < next
existing-below q i next [] x h = absurd (apart h)
  where
    apart : false ≡ true → ⊥
    apart y = cc
existing-below q i next (x ∷ rows) below h = elim (Bool-cases (x.query_id == q)) [
  | inr other ↦ existing-below q i next rows below.1 (rw other at h)
  | inl own ↦ go (existing-below q i next rows below.1) (x.id == i) refl (rw own at h)
]
  where
    here : (a b c : ℕ) → (a == b) ≡ true → a < c → b < c
    here a b c y z = ground arith

    go :
        (mem_id i (existing_ids q rows) ≡ true → i < next)
        → (b : Bool) → (x.id == i) ≡ b
        → (b || mem_id i (existing_ids q rows)) ≡ true
        → i < next
    go ih true e y = here x.id i next e below.0
    go ih false e y = ih y

pub removed-any :
    (q i : ℕ) (ids : List ℕ) (rows : List Parameter)
    → mem_id i ids ≡ true
    → any (is_row q i) rows ≡ true
    → any (is_row q i) (without_removed q ids rows) ≡ true
removed-any q i ids [] m h = h
removed-any q i ids (x ∷ rows) m h = elim (Bool-cases (not (x.query_id == q) || mem_id x.id ids)) [
  | inl kept ↦ rw kept (go (removed-any q i ids rows m) (is_row q i x) h)
  | inr gone ↦
      rw gone
        (removed-any q i ids rows m (rest _ _ (apart (x.id == i) (x.query_id == q) refl gone) h))
]
  where
    rest : (a b : Bool) → a ≡ false → (a || b) ≡ true → b ≡ true
    rest a b y z = ground arith

    go :
        (any (is_row q i) rows ≡ true → any (is_row q i) (without_removed q ids rows) ≡ true)
        → (b : Bool) → (b || any (is_row q i) rows) ≡ true
        → (b || any (is_row q i) (without_removed q ids rows)) ≡ true
    go ih true y = refl
    go ih false y = ih y

    clash : (b : Bool) → b ≡ true → (not true || b) ≡ false → ⊥
    clash b y z = ground arith

    apart : (a b : Bool) → (x.id == i) ≡ a → (not b || mem_id x.id ids) ≡ false → (a && b) ≡ false
    apart false b e y = refl
    apart true false e y = refl
    apart true true e y =
        absurd (clash (mem_id x.id ids) (ap (λ j. mem_id j ids) ((nat_beq_iff x.id i).0 e) ∙ m) y)

pub renamed-any :
    (temporary : ℕ → Text) (q i : ℕ) (ids : List ℕ) (rows rows' : List Parameter)
    → rename_all temporary q ids rows ≡ some rows'
    → any (is_row q i) rows' ≡ any (is_row q i) rows
unfolding rename_all
renamed-any temporary q i [] rows rows' h = ap (any (is_row q i)) (sym (same h))
  where
    same : some rows ≡ some rows' → rows ≡ rows'
    same x = cc
renamed-any temporary q i (id ∷ ids) rows rows' h =
    let f = with_name (temporary id) in
    let (mid, first, later) =
      bind_rows-some (update_parameter_row q id (temporary id) f rows) _ rows' h in
    renamed-any temporary q i ids mid rows' later
    ∙ ap (any (is_row q i)) (sym (updated-rows q id (temporary id) f rows mid first))
    ∙ any-map_row q id i f rows (λ p. refl)

pub all-All : (f : ℕ → Bool) (ids : List ℕ) → all f ids ≡ true → All (λ i. f i ≡ true) ids
all-All f [] h = tt
all-All f (i ∷ ids) h = (left _ _ h, all-All f ids (right _ _ h))
  where
    left : (a b : Bool) → (a && b) ≡ true → a ≡ true
    left a b x = ground arith

    right : (a b : Bool) → (a && b) ≡ true → b ≡ true
    right a b x = ground arith

-- The ids of a list are among its ids.
pub mem_id_self : (ids : List ℕ) → All (λ i. mem_id i ids ≡ true) ids
mem_id_self [] = tt
mem_id_self (j ∷ ids) = (left _ _ (==-refl j), All-keeps ids (λ i x. right _ _ x) (mem_id_self ids))
  where
    left : (a b : Bool) → a ≡ true → (a || b) ≡ true
    left a b x = ground arith

    right : (a b : Bool) → b ≡ true → (a || b) ≡ true
    right a b x = ground arith

pub All-both :
    {P Q S : ℕ → Type 0} (ids : List ℕ)
    → ((i : ℕ) → P i → Q i → S i)
    → All P ids
    → All Q ids
    → All S ids
All-both [] k x y = tt
All-both (i ∷ ids) k x y = (k i x.0 y.0, All-both ids k x.1 y.1)
