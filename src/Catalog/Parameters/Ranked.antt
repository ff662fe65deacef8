-- ===== src/Catalog/Parameters/Ranked.antt =====
-- The positions after `reorder_parameters`.
use fire2api.Base.{
  ℕ, ◌+◌, ◌≡◌, ◌⊎◌, inl, inr, refl, sym, ap, ◌∙◌, Bool, true, false, ◌&&◌, ◌||◌, not, List, [], ◌∷◌,
  ◌==◌, nat_eq, if◌then◌else◌, all, All, arith, Bool-cases, nat_beq_iff, map,
}
use fire2api.Catalog.{Parameter, Tables}
use fire2api.Catalog.Save.{mem_id, distinct_ids, existing_ids}
use fire2api.Catalog.Parameters.{
  replace_parameter, set_positions, is_none_given, same_ids, reorder_parameters,
}

-- The parameter with the place of its id among the ids, counted from n; one that is not among them
-- stays.
abbrev pub ranked : ℕ → List ℕ → Parameter → Parameter
ranked n [] p = p
ranked n (id ∷ ids) p = if p.id == id then record p { position = n } else ranked (n + 1) ids p

-- What a call does, by its answer.
abbrev pub IsReordered : Tables → ℕ → List ℕ → Tables × Bool → Type 0
IsReordered t q ids (t', true) =
    (t' ≡ record t { parameters = map (ranked 1 ids) t.parameters })
    × All (λ p. ((p.query_id == q) ≡ false) ⊎ (mem_id p.id ids ≡ true)) t.parameters
IsReordered t q ids (t', false) = t' ≡ t

ranked-other : (n : ℕ) (ids : List ℕ) (p : Parameter) → mem_id p.id ids ≡ false → ranked n ids p ≡ p
ranked-other n [] p h = refl
ranked-other n (id ∷ ids) p h =
    rw (differ (id == p.id) (p.id == id) (beq_sym id p.id) h)
      (ranked-other (n + 1) ids p (rest (id == p.id) h))
  where
    beq_sym : (a b : ℕ) → (a == b) ≡ (b == a)
    beq_sym a b = ground arith

    differ : (a b : Bool) → a ≡ b → (a || mem_id p.id ids) ≡ false → b ≡ false
    differ a b e x = ground arith

    rest : (a : Bool) → (a || mem_id p.id ids) ≡ false → mem_id p.id ids ≡ false
    rest a x = ground arith

set_positions-ranked :
    (n : ℕ) (ids : List ℕ) (rows : List Parameter)
    → distinct_ids ids ≡ true
    → set_positions n ids rows ≡ map (ranked n ids) rows
unfolding set_positions
set_positions-ranked n [] rows h = sym (same rows)
  where
    same : (rows : List Parameter) → map (ranked n []) rows ≡ rows
    same [] = refl
    same (p ∷ ps) = ap (◌∷◌ p) (same ps)
set_positions-ranked n (id ∷ ids) rows h =
    set_positions-ranked (n + 1) ids (replace_parameter id (λ p. record p { position = n }) rows)
      (later _ _ h)
    ∙ step rows
  where
    later : (a b : Bool) → (not a && b) ≡ true → b ≡ true
    later a b x = ground arith

    fresh : (a b : Bool) → (not a && b) ≡ true → a ≡ false
    fresh a b x = ground arith

    step :
        (rows : List Parameter)
        → map (ranked (n + 1) ids) (replace_parameter id (λ p. record p { position = n }) rows)
          ≡ map (ranked n (id ∷ ids)) rows
    step [] = refl
    step (p ∷ ps) = elim (Bool-cases (p.id == id)) [
      | inr other ↦ rw other (ap (◌∷◌ (ranked (n + 1) ids p)) (step ps))
      | inl own ↦ rw own (
          ap
            (λ (r : Parameter).
              r
              ∷ map (ranked (n + 1) ids) (replace_parameter id (λ p. record p { position = n }) ps))
            (ranked-other (n + 1) ids (record p { position = n })
              (ap (λ i. mem_id i ids) ((nat_beq_iff p.id id).0 own) ∙ fresh _ _ h))
          ∙ ap (◌∷◌ (record p { position = n })) (step ps))
    ]

all_listed :
    (q : ℕ) (ids : List ℕ) (rows : List Parameter)
    → all (λ i. mem_id i ids) (existing_ids q rows) ≡ true
    → All (λ p. ((p.query_id == q) ≡ false) ⊎ (mem_id p.id ids ≡ true)) rows
all_listed q ids [] h = tt
all_listed q ids (p ∷ ps) h = elim (Bool-cases (p.query_id == q)) [
  | inr other ↦ (inl other, all_listed q ids ps (rw other at h))
  | inl own ↦
      let both = two (mem_id p.id ids) _ (rw own at h) in (inr both.0, all_listed q ids ps both.1)
]
  where
    two : (a b : Bool) → (a && b) ≡ true → (a ≡ true) × (b ≡ true)
    two a b x = ground arith

-- An accepted reordering gives each parameter whose id is listed its place in the list, counted from
-- 1, changes nothing else of the tables, and lists every parameter of the route; one that is not
-- accepted changes nothing.
pub reorder_parameters-IsReordered :
    (t : Tables) (q : ℕ) (ids : List ℕ) → IsReordered t q ids (reorder_parameters t q ids)
unfolding reorder_parameters
reorder_parameters-IsReordered t q ids =
    elim (Bool-cases (is_none_given ids || not (distinct_ids ids))) [
      | inl bad ↦ rw bad refl
      | inr good ↦ rw good (elim (Bool-cases (same_ids (existing_ids q t.parameters) ids)) [
        | inr other ↦ rw other refl
        | inl same ↦ rw same (
          ap (λ (rows : List Parameter). record t { parameters = rows })
              (set_positions-ranked 1 ids t.parameters (distinct _ _ good)),
          all_listed q ids t.parameters (first _ _ same),
        )
      ])
    ]
  where
    distinct : (a b : Bool) → (a || not b) ≡ false → b ≡ true
    distinct a b x = ground arith

    first : (a b : Bool) → (a && b) ≡ true → a ≡ true
    first a b x = ground arith
