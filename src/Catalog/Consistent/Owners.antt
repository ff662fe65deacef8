-- ===== src/Catalog/Consistent/Owners.antt =====
-- The parameters of routes that are there, through the operations that write parameters.
use mathlib.Core.Path.{subst}
use fire2api.Base.{
  ℕ, ◌+◌, ◌≡◌, inl, inr, refl, ap, ◌∙◌, true, ◌&&◌, ◌||◌, not, List, [], ◌∷◌, Option, none, some,
  ◌==◌, nat_eq, list_eq, pair_eq, All, All-append, Bool-cases, nat_beq_iff,
}
use fire2api.Text.{Unicode, upper}
use fire2api.Query.Detect.{Detected, path}
use fire2api.Query.Parameters.{is_in}
use fire2api.Catalog.{Route, Parameter, has_id}
use fire2api.Catalog.Save.{name_taken, map_row, is_row}
use fire2api.Catalog.Save.Others.{others, Keeps}
use fire2api.Catalog.Parameters.{replace_parameter, set_positions}
use fire2api.Catalog.Sync.{Progress, sync_candidate, sync_candidates, existing_row, go_on, as_path}
use fire2api.Catalog.Consistent.{IsOwned}

module _ (qs : List Route) where
  pub All-replace_parameter :
      (id : ℕ) (f : Parameter → Parameter) (rows : List Parameter)
      → Keeps f
      → All (IsOwned qs) rows
      → All (IsOwned qs) (replace_parameter id f rows)
  All-replace_parameter id f [] k h = tt
  All-replace_parameter id f (p ∷ ps) k h = elim (Bool-cases (p.id == id)) [
    | inl own ↦ rw own (ap (λ n. has_id n qs) (k p) ∙ h.0, All-replace_parameter id f ps k h.1)
    | inr other ↦ rw other (h.0, All-replace_parameter id f ps k h.1)
  ]

  pub All-map_row :
      (q id : ℕ) (f : Parameter → Parameter) (rows : List Parameter)
      → Keeps f
      → All (IsOwned qs) rows
      → All (IsOwned qs) (map_row q id f rows)
  All-map_row q id f [] k h = tt
  All-map_row q id f (p ∷ ps) k h = elim (Bool-cases (is_row q id p)) [
    | inl own ↦ rw own (ap (λ n. has_id n qs) (k p) ∙ h.0, All-map_row q id f ps k h.1)
    | inr other ↦ rw other (h.0, All-map_row q id f ps k h.1)
  ]

  pub All-set_positions :
      (n : ℕ) (ids : List ℕ) (rows : List Parameter)
      → All (IsOwned qs) rows
      → All (IsOwned qs) (set_positions n ids rows)
  unfolding set_positions
  All-set_positions n [] rows h = h
  All-set_positions n (id ∷ ids) rows h =
      All-set_positions (n + 1) ids _
        (All-replace_parameter id (λ p. record p { position = n }) rows (λ p. refl) h)

  -- Owned rows of the other routes, and a route that is there, own all rows.
  pub All-others :
      (q : ℕ) (rows : List Parameter)
      → has_id q qs ≡ true
      → All (IsOwned qs) (others q rows)
      → All (IsOwned qs) rows
  All-others q [] there h = tt
  All-others q (p ∷ ps) there h = elim (Bool-cases (p.query_id == q)) [
    | inl own ↦ (
      ap (λ n. has_id n qs) ((nat_beq_iff p.query_id q).0 own) ∙ there,
      All-others q ps there (rw own at h),
    )
    | inr other ↦ let both = rw other at h in (both.0, All-others q ps there both.1)
  ]

  sync_candidate-IsOwned :
      (q : ℕ) (c : Detected) (o : Option Parameter) (s s' : Progress)
      → has_id q qs ≡ true
      → All (IsOwned qs) s.rows
      → sync_candidate q c o s ≡ some s'
      → All (IsOwned qs) s'.rows
  sync_candidate-IsOwned q c none s s' there h e =
      elim (Bool-cases (name_taken q s.next c.name s.rows)) [
        | inl clash ↦ absurd (differ (rw clash at e))
        | inr free ↦
            subst (λ (x : Progress). All (IsOwned qs) x.rows) (same (rw free at e))
              (All-append (IsOwned qs) s.rows _ h (there, tt))
      ]
    where
      differ : none ≡ some s' → ⊥
      differ x = cc

      same : {a b : Progress} → some a ≡ some b → a ≡ b
      same x = cc
  sync_candidate-IsOwned q c (some p) s s' there h e =
      elim (Bool-cases (
        is_in path c.source
        && (not (is_in path p.definition.place) || not p.definition.required))) [
          | inr still ↦ subst (λ (x : Progress). All (IsOwned qs) x.rows) (same (rw still at e)) h
          | inl moved ↦
              subst (λ (x : Progress). All (IsOwned qs) x.rows) (same (rw moved at e))
                (All-map_row q p.id as_path s.rows (λ r. refl) h)
        ]
    where
      same : {a b : Progress} → some a ≡ some b → a ≡ b
      same x = cc

  go_on-some :
      (o : Option Progress) (f : Progress → Option Progress) (r : Progress)
      → go_on o f ≡ some r
      → (s : Progress) × (o ≡ some s) × (f s ≡ some r)
  go_on-some none f r h = absurd (differ h)
    where
      differ : none ≡ some r → ⊥
      differ x = cc
  go_on-some (some s) f r h = (s, refl, h)

  pub sync_candidates-IsOwned :
      (u : Unicode) (q : ℕ) (existing : List Parameter) (cs : List Detected) (s s' : Progress)
      → has_id q qs ≡ true
      → All (IsOwned qs) s.rows
      → sync_candidates u q existing cs s ≡ some s'
      → All (IsOwned qs) s'.rows
  unfolding sync_candidates
  sync_candidates-IsOwned u q existing [] s s' there h e =
      subst (λ (x : Progress). All (IsOwned qs) x.rows) (same e) h
    where
      same : {a b : Progress} → some a ≡ some b → a ≡ b
      same x = cc
  sync_candidates-IsOwned u q existing (c ∷ cs) s s' there h e =
      let o = existing_row u (upper u c.name) existing in
      let (mid, first, later) =
        go_on-some (sync_candidate q c o s) (sync_candidates u q existing cs) s' e in
      sync_candidates-IsOwned u q existing cs mid s' there
        (sync_candidate-IsOwned q c o s mid there h first) later
