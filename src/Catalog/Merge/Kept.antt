-- ===== src/Catalog/Merge/Kept.antt =====
-- A merge keeps what the user has entered.
use fire2api.Base.{
  ℕ, ◌+◌, ◌≡◌, inl, inr, refl, ap, List, [], ◌∷◌, ◌++◌, nat_eq, list_eq, any, Bool-cases,
}
use fire2api.Text.{Text, Unicode, upper, mem}
use fire2api.Query.Detect.{Source, path, Detected, names_of, canonical}
use fire2api.Query.Parameters.{is_in}
use fire2api.Catalog.Drafts.{Draft}
use fire2api.Catalog.Merge.{
  Merged, is_named, from_path, change_last, detected_draft, settle, merge_candidate, merge_all,
  canonical_name, numbered, still_suppressed, merge_parameter_drafts,
}

-- The drafts stand first, in order, each as it was but for its source and whether it is required.
abbrev IsKeptBy : List Draft → List Draft → Type 0
IsKeptBy [] es = Unit
IsKeptBy (d ∷ ds) [] = ⊥
IsKeptBy (d ∷ ds) (e ∷ es) =
    (e ≡ record d { source = e.source; required = e.required }) × IsKeptBy ds es

-- So they do in what the editor gets, numbered from n and with canonical names.
abbrev pub IsMerged : Unicode → ℕ → List Draft → List Merged → Type 0
IsMerged u n [] ms = Unit
IsMerged u n (d ∷ ds) [] = ⊥
IsMerged u n (d ∷ ds) (m ∷ ms) =
    (m.draft ≡ record d {
      name = canonical_name u d.name;
      source = m.draft.source;
      required = m.draft.required;
    })
    × (m.position ≡ n)
    × IsMerged u (n + 1) ds ms

IsKeptBy-refl : (ds : List Draft) → IsKeptBy ds ds
IsKeptBy-refl [] = tt
IsKeptBy-refl (d ∷ ds) = (refl, IsKeptBy-refl ds)

IsKeptBy-append : (ds es : List Draft) (d : Draft) → IsKeptBy ds es → IsKeptBy ds (es ++ d ∷ [])
IsKeptBy-append [] es x h = tt
IsKeptBy-append (d ∷ ds) [] x h = absurd h
IsKeptBy-append (d ∷ ds) (e ∷ es) x h = (h.0, IsKeptBy-append ds es x h.1)

module _ (u : Unicode) where
  IsKeptBy-change_last :
      (name : Text) (ds es : List Draft)
      → IsKeptBy ds es
      → IsKeptBy ds (change_last u name from_path es)
  IsKeptBy-change_last name [] es h = tt
  IsKeptBy-change_last name (d ∷ ds) [] h = absurd h
  IsKeptBy-change_last name (d ∷ ds) (e ∷ es) h = elim (Bool-cases (any (is_named u name) es)) [
    | inl later ↦ rw later (h.0, IsKeptBy-change_last name ds es h.1)
    | inr last ↦ rw last (elim (Bool-cases (is_named u name e)) [
      | inl own ↦ rw own (ap from_path h.0, h.1)
      | inr other ↦ rw other h
    ])
  ]

  IsKeptBy-settle :
      (name : Text) (source : Source) (ds es : List Draft)
      → IsKeptBy ds es
      → IsKeptBy ds (settle u name source es)
  IsKeptBy-settle name source ds es h = elim (Bool-cases (is_in path source)) [
    | inl from ↦ rw from (IsKeptBy-change_last name ds es h)
    | inr other ↦ rw other h
  ]

  IsKeptBy-merge_candidate :
      (suppressed : List Text) (name : Text) (source : Source) (ds es : List Draft)
      → IsKeptBy ds es
      → IsKeptBy ds (merge_candidate u suppressed name source es)
  IsKeptBy-merge_candidate suppressed name source ds es h =
      elim (Bool-cases (any (is_named u name) es)) [
        | inl there ↦ rw there (IsKeptBy-settle name source ds es h)
        | inr new ↦ rw new (elim (Bool-cases (mem name suppressed)) [
          | inl passed ↦ rw passed h
          | inr shown ↦ rw shown (
              IsKeptBy-settle name source ds _
                (IsKeptBy-append ds es (detected_draft name source) h))
        ])
      ]

  IsKeptBy-merge_all :
      (suppressed : List Text) (cs : List Detected) (ds es : List Draft)
      → IsKeptBy ds es
      → IsKeptBy ds (merge_all u suppressed cs es)
  unfolding merge_all
  IsKeptBy-merge_all suppressed [] ds es h = h
  IsKeptBy-merge_all suppressed (c ∷ cs) ds es h =
      IsKeptBy-merge_all suppressed cs ds _
        (IsKeptBy-merge_candidate suppressed (upper u c.name) c.source ds es h)

  numbered-IsMerged :
      (active : List Text) (n : ℕ) (ds es : List Draft)
      → IsKeptBy ds es
      → IsMerged u n ds (numbered u active n es)
  unfolding numbered
  numbered-IsMerged active n [] es h = tt
  numbered-IsMerged active n (d ∷ ds) [] h = absurd h
  numbered-IsMerged active n (d ∷ ds) (e ∷ es) h = (
    ap
        (λ (x : Draft). record x {
          name = canonical_name u x.name;
          source = e.source;
          required = e.required;
        })
        h.0,
    refl,
    numbered-IsMerged active (n + 1) ds es h.1,
  )

  -- Whatever was detected or suppressed, the drafts that the user has come first in the result, in
  -- their order and numbered from 1; each keeps its id, type, default, description and rule, and its
  -- name in canonical form.
  pub merge_parameter_drafts-IsMerged :
      (parameters : List Draft) (detected : List Detected) (suppressed : List Text)
      → IsMerged u 1 parameters (merge_parameter_drafts u parameters detected suppressed).0
  unfolding merge_parameter_drafts
  merge_parameter_drafts-IsMerged parameters detected suppressed =
      numbered-IsMerged (canonical u (names_of detected)) 1 parameters _ (
        IsKeptBy-merge_all (still_suppressed u detected suppressed) detected parameters parameters
          (IsKeptBy-refl parameters))
