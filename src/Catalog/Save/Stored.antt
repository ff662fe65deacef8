-- ===== src/Catalog/Save/Stored.antt =====
-- A save stores every parameter that it is given.
use mathlib.Core.Path.{subst}
use fire2api.Base.{
  ℕ, ◌≡◌, ◌<◌, inl, inr, refl, ◌∙◌, Bool, true, false, ◌&&◌, List, Option, none, some, nat_eq,
  list_eq, pair_eq, if◌then◌else◌, all, All, Bool-cases,
}
use fire2api.Text.{Text, Unicode, upper}
use fire2api.Query.Convert.{Python}
use fire2api.Catalog.{
  Parameter, Tables, RouteData, insert_route, update_route, has_key, has_id, has_other, key_of,
  new_route, update_rows, updated,
}
use fire2api.Catalog.Routes.{normalize_route_path}
use fire2api.Catalog.Drafts.{Draft, Problem, validate_parameter_configuration}
use fire2api.Catalog.Save.{
  Saved, saved, rejected, not_found, not_of_route, integrity, rename_all, Rows, store_all,
  retained_ids, mem_id, distinct_ids, existing_ids, without_removed, canonical_drafts, commit,
  store_snapshot, save_parameters, after_insert, after_update, save_checked,
  save_query_configuration,
}
use fire2api.Catalog.Save.Others.{and_then-some, stored_at-some}
use fire2api.Catalog.Save.HasRow.{IsStored, IsReady, All-keeps}
use fire2api.Catalog.Save.Columns.{IsListed, IsStored-IsListed}
use fire2api.Catalog.Save.Rounds.{store_all-IsStored}
use fire2api.Catalog.Save.Existing.{
  All-both, all-All, existing-any, existing-below, mem_id_self, removed-any, renamed-any,
}

abbrev AllStored : List Draft → Tables × Saved → Type 0
AllStored ds (t, saved q) = IsStored q 1 ds t.parameters
AllStored ds (t, _) = Unit

-- Where a save ends with the route `q`: each draft has its row of that route, from position 1 on.
abbrev pub IsSaved : Unicode → List Draft → Tables × Saved → Type 0
IsSaved u ds (t, saved q) = IsListed u q 1 ds t.parameters
IsSaved u ds (t, _) = Unit

AllStored-IsSaved :
    (u : Unicode) (ds : List Draft) (r : Tables × Saved)
    → AllStored (canonical_drafts u ds) r
    → IsSaved u ds r
AllStored-IsSaved u ds (t, saved q) h = IsStored-IsListed u q 1 ds t.parameters h
AllStored-IsSaved u ds (t, rejected p) h = tt
AllStored-IsSaved u ds (t, not_found) h = tt
AllStored-IsSaved u ds (t, not_of_route) h = tt
AllStored-IsSaved u ds (t, integrity) h = tt

module _ (temporary : ℕ → Text) where
  store_snapshot-IsStored :
      (q : ℕ) (ds : List Draft) (rows : List Parameter) (next : ℕ) (r : Rows)
      → All (λ p. p.id < next) rows
      → distinct_ids (retained_ids ds) ≡ true
      → all (λ i. mem_id i (existing_ids q rows)) (retained_ids ds) ≡ true
      → store_snapshot temporary q ds (rows, next) ≡ some r
      → IsStored q 1 ds r.0
  store_snapshot-IsStored q ds rows next r below distinct existing h =
      let ids = retained_ids ds in
      let (mid, renamed, stored) = and_then-some _ (store_all q 1 ds) r h in
      let (rows', is, e) =
        stored_at-some next (rename_all temporary q ids (without_removed q ids rows)) mid renamed in
      let there = all-All (λ i. mem_id i (existing_ids q rows)) ids existing in
      store_all-IsStored q 1 ds mid r
        (subst (IsReady q ids) e (
          distinct,
          All-both ids
              (λ i x y.
                renamed-any temporary q i ids (without_removed q ids rows) rows' is
                ∙ removed-any q i ids rows y (existing-any q i rows x))
              there (mem_id_self ids),
          All-keeps ids (λ i x. existing-below q i next rows below x) there,
        ))
        stored

  save_parameters-AllStored :
      (t t' : Tables) (q : ℕ) (ds : List Draft)
      → All (λ p. p.id < t'.next_parameter) t'.parameters
      → AllStored ds (save_parameters temporary t t' q ds)
  save_parameters-AllStored t t' q ds below =
      go (distinct_ids (retained_ids ds))
        (all (λ id. mem_id id (existing_ids q t'.parameters)) (retained_ids ds)) refl refl
    where
      committed :
          (o : Option Rows)
          → distinct_ids (retained_ids ds) ≡ true
          → all (λ id. mem_id id (existing_ids q t'.parameters)) (retained_ids ds) ≡ true
          → store_snapshot temporary q ds (t'.parameters, t'.next_parameter) ≡ o
          → AllStored ds (commit t t' q o)
      committed none d e h = tt
      committed (some r) d e h =
          store_snapshot-IsStored q ds t'.parameters t'.next_parameter r below d e h

      go :
          (a b : Bool)
          → distinct_ids (retained_ids ds) ≡ a
          → all (λ id. mem_id id (existing_ids q t'.parameters)) (retained_ids ds) ≡ b
          → AllStored ds (
              if a && b
              then commit t t' q (store_snapshot temporary q ds (t'.parameters, t'.next_parameter))
              else (t, not_of_route))
      go true true d e =
          committed (store_snapshot temporary q ds (t'.parameters, t'.next_parameter)) d e refl
      go true false d e = tt
      go false b d e = tt

  save_query_configuration-AllStored :
      (u : Unicode) {O : Type 0} (py : Python O) (compiles : Text → Bool) (t : Tables)
      (id : Option ℕ) (d : RouteData) (ds : List Draft)
      → All (λ p. p.id < t.next_parameter) t.parameters
      → AllStored
          (canonical_drafts u ds)
          (save_query_configuration temporary u py compiles t id d ds)
  unfolding save_query_configuration
  save_query_configuration-AllStored u py compiles t id d ds below = checked id (
      validate_parameter_configuration u py compiles (normalize_route_path u d.route_path)
        d.query_sql (upper u d.method) (canonical_drafts u ds))
    where
      inserted :
          AllStored
            (canonical_drafts u ds)
            (after_insert temporary t (canonical_drafts u ds) (insert_route u t d))
      inserted = elim (Bool-cases (has_key (key_of (new_route u d t.next_query)) t.queries)) [
        | inl clash ↦ rw clash tt
        | inr free ↦
            rw free (save_parameters-AllStored t _ t.next_query (canonical_drafts u ds) below)
      ]

      found :
          (id : ℕ) (b : Bool)
          → AllStored (canonical_drafts u ds) (
              after_update temporary t id
                (canonical_drafts u ds)
                (record t { queries = update_rows u d id t.queries }, updated b))
      found id true = save_parameters-AllStored t _ id (canonical_drafts u ds) below
      found id false = tt

      changed :
          (id : ℕ)
          → AllStored
              (canonical_drafts u ds)
              (after_update temporary t id (canonical_drafts u ds) (update_route u t id d))
      changed id =
          elim (Bool-cases
            (has_id id t.queries && has_other id (key_of (new_route u d id)) t.queries)) [
              | inl clash ↦ rw clash tt
              | inr free ↦ rw free (found id (has_id id t.queries))
            ]

      checked :
          (id : Option ℕ) (o : Option Problem)
          → AllStored
              (canonical_drafts u ds)
              (save_checked temporary u t id d (canonical_drafts u ds) o)
      checked id (some p) = tt
      checked none none = inserted
      checked (some id) none = changed id

  -- Where the ids of the parameters are below the next one: a save that succeeds has stored each
  -- of the parameters that it was given as a row of the route, at its position counted from 1, with
  -- its canonical name, its type, its source (the query string where it names none), whether it is
  -- required, and its default, rule and description, of which an empty one is stored as NULL.
  pub save_query_configuration-IsSaved :
      (u : Unicode) {O : Type 0} (py : Python O) (compiles : Text → Bool) (t : Tables)
      (id : Option ℕ) (d : RouteData) (ds : List Draft)
      → All (λ p. p.id < t.next_parameter) t.parameters
      → IsSaved u ds (save_query_configuration temporary u py compiles t id d ds)
  save_query_configuration-IsSaved u py compiles t id d ds below =
      AllStored-IsSaved u ds (save_query_configuration temporary u py compiles t id d ds)
        (save_query_configuration-AllStored u py compiles t id d ds below)
