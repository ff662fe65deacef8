-- ===== src/Catalog/Save/Frame.antt =====
-- Saving a route leaves every other route alone.
use fire2api.Base.{
  ℕ, ◌≡◌, inl, inr, refl, sym, ap, ◌∙◌, Bool, true, false, ◌&&◌, not, List, [], ◌∷◌, ◌++◌, Option,
  none, some, ◌==◌, nat_eq, list_eq, pair_eq, keep_if, all, Bool-cases, ==-refl,
}
use fire2api.Text.{Text, Unicode, upper}
use fire2api.Query.Convert.{Python}
use fire2api.Catalog.{
  Route, Tables, RouteData, updated, insert_route, update_route, has_key, has_id, has_other, key_of,
  new_route, update_rows,
}
use fire2api.Catalog.Routes.{normalize_route_path}
use fire2api.Catalog.Drafts.{Draft, Problem, validate_parameter_configuration}
use fire2api.Catalog.Save.{
  Saved, saved, Rows, store_all, retained_ids, mem_id, distinct_ids, existing_ids, without_removed,
  canonical_drafts, commit, store_snapshot, save_parameters, after_insert, after_update,
  save_checked, save_query_configuration,
}
use fire2api.Catalog.Save.Others.{
  and_then-some, others, others-rename_all, others-store_all, others-without_removed,
  stored_at-some,
}

-- The routes other than one.
abbrev pub other_routes : ℕ → List Route → List Route
other_routes q = keep_if (λ r. not (r.id == q))

-- What a call leaves alone, by how it ends.
abbrev pub IsFramed : Tables → Tables × Saved → Type 0
IsFramed t (t', saved q) =
    (others q t'.parameters ≡ others q t.parameters)
    × (other_routes q t'.queries ≡ other_routes q t.queries)
IsFramed t (t', _) = t' ≡ t

other_routes-append :
    (q : ℕ) (rows : List Route) (r : Route)
    → (r.id == q) ≡ true
    → other_routes q (rows ++ r ∷ []) ≡ other_routes q rows
other_routes-append q [] r h = rw h refl
other_routes-append q (p ∷ rows) r h = elim (Bool-cases (p.id == q)) [
  | inl own ↦ rw own (other_routes-append q rows r h)
  | inr other ↦ rw other (ap (◌∷◌ p) (other_routes-append q rows r h))
]

other_routes-update_rows :
    (u : Unicode) (d : RouteData) (q : ℕ) (rows : List Route)
    → other_routes q (update_rows u d q rows) ≡ other_routes q rows
other_routes-update_rows u d q [] = refl
other_routes-update_rows u d q (p ∷ rows) = elim (Bool-cases (p.id == q)) [
  | inl own ↦ rw own (rw own (other_routes-update_rows u d q rows))
  | inr other ↦ rw other (rw other (ap (◌∷◌ p) (other_routes-update_rows u d q rows)))
]

module _ (temporary : ℕ → Text) where
  pub others-store_snapshot :
      (q : ℕ) (ds : List Draft) (r r' : Rows)
      → store_snapshot temporary q ds r ≡ some r'
      → others q r'.0 ≡ others q r.0
  others-store_snapshot q ds (rows, next) r' h =
      let (mid, renamed, stored) = and_then-some _ (store_all q 1 ds) r' h in
      let (rows', is, e) = stored_at-some next _ mid renamed in
      others-store_all q 1 ds mid r' stored
      ∙ ap (λ (x : Rows). others q x.0) (sym e)
      ∙ others-rename_all temporary q (retained_ids ds) (without_removed q (retained_ids ds) rows)
          rows' is
      ∙ others-without_removed q (retained_ids ds) rows

  save_parameters-IsFramed :
      (t t' : Tables) (q : ℕ) (ds : List Draft)
      → t'.parameters ≡ t.parameters
      → other_routes q t'.queries ≡ other_routes q t.queries
      → IsFramed t (save_parameters temporary t t' q ds)
  save_parameters-IsFramed t t' q ds same routes =
      elim (Bool-cases (
        distinct_ids (retained_ids ds)
        && all (λ id. mem_id id (existing_ids q t'.parameters)) (retained_ids ds))) [
          | inr bad ↦ rw bad refl
          | inl good ↦
              rw good
                (committed (store_snapshot temporary q ds (t'.parameters, t'.next_parameter)) refl)
        ]
    where
      committed :
          (o : Option Rows)
          → store_snapshot temporary q ds (t'.parameters, t'.next_parameter) ≡ o
          → IsFramed t (commit t t' q o)
      committed none e = refl
      committed (some r) e = (others-store_snapshot q ds _ r e ∙ ap (others q) same, routes)

  after_insert-IsFramed :
      (u : Unicode) (t : Tables) (d : RouteData) (ds : List Draft)
      → IsFramed t (after_insert temporary t ds (insert_route u t d))
  after_insert-IsFramed u t d ds =
      elim (Bool-cases (has_key (key_of (new_route u d t.next_query)) t.queries)) [
        | inl clash ↦ rw clash refl
        | inr free ↦ rw free (
            save_parameters-IsFramed t _ t.next_query ds refl (
              other_routes-append t.next_query t.queries (new_route u d t.next_query)
                (==-refl t.next_query)))
      ]

  after_update-IsFramed :
      (u : Unicode) (t : Tables) (id : ℕ) (d : RouteData) (ds : List Draft)
      → IsFramed t (after_update temporary t id ds (update_route u t id d))
  after_update-IsFramed u t id d ds =
      elim (Bool-cases
        (has_id id t.queries && has_other id (key_of (new_route u d id)) t.queries)) [
          | inl clash ↦ rw clash refl
          | inr free ↦ rw free (found (has_id id t.queries))
        ]
    where
      found :
          (b : Bool)
          → IsFramed t (
              after_update temporary t id ds
                (record t { queries = update_rows u d id t.queries }, updated b))
      found true =
          save_parameters-IsFramed t _ id ds refl (other_routes-update_rows u d id t.queries)
      found false = refl

  -- Whatever the tables, the request and the temporary names are: a save that succeeds for route q leaves
  -- every other route and every parameter of another route as they were, in their order; any other
  -- ending (a rejected draft, an unknown route, a foreign parameter id, a violated constraint) leaves
  -- both tables as they were.
  pub save_query_configuration-IsFramed :
      (u : Unicode) {O : Type 0} (py : Python O) (compiles : Text → Bool) (t : Tables)
      (id : Option ℕ) (d : RouteData) (ds : List Draft)
      → IsFramed t (save_query_configuration temporary u py compiles t id d ds)
  unfolding save_query_configuration
  save_query_configuration-IsFramed u py compiles t id d ds = checked id (
      validate_parameter_configuration u py compiles (normalize_route_path u d.route_path)
        d.query_sql (upper u d.method) (canonical_drafts u ds))
    where
      checked :
          (id : Option ℕ) (o : Option Problem)
          → IsFramed t (save_checked temporary u t id d (canonical_drafts u ds) o)
      checked id (some p) = refl
      checked none none = after_insert-IsFramed u t d (canonical_drafts u ds)
      checked (some id) none = after_update-IsFramed u t id d (canonical_drafts u ds)
