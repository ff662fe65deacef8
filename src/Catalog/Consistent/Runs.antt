-- ===== src/Catalog/Consistent/Runs.antt =====
-- Any sequence of the operations of the store.
use fire2api.Base.{
  All-keep_if, ℕ, Bool, not, List, [], ◌∷◌, Option, none, some, ◌==◌, nat_eq, list_eq, pair_eq,
}
use fire2api.Text.{Text, Unicode, upper}
use fire2api.Query.Convert.{Python}
use fire2api.Catalog.{
  Tables, RouteData, create_valid, update_valid, create_query, update_query, delete_query,
}
use fire2api.Sql.Validate.{Verdict, valid, invalid, validate_query}
use fire2api.Catalog.Routes.{normalize_route_path}
use fire2api.Catalog.Drafts.{Draft, Problem, validate_parameter_configuration}
use fire2api.Catalog.Save.{save_query_configuration, save_checked, canonical_drafts}
use fire2api.Catalog.Parameters.{
  add_parameter, update_parameter, delete_parameter, reorder_parameters,
}
use fire2api.Catalog.Sync.{sync_detected_parameters}
use fire2api.Catalog.Consistent.{IsOwned, IsConsistent}
use fire2api.Catalog.Consistent.Writes.{insert_route-IsConsistent, update_route-IsConsistent}
use fire2api.Catalog.Consistent.Saves.{
  with_rows, after_insert-IsConsistent, after_update-IsConsistent,
}
use fire2api.Catalog.Consistent.Calls.{
  delete_query-IsConsistent, sync_detected_parameters-IsConsistent, add_parameter-IsConsistent,
  update_parameter-IsConsistent, reorder_parameters-IsConsistent,
}

pub data Call : Type 0 where
  create : RouteData → Call
  update : ℕ → RouteData → Call
  delete : ℕ → Call
  save : Option ℕ → RouteData → List Draft → Call
  add_one : ℕ → Option ℕ → Draft → Call
  update_one : ℕ → Option ℕ → Draft → Call
  delete_one : ℕ → Call
  reorder : ℕ → List ℕ → Call
  sync : ℕ → Call

module _ (u : Unicode) {O : Type 0} (py : Python O) (compiles : Text → Bool)
    (temporary : ℕ → Text) where
  abbrev pub run_call : Call → Tables → Tables
  run_call (create d) t = (create_query u t d).0
  run_call (update id d) t = (update_query u t id d).0
  run_call (delete id) t = (delete_query t id).0
  run_call (save id d ds) t = (save_query_configuration temporary u py compiles t id d ds).0
  run_call (add_one q position d) t = (add_parameter u compiles t q position d).0
  run_call (update_one id position d) t = (update_parameter u compiles t id position d).0
  run_call (delete_one id) t = (delete_parameter t id).0
  run_call (reorder q ids) t = (reorder_parameters t q ids).0
  run_call (sync q) t = (sync_detected_parameters u t q).0

  abbrev pub run_calls : List Call → Tables → Tables
  run_calls [] t = t
  run_calls (c ∷ cs) t = run_calls cs (run_call c t)

  run_call-IsConsistent : (c : Call) (t : Tables) → IsConsistent t → IsConsistent (run_call c t)
  unfolding create_query update_query delete_parameter save_query_configuration
  run_call-IsConsistent (create d) t w = go (validate_query u d.query_sql d.method)
    where
      go : (v : Verdict) → IsConsistent (create_valid u t d v).0
      go (invalid r) = w
      go (valid type) = insert_route-IsConsistent u d t w
  run_call-IsConsistent (update id d) t w = go (validate_query u d.query_sql d.method)
    where
      go : (v : Verdict) → IsConsistent (update_valid u t id d v).0
      go (invalid r) = w
      go (valid type) = update_route-IsConsistent u d t id w
  run_call-IsConsistent (delete id) t w = delete_query-IsConsistent t id w
  run_call-IsConsistent (save id d ds) t w = go id (
      validate_parameter_configuration u py compiles (normalize_route_path u d.route_path)
        d.query_sql (upper u d.method) (canonical_drafts u ds))
    where
      go :
          (id : Option ℕ) (o : Option Problem)
          → IsConsistent (save_checked temporary u t id d (canonical_drafts u ds) o).0
      go id (some p) = w
      go none none = after_insert-IsConsistent temporary u t d (canonical_drafts u ds) w
      go (some id) none = after_update-IsConsistent temporary u t id d (canonical_drafts u ds) w
  run_call-IsConsistent (add_one q position d) t w =
      add_parameter-IsConsistent u compiles t q position d w
  run_call-IsConsistent (update_one id position d) t w =
      update_parameter-IsConsistent u compiles t id position d w
  run_call-IsConsistent (delete_one id) t w =
      with_rows t _ t.next_parameter w
        (All-keep_if (IsOwned t.queries) (λ p. not (p.id == id)) t.parameters w.owned)
  run_call-IsConsistent (reorder q ids) t w = reorder_parameters-IsConsistent t q ids w
  run_call-IsConsistent (sync q) t w = sync_detected_parameters-IsConsistent u t q w

  -- Whatever the calls are and whatever they answer, they keep the tables consistent: no two routes
  -- share a path and method or an id, every id is below the next one, and each parameter belongs to
  -- a route that is there.
  pub run_calls-IsConsistent :
      (cs : List Call) (t : Tables) → IsConsistent t → IsConsistent (run_calls cs t)
  run_calls-IsConsistent [] t w = w
  run_calls-IsConsistent (c ∷ cs) t w =
      run_calls-IsConsistent cs (run_call c t) (run_call-IsConsistent c t w)
