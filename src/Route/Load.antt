-- ===== src/Route/Load.antt =====
-- `DynamicRouteLoader.load_routes` and `apply_to_app`: which stored routes are served, and where they
-- stand among the routes of the application.
pub mod Served
use fire2api.Base.{
  ℕ, Bool, true, false, ◌&&◌, ◌||◌, not, List, [], ◌∷◌, ◌++◌, Option, none, some, if◌then◌else◌,
  keep_if, length,
}
use fire2api.Text.{Text, Unicode}
use fire2api.Query.Convert.{Python}
use fire2api.Query.Parameters.{Definition}
use fire2api.Catalog.{Route, Tables, key_of, get_all_queries}
use fire2api.Catalog.Drafts.{Draft, Problem, validate_parameter_configuration}

-- A stored parameter as `_validate_configuration` passes it on.
abbrev pub draft_of : Definition → Draft
draft_of d = record {
  id = none;
  name = d.name;
  param_type = d.param_type;
  source = some d.place;
  default_value = d.default_value;
  required = d.required;
  description = none;
  validation_rule = d.validation_rule;
}

abbrev pub drafts_of : List Definition → List Draft
drafts_of [] = []
drafts_of (d ∷ ds) = draft_of d ∷ drafts_of ds

abbrev pub no_problem : Option Problem → Bool
no_problem none = true
no_problem (some p) = false

-- `add_api_route` of FastAPI takes a route or raises: the argument `takes`.
module _ (u : Unicode) {O : Type 0} (py : Python O) (compiles : Text → Bool)
    (takes : Route × List Definition → Bool) where
  abbrev pub is_loaded : Route × List Definition → Bool
  is_loaded (r, ds) =
      no_problem (
        validate_parameter_configuration u py compiles r.route_path r.query_sql r.method
          (drafts_of ds))
      && takes (r, ds)

  -- The routes of the new router; one that fails is passed over.
  unfoldable pub load_routes : Tables → List (Route × List Definition)
  load_routes t = keep_if is_loaded (get_all_queries u t true)

-- The entries of `app.router.routes` are of a type `A`: those that the mark of their router or their
-- name tells to be dynamic, and mounts at the root, are told apart by the arguments.
module _ {A : Type 0} (is_dynamic is_root : A → Bool) where
  -- `base[:insertion] + added + base[insertion:]`, where `insertion` is the first mount at the root.
  unfoldable pub insert_before_root : List A → List A → List A
  insert_before_root added [] = added
  insert_before_root added (e ∷ base) =
      let rest = insert_before_root added base in if is_root e then added ++ e ∷ base else e ∷ rest

  -- `include_router` adds `added`.
  unfoldable pub apply_to_app : List A → List A → List A
  unfolding insert_before_root
  apply_to_app added routes = insert_before_root added (keep_if (λ e. not (is_dynamic e)) routes)
