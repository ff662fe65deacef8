-- ===== src/Route/Load/Served.antt =====
-- What the loader serves.
use fire2api.Base.{
  ◌≡◌, inl, inr, refl, ap, ◌∙◌, Bool, true, ◌&&◌, not, List, [], ◌∷◌, ◌++◌, Option, none, some,
  keep_if, All, Bool-cases, arith,
}
use fire2api.Text.{Text, Unicode, upper}
use fire2api.Query.Convert.{Python}
use fire2api.Query.Parameters.{Definition}
use fire2api.Catalog.{Route, Tables, get_all_queries}
use fire2api.Catalog.Drafts.{Problem}
use fire2api.Catalog.Drafts.Configured.{IsConfigured, validate_parameter_configuration-IsConfigured}
use fire2api.Route.Load.{
  drafts_of, no_problem, is_loaded, load_routes, insert_before_root, apply_to_app,
}

module _ (u : Unicode) {O : Type 0} (py : Python O) (compiles : Text → Bool)
    (takes : Route × List Definition → Bool) where
  abbrev pub IsServed : Route × List Definition → Type 0
  IsServed (r, ds) = IsConfigured u r.route_path r.query_sql (upper u r.method) (drafts_of ds)

  -- Every route that is loaded has a valid configuration as it is stored: its statement, its
  -- placeholders, its binds and its parameters fit each other.
  pub load_routes-IsServed : (t : Tables) → All IsServed (load_routes u py compiles takes t)
  unfolding load_routes
  load_routes-IsServed t = go (get_all_queries u t true)
    where
      first : (a b : Bool) → (a && b) ≡ true → a ≡ true
      first a b x = ground arith

      problem_free : (o : Option Problem) → no_problem o ≡ true → o ≡ none
      problem_free none x = refl
      problem_free (some p) x = cc

      go :
          (qs : List (Route × List Definition))
          → All IsServed (keep_if (is_loaded u py compiles takes) qs)
      go [] = tt
      go ((r, ds) ∷ qs) = elim (Bool-cases (is_loaded u py compiles takes (r, ds))) [
        | inr skipped ↦ rw skipped (go qs)
        | inl loaded ↦ rw loaded (
          validate_parameter_configuration-IsConfigured u py compiles r.route_path r.query_sql
              r.method (drafts_of ds) (problem_free _ (first _ _ loaded)),
          go qs,
        )
      ]

module _ {A : Type 0} (is_dynamic is_root : A → Bool) where
  abbrev statics : List A → List A
  statics = keep_if (λ e. not (is_dynamic e))

  statics-append :
      (added base : List A)
      → All (λ e. is_dynamic e ≡ true) added
      → statics (added ++ base) ≡ statics base
  statics-append [] base h = refl
  statics-append (e ∷ added) base h = rw h.0 (statics-append added base h.1)

  statics-insert_before_root :
      (added base : List A)
      → All (λ e. is_dynamic e ≡ true) added
      → statics (insert_before_root is_dynamic is_root added base) ≡ statics base
  unfolding insert_before_root
  statics-insert_before_root added [] h = only added h
    where
      only : (added : List A) → All (λ e. is_dynamic e ≡ true) added → statics added ≡ []
      only [] h = refl
      only (e ∷ added) h = rw h.0 (only added h.1)
  statics-insert_before_root added (e ∷ base) h = elim (Bool-cases (is_root e)) [
    | inl root ↦ rw root (statics-append added (e ∷ base) h)
    | inr other ↦ rw other (elim (Bool-cases (is_dynamic e)) [
      | inl dynamic ↦ rw dynamic (statics-insert_before_root added base h)
      | inr static ↦ rw static (ap (◌∷◌ e) (statics-insert_before_root added base h))
    ])
  ]

  statics-statics : (routes : List A) → statics (statics routes) ≡ statics routes
  statics-statics [] = refl
  statics-statics (e ∷ routes) = elim (Bool-cases (is_dynamic e)) [
    | inl dynamic ↦ rw dynamic (statics-statics routes)
    | inr static ↦ rw static (rw static (ap (◌∷◌ e) (statics-statics routes)))
  ]

  -- Where the routes that a load adds are recognised as dynamic, a further load leaves nothing of it:
  -- the application is as if only the second had been applied.
  pub apply_to_app-replaces :
      (old new routes : List A)
      → All (λ e. is_dynamic e ≡ true) old
      → apply_to_app is_dynamic is_root new (apply_to_app is_dynamic is_root old routes)
        ≡ apply_to_app is_dynamic is_root new routes
  unfolding apply_to_app
  apply_to_app-replaces old new routes h =
      ap (insert_before_root is_dynamic is_root new)
        (statics-insert_before_root old (statics routes) h ∙ statics-statics routes)
