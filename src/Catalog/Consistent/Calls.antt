-- ===== src/Catalog/Consistent/Calls.antt =====
-- The other operations of the store on consistent tables.
use fire2api.Base.{
  All-keep_if, ℕ, ◌≡◌, ◌<◌, inl, inr, refl, Bool, true, false, ◌||◌, not, List, [], ◌∷◌, Option,
  none, some, ◌==◌, nat_eq, list_eq, pair_eq, keep_if, All, All-append, arith, Bool-cases,
}
use fire2api.Text.{Text, Unicode, upper}
use fire2api.Query.Detect.{detect_parameters, names_of}
use fire2api.Catalog.{Route, Parameter, Tables, has_id, find, in_order, delete_query}
use fire2api.Catalog.Drafts.{Draft, Problem, validate_parameter_data}
use fire2api.Catalog.Save.{distinct_ids, existing_ids, name_taken}
use fire2api.Catalog.Parameters.{
  add_parameter, update_parameter, reorder_parameters, unless_bad, insert_parameter,
  rewrite_parameter, find_parameter, is_none_given, same_ids, position_or, written,
}
use fire2api.Catalog.Sync.{
  sync_detected_parameters, Progress, sync_candidates, sync_query, sync_commit, sync_start,
}
use fire2api.Catalog.Consistent.{IsOwned, IsConsistent, IsKeyed-keep_if}
use fire2api.Catalog.Consistent.Owners.{
  All-replace_parameter, All-set_positions, sync_candidates-IsOwned,
}
use fire2api.Catalog.Consistent.Saves.{with_rows}

pub delete_query-IsConsistent :
    (t : Tables) (id : ℕ) → IsConsistent t → IsConsistent (delete_query t id).0
unfolding delete_query
delete_query-IsConsistent t id w = record {
  keyed = IsKeyed-keep_if (λ r. not (r.id == id)) t.queries w.keyed;
  fresh = All-keep_if (λ r. r.id < t.next_query) (λ r. not (r.id == id)) t.queries w.fresh;
  owned = kept t.parameters w.owned;
}
  where
    both : (a b : Bool) → a ≡ false → (a || b) ≡ true → b ≡ true
    both a b x y = ground arith

    still :
        (n : ℕ) (rs : List Route)
        → (n == id) ≡ false
        → has_id n rs ≡ true
        → has_id n (keep_if (λ r. not (r.id == id)) rs) ≡ true
    still n [] other h = h
    still n (r ∷ rs) other h = elim (Bool-cases (r.id == id)) [
      | inl own ↦
          rw own (still n rs other (both (r.id == n) (has_id n rs) (apart r.id n id own other) h))
      | inr kept ↦ rw kept (go (still n rs other) (r.id == n) h)
    ]
      where
        apart : (a b c : ℕ) → (a == c) ≡ true → (b == c) ≡ false → (a == b) ≡ false
        apart a b c x y = ground arith

        go :
            (has_id n rs ≡ true → has_id n (keep_if (λ r. not (r.id == id)) rs) ≡ true)
            → (b : Bool) → (b || has_id n rs) ≡ true
            → (b || has_id n (keep_if (λ r. not (r.id == id)) rs)) ≡ true
        go ih true x = refl
        go ih false x = ih x

    kept :
        (ps : List Parameter)
        → All (IsOwned t.queries) ps
        → All
            (IsOwned (keep_if (λ r. not (r.id == id)) t.queries))
            (keep_if (λ p. not (p.query_id == id)) ps)
    kept [] h = tt
    kept (p ∷ ps) h = elim (Bool-cases (p.query_id == id)) [
      | inl own ↦ rw own (kept ps h.1)
      | inr other ↦ rw other (still p.query_id t.queries other h.0, kept ps h.1)
    ]

find-has_id : (id : ℕ) (rs : List Route) (r : Route) → find id rs ≡ some r → has_id id rs ≡ true
find-has_id id [] r h = absurd (differ h)
  where
    differ : none ≡ some r → ⊥
    differ x = cc
find-has_id id (q ∷ rs) r h = elim (Bool-cases (q.id == id)) [
  | inl own ↦ rw own refl
  | inr other ↦ rw other (find-has_id id rs r (rw other at h))
]

pub sync_detected_parameters-IsConsistent :
    (u : Unicode) (t : Tables) (q : ℕ)
    → IsConsistent t
    → IsConsistent (sync_detected_parameters u t q).0
unfolding sync_detected_parameters
sync_detected_parameters-IsConsistent u t q w = go (find q t.queries) refl
  where
    go : (o : Option Route) → find q t.queries ≡ o → IsConsistent (sync_query u t q o).0
    go none e = w
    go (some r) e =
        committed
          (sync_candidates u q (in_order (keep_if (λ p. p.query_id == q) t.parameters))
            (detect_parameters u r.route_path r.query_sql r.method) (sync_start t q))
          refl
      where
        committed :
            (o : Option Progress)
            → sync_candidates u q
                (in_order (keep_if (λ p. p.query_id == q) t.parameters))
                (detect_parameters u r.route_path r.query_sql r.method)
                (sync_start t q)
              ≡ o
            → IsConsistent
                (sync_commit u t q
                  (names_of (detect_parameters u r.route_path r.query_sql r.method))
                  o).0
        committed none x = w
        committed (some s) x = with_rows t s.rows s.next w (
            sync_candidates-IsOwned t.queries u q
              (in_order (keep_if (λ p. p.query_id == q) t.parameters))
              (detect_parameters u r.route_path r.query_sql r.method) (sync_start t q) s
              (find-has_id q t.queries r e) w.owned x)

pub add_parameter-IsConsistent :
    (u : Unicode) (compiles : Text → Bool) (t : Tables) (q : ℕ) (position : Option ℕ) (d : Draft)
    → IsConsistent t
    → IsConsistent (add_parameter u compiles t q position d).0
unfolding add_parameter
add_parameter-IsConsistent u compiles t q position d w = go (validate_parameter_data compiles d)
  where
    there : (a b : Bool) → (not a || b) ≡ false → a ≡ true
    there a b x = ground arith

    go : (o : Option Problem) → IsConsistent (unless_bad t o (insert_parameter u t q position d)).0
    go (some p) = w
    go none =
        elim (Bool-cases (
          not (has_id q t.queries)
          || name_taken q t.next_parameter (upper u d.name) t.parameters)) [
            | inl bad ↦ rw bad w
            | inr free ↦ rw free (
                with_rows t _ _ w
                  (All-append (IsOwned t.queries) t.parameters _ w.owned (there _ _ free, tt)))
          ]

pub update_parameter-IsConsistent :
    (u : Unicode) (compiles : Text → Bool) (t : Tables) (id : ℕ) (position : Option ℕ) (d : Draft)
    → IsConsistent t
    → IsConsistent (update_parameter u compiles t id position d).0
unfolding update_parameter
update_parameter-IsConsistent u compiles t id position d w =
    go (validate_parameter_data compiles d) (find_parameter id t.parameters)
  where
    go :
        (o : Option Problem) (p : Option Parameter)
        → IsConsistent (unless_bad t o (rewrite_parameter u t id position d p)).0
    go (some x) p = w
    go none none = w
    go none (some p) = elim (Bool-cases (name_taken p.query_id id (upper u d.name) t.parameters)) [
      | inl clash ↦ rw clash w
      | inr free ↦ rw free (
          with_rows t _ t.next_parameter w (
            All-replace_parameter t.queries id
              (λ r. written u r.id r.query_id (position_or 1 position) d) t.parameters (λ r. refl)
              w.owned))
    ]

pub reorder_parameters-IsConsistent :
    (t : Tables) (q : ℕ) (ids : List ℕ)
    → IsConsistent t
    → IsConsistent (reorder_parameters t q ids).0
unfolding reorder_parameters
reorder_parameters-IsConsistent t q ids w =
    elim (Bool-cases (is_none_given ids || not (distinct_ids ids))) [
      | inl bad ↦ rw bad w
      | inr good ↦ rw good (elim (Bool-cases (same_ids (existing_ids q t.parameters) ids)) [
        | inr other ↦ rw other w
        | inl same ↦ rw same (
            with_rows t _ t.next_parameter w
              (All-set_positions t.queries 1 ids t.parameters w.owned))
      ])
    ]
