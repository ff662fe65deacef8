-- ===== src/Catalog/Consistent/Saves.antt =====
-- A save on consistent tables.
use mathlib.Core.Path.{subst}
use fire2api.Base.{
  any-append, All-keep_if, ℕ, ◌≡◌, inl, inr, refl, sym, ◌∙◌, Bool, true, false, ◌&&◌, ◌||◌, not,
  List, Option, none, some, ◌==◌, nat_eq, list_eq, pair_eq, all, All, arith, Bool-cases, ==-refl,
}
use fire2api.Text.{Text, Unicode}
use fire2api.Catalog.{
  Parameter, Tables, RouteData, updated, insert_route, update_route, has_key, has_id, has_other,
  key_of, new_route, update_rows,
}
use fire2api.Catalog.Drafts.{Draft}
use fire2api.Catalog.Save.{
  save_parameters, store_snapshot, Rows, retained_ids, distinct_ids, mem_id, existing_ids, commit,
  after_insert, after_update,
}
use fire2api.Catalog.Save.Frame.{others-store_snapshot}
use fire2api.Catalog.Consistent.{IsOwned, IsConsistent}
use fire2api.Catalog.Consistent.Writes.{
  has_id-update_rows, insert_route-IsConsistent, update_route-IsConsistent,
}
use fire2api.Catalog.Consistent.Owners.{All-others}

-- The tables with other rows of parameters.
pub with_rows :
    (t : Tables) (rows : List Parameter) (next : ℕ)
    → IsConsistent t
    → All (IsOwned t.queries) rows
    → IsConsistent (record t { parameters = rows; next_parameter = next })
with_rows t rows next w h = record { keyed = w.keyed; fresh = w.fresh; owned = h }

module _ (temporary : ℕ → Text) where
  save_parameters-IsConsistent :
      (t t' : Tables) (q : ℕ) (ds : List Draft)
      → IsConsistent t
      → IsConsistent t'
      → has_id q t'.queries ≡ true
      → IsConsistent (save_parameters temporary t t' q ds).0
  save_parameters-IsConsistent t t' q ds w w' there =
      elim (Bool-cases (
        distinct_ids (retained_ids ds)
        && all (λ id. mem_id id (existing_ids q t'.parameters)) (retained_ids ds))) [
          | inr bad ↦ rw bad w
          | inl good ↦
              rw good
                (committed (store_snapshot temporary q ds (t'.parameters, t'.next_parameter)) refl)
        ]
    where
      committed :
          (o : Option Rows)
          → store_snapshot temporary q ds (t'.parameters, t'.next_parameter) ≡ o
          → IsConsistent (commit t t' q o).0
      committed none e = w
      committed (some (rows, next)) e = with_rows t' rows next w' (
          All-others t'.queries q rows there (
            subst (All (IsOwned t'.queries))
              (sym (
                others-store_snapshot temporary q ds (t'.parameters, t'.next_parameter) (rows, next)
                  e))
              (All-keep_if (IsOwned t'.queries) (λ p. not (p.query_id == q)) t'.parameters
                w'.owned)))

  pub after_insert-IsConsistent :
      (u : Unicode) (t : Tables) (d : RouteData) (ds : List Draft)
      → IsConsistent t
      → IsConsistent (after_insert temporary t ds (insert_route u t d)).0
  after_insert-IsConsistent u t d ds w =
      go (has_key (key_of (new_route u d t.next_query)) t.queries) refl
        (insert_route-IsConsistent u d t w)
    where
      or_true : (a b : Bool) → b ≡ true → (a || b) ≡ true
      or_true a b x = ground arith

      go :
          (b : Bool)
          → has_key (key_of (new_route u d t.next_query)) t.queries ≡ b
          → IsConsistent (insert_route u t d).0
          → IsConsistent (after_insert temporary t ds (insert_route u t d)).0
      go true e w' = rw e w
      go false e w' = rw e (
          save_parameters-IsConsistent t _ t.next_query ds w (rw e at w') (
            any-append (λ r. r.id == t.next_query) t.queries (new_route u d t.next_query)
            ∙ or_true _ _ (==-refl t.next_query)))

  pub after_update-IsConsistent :
      (u : Unicode) (t : Tables) (id : ℕ) (d : RouteData) (ds : List Draft)
      → IsConsistent t
      → IsConsistent (after_update temporary t id ds (update_route u t id d)).0
  after_update-IsConsistent u t id d ds w =
      go (has_id id t.queries && has_other id (key_of (new_route u d id)) t.queries) refl
        (update_route-IsConsistent u d t id w)
    where
      go :
          (b : Bool)
          → (has_id id t.queries && has_other id (key_of (new_route u d id)) t.queries) ≡ b
          → IsConsistent (update_route u t id d).0
          → IsConsistent (after_update temporary t id ds (update_route u t id d)).0
      go true e w' = rw e w
      go false e w' = rw e (found (has_id id t.queries) refl)
        where
          found :
              (c : Bool)
              → has_id id t.queries ≡ c
              → IsConsistent
                  (after_update temporary t id ds
                    (record t { queries = update_rows u d id t.queries }, updated c)).0
          found true there =
              save_parameters-IsConsistent t _ id ds w (rw e at w')
                (has_id-update_rows u d id id t.queries ∙ there)
          found false gone = w
