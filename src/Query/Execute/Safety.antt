-- ===== src/Query/Execute/Safety.antt =====
-- What reaches the database, and what stays there.
use fire2api.Base.{
  ℕ, ◌≡◌, refl, sym, ap, ◌∙◌, Bool, true, false, ◌||◌, List, Option, some, Dict, length, arith,
  Bool-cases, inl, inr, if◌then◌else◌,
}
use fire2api.Text.{Text, Unicode}
use fire2api.Sql.Validate.{valid, validate_query}
use fire2api.Query.Convert.{Value, Python}
use fire2api.Query.Convert.Chains.{same_ok}
use fire2api.Query.Parameters.{Options}
use fire2api.Query.Binds.{execution_bindings}
use fire2api.Query.Execute.{
  Answer, Driver, Fetched, fetched, fetch_canceled, fetch_failed, no_fuel, Outcome, returned,
  driver_failed, Ending, rolled_back, commit_failed, committed, is_get, affected_rows, finish,
  after_fetch, execute_query,
}
use fire2api.Query.Execute.Ran.{is_committed, rows_of, Ran, execute_query-Ran}

module _ (u : Unicode) {O D C R : Type 0} (py : Python O) (driver : Driver D C R (Option (Value O)))
    (polls : ℕ → Bool) (query_sql method : Text) (params : Dict Text (Option (Value O)))
    (options : Options O) (max_rows chunk_size : ℕ) (rollback : Bool) (db : D) where
  finished :
      (type : Text) (db' d : D) (k : ℕ) (out : Outcome R)
      → (finish driver polls method rollback db' k out).1 ≡ committed d
      → (is_get method ≡ false)
        × (rollback ≡ false)
        × (db' ≡ d)
        × ((finish driver polls method rollback db' k out).0 ≡ out)
  finished type db' d k out h = elim (Bool-cases (is_get method || rollback)) [
    | inl undone ↦ absurd (differ (rw undone at h))
    | inr kept ↦ elim (Bool-cases (polls k)) [
      | inl stop ↦ absurd (differ (rw stop at (rw kept at h)))
      | inr on ↦
          let (same, out) = closed driver.commits (rw on at (rw kept at h)) in
          (left _ _ kept, right _ _ kept, same, rw kept (rw on out))
    ]
  ]
    where
      ending : Bool → Outcome R × Ending D
      ending b = if b then (out, committed db') else (driver_failed, commit_failed)

      not_done : commit_failed ≡ committed d → ⊥
      not_done x = cc

      same : committed db' ≡ committed d → db' ≡ d
      same x = cc

      closed : (b : Bool) → (ending b).1 ≡ committed d → (db' ≡ d) × ((ending b).0 ≡ out)
      closed true x = (same x, refl)
      closed false x = absurd (not_done x)

      left : (a b : Bool) → (a || b) ≡ false → a ≡ false
      left a b x = ground arith

      right : (a b : Bool) → (a || b) ≡ false → b ≡ false
      right a b x = ground arith

      differ : rolled_back ≡ committed d → ⊥
      differ x = cc

  -- A transaction is committed only on a call that is no GET and no trial run, and that returns:
  -- its statement was validated for its method, and it has changed the database by exactly that
  -- statement, as it was written, with its own binds.
  pub execute_query-commits :
      (d : D)
      → (execute_query u py driver polls query_sql method params options max_rows chunk_size
          rollback db).1
        ≡ committed d
      → (is_get method ≡ false)
        × (rollback ≡ false)
        × ((type : Text) × (answer : Answer C) × (rows : List R) × (n : ℕ) × (validate_query u
                query_sql method
              ≡ valid type)
            × (driver.execute db query_sql (execution_bindings u query_sql params)
                ≡ some (d, answer))
            × ((execute_query u py driver polls query_sql method params options max_rows chunk_size
                  rollback db).0
                ≡ returned rows n type))
  execute_query-commits d h =
      elim (execute_query-Ran u py driver polls query_sql method params options max_rows chunk_size
        rollback db) [
          | inl early ↦ absurd (differ (sym (ap is_committed h) ∙ early.1))
          | inr r ↦
              by_rows r
                (rows_of u py driver polls query_sql method params options max_rows chunk_size
                  rollback db r.answer)
                r.result (sym (ap (λ (x : Outcome R × Ending D). x.1) r.result) ∙ h)
        ]
    where
      differ : true ≡ false → ⊥
      differ x = cc

      undone : rolled_back ≡ committed d → ⊥
      undone x = cc

      call : Outcome R × Ending D
      call =
          execute_query u py driver polls query_sql method params options max_rows chunk_size
            rollback db

      by_rows :
          (r : Ran u py driver polls query_sql method params options max_rows chunk_size rollback db
            call)
          (f : Fetched R)
          → call ≡ after_fetch driver polls method rollback r.type r.db' r.answer f
          → (after_fetch driver polls method rollback r.type r.db' r.answer f).1 ≡ committed d
          → (is_get method ≡ false)
            × (rollback ≡ false)
            × ((type : Text) × (answer : Answer C) × (rows : List R) × (n : ℕ) × (validate_query u
                    query_sql method
                  ≡ valid type)
                × (driver.execute db query_sql (execution_bindings u query_sql params)
                    ≡ some (d, answer))
                × (call.0 ≡ returned rows n type))
      by_rows r fetch_canceled e x = absurd (undone x)
      by_rows r fetch_failed e x = absurd (undone x)
      by_rows r no_fuel e x = absurd (undone x)
      by_rows r (fetched rows k) e x =
          let (post, kept, same, out) = finished r.type r.db' d k _ x in
          let as_written : ◌≡◌ {A = Text × Dict Text (Option (Value O))} (query_sql, params)
              (r.sql, r.params') =
            same_ok (rw post at r.has_options) in
          (
            post,
            kept,
            (
              r.type,
              r.answer,
              rows,
              affected_rows method r.type r.answer (length rows),
              r.is_valid,
              (ap
                    (λ (w : Text × Dict Text (Option (Value O))).
                      driver.execute db w.0 (execution_bindings u w.0 w.1))
                    as_written
                  ∙ r.ran
                  ∙ ap (λ y. some (y, r.answer)) same),
              ap (λ (y : Outcome R × Ending D). y.0) e ∙ out,
            ),
          )
