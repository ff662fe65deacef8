-- ===== src/Query/Execute/Ran.antt =====
-- What a call of `execute_query` has run before it ends.
use fire2api.Base.{
  ◌⊎◌, ℕ, ◌≡◌, refl, Bool, true, false, not, [], Option, none, some, Dict, Bool-cases, inl, inr,
  if◌then◌else◌,
}
use fire2api.Text.{Text, Unicode}
use fire2api.Sql.Validate.{Verdict, valid, invalid, validate_query}
use fire2api.Query.Convert.{Value, Result, ok, fails, Python}
use fire2api.Query.Parameters.{Options}
use fire2api.Query.Binds.{execution_bindings}
use fire2api.Query.Execute.{
  Answer, Driver, Fetched, fetched, fetch_rows, Outcome, returned, canceled, driver_failed,
  out_of_fuel, Ending, untouched, rolled_back, committed, after_fetch, after_execute, run_statement,
  with_options, run_accepted, run_validated, execute_query,
}

abbrev pub is_early : {R : Type 0} → Outcome R → Bool
is_early (returned _ _ _) = false
is_early out_of_fuel = false
is_early _ = true

abbrev pub is_committed : {D : Type 0} → Ending D → Bool
is_committed (committed _) = true
is_committed _ = false

module _ (u : Unicode) {O D C R : Type 0} (py : Python O) (driver : Driver D C R (Option (Value O)))
    (polls : ℕ → Bool) (query_sql method : Text) (params : Dict Text (Option (Value O)))
    (options : Options O) (max_rows chunk_size : ℕ) (rollback : Bool) (db : D) where
  abbrev pub rows_of : Answer C → Fetched R
  rows_of answer =
      if answer.returns_rows
      then fetch_rows driver polls chunk_size max_rows max_rows 1 answer.cursor []
      else fetched [] 1

  -- The call has run a statement that was validated and had its options added.
  pub record Ran (r : Outcome R × Ending D) : Type 0 where
    pub type : Text
    pub sql : Text
    pub params' : Dict Text (Option (Value O))
    pub db' : D
    pub answer : Answer C
    pub is_valid : validate_query u query_sql method ≡ valid type
    pub has_options :
        with_options u py driver polls method query_sql params options max_rows ≡ ok (sql, params')
    pub ran : driver.execute db sql (execution_bindings u sql params') ≡ some (db', answer)
    pub result : r ≡ after_fetch driver polls method rollback type db' answer (rows_of answer)

  abbrev pub Early : Outcome R × Ending D → Type 0
  Early r = (is_early r.0 ≡ true) × (is_committed r.1 ≡ false)

  pub execute_query-Ran :
      Early (
        execute_query u py driver polls query_sql method params options max_rows chunk_size rollback
          db)
      ⊎ Ran (
          execute_query u py driver polls query_sql method params options max_rows chunk_size
            rollback db)
  unfolding execute_query
  execute_query-Ran = validated (validate_query u query_sql method) refl
    where
      executed :
          (type sql : Text) (params' : Dict Text (Option (Value O)))
          → validate_query u query_sql method ≡ valid type
          → with_options u py driver polls method query_sql params options max_rows
            ≡ ok (sql, params')
          → (o : Option (D × Answer C))
          → driver.execute db sql (execution_bindings u sql params') ≡ o
          → Early (after_execute driver polls method rollback type chunk_size max_rows o)
            ⊎ Ran (after_execute driver polls method rollback type chunk_size max_rows o)
      executed type sql params' v w none e = inl (refl, refl)
      executed type sql params' v w (some (db', answer)) e = inr (record {
        type = type;
        sql = sql;
        params' = params';
        db' = db';
        answer = answer;
        is_valid = v;
        has_options = w;
        ran = e;
        result = refl;
      })

      connected :
          (type sql : Text) (params' : Dict Text (Option (Value O)))
          → validate_query u query_sql method ≡ valid type
          → with_options u py driver polls method query_sql params options max_rows
            ≡ ok (sql, params')
          → Early (
              run_statement driver polls method rollback type chunk_size max_rows db sql
                (execution_bindings u sql params'))
            ⊎ Ran (
                run_statement driver polls method rollback type chunk_size max_rows db sql
                  (execution_bindings u sql params'))
      connected type sql params' v w = started driver.connects
        where
          polled : Outcome R × Ending D
          polled =
              if polls 0
              then (canceled, rolled_back)
              else after_execute driver polls method rollback type chunk_size max_rows
                  (driver.execute db sql (execution_bindings u sql params'))

          started :
              (b : Bool)
              → Early (if not b then (driver_failed, untouched) else polled)
                ⊎ Ran (if not b then (driver_failed, untouched) else polled)
          started false = inl (refl, refl)
          started true = elim (Bool-cases (polls 0)) [
            | inl stop ↦ rw stop (inl (refl, refl))
            | inr on ↦ rw on (
                executed type sql params' v w
                  (driver.execute db sql (execution_bindings u sql params')) refl)
          ]

      accepted :
          (type : Text) (o : Result (Text × Dict Text (Option (Value O))))
          → validate_query u query_sql method ≡ valid type
          → with_options u py driver polls method query_sql params options max_rows ≡ o
          → Early (run_accepted u py driver polls method rollback type chunk_size max_rows db o)
            ⊎ Ran (run_accepted u py driver polls method rollback type chunk_size max_rows db o)
      accepted type (fails _) v w = inl (refl, refl)
      accepted type (ok (sql, params')) v w = connected type sql params' v w

      validated :
          (o : Verdict)
          → validate_query u query_sql method ≡ o
          → Early (
              run_validated u py driver polls query_sql method params options max_rows chunk_size
                rollback db o)
            ⊎ Ran (
                run_validated u py driver polls query_sql method params options max_rows chunk_size
                  rollback db o)
      validated (invalid _) v = inl (refl, refl)
      validated (valid type) v =
          accepted type (with_options u py driver polls method query_sql params options max_rows) v
            refl
