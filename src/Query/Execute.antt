-- ===== src/Query/Execute.antt =====
-- `QueryService.execute_query`. The driver and its transactions are the record `Driver`: the
-- database is a state, on which a transaction works; the calls of `is_canceled` and of `fetchmany`
-- are answered in the order in which they are made.
pub mod Loop
pub mod Ran
pub mod Safety
pub mod Bounded
mod Tests
use fire2api.Base.{
  ℕ, ℤ, pos, negsuc, zero, suc, ◌+◌, ◌-◌, Bool, true, false, ◌&&◌, ◌||◌, not, List, [], ◌∷◌, ◌++◌,
  Option, none, some, Dict, if◌then◌else◌, ltb, ◌==◌, list_eq, nat_eq, length, min, max,
}
use fire2api.Text.{Text, Unicode, codes}
use fire2api.Sql.Validate.{Verdict, valid, invalid, validate_query}
use fire2api.Query.Binds.{execution_bindings}
use fire2api.Query.Convert.{Value, Result, ok, fails, Python}
use fire2api.Query.Options.{apply_query_options}
use fire2api.Query.Parameters.{Options}

-- What `connection.execute` returns: a cursor, whether it returns rows, and its rowcount.
pub record Answer (C : Type 0) : Type 0 where
  pub cursor : C
  pub returns_rows : Bool
  pub rowcount : ℤ

-- The driver: its transactions on a database of type `D`, its cursors `C` and its rows `R`.
pub record Driver (D C R V : Type 0) : Type 0 where
  pub connects : Bool
  pub execute : D → Text → Dict Text V → Option (D × Answer C)
  pub fetchmany : C → ℕ → Option (List R × C)
  pub commits : Bool

pub data Fetched (R : Type 0) : Type 0 where
  fetched : List R → ℕ → Fetched R
  fetch_canceled fetch_failed no_fuel : Fetched R

module _ {D C R V : Type 0} (driver : Driver D C R V) (polls : ℕ → Bool)
    (chunk_size max_rows : ℕ) where
  -- `while len(rows) < max_rows`; `k` counts the calls of `is_canceled`.
  unfoldable pub fetch_rows : ℕ → ℕ → C → List R → Fetched R
  fetch_rows zero k cursor rows = if ltb (length rows) max_rows then no_fuel else fetched rows k
  fetch_rows (suc fuel) k cursor rows = elim (ltb (length rows) max_rows) [
    | false ↦ fetched rows k
    | true ↦ elim (polls k) [
      | true ↦ fetch_canceled
      | false ↦ elim (driver.fetchmany cursor (min chunk_size (max_rows - length rows))) [
        | none ↦ fetch_failed
        | some (chunk, cursor') ↦ elim chunk [
          | [] ↦ fetched rows (k + 1)
          | r ∷ rs ↦ fetch_rows fuel (k + 1) cursor' (rows ++ r ∷ rs)
        ]
      ]
    ]
  ]

-- How the call ends, and what has become of its transaction: `none` if it was never begun.
pub data Outcome (R : Type 0) : Type 0 where
  returned : List R → ℕ → Text → Outcome R
  refused_sql refused_options canceled driver_failed out_of_fuel : Outcome R

pub data Ending (D : Type 0) : Type 0 where
  untouched rolled_back commit_failed : Ending D
  committed : D → Ending D

abbrev pub at_least_zero : ℤ → ℕ
at_least_zero (pos n) = n
at_least_zero (negsuc n) = 0

abbrev pub is_get : Text → Bool
is_get method = method == codes "GET"

-- `affected`, from the rowcount and the rows.
abbrev pub affected_rows : {C : Type 0} → Text → Text → Answer C → ℕ → ℕ
affected_rows method type answer rows =
    if not (is_get method) && (not (type == codes "procedure") && answer.returns_rows)
    then max (at_least_zero answer.rowcount) rows
    else at_least_zero answer.rowcount

module _ {D C R V : Type 0} (driver : Driver D C R V) (polls : ℕ → Bool) where
  -- The end of the transaction behind the rows.
  abbrev pub finish : Text → Bool → D → ℕ → Outcome R → Outcome R × Ending D
  finish method rollback db k result =
      if is_get method || rollback
      then (result, rolled_back)
      else if polls k
      then (canceled, rolled_back)
      else if driver.commits
      then (result, committed db)
      else (driver_failed, commit_failed)

  abbrev pub after_fetch : Text → Bool → Text → D → Answer C → Fetched R → Outcome R × Ending D
  after_fetch method rollback type db answer (fetched rows k) =
      finish method rollback db k
        (returned rows (affected_rows method type answer (length rows)) type)
  after_fetch method rollback type db answer fetch_canceled = (canceled, rolled_back)
  after_fetch method rollback type db answer fetch_failed = (driver_failed, rolled_back)
  after_fetch method rollback type db answer no_fuel = (out_of_fuel, rolled_back)

  abbrev pub after_execute :
      Text → Bool → Text → ℕ → ℕ → Option (D × Answer C) → Outcome R × Ending D
  after_execute method rollback type chunk_size max_rows none = (driver_failed, rolled_back)
  after_execute method rollback type chunk_size max_rows (some (db, answer)) =
      after_fetch method rollback type db answer (
        if answer.returns_rows
        then fetch_rows driver polls chunk_size max_rows max_rows 1 answer.cursor []
        else fetched [] 1)

  -- The statement and its binds, given to the driver in a transaction.
  abbrev pub run_statement :
      Text → Bool → Text → ℕ → ℕ → D → Text → Dict Text V → Outcome R × Ending D
  run_statement method rollback type chunk_size max_rows db sql binds =
      if not driver.connects
      then (driver_failed, untouched)
      else if polls 0
      then (canceled, rolled_back)
      else after_execute method rollback type chunk_size max_rows (driver.execute db sql binds)

module _ (u : Unicode) {O D C R : Type 0} (py : Python O) (driver : Driver D C R (Option (Value O)))
    (polls : ℕ → Bool) where
  -- The statement as it is run: that of a GET with its options.
  abbrev pub with_options :
      Text
      → Text
      → Dict Text (Option (Value O))
      → Options O
      → ℕ
      → Result (Text × Dict Text (Option (Value O)))
  with_options method sql params options max_rows =
      if is_get method
      then apply_query_options u py sql params options max_rows
      else ok (sql, params)

  abbrev pub run_accepted :
      Text
      → Bool
      → Text
      → ℕ
      → ℕ
      → D
      → Result (Text × Dict Text (Option (Value O)))
      → Outcome R × Ending D
  run_accepted method rollback type chunk_size max_rows db (fails _) = (refused_options, untouched)
  run_accepted method rollback type chunk_size max_rows db (ok (sql, params)) =
      run_statement driver polls method rollback type chunk_size max_rows db sql
        (execution_bindings u sql params)

  abbrev pub run_validated :
      Text
      → Text
      → Dict Text (Option (Value O))
      → Options O
      → ℕ
      → ℕ
      → Bool
      → D
      → Verdict
      → Outcome R × Ending D
  run_validated query_sql method params options max_rows chunk_size rollback db (invalid _) =
      (refused_sql, untouched)
  run_validated query_sql method params options max_rows chunk_size rollback db (valid type) =
      run_accepted method rollback type chunk_size max_rows db
        (with_options method query_sql params options max_rows)

  unfoldable pub execute_query :
      Text
      → Text
      → Dict Text (Option (Value O))
      → Options O
      → ℕ
      → ℕ
      → Bool
      → D
      → Outcome R × Ending D
  unfolding fetch_rows
  execute_query query_sql method params options max_rows chunk_size rollback db =
      run_validated query_sql method params options max_rows chunk_size rollback db
        (validate_query u query_sql method)
