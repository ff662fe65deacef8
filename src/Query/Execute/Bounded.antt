-- ===== src/Query/Execute/Bounded.antt =====
-- How many rows a call returns, and that it ends.
use mathlib.Core.Path.{subst}
use fire2api.Base.{
  ℕ, ◌≤◌, ◌≡◌, ◌≢◌, sym, ap, ◌∙◌, Bool, true, false, ◌||◌, List, [], Option, Dict, length, arith,
  inl, inr, if◌then◌else◌,
}
use fire2api.Text.{Text, Unicode}
use fire2api.Query.Convert.{Value, Python}
use fire2api.Query.Parameters.{Options}
use fire2api.Query.Execute.{
  Answer, Driver, Fetched, fetched, fetch_canceled, fetch_failed, no_fuel, fetch_rows, Outcome,
  returned, canceled, driver_failed, out_of_fuel, Ending, rolled_back, commit_failed, committed,
  is_get, finish, after_fetch, execute_query,
}
use fire2api.Query.Execute.Loop.{
  FetchesAtMost, Within, NotStuck, fetch_rows-NotStuck, fetch_rows-Within,
}
use fire2api.Query.Execute.Ran.{is_early, rows_of, execute_query-Ran}

module _ (u : Unicode) {O D C R : Type 0} (py : Python O) (driver : Driver D C R (Option (Value O)))
    (polls : ℕ → Bool) (query_sql method : Text) (params : Dict Text (Option (Value O)))
    (options : Options O) (max_rows chunk_size : ℕ) (rollback : Bool) (db : D) where
  rows_of-NotStuck :
      (answer : Answer C)
      → NotStuck (
          rows_of u py driver polls query_sql method params options max_rows chunk_size rollback db
            answer)
  rows_of-NotStuck answer = by_rows answer.returns_rows
    where
      by_rows :
          (b : Bool)
          → NotStuck (
              if b
              then fetch_rows driver polls chunk_size max_rows max_rows 1 answer.cursor []
              else fetched [] 1)
      by_rows true =
          fetch_rows-NotStuck driver polls chunk_size max_rows max_rows 1 answer.cursor []
            (omega arith)
      by_rows false = tt

  rows_of-Within :
      FetchesAtMost driver
      → (answer : Answer C)
      → Within max_rows (
          rows_of u py driver polls query_sql method params options max_rows chunk_size rollback db
            answer)
  rows_of-Within at_most answer = by_rows answer.returns_rows
    where
      by_rows :
          (b : Bool)
          → Within max_rows (
              if b
              then fetch_rows driver polls chunk_size max_rows max_rows 1 answer.cursor []
              else fetched [] 1)
      by_rows true =
          fetch_rows-Within driver polls chunk_size max_rows at_most max_rows 1 answer.cursor []
            (omega arith) (omega arith)
      by_rows false = omega arith

  -- How a call behind `fetch_rows` ends.
  abbrev Ended : ℕ → Outcome R → Type 0
  Ended n (returned rows _ _) = length rows ≤ n
  Ended n out_of_fuel = ⊥
  Ended n _ = Unit

  either : Bool → Outcome R × Ending D → Outcome R × Ending D → Outcome R × Ending D
  either b x y = if b then x else y

  finish-Ended :
      (d : D) (k n : ℕ) (out : Outcome R)
      → Ended n out
      → Ended n (finish driver polls method rollback d k out).0
  unfolding either
  finish-Ended d k n out h = by_get (is_get method || rollback)
    where
      close : Bool → Outcome R × Ending D
      close b = either b (out, committed d) (driver_failed, commit_failed)

      closed : (b : Bool) → Ended n (close b).0
      closed true = h
      closed false = tt

      polled : (b : Bool) → Ended n (either b (canceled, rolled_back) (close driver.commits)).0
      polled true = tt
      polled false = closed driver.commits

      by_get :
          (b : Bool)
          → Ended n
              (either b
                (out, rolled_back)
                (either (polls k) (canceled, rolled_back) (close driver.commits))).0
      by_get true = h
      by_get false = polled (polls k)

  after_fetch-Ended :
      (type : Text) (d : D) (answer : Answer C) (n : ℕ) (f : Fetched R)
      → NotStuck f
      → Within n f
      → Ended n (after_fetch driver polls method rollback type d answer f).0
  after_fetch-Ended type d answer n (fetched rows k) s w = finish-Ended d k n _ w
  after_fetch-Ended type d answer n fetch_canceled s w = tt
  after_fetch-Ended type d answer n fetch_failed s w = tt
  after_fetch-Ended type d answer n no_fuel s w = elim s [ ]

  -- The rows fetched are as many as they are.
  self_Within : (f : Fetched R) → NotStuck f → (n : ℕ) × Within n f
  self_Within (fetched rows k) s = (length rows, omega arith)
  self_Within fetch_canceled s = (0, tt)
  self_Within fetch_failed s = (0, tt)
  self_Within no_fuel s = elim s [ ]

  Ended-early : (n : ℕ) (out : Outcome R) → is_early out ≡ true → Ended n out
  Ended-early n (returned rows k type) h = cc
  Ended-early n out_of_fuel h = cc
  Ended-early n _ h = tt

  -- The loop over the rows always ends: as much fuel as `max_rows` is enough for any driver, any
  -- chunk size and any answers of `is_canceled`.
  pub execute_query-ends :
      (execute_query u py driver polls query_sql method params options max_rows chunk_size rollback
        db).0
      ≢ out_of_fuel
  execute_query-ends h =
      elim (execute_query-Ran u py driver polls query_sql method params options max_rows chunk_size
        rollback db) [
          | inl early ↦ differ (sym (ap is_early h) ∙ early.0)
          | inr r ↦
              let s = rows_of-NotStuck r.answer in
              let (n, w) =
                self_Within
                  (rows_of u py driver polls query_sql method params options max_rows chunk_size
                    rollback db r.answer)
                  s in
              stuck n _ (sym (ap (λ (x : Outcome R × Ending D). x.0) r.result) ∙ h) (
                after_fetch-Ended r.type r.db' r.answer n
                  (rows_of u py driver polls query_sql method params options max_rows chunk_size
                    rollback db r.answer)
                  s w)
        ]
    where
      differ : false ≡ true → ⊥
      differ x = cc

      stuck : (n : ℕ) (out : Outcome R) → out ≡ out_of_fuel → Ended n out → ⊥
      stuck n out e x = subst (Ended n) e x

  -- With a driver that returns at most as many rows as it is asked for, a call returns at most
  -- `max_rows` rows.
  pub execute_query-bounded :
      FetchesAtMost driver
      → (rows : List R) (n : ℕ) (type : Text)
      → (execute_query u py driver polls query_sql method params options max_rows chunk_size
          rollback db).0
        ≡ returned rows n type
      → length rows ≤ max_rows
  execute_query-bounded at_most rows n type h =
      elim (execute_query-Ran u py driver polls query_sql method params options max_rows chunk_size
        rollback db) [
          | inl early ↦ absurd (differ (sym (ap is_early h) ∙ early.0))
          | inr r ↦
              subst (Ended max_rows) (sym (ap (λ (x : Outcome R × Ending D). x.0) r.result) ∙ h) (
                after_fetch-Ended r.type r.db' r.answer max_rows
                  (rows_of u py driver polls query_sql method params options max_rows chunk_size
                    rollback db r.answer)
                  (rows_of-NotStuck r.answer) (rows_of-Within at_most r.answer))
        ]
    where
      differ : false ≡ true → ⊥
      differ x = cc
