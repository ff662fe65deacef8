-- ===== src/Execution/Tests.antt =====
-- The history and the slots on concrete executions.
use fire2api.Base.{
  ℕ, ◌≤◌, ◌≡◌, refl, String, true, false, List, [], ◌∷◌, none, some, string_eq, get, put, All,
}
use fire2api.Execution.History.{
  Status, running, completed, failed, is_terminal, Row, History, Change, find, set_status,
  is_finished,
}
use fire2api.Execution.History.Terminal.{KeptOrGone, run_changes, run_changes-final}
use fire2api.Execution.History.Retention.{count, set_status-retains}
use fire2api.Execution.Slots
use fire2api.Query.Execute.{Outcome, returned}
use fire2api.Text.{codes}
use fire2api.Execution.Lifecycle
use fire2api.Execution.Lifecycle.{Service, Submission, run_events}
use fire2api.Execution.Lifecycle.Covered.{IsLive}
use fire2api.Execution.Lifecycle.Live.{run_events-IsLive}
use fire2api.Execution.Lifecycle.Settled.{IsSettled, run_events-IsSettled}
use fire2api.Execution.Slots.{
  Capacity, Event, enter, global_acquired, global_timeout, owner_acquired, owner_timeout, done,
  initial, run,
}
use fire2api.Execution.Slots.Balance.{runs, runs_of, holds_global}
use fire2api.Execution.Slots.Invariant.{run-limits, run-returns}

abbrev row : String → Status → ℕ → Row
row id s created = record {
  execution_id = id;
  owner_hash = "o1";
  route_type = "api";
  route_ref = "/a";
  http_method = "GET";
  statement_type = "select";
  status = s;
  affected_rows = none;
  started_at = none;
  finished_at = none;
  error_message = none;
  created_at = created;
}

abbrev history : History
history = row "e1" completed 1 ∷ row "e2" running 2 ∷ row "e3" failed 3 ∷ []

abbrev to : Status → Change
to s = record {
  status = s;
  error = none;
  started = false;
  finished = true;
  affected_rows = none;
  started_now = 9;
  finished_now = 9;
}

late_worker : find "e1" (set_status 5 "e1" (to failed) history).0 ≡ some (row "e1" completed 1)
unfolding set_status
late_worker = refl

retention : find "e1" (set_status 2 "e2" (to completed) history).0 ≡ none
unfolding set_status
retention = refl

run_changes-final_example :
    KeptOrGone "e1"
      (row "e1" completed 1)
      (run_changes 1 (("e1", to failed) ∷ ("e2", to completed) ∷ []) history)
unfolding is_terminal
run_changes-final_example =
    run_changes-final 1 (("e1", to failed) ∷ ("e2", to completed) ∷ []) "e1" history
      (row "e1" completed 1) refl refl

set_status-retains_example : count is_finished (set_status 1 "e2" (to completed) history).0 ≤ 1
unfolding is_terminal
set_status-retains_example = set_status-retains 1 "e2" (to completed) history refl

abbrev capacity : Capacity
capacity = record { global = 2; per_token = 1 }

abbrev owners : List String
owners = "o1" ∷ "o1" ∷ "o2" ∷ []

-- Two executions of one owner; the second waits for the owner's semaphore and gives up.
abbrev schedule : List (ℕ × Event)
schedule =
    (0, enter)
    ∷ (1, enter)
    ∷ (0, global_acquired)
    ∷ (1, global_acquired)
    ∷ (0, owner_acquired)
    ∷ (1, owner_acquired)
    ∷ (1, owner_timeout)
    ∷ []

run-limits_example :
    (Slots.Balance.count runs (run capacity (initial capacity owners) schedule).tasks ≤ 2)
    × (Slots.Balance.count (runs_of "o1") (run capacity (initial capacity owners) schedule).tasks
        ≤ 1)
run-limits_example = run-limits capacity owners schedule "o1"

abbrev to_the_end : List (ℕ × Event)
to_the_end =
    (0, enter)
    ∷ (0, global_acquired)
    ∷ (0, owner_acquired)
    ∷ (1, enter)
    ∷ (1, global_acquired)
    ∷ (1, owner_timeout)
    ∷ (0, done)
    ∷ []

run-returns_example : (run capacity (initial capacity owners) to_the_end).global_free ≡ 2
unfolding run Slots.step_task get put
run-returns_example = run-returns capacity owners to_the_end refl

abbrev submission : Submission
submission = record {
  execution_id = "e4";
  owner_hash = "o1";
  route_type = "api";
  route_ref = "/a";
  http_method = "GET";
  statement_type = "select";
}

-- The time is up before the worker ends.
abbrev late : List (Lifecycle.Event ℕ)
late = Lifecycle.submit submission 4 ∷ Lifecycle.start "e4" 5 ∷ Lifecycle.time_out "e4" 6 ∷ []

abbrev empty : Service
empty = record { history = []; contexts = [] }

abbrev ended : Outcome ℕ
ended = returned (1 ∷ []) 0 (codes "select")

run_events-IsLive_example : IsLive (run_events 5 late empty)
run_events-IsLive_example = run_events-IsLive 5 late empty tt

run_events-IsSettled_example :
    All
      (IsSettled "e4")
      (run_events 5
        (Lifecycle.finish "e4" ended 7 ∷ Lifecycle.disconnect "e4" ∷ [])
        (run_events 5 late empty)).history
run_events-IsSettled_example =
    run_events-IsSettled 5 "e4" ended 7 (Lifecycle.disconnect "e4" ∷ []) (run_events 5 late empty)
      (run_events-IsLive 5 late empty tt) (tt, tt)
