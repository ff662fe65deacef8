-- ===== src/Execution/Lifecycle.antt =====
-- `ExecutionService.execute`, its worker, the watch for a client that disconnects and
-- `request_cancel`, as events on the history and the contexts. What the events leave open is the
-- order in which the event loop and the threads of many executions come to them.
pub mod Covered
pub mod Live
pub mod Settled
use fire2api.Base.{
  ℕ, String, Bool, true, false, not, List, [], ◌∷◌, ◌++◌, Option, none, some, ◌==◌, string_eq,
  if◌then◌else◌, keep_if, any,
}
use fire2api.Query.Execute.{Outcome, returned, canceled}
use fire2api.Execution.History
use fire2api.Execution.History.{
  History, Change, Row, insert_record, set_status, request_cancel, CancelReply,
}

-- The cancel event of a context; the slots of one are in Slots.
pub record Context : Type 0 where
  pub execution_id : String
  pub owner_hash : String
  pub is_canceled : Bool

pub record Service : Type 0 where
  pub history : History
  pub contexts : List Context

-- The arguments of `execute` that are recorded, with the statement type of the validation.
pub record Submission : Type 0 where
  pub execution_id : String
  pub owner_hash : String
  pub route_type : String
  pub route_ref : String
  pub http_method : String
  pub statement_type : String

abbrev pub cancel_context : String → List Context → List Context
cancel_context id [] = []
cancel_context id (c ∷ cs) =
    (if c.execution_id == id then record c { is_canceled = true } else c) ∷ cancel_context id cs

-- `self.contexts.pop(execution_id, None)`.
abbrev pub pop_context : String → List Context → List Context
pop_context id = keep_if (λ c. not (c.execution_id == id))

-- `context.canceled()` of the execution's own context, while it is registered.
abbrev pub is_canceled : String → List Context → Bool
is_canceled id [] = false
is_canceled id (c ∷ cs) = if c.execution_id == id then c.is_canceled else is_canceled id cs

-- The writes of a status, each at a time.
abbrev pub write_of : History.Status → Option String → Bool → Bool → Option ℕ → ℕ → Change
write_of status error started finished affected_rows now = record {
  status = status;
  error = error;
  started = started;
  finished = finished;
  affected_rows = affected_rows;
  started_now = now;
  finished_now = now;
}

-- What the worker writes when `execute_query` has ended.
abbrev pub worker_change : {R : Type 0} → Outcome R → ℕ → Change
worker_change (returned rows affected type) now =
    write_of History.completed none false true (some affected) now
worker_change canceled now = write_of History.canceled (some "Cancelado") false true none now
worker_change _ now =
    write_of History.failed (some "Erro ao executar no Firebird") false true none now

pub data Event (R : Type 0) : Type 0 where
  -- `execute` up to the wait for a slot.
  submit : Submission → ℕ → Event R
  -- There is no slot: ExecutionCapacityError.
  deny : String → ℕ → Event R
  -- There is one, and the worker is started.
  start : String → ℕ → Event R
  -- The worker ends.
  finish : String → Outcome R → ℕ → Event R
  -- `wait_for` gives up: ExecutionTimeoutError.
  time_out : String → ℕ → Event R
  -- A caller, by owner and whether an administrator, asks for a cancellation.
  ask_cancel : String → String → Bool → ℕ → Event R
  -- The client has disconnected.
  disconnect : String → Event R

abbrev pub after_record : Service → Submission → Option History → Service
after_record s e none = s
after_record s e (some h) = record {
  history = h;
  contexts =
      pop_context e.execution_id s.contexts
      ++ record { execution_id = e.execution_id; owner_hash = e.owner_hash; is_canceled = false }
        ∷ [];
}

abbrev pub after_cancel : String → Service → CancelReply × History × Bool → Service
after_cancel id s (reply, h, true) = record { history = h; contexts = cancel_context id s.contexts }
after_cancel id s (reply, h, false) = record s { history = h }

module _ {R : Type 0} (history_size : ℕ) where
  abbrev pub step_event : Event R → Service → Service
  step_event (submit e now) s = after_record s e (
      insert_record s.history e.execution_id e.owner_hash e.route_type e.route_ref e.http_method
        e.statement_type now)
  step_event (deny id now) s = record {
    history =
        (set_status history_size id
          (write_of History.failed (some "Capacidade esgotada") false false none now) s.history).0;
    contexts = pop_context id s.contexts;
  }
  step_event (start id now) s = record s {
    history =
        (set_status history_size id (write_of History.running none true false none now)
          s.history).0;
  }
  step_event (finish id outcome now) s = record {
    history = (set_status history_size id (worker_change outcome now) s.history).0;
    contexts = pop_context id s.contexts;
  }
  step_event (time_out id now) s = record {
    history =
        (set_status history_size id
          (write_of History.timeout (some "Tempo limite excedido") false true none now)
          s.history).0;
    contexts = cancel_context id s.contexts;
  }
  step_event (ask_cancel id owner is_admin now) s =
      after_cancel id s (request_cancel history_size id owner is_admin now s.history)
  step_event (disconnect id) s = record s { contexts = cancel_context id s.contexts }

  abbrev pub run_events : List (Event R) → Service → Service
  run_events [] s = s
  run_events (e ∷ es) s = run_events es (step_event e s)
