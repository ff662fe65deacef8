-- ===== src/Route.antt =====
-- The endpoint of a dynamic route, app/core/dynamic_loader.py: it reads the body, binds the
-- parameters, begins an idempotency record, runs the statement, and completes the record or gives
-- it up. What the JSON parser, the hash of the request and `execute` return are arguments. Other
-- requests take their steps on the records while the statement runs.
pub mod Calls
pub mod Once
pub mod Load
mod Tests
use fire2api.Base.{
  ℕ, ◌≡◌, String, Bool, true, false, ◌&&◌, ◌||◌, not, List, [], ◌∷◌, ◌++◌, Option, none, some, ◌==◌,
  nat_eq, string_eq, list_eq, if◌then◌else◌, Dict,
}
use fire2api.Text.{Text, Unicode}
use fire2api.Idempotency.{
  Table, Request, Outcome, begun, bad_key, conflict, begin, complete, abandon,
}
use fire2api.Idempotency.Guard.{Step, run}
use fire2api.Query.Convert.{Value, Python, Result, ok, fails, overflow}
use fire2api.Query.Options.{apply_query_options}
use fire2api.Query.Parameters.{Definition, Sources, Field, Options, bind_parameters}

-- The bytes of the body: none, no JSON, JSON that is no object, an object that holds an object or
-- a list, and an object of scalars.
pub data Body (O : Type 0) : Type 0 where
  no_body not_json not_object nested : Body O
  flat : List (Field O) → Body O

-- How `execute` ends; with the hash of the payload and the execution's id where it returns.
pub data Run : Type 0 where
  returned : String → String → Run
  no_capacity timed_out was_canceled broke : Run

-- The responses: 400, 422, 409 of the records, 200, 429, 504, 409 of a cancel, 500; `raised` is
-- an OverflowError, which no handler of the endpoint catches.
pub data Reply : Type 0 where
  bad_json unprocessable refused done exhausted timeout canceled failed raised : Reply

pub record Query (O : Type 0) : Type 0 where
  pub method : String
  pub route_path : String
  pub query_sql : Text
  pub parameters : List Definition

pub record Call (O : Type 0) : Type 0 where
  pub body : Body O
  pub path_params : List (Field O)
  pub query_params : List (Field O)
  pub idempotency_key : Text
  pub access_key_id : ℕ
  pub now : ℕ

-- What the endpoint asks of the code around it.
pub record Around (O : Type 0) : Type 0 where
  pub unicode : Unicode
  pub python : Python O
  pub sha256 : Text → String
  pub ttl_hours : ℕ
  pub request_hash : Dict Text (Option (Value O)) × Options O → String
  pub max_rows : ℕ

abbrev pub is_get : String → Bool
is_get method = method == "GET"

-- The body's fields, or the response to a body that has none.
abbrev pub read_body : {O : Type 0} → String → Body O → List (Field O) × Option Reply
read_body method no_body = ([], none)
read_body method not_json = if is_get method then ([], none) else ([], some bad_json)
read_body method (flat fields) = if is_get method then ([], none) else (fields, none)
read_body method _ = if is_get method then ([], none) else ([], some unprocessable)

abbrev pub answer : Run → Reply
answer (returned _ _) = done
answer no_capacity = exhausted
answer timed_out = timeout
answer was_canceled = canceled
answer broke = failed

-- Behind `execute`: an error of `complete` is caught, but the record is not given up then.
unfoldable pub close : Table → ℕ → Run → Table × Reply
close t id (returned response_hash execution_id) =
    let (t, is_running) = complete t id response_hash execution_id in
    (t, if is_running then done else failed)
close t id no_capacity = (abandon t id, exhausted)
close t id timed_out = (abandon t id, timeout)
close t id was_canceled = (abandon t id, canceled)
close t id broke = (abandon t id, failed)

module _ {O : Type 0} (c : Around O) where
  -- The steps of the other requests stand between `begin` and the end.
  unfoldable pub execute_once : Table × Outcome → List Step → Run → Table × Reply
  unfolding close
  execute_once (t, begun id) meanwhile r = close (run c.sha256 c.ttl_hours t meanwhile) id r
  execute_once (t, bad_key) meanwhile r = (t, refused)
  execute_once (t, conflict _) meanwhile r = (t, refused)

  abbrev pub record_request : Query O → Call O → Dict Text (Option (Value O)) × Options O → Request
  record_request q call bound = record {
    access_key_id = call.access_key_id;
    method = q.method;
    route_path = q.route_path;
    idempotency_key = call.idempotency_key;
    request_hash = c.request_hash bound;
    now = call.now;
  }

  -- What `apply_query_options` says of a GET, before it is run.
  abbrev pub after_options :
      Table → Result (Text × Dict Text (Option (Value O))) → List Step → Run → Table × Reply
  after_options t (ok _) meanwhile r = (run c.sha256 c.ttl_hours t meanwhile, answer r)
  after_options t (fails overflow) meanwhile r = (t, raised)
  after_options t (fails _) meanwhile r = (t, unprocessable)

  abbrev pub execute_bound :
      Table
      → Query O
      → Call O
      → Dict Text (Option (Value O)) × Options O
      → List Step
      → Run
      → Table × Reply
  execute_bound t q call bound meanwhile r =
      if is_get q.method
      then after_options t
          (apply_query_options c.unicode c.python q.query_sql bound.0 bound.1 c.max_rows) meanwhile
          r
      else if call.idempotency_key == []
      then (run c.sha256 c.ttl_hours t meanwhile, answer r)
      else execute_once (begin c.sha256 c.ttl_hours t (record_request q call bound)) meanwhile r

  abbrev pub bind_call :
      Query O → Call O → List (Field O) → Result (Dict Text (Option (Value O)) × Options O)
  bind_call q call fields = bind_parameters c.unicode c.python q.parameters (record {
    path_values = call.path_params;
    query_values = call.query_params;
    body_values = fields;
  })

  abbrev pub after_binding :
      Table
      → Query O
      → Call O
      → Result (Dict Text (Option (Value O)) × Options O)
      → List Step
      → Run
      → Table × Reply
  after_binding t q call (fails overflow) meanwhile r = (t, raised)
  after_binding t q call (fails _) meanwhile r = (t, unprocessable)
  after_binding t q call (ok bound) meanwhile r = execute_bound t q call bound meanwhile r

  abbrev pub after_body :
      Table → Query O → Call O → List (Field O) × Option Reply → List Step → Run → Table × Reply
  after_body t q call (fields, some reply) meanwhile r = (t, reply)
  after_body t q call (fields, none) meanwhile r =
      after_binding t q call (bind_call q call fields) meanwhile r

  unfoldable pub endpoint : Table → Query O → Call O → List Step → Run → Table × Reply
  unfolding execute_once
  endpoint t q call meanwhile r = after_body t q call (read_body q.method call.body) meanwhile r
