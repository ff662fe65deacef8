-- ===== src/Route/Tests.antt =====
-- One route with a key.
use fire2api.Base.{
  Bool, All, length, ◌%◌, ◌==◌, nat_eq, ℕ, ◌≡◌, refl, true, false, [], ◌∷◌, none, arith,
}
use fire2api.Text.{Text, codes}
use fire2api.Text.Ascii.{ascii}
use fire2api.Idempotency.{Table, begin, complete, complete_rows, abandon}
use fire2api.Idempotency.Guard.{abandons, run}
use fire2api.Query.Convert.{fails, overflow, Python}
use fire2api.Query.Parameters.{normalize, allowed_names, bind_all_definitions, bind_parameters}
use fire2api.Route.{
  Body, no_body, not_json, Run, returned, timed_out, bad_json, done, timeout, Query, Call, Around,
  close, execute_once, endpoint,
}
use fire2api.Route.Calls.{ran}
use fire2api.Route.Once.{endpoint_once}
use fire2api.Route.Load.{load_routes, apply_to_app}
use fire2api.Route.Load.Served.{IsServed, load_routes-IsServed, apply_to_app-replaces}
use fire2api.Catalog.{Tables}

abbrev python : Python ℕ
python = record {
  show = λ v. [];
  parse_int = λ s. none;
  truncate = λ o. fails overflow;
  to_float = λ v. none;
  is_true = λ o. true;
  is_date = λ o. false;
  is_datetime = λ o. false;
  parse_date = λ s. none;
  parse_datetime = λ s. none;
  full_match = λ rule s. true;
}

abbrev around : Around ℕ
around = record {
  unicode = ascii;
  python = python;
  sha256 = λ s. "hash";
  ttl_hours = 24;
  request_hash = λ bound. "request";
  max_rows = 100;
}

abbrev orders : Query ℕ
orders = record {
  method = "POST";
  route_path = "/orders";
  query_sql = codes "insert into orders values (1)";
  parameters = [];
}

abbrev call : Body ℕ → ℕ → Call ℕ
call body now = record {
  body = body;
  path_params = [];
  query_params = [];
  idempotency_key = codes "order-1";
  access_key_id = 7;
  now = now;
}

abbrev empty : Table
empty = record { rows = [] }

abbrev response : Run
response = returned "response" "e1"

first_call : (endpoint around empty orders (call no_body 5) (abandons 2 ∷ []) response).1 ≡ done
unfolding endpoint execute_once close bind_parameters normalize allowed_names bind_all_definitions
    begin complete complete_rows abandon
first_call = refl

timed_out_call : (endpoint around empty orders (call no_body 5) [] timed_out).1 ≡ timeout
unfolding endpoint execute_once close bind_parameters normalize allowed_names bind_all_definitions
    begin
timed_out_call = refl

bad_body : (endpoint around empty orders (call not_json 5) [] response).1 ≡ bad_json
unfolding endpoint
bad_body = refl

endpoint_once_example :
    ran
      (endpoint around
        (run around.sha256 24
          (endpoint around empty orders (call no_body 5) (abandons 2 ∷ []) response).0
          (abandons 3 ∷ []))
        orders
        (call no_body 9)
        []
        response).1
    ≡ false
endpoint_once_example =
    endpoint_once around orders empty (call no_body 5) (call no_body 9) (abandons 2 ∷ [])
      (abandons 3 ∷ []) [] response response refl refl refl refl ((λ e. omega arith), tt)
      ((λ e. omega arith), tt) (omega arith) first_call

takes : {A : Type 0} → A → Bool
takes a = true

compiles : Text → Bool
compiles rule = true

abbrev tables : Tables
tables = record {
  queries =
      record {
        id = 1;
        route_path = codes "/a";
        method = codes "GET";
        query_sql = codes "select a from t";
        description = [];
        tags = [];
        is_active = true;
      }
      ∷ record {
        id = 2;
        route_path = codes "/b/{ID}";
        method = codes "GET";
        query_sql = codes "select b from t";
        description = [];
        tags = [];
        is_active = true;
      }
      ∷ [];
  next_query = 3;
  parameters = [];
  next_parameter = 1;
}

-- The placeholder of the second has no parameter, so that one is passed over.
loaded : length (load_routes ascii python compiles takes tables) ≡ 1
unfolding compiles takes load_routes fire2api.Catalog.get_all_queries
    fire2api.Catalog.get_query_parameters fire2api.Catalog.routes_in_order fire2api.Catalog.in_order
    fire2api.Catalog.Drafts.validate_parameter_configuration fire2api.Sql.Validate.validate_query
    fire2api.Sql.Parens.balanced fire2api.Sql.Validate.statement_type fire2api.Sql.Words.tokens
    fire2api.Text.lstrip fire2api.Text.rstrip fire2api.Query.Detect.detect_parameters
    fire2api.Query.Detect.path_names fire2api.Query.Detect.is_reserved fire2api.Query.Detect.collect
    fire2api.Text.starts_with fire2api.Query.Binds.named_binds fire2api.Query.Binds.binds_from
    fire2api.Sql.Comments.strip_comments fire2api.Sql.Literals.strip_literals
loaded = refl

load_routes-IsServed_example :
    All (IsServed ascii python compiles takes) (load_routes ascii python compiles takes tables)
load_routes-IsServed_example = load_routes-IsServed ascii python compiles takes tables

abbrev is_even : ℕ → Bool
is_even n = n % 2 == 0

abbrev is_nine : ℕ → Bool
is_nine n = n == 9

replaced_routes :
    apply_to_app is_even is_nine (2 ∷ 4 ∷ []) (1 ∷ 8 ∷ 9 ∷ 3 ∷ []) ≡ 1 ∷ 2 ∷ 4 ∷ 9 ∷ 3 ∷ []
unfolding apply_to_app
replaced_routes = refl

apply_to_app-replaces_example :
    apply_to_app is_even is_nine
      (6 ∷ [])
      (apply_to_app is_even is_nine (2 ∷ 4 ∷ []) (1 ∷ 9 ∷ 3 ∷ []))
    ≡ apply_to_app is_even is_nine (6 ∷ []) (1 ∷ 9 ∷ 3 ∷ [])
apply_to_app-replaces_example =
    apply_to_app-replaces is_even is_nine (2 ∷ 4 ∷ []) (6 ∷ []) (1 ∷ 9 ∷ 3 ∷ []) (refl, (refl, tt))
