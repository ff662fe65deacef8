-- ===== src/Catalog.antt =====
-- The tables `queries` and `parameters` and the operations of app/core/query_service.py on them,
-- each a transaction. The columns created_at and updated_at, which nothing reads, are left out.
pub mod Routes
pub mod Consistent
pub mod Drafts
pub mod Save
pub mod Parameters
pub mod Sync
pub mod Merge
mod Tests
use fire2api.Base.{
  ℕ, zero, suc, ◌+◌, ◌≡◌, Bool, true, false, ◌&&◌, ◌||◌, not, List, [], ◌∷◌, ◌++◌, Option, none,
  some, ◌==◌, nat_eq, list_eq, pair_eq, if◌then◌else◌, keep_if, any, ltb, leb, max, length, all,
}
use fire2api.Text.{Text, Unicode, upper, is_upper, is_name_start, is_name_char}
use fire2api.Sql.Validate.{Refusal, Verdict, valid, invalid, validate_query}
use fire2api.Query.Convert.{ParamType, no_type}
use fire2api.Query.Detect.{Source}
use fire2api.Query.Parameters.{Definition}
use fire2api.Catalog.Routes.{normalize_route_path}

pub record Route : Type 0 where
  pub id : ℕ
  pub route_path : Text
  pub method : Text
  pub query_sql : Text
  pub description : Text
  pub tags : Text
  pub is_active : Bool

pub record Parameter : Type 0 where
  pub id : ℕ
  pub query_id : ℕ
  pub position : ℕ
  pub definition : Definition
  pub description : Option Text

-- The rows, and the next values of the AUTOINCREMENT columns.
pub record Tables : Type 0 where
  pub queries : List Route
  pub next_query : ℕ
  pub parameters : List Parameter
  pub next_parameter : ℕ

-- The fields of a request that writes a route.
pub record RouteData : Type 0 where
  pub route_path : Text
  pub method : Text
  pub query_sql : Text
  pub description : Text
  pub tags : Text
  pub is_active : Bool

pub data Created : Type 0 where
  created : ℕ → Created
  refused : Refusal → Created
  taken : Created

pub data Updated : Type 0 where
  updated : Bool → Updated
  not_valid : Refusal → Updated
  key_taken : Updated

abbrev pub key_of : Route → Text × Text
key_of r = (r.route_path, r.method)

abbrev pub has_key : Text × Text → List Route → Bool
has_key k = any (λ r. key_of r == k)

abbrev pub has_id : ℕ → List Route → Bool
has_id id = any (λ r. r.id == id)

abbrev pub find : ℕ → List Route → Option Route
find id [] = none
find id (r ∷ rs) = if r.id == id then some r else find id rs

abbrev pub with_data : Unicode → RouteData → Route → Route
with_data u d r = record r {
  route_path = normalize_route_path u d.route_path;
  method = upper u d.method;
  query_sql = d.query_sql;
  description = d.description;
  tags = d.tags;
  is_active = d.is_active;
}

abbrev pub new_route : Unicode → RouteData → ℕ → Route
new_route u d id = record {
  id = id;
  route_path = normalize_route_path u d.route_path;
  method = upper u d.method;
  query_sql = d.query_sql;
  description = d.description;
  tags = d.tags;
  is_active = d.is_active;
}

-- The insertion, which the unique constraint on path and method may refuse.
abbrev pub insert_route : Unicode → Tables → RouteData → Tables × Created
insert_route u t d =
    if has_key (key_of (new_route u d t.next_query)) t.queries then (t, taken) else (
      record t {
        queries = t.queries ++ new_route u d t.next_query ∷ [];
        next_query = t.next_query + 1;
      },
      created t.next_query,
    )

abbrev pub create_valid : Unicode → Tables → RouteData → Verdict → Tables × Created
create_valid u t d (invalid r) = (t, refused r)
create_valid u t d (valid type) = insert_route u t d

unfoldable pub create_query : Unicode → Tables → RouteData → Tables × Created
create_query u t d = create_valid u t d (validate_query u d.query_sql d.method)

abbrev pub update_rows : Unicode → RouteData → ℕ → List Route → List Route
update_rows u d id [] = []
update_rows u d id (r ∷ rs) = (if r.id == id then with_data u d r else r) ∷ update_rows u d id rs

-- Another row has the key already.
abbrev pub has_other : ℕ → Text × Text → List Route → Bool
has_other id k = any (λ r. not (r.id == id) && key_of r == k)

abbrev pub update_route : Unicode → Tables → ℕ → RouteData → Tables × Updated
update_route u t id d =
    if has_id id t.queries && has_other id (key_of (new_route u d id)) t.queries
    then (t, key_taken)
    else (record t { queries = update_rows u d id t.queries }, updated (has_id id t.queries))

abbrev pub update_valid : Unicode → Tables → ℕ → RouteData → Verdict → Tables × Updated
update_valid u t id d (invalid r) = (t, not_valid r)
update_valid u t id d (valid type) = update_route u t id d

unfoldable pub update_query : Unicode → Tables → ℕ → RouteData → Tables × Updated
update_query u t id d = update_valid u t id d (validate_query u d.query_sql d.method)

-- `ON DELETE CASCADE` takes the parameters along.
unfoldable pub delete_query : Tables → ℕ → Tables × Bool
delete_query t id = (
  record t {
    queries = keep_if (λ r. not (r.id == id)) t.queries;
    parameters = keep_if (λ p. not (p.query_id == id)) t.parameters;
  },
  has_id id t.queries,
)

-- `COLLATE NOCASE`: the letters A to Z are those of a to z.
abbrev pub fold_case : Text → Text
fold_case [] = []
fold_case (c ∷ s) = (if is_upper c then c + 32 else c) ∷ fold_case s

abbrev pub text_le : Text → Text → Bool
text_le [] t = true
text_le (c ∷ s) [] = false
text_le (c ∷ s) (d ∷ t) = ltb c d || (c == d && text_le s t)

-- `ORDER BY position, name`.
abbrev pub comes_before : Parameter → Parameter → Bool
comes_before p q =
    ltb p.position q.position
    || (p.position == q.position
        && text_le (fold_case p.definition.name) (fold_case q.definition.name))

unfoldable pub insert_ordered : Parameter → List Parameter → List Parameter
insert_ordered p [] = p ∷ []
insert_ordered p (q ∷ qs) =
    let rest = insert_ordered p qs in if comes_before p q then p ∷ q ∷ qs else q ∷ rest

unfoldable pub in_order : List Parameter → List Parameter
unfolding insert_ordered
in_order [] = []
in_order (p ∷ ps) = insert_ordered p (in_order ps)

-- `_normalize_parameter` of each row.
abbrev pub normalized : Unicode → Parameter → Definition
normalized u p = record (p.definition) { name = upper u p.definition.name }

abbrev pub normalized_all : Unicode → List Parameter → List Definition
normalized_all u [] = []
normalized_all u (p ∷ ps) = normalized u p ∷ normalized_all u ps

unfoldable pub get_query_parameters : Unicode → Tables → ℕ → List Definition
unfolding in_order
get_query_parameters u t id =
    normalized_all u (in_order (keep_if (λ p. p.query_id == id) t.parameters))

abbrev pub with_parameters : Unicode → Tables → Option Route → Option (Route × List Definition)
with_parameters u t none = none
with_parameters u t (some r) = some (r, get_query_parameters u t r.id)

unfoldable pub get_query_by_id : Unicode → Tables → ℕ → Option (Route × List Definition)
unfolding get_query_parameters
get_query_by_id u t id = with_parameters u t (find id t.queries)

abbrev pub find_active : Text × Text → List Route → Option Route
find_active k [] = none
find_active k (r ∷ rs) = if key_of r == k && r.is_active then some r else find_active k rs

unfoldable pub get_query_by_path : Unicode → Tables → Text → Text → Option (Route × List Definition)
unfolding get_query_parameters
get_query_by_path u t route_path method =
    with_parameters u t (find_active (normalize_route_path u route_path, upper u method) t.queries)

-- `ORDER BY route_path, method`.
abbrev pub route_before : Route → Route → Bool
route_before r q =
    if r.route_path == q.route_path
    then text_le r.method q.method
    else text_le r.route_path q.route_path

unfoldable pub insert_route_ordered : Route → List Route → List Route
insert_route_ordered r [] = r ∷ []
insert_route_ordered r (q ∷ qs) =
    let rest = insert_route_ordered r qs in if route_before r q then r ∷ q ∷ qs else q ∷ rest

unfoldable pub routes_in_order : List Route → List Route
unfolding insert_route_ordered
routes_in_order [] = []
routes_in_order (r ∷ rs) = insert_route_ordered r (routes_in_order rs)

abbrev pub with_all_parameters : Unicode → Tables → List Route → List (Route × List Definition)
with_all_parameters u t [] = []
with_all_parameters u t (r ∷ rs) = (r, get_query_parameters u t r.id) ∷ with_all_parameters u t rs

unfoldable pub get_all_queries : Unicode → Tables → Bool → List (Route × List Definition)
unfolding routes_in_order get_query_parameters
get_all_queries u t active_only =
    with_all_parameters u t
      (routes_in_order (if active_only then keep_if (λ r. r.is_active) t.queries else t.queries))
