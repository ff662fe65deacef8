-- ===== src/Catalog/Sync.antt =====
-- `QueryService.sync_detected_parameters`: the parameters that a stored route's path and statement
-- name, added where they are missing.
use fire2api.Base.{
  ℕ, ◌+◌, true, ◌&&◌, ◌||◌, not, List, [], ◌∷◌, ◌++◌, Option, none, some, ◌==◌, nat_eq, list_eq,
  if◌then◌else◌, keep_if,
}
use fire2api.Text.{Text, Unicode, codes, upper, mem}
use fire2api.Query.Convert.{a_string}
use fire2api.Query.Detect.{path, Detected, detect_parameters, names_of}
use fire2api.Query.Parameters.{Definition, is_in}
use fire2api.Catalog.{Route, Parameter, Tables, find, in_order, get_query_parameters}
use fire2api.Catalog.Save.{name_taken, map_row}
use fire2api.Catalog.Parameters.{max_position}

pub record Report : Type 0 where
  pub created : List Text
  pub updated : List Text
  pub detected_names : List Text
  pub stale_names : List Text
  pub parameters : List Definition

-- A ValueError for an unknown route, an IntegrityError, or the report.
pub data Synced : Type 0 where
  no_query clash : Synced
  synced : Report → Synced

-- `existing[name]`: the last of the rows with that canonical name.
abbrev pub existing_row : Unicode → Text → List Parameter → Option Parameter
existing_row u name [] = none
existing_row u name (p ∷ ps) = elim (existing_row u name ps) [
  | some q ↦ some q
  | none ↦ if upper u (upper u p.definition.name) == name then some p else none
]

pub record Progress : Type 0 where
  pub rows : List Parameter
  pub next : ℕ
  pub position : ℕ
  pub created : List Text
  pub updated : List Text

abbrev pub detected_row : ℕ → ℕ → ℕ → Detected → Parameter
detected_row id q position c = record {
  id = id;
  query_id = q;
  position = position;
  definition = record {
    name = c.name;
    param_type = a_string;
    place = c.source;
    default_value = none;
    required = true;
    validation_rule = none;
  };
  description = some (codes "Detectado automaticamente pelo editor");
}

-- `SET source = 'path', required = 1`.
abbrev pub as_path : Parameter → Parameter
as_path p = record p { definition = record (p.definition) { place = path; required = true } }

abbrev pub sync_candidate : ℕ → Detected → Option Parameter → Progress → Option Progress
sync_candidate q c none s =
    if name_taken q s.next c.name s.rows
    then none
    else some (record s {
      rows = s.rows ++ detected_row s.next q (s.position + 1) c ∷ [];
      next = s.next + 1;
      position = s.position + 1;
      created = s.created ++ c.name ∷ [];
    })
sync_candidate q c (some p) s =
    if is_in path c.source && (not (is_in path p.definition.place) || not p.definition.required)
    then some
        (record s { rows = map_row q p.id as_path s.rows; updated = s.updated ++ c.name ∷ [] })
    else some s

abbrev pub go_on : Option Progress → (Progress → Option Progress) → Option Progress
go_on none f = none
go_on (some s) f = f s

-- The loop; the dictionary of the rows is read before it.
unfoldable pub sync_candidates :
    Unicode → ℕ → List Parameter → List Detected → Progress → Option Progress
sync_candidates u q existing [] s = some s
sync_candidates u q existing (c ∷ cs) s =
    go_on (sync_candidate q c (existing_row u (upper u c.name) existing) s)
      (sync_candidates u q existing cs)

abbrev pub names_of_definitions : List Definition → List Text
names_of_definitions [] = []
names_of_definitions (d ∷ ds) = d.name ∷ names_of_definitions ds

-- The names of the parameters that nothing names any more.
abbrev pub stale : Unicode → List Text → List Text → List Text
stale u detected = keep_if (λ name. not (mem (upper u name) detected))

abbrev pub with_progress : Tables → Progress → Tables
with_progress t s = record t { parameters = s.rows; next_parameter = s.next }

abbrev pub reported : Unicode → Tables → ℕ → List Text → Progress → Report
reported u t q detected s = record {
  created = s.created;
  updated = s.updated;
  detected_names = detected;
  stale_names = stale u detected (names_of_definitions (get_query_parameters u t q));
  parameters = get_query_parameters u t q;
}

abbrev pub sync_commit : Unicode → Tables → ℕ → List Text → Option Progress → Tables × Synced
sync_commit u t q detected none = (t, clash)
sync_commit u t q detected (some s) =
    (with_progress t s, synced (reported u (with_progress t s) q detected s))

abbrev pub sync_start : Tables → ℕ → Progress
sync_start t q = record {
  rows = t.parameters;
  next = t.next_parameter;
  position = max_position q t.parameters;
  created = [];
  updated = [];
}

abbrev pub sync_query : Unicode → Tables → ℕ → Option Route → Tables × Synced
sync_query u t q none = (t, no_query)
sync_query u t q (some r) =
    sync_commit u t q (names_of (detect_parameters u r.route_path r.query_sql r.method)) (
      sync_candidates u q (in_order (keep_if (λ p. p.query_id == q) t.parameters))
        (detect_parameters u r.route_path r.query_sql r.method) (sync_start t q))

unfoldable pub sync_detected_parameters : Unicode → Tables → ℕ → Tables × Synced
unfolding sync_candidates
sync_detected_parameters u t q = sync_query u t q (find q t.queries)
