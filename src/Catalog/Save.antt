-- ===== src/Catalog/Save.antt =====
-- `QueryService.save_query_configuration`: a route and all of its parameters in one transaction,
-- which is rolled back where the code raises.
pub mod Others
pub mod Frame
pub mod HasRow
pub mod Columns
pub mod Rounds
pub mod Existing
pub mod Stored
use fire2api.Base.{
  ℕ, pos, zero, suc, ◌+◌, ◌≡◌, Bool, true, false, ◌&&◌, ◌||◌, not, List, [], ◌∷◌, ◌++◌, Option,
  none, some, ◌==◌, nat_eq, list_eq, pair_eq, if◌then◌else◌, keep_if, any, all,
}
use fire2api.Text.{Text, Unicode, codes, upper}
use fire2api.Query.Convert.{integer, Python}
use fire2api.Query.Detect.{Source, query}
use fire2api.Query.Parameters.{Definition}
use fire2api.Catalog.{
  Route, Parameter, Tables, RouteData, Created, created, refused, taken, Updated, updated,
  not_valid, key_taken, insert_route, update_route, fold_case,
}
use fire2api.Catalog.Routes.{normalize_route_path}
use fire2api.Catalog.Drafts.{Draft, Problem, validate_parameter_configuration}

-- How it ends: the id, a ValueError by its cause, or an IntegrityError.
pub data Saved : Type 0 where
  saved : ℕ → Saved
  rejected : Problem → Saved
  not_found not_of_route integrity : Saved

abbrev pub source_of : Option Source → Source
source_of none = query
source_of (some s) = s

-- `x or None`.
abbrev pub or_none : Option Text → Option Text
or_none none = none
or_none (some []) = none
or_none (some (c ∷ s)) = some (c ∷ s)

-- The columns of a draft whose name is canonical.
abbrev pub definition_of : Draft → Definition
definition_of d = record {
  name = d.name;
  param_type = d.param_type;
  place = source_of d.source;
  default_value = or_none d.default_value;
  required = d.required;
  validation_rule = or_none d.validation_rule;
}

abbrev pub row_of : ℕ → ℕ → ℕ → Draft → Parameter
row_of id q position d = record {
  id = id;
  query_id = q;
  position = position;
  definition = definition_of d;
  description = or_none d.description;
}

abbrev pub is_row : ℕ → ℕ → Parameter → Bool
is_row q id p = p.id == id && p.query_id == q

-- Another row of the route has the name: the unique constraint, with its collation.
abbrev pub name_taken : ℕ → ℕ → Text → List Parameter → Bool
name_taken q id name =
    any
      (λ p. p.query_id == q && (not (p.id == id) && fold_case p.definition.name == fold_case name))

abbrev pub map_row : ℕ → ℕ → (Parameter → Parameter) → List Parameter → List Parameter
map_row q id f [] = []
map_row q id f (p ∷ ps) = (if is_row q id p then f p else p) ∷ map_row q id f ps

-- `UPDATE parameters SET name = ?, ... WHERE id = ? AND query_id = ?`.
abbrev pub update_parameter_row :
    ℕ → ℕ → Text → (Parameter → Parameter) → List Parameter → Option (List Parameter)
update_parameter_row q id name f rows =
    if any (is_row q id) rows && name_taken q id name rows then none else some (map_row q id f rows)

abbrev pub with_name : Text → Parameter → Parameter
with_name name p = record p { definition = record (p.definition) { name = name } }

abbrev pub bind_rows :
    Option (List Parameter) → (List Parameter → Option (List Parameter)) → Option (List Parameter)
bind_rows none f = none
bind_rows (some rows) f = f rows

-- The temporary names of the retained rows.
unfoldable pub rename_all : (ℕ → Text) → ℕ → List ℕ → List Parameter → Option (List Parameter)
rename_all temporary q [] rows = some rows
rename_all temporary q (id ∷ ids) rows =
    bind_rows (update_parameter_row q id (temporary id) (with_name (temporary id)) rows)
      (rename_all temporary q ids)

abbrev pub Rows : Type 0
Rows = List Parameter × ℕ

abbrev pub stored_at : ℕ → Option (List Parameter) → Option Rows
stored_at next none = none
stored_at next (some rows) = some (rows, next)

-- One round of the last loop: the insertion of a new row, or the update of a retained one.
abbrev pub store_draft : ℕ → ℕ → Draft → Option ℕ → Rows → Option Rows
store_draft q position d none (rows, next) =
    if name_taken q next d.name rows
    then none
    else some (rows ++ row_of next q position d ∷ [], next + 1)
store_draft q position d (some id) (rows, next) =
    stored_at next (update_parameter_row q id d.name (λ p. row_of p.id p.query_id position d) rows)

abbrev pub and_then : Option Rows → (Rows → Option Rows) → Option Rows
and_then none f = none
and_then (some r) f = f r

unfoldable pub store_all : ℕ → ℕ → List Draft → Rows → Option Rows
store_all q position [] r = some r
store_all q position (d ∷ ds) r =
    and_then (store_draft q position d d.id r) (store_all q (position + 1) ds)

abbrev pub with_id : Option ℕ → List ℕ → List ℕ
with_id none ids = ids
with_id (some id) ids = id ∷ ids

abbrev pub retained_ids : List Draft → List ℕ
retained_ids [] = []
retained_ids (d ∷ ds) = with_id d.id (retained_ids ds)

abbrev pub mem_id : ℕ → List ℕ → Bool
mem_id id = any (λ i. i == id)

abbrev pub distinct_ids : List ℕ → Bool
distinct_ids [] = true
distinct_ids (i ∷ is) = not (mem_id i is) && distinct_ids is

abbrev pub existing_ids : ℕ → List Parameter → List ℕ
existing_ids q [] = []
existing_ids q (p ∷ ps) =
    let rest = existing_ids q ps in if p.query_id == q then p.id ∷ rest else rest

-- The rows without those of the route that are not retained.
abbrev pub without_removed : ℕ → List ℕ → List Parameter → List Parameter
without_removed q ids = keep_if (λ p. not (p.query_id == q) || mem_id p.id ids)

abbrev pub canonical_drafts : Unicode → List Draft → List Draft
canonical_drafts u [] = []
canonical_drafts u (d ∷ ds) = record d { name = upper u d.name } ∷ canonical_drafts u ds

abbrev pub commit : Tables → Tables → ℕ → Option Rows → Tables × Saved
commit t t' q none = (t, integrity)
commit t t' q (some (rows, next)) =
    (record t' { parameters = rows; next_parameter = next }, saved q)

module _ (temporary : ℕ → Text) where
  abbrev pub store_snapshot : ℕ → List Draft → Rows → Option Rows
  store_snapshot q ds (rows, next) =
      and_then
        (stored_at next
          (rename_all temporary q (retained_ids ds) (without_removed q (retained_ids ds) rows)))
        (store_all q 1 ds)

  -- The parameters, behind the route; `t` is what a rollback returns to.
  abbrev pub save_parameters : Tables → Tables → ℕ → List Draft → Tables × Saved
  save_parameters t t' q ds =
      if distinct_ids (retained_ids ds)
        && all (λ id. mem_id id (existing_ids q t'.parameters)) (retained_ids ds)
      then commit t t' q (store_snapshot q ds (t'.parameters, t'.next_parameter))
      else (t, not_of_route)

  abbrev pub after_insert : Tables → List Draft → Tables × Created → Tables × Saved
  after_insert t ds (t', created id) = save_parameters t t' id ds
  after_insert t ds (t', _) = (t, integrity)

  abbrev pub after_update : Tables → ℕ → List Draft → Tables × Updated → Tables × Saved
  after_update t id ds (t', updated true) = save_parameters t t' id ds
  after_update t id ds (t', updated false) = (t, not_found)
  after_update t id ds (t', _) = (t, integrity)

  abbrev pub save_checked :
      Unicode → Tables → Option ℕ → RouteData → List Draft → Option Problem → Tables × Saved
  save_checked u t id d ds (some p) = (t, rejected p)
  save_checked u t none d ds none = after_insert t ds (insert_route u t d)
  save_checked u t (some id) d ds none = after_update t id ds (update_route u t id d)

  unfoldable pub save_query_configuration :
      (u : Unicode)
      → {O : Type 0} → Python O
      → (Text → Bool)
      → Tables
      → Option ℕ
      → RouteData
      → List Draft
      → Tables × Saved
  unfolding rename_all store_all
  save_query_configuration u py compiles t id d ds = save_checked u t id d (canonical_drafts u ds) (
      validate_parameter_configuration u py compiles (normalize_route_path u d.route_path)
        d.query_sql (upper u d.method) (canonical_drafts u ds))
