-- ===== src/Catalog/Parameters.antt =====
-- One parameter of a stored route: `get_parameter_by_id`, `add_parameter`, `update_parameter`,
-- `delete_parameter` and `reorder_parameters` of app/core/query_service.py.
pub mod Ranked
use fire2api.Base.{
  ℕ, zero, suc, ◌+◌, ◌≡◌, Bool, true, false, ◌&&◌, ◌||◌, not, List, [], ◌∷◌, ◌++◌, Option, none,
  some, ◌==◌, nat_eq, list_eq, if◌then◌else◌, keep_if, any, all, max,
}
use fire2api.Text.{Text, Unicode, upper}
use fire2api.Query.Parameters.{Definition}
use fire2api.Catalog.{Route, Parameter, Tables, has_id, normalized}
use fire2api.Catalog.Drafts.{Draft, Problem, validate_parameter_data}
use fire2api.Catalog.Save.{source_of, name_taken, mem_id, distinct_ids, existing_ids}

-- How a write ends: an id, whether a row changed, a ValueError, or an IntegrityError.
pub data Written : Type 0 where
  added : ℕ → Written
  changed : Bool → Written
  bad_data : Problem → Written
  violated : Written

abbrev pub find_parameter : ℕ → List Parameter → Option Parameter
find_parameter id [] = none
find_parameter id (p ∷ ps) = if p.id == id then some p else find_parameter id ps

abbrev pub normalized_option : Unicode → Option Parameter → Option Definition
normalized_option u none = none
normalized_option u (some p) = some (normalized u p)

abbrev pub get_parameter_by_id : Unicode → Tables → ℕ → Option Definition
get_parameter_by_id u t id = normalized_option u (find_parameter id t.parameters)

-- `SELECT COALESCE(MAX(position), 0)`.
unfoldable pub max_position : ℕ → List Parameter → ℕ
max_position q [] = 0
max_position q (p ∷ ps) =
    let rest = max_position q ps in if p.query_id == q then max p.position rest else rest

-- The columns of a request, whose empty texts stay as they are.
abbrev pub written : Unicode → ℕ → ℕ → ℕ → Draft → Parameter
written u id q position d = record {
  id = id;
  query_id = q;
  position = position;
  definition = record {
    name = upper u d.name;
    param_type = d.param_type;
    place = source_of d.source;
    default_value = d.default_value;
    required = d.required;
    validation_rule = d.validation_rule;
  };
  description = d.description;
}

-- `if not position`.
abbrev pub position_or : ℕ → Option ℕ → ℕ
position_or n none = n
position_or n (some zero) = n
position_or n (some (suc k)) = suc k

-- The insertion, under the foreign key and the unique constraint.
abbrev pub insert_parameter : Unicode → Tables → ℕ → Option ℕ → Draft → Tables × Written
insert_parameter u t q position d =
    if not (has_id q t.queries) || name_taken q t.next_parameter (upper u d.name) t.parameters
    then (t, violated)
    else (
      record t {
        parameters =
            t.parameters
            ++ written u t.next_parameter q (position_or (max_position q t.parameters + 1) position)
                d
              ∷ [];
        next_parameter = t.next_parameter + 1;
      },
      added t.next_parameter,
    )

abbrev pub replace_parameter : ℕ → (Parameter → Parameter) → List Parameter → List Parameter
replace_parameter id f [] = []
replace_parameter id f (p ∷ ps) = (if p.id == id then f p else p) ∷ replace_parameter id f ps

abbrev pub rewrite_parameter :
    Unicode → Tables → ℕ → Option ℕ → Draft → Option Parameter → Tables × Written
rewrite_parameter u t id position d none = (t, changed false)
rewrite_parameter u t id position d (some p) =
    if name_taken p.query_id id (upper u d.name) t.parameters then (t, violated) else (
      record t {
        parameters =
            replace_parameter id (λ r. written u r.id r.query_id (position_or 1 position) d)
              t.parameters;
      },
      changed true,
    )

abbrev pub unless_bad : Tables → Option Problem → Tables × Written → Tables × Written
unless_bad t none next = next
unless_bad t (some p) next = (t, bad_data p)

module _ (u : Unicode) (compiles : Text → Bool) where
  unfoldable pub add_parameter : Tables → ℕ → Option ℕ → Draft → Tables × Written
  unfolding max_position
  add_parameter t q position d =
      unless_bad t (validate_parameter_data compiles d) (insert_parameter u t q position d)

  unfoldable pub update_parameter : Tables → ℕ → Option ℕ → Draft → Tables × Written
  update_parameter t id position d =
      unless_bad t (validate_parameter_data compiles d)
        (rewrite_parameter u t id position d (find_parameter id t.parameters))

abbrev pub has_parameter : ℕ → List Parameter → Bool
has_parameter id = any (λ p. p.id == id)

unfoldable pub delete_parameter : Tables → ℕ → Tables × Bool
delete_parameter t id = (
  record t { parameters = keep_if (λ p. not (p.id == id)) t.parameters },
  has_parameter id t.parameters,
)

-- `UPDATE parameters SET position = ? WHERE id = ?`, for each id from `position` on.
unfoldable pub set_positions : ℕ → List ℕ → List Parameter → List Parameter
set_positions position [] rows = rows
set_positions position (id ∷ ids) rows =
    set_positions (position + 1) ids
      (replace_parameter id (λ p. record p { position = position }) rows)

abbrev pub is_none_given : List ℕ → Bool
is_none_given [] = true
is_none_given (id ∷ ids) = false

abbrev pub same_ids : List ℕ → List ℕ → Bool
same_ids is js = all (λ i. mem_id i js) is && all (λ j. mem_id j is) js

unfoldable pub reorder_parameters : Tables → ℕ → List ℕ → Tables × Bool
unfolding set_positions
reorder_parameters t q ids =
    if is_none_given ids || not (distinct_ids ids)
    then (t, false)
    else if same_ids (existing_ids q t.parameters) ids
    then (record t { parameters = set_positions 1 ids t.parameters }, true)
    else (t, false)
