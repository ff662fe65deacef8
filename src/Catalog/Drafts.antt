-- ===== src/Catalog/Drafts.antt =====
-- Parameters as they are edited, `QueryService._validate_parameter_data` and
-- `validate_parameter_configuration`. Which texts `re.compile` takes is an argument.
pub mod Configured
use fire2api.Base.{
  ℕ, ◌≡◌, Bool, true, false, ◌&&◌, ◌||◌, not, List, [], ◌∷◌, ◌++◌, Option, none, some, ◌==◌, nat_eq,
  list_eq, if◌then◌else◌, any, all,
}
use fire2api.Text.{Text, Unicode, codes, upper, is_name_start, is_name_char, mem}
use fire2api.Sql.Validate.{Refusal, Verdict, valid, invalid, validate_query}
use fire2api.Query.Convert.{
  Value, string, Result, ok, fails, Python, ParamType, no_type, str, convert_value,
}
use fire2api.Query.Detect.{Source, path, query, body, detect_parameters, is_reserved, names_of}

-- `none` for a source that is not in `SOURCES`; `no_type` for a type that is not in `TYPES`.
pub record Draft : Type 0 where
  pub id : Option ℕ
  pub name : Text
  pub param_type : ParamType
  pub source : Option Source
  pub default_value : Option Text
  pub required : Bool
  pub description : Option Text
  pub validation_rule : Option Text

pub data Problem : Type 0 where
  bad_sql : Refusal → Problem
  bad_type bad_source bad_name bad_regex reserved_name bad_default not_unique : Problem
  not_configured wrong_path optional_path body_of_get : Problem

-- The first `raise` that is reached.
abbrev pub or_else : Option Problem → Option Problem → Option Problem
or_else none p = p
or_else (some q) p = some q

abbrev pub problem_if : Bool → Problem → Option Problem
problem_if b p = if b then some p else none

abbrev pub is_typed : ParamType → Bool
is_typed no_type = false
is_typed _ = true

abbrev pub has_source : Option Source → Bool
has_source none = false
has_source (some s) = true

-- `[A-Za-z_][A-Za-z0-9_]*`, all of the text.
abbrev pub is_name : Text → Bool
is_name [] = false
is_name (c ∷ s) = is_name_start c && all is_name_char s

abbrev pub is_regex : (Text → Bool) → Option Text → Bool
is_regex compiles none = true
is_regex compiles (some []) = true
is_regex compiles (some (c ∷ rule)) = compiles (c ∷ rule)

abbrev pub validate_parameter_data : (Text → Bool) → Draft → Option Problem
validate_parameter_data compiles d = or_else (problem_if (not (is_typed d.param_type)) bad_type) (
    or_else (problem_if (not (has_source d.source)) bad_source) (
      or_else (problem_if (not (is_name d.name)) bad_name)
        (problem_if (not (is_regex compiles d.validation_rule)) bad_regex)))

abbrev pub is_path : Option Source → Bool
is_path (some path) = true
is_path _ = false

abbrev pub is_body : Option Source → Bool
is_body (some body) = true
is_body _ = false

-- `len(names) == len(set(names))`.
abbrev pub is_distinct : List Text → Bool
is_distinct [] = true
is_distinct (w ∷ ws) = not (mem w ws) && is_distinct ws

abbrev pub all_in : List Text → List Text → Bool
all_in ws vs = all (λ w. mem w vs) ws

abbrev pub draft_names : Unicode → List Draft → List Text
draft_names u [] = []
draft_names u (d ∷ ds) = upper u d.name ∷ draft_names u ds

-- The names of the drafts that the path gives.
abbrev pub path_draft_names : Unicode → List Draft → List Text
path_draft_names u [] = []
path_draft_names u (d ∷ ds) =
    let rest = path_draft_names u ds in if is_path d.source then upper u d.name ∷ rest else rest

module _ (u : Unicode) {O : Type 0} (py : Python O) (compiles : Text → Bool) where
  abbrev pub meets_rule : Option Text → Value O → Bool
  meets_rule none v = true
  meets_rule (some []) v = true
  meets_rule (some (c ∷ rule)) v = py.full_match (c ∷ rule) (str u py v)

  abbrev pub converts : Result (Value O) → Option Text → Bool
  converts (fails _) rule = false
  converts (ok v) rule = meets_rule rule v

  -- The default value is of the type and matches the rule.
  abbrev pub has_default : Draft → Option Text → Bool
  has_default d none = true
  has_default d (some []) = true
  has_default d (some (c ∷ s)) =
      converts (convert_value u py (string (c ∷ s)) d.param_type) d.validation_rule

  abbrev pub check_draft : Draft → Option Problem
  check_draft d = or_else (validate_parameter_data compiles d) (
      or_else (problem_if (is_reserved (upper u d.name)) reserved_name)
        (problem_if (not (has_default d d.default_value)) bad_default))

  -- The loop over the parameters.
  abbrev pub check_drafts : List Draft → Option Problem
  check_drafts [] = none
  check_drafts (d ∷ ds) = or_else (check_draft d) (check_drafts ds)

  abbrev pub check_sql : Verdict → Option Problem
  check_sql (valid type) = none
  check_sql (invalid r) = some (bad_sql r)

  abbrev pub check_method : Text → Text → Text → List Draft → Option Problem
  check_method route_path query_sql method ds =
      or_else (check_sql (validate_query u query_sql method)) (
        or_else (check_drafts ds) (
          or_else (problem_if (not (is_distinct (draft_names u ds))) not_unique) (
            or_else
              (problem_if
                (not (
                  all_in (names_of (detect_parameters u route_path query_sql method))
                    (draft_names u ds)))
                not_configured)
              (or_else
                (problem_if
                  (not (
                    all_in (names_of (detect_parameters u route_path [] method))
                      (path_draft_names u ds)
                    && all_in (path_draft_names u ds)
                        (names_of (detect_parameters u route_path [] method))))
                  wrong_path)
                (or_else
                  (problem_if (any (λ (d : Draft). is_path d.source && not d.required) ds)
                    optional_path)
                  (problem_if (method == codes "GET" && any (λ (d : Draft). is_body d.source) ds)
                    body_of_get))))))

  unfoldable pub validate_parameter_configuration : Text → Text → Text → List Draft → Option Problem
  validate_parameter_configuration route_path query_sql method ds =
      check_method route_path query_sql (upper u method) ds
