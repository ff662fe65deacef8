-- ===== src/Query/Parameters/Tests.antt =====
-- The parameters of one route on concrete requests.
use fire2api.Base.{
  pos, ℕ, ◌≡◌, ◌||◌, refl, true, false, List, [], ◌∷◌, Option, none, some, Dict, get, put, All,
  nat_eq, list_eq,
}
use fire2api.Text.{Text, codes, upper, mem, lstrip, rstrip}
use fire2api.Text.Ascii.{ascii}
use fire2api.Query.Convert.{
  Value, boolean, integer, string, ok, fails, duplicate, missing, Python, an_integer, a_boolean,
  to_bool, convert_value,
}
use fire2api.Query.Detect.{path, query}
use fire2api.Query.Parameters.{
  Definition, Field, Sources, source, extras, Options, normalize, normalized_sources, allowed_names,
  bound_value, bind_all_definitions, bind_parameters,
}
use fire2api.Query.Parameters.Bound.{HasBound, bind_parameters-HasBound}
use fire2api.Query.Parameters.Known.{bind_parameters-known}

-- `int` of the texts "5" and "20"; no floats and no dates.
abbrev python : Python ℕ
python = record {
  show = λ v. codes "True";
  parse_int = λ s. elim s [ [] ↦ none | c ∷ r ↦ some (pos (elim r [ [] ↦ 5 | d ∷ q ↦ 20 ])) ];
  truncate = λ o. ok (pos o);
  to_float = λ v. none;
  is_true = λ o. true;
  is_date = λ o. false;
  is_datetime = λ o. false;
  parse_date = λ s. none;
  parse_datetime = λ s. none;
  full_match = λ rule s. true;
}

abbrev definitions : List Definition
definitions =
    record {
      name = codes "ID";
      param_type = an_integer;
      place = path;
      default_value = none;
      required = true;
      validation_rule = none;
    }
    ∷ record {
      name = codes "open";
      param_type = a_boolean;
      place = query;
      default_value = some (codes " Sim ");
      required = false;
      validation_rule = none;
    }
    ∷ []

abbrev request : Sources (List (Field ℕ))
request = record {
  path_values = (codes "id", some (string (codes "20"))) ∷ [];
  query_values = (codes "limit", some (string (codes "5"))) ∷ [];
  body_values = [];
}

abbrev bound : Dict Text (Option (Value ℕ))
bound = (codes "ID", some (integer (pos 20))) ∷ (codes "OPEN", some (boolean true)) ∷ []

abbrev options : Options ℕ
options = record { limit = some (string (codes "5")); offset = none; order_by = none }

accepted : bind_parameters ascii python definitions request ≡ ok (bound, options)
unfolding bind_parameters normalize allowed_names bind_all_definitions bound_value convert_value
    to_bool get put lstrip rstrip
accepted = refl

missing_id :
    bind_parameters ascii python definitions (record request { path_values = [] }) ≡ fails missing
unfolding bind_parameters normalize allowed_names bind_all_definitions bound_value convert_value
    to_bool get put lstrip rstrip
missing_id = refl

twice :
    bind_parameters ascii python definitions
      (record request { body_values = (codes "a", none) ∷ (codes "A", none) ∷ [] })
    ≡ fails duplicate
unfolding bind_parameters normalize get put
twice = refl

bind_parameters-HasBound_example :
    (s : Sources (Dict Text (Option (Value ℕ)))) × (normalized_sources ascii python request ≡ ok s)
    × All (HasBound ascii python s bound) definitions
bind_parameters-HasBound_example =
    bind_parameters-HasBound ascii python definitions request bound options (refl, (refl, tt))
      accepted

bind_parameters-known_example :
    All
      (λ (f : Field ℕ).
        (mem (upper ascii f.0) (allowed_names ascii python query definitions)
          || mem (upper ascii f.0) (extras query))
        ≡ true)
      (source query request)
bind_parameters-known_example =
    bind_parameters-known ascii python definitions request bound options query accepted
