-- ===== src/Query/Parameters.antt =====
-- `QueryService.bind_parameters`: the values of a request for the declared parameters.
pub mod Bound
pub mod Known
pub mod Values
mod Tests
use fire2api.Base.{
  ℕ, ◌≡◌, Bool, true, false, ◌&&◌, ◌||◌, not, List, [], ◌∷◌, ◌++◌, Option, none, some, ◌==◌, nat_eq,
  list_eq, if◌then◌else◌, all, Dict, get, put,
}
use fire2api.Text.{Text, Unicode, codes, upper, mem}
use fire2api.Query.Detect.{Source, path, query, body}
use fire2api.Query.Convert.{
  Value, string, Reason, duplicate, unknown, missing, bad_rule, Result, ok, fails, ◌>>=◌, Python,
  ParamType, str, convert_value,
}

pub record Definition : Type 0 where
  pub name : Text
  pub param_type : ParamType
  pub place : Source
  pub default_value : Option Text
  pub required : Bool
  pub validation_rule : Option Text

-- A field of a request: its name as it was given, and its value or None.
abbrev pub Field : Type 0 → Type 0
Field O = Text × Option (Value O)

-- `sources`, as they come and with canonical names.
pub record Sources (A : Type 0) : Type 0 where
  pub path_values : A
  pub query_values : A
  pub body_values : A

abbrev pub source : {A : Type 0} → Source → Sources A → A
source path s = s.path_values
source query s = s.query_values
source body s = s.body_values

abbrev pub is_in : Source → Source → Bool
is_in path path = true
is_in query query = true
is_in body body = true
is_in _ _ = false

-- `extras`, which the query string may hold besides.
abbrev pub extras : Source → List Text
extras query = codes "LIMIT" ∷ codes "OFFSET" ∷ codes "ORDER_BY" ∷ []
extras _ = []

pub record Options (O : Type 0) : Type 0 where
  pub limit : Option (Value O)
  pub offset : Option (Value O)
  pub order_by : Option (Value O)

-- `query_values.get(name)`: None where it is missing.
abbrev pub get_value : {O : Type 0} → Dict Text (Option (Value O)) → Text → Option (Value O)
get_value d name = elim (get d name) [ none ↦ none | some v ↦ v ]

module _ (u : Unicode) {O : Type 0} (py : Python O) where
  -- The fields of one source by their canonical names.
  unfoldable pub normalize :
      List (Field O) → Dict Text (Option (Value O)) → Result (Dict Text (Option (Value O)))
  normalize [] d = ok d
  normalize ((raw, v) ∷ fields) d =
      let rest = normalize fields (put d (upper u raw) v) in
      elim (get d (upper u raw)) [ none ↦ rest | some _ ↦ fails duplicate ]

  abbrev pub normalized_sources :
      Sources (List (Field O)) → Result (Sources (Dict Text (Option (Value O))))
  normalized_sources s = normalize s.path_values [] >>= (λ p. normalize s.query_values [] >>= (λ q.
      normalize s.body_values []
      >>= (λ b. ok (record { path_values = p; query_values = q; body_values = b }))))

  -- `allowed_by_source`.
  unfoldable pub allowed_names : Source → List Definition → List Text
  allowed_names p [] = []
  allowed_names p (d ∷ ds) =
      let rest = allowed_names p ds in if is_in p d.place then upper u d.name ∷ rest else rest

  -- No key of the source is unknown.
  abbrev pub is_known : Source → List Definition → Sources (Dict Text (Option (Value O))) → Bool
  is_known p ds s =
      all (λ (e : Text × Option (Value O)). mem e.0 (allowed_names p ds) || mem e.0 (extras p))
        (source p s)

  -- `if rule and re.fullmatch(rule, str(raw)) is None: raise`.
  abbrev pub check_rule : Option Text → Value O → Result (Option (Value O))
  check_rule none v = ok (some v)
  check_rule (some []) v = ok (some v)
  check_rule (some (c ∷ rule)) v =
      if py.full_match (c ∷ rule) (str u py v) then ok (some v) else fails bad_rule

  abbrev pub converted : Definition → Option (Value O) → Result (Option (Value O))
  converted d none = ok none
  converted d (some raw) = convert_value u py raw d.param_type >>= check_rule d.validation_rule

  -- The value of one definition, from what its source holds under its canonical name.
  abbrev pub chosen : Definition → Option (Option (Value O)) → Result (Option (Value O))
  chosen d (some raw) = ok raw
  chosen d none = elim d.default_value [
    | some text ↦ ok (some (string text))
    | none ↦ if d.required then fails missing else ok none
  ]

  unfoldable pub bound_value :
      Sources (Dict Text (Option (Value O))) → Definition → Result (Option (Value O))
  unfolding convert_value
  bound_value s d = chosen d (get (source d.place s) (upper u d.name)) >>= converted d

  -- The loop over the definitions.
  unfoldable pub bind_all_definitions :
      Sources (Dict Text (Option (Value O)))
      → List Definition
      → Dict Text (Option (Value O))
      → Result (Dict Text (Option (Value O)))
  unfolding bound_value
  bind_all_definitions s [] bound = ok bound
  bind_all_definitions s (d ∷ ds) bound =
      bound_value s d >>= (λ v. bind_all_definitions s ds (put bound (upper u d.name) v))

  abbrev pub options_of : Sources (Dict Text (Option (Value O))) → Options O
  options_of s = record {
    limit = get_value s.query_values (codes "LIMIT");
    offset = get_value s.query_values (codes "OFFSET");
    order_by = get_value s.query_values (codes "ORDER_BY");
  }

  abbrev pub bind_known :
      List Definition
      → Sources (Dict Text (Option (Value O)))
      → Result (Dict Text (Option (Value O)) × Options O)
  bind_known ds s =
      if is_known path ds s && (is_known query ds s && is_known body ds s)
      then bind_all_definitions s ds [] >>= (λ bound. ok (bound, options_of s))
      else fails unknown

  unfoldable pub bind_parameters :
      List Definition → Sources (List (Field O)) → Result (Dict Text (Option (Value O)) × Options O)
  unfolding normalize allowed_names bind_all_definitions
  bind_parameters ds raw = normalized_sources raw >>= bind_known ds
