-- ===== src/Catalog/Drafts/Configured.antt =====
-- What a configuration that is accepted guarantees.
use fire2api.Base.{
  ◌≡◌, refl, sym, ap, ◌∙◌, Bool, true, false, ◌&&◌, ◌||◌, not, List, [], ◌∷◌, Option, none, some,
  ◌==◌, nat_eq, list_eq, list_beq_iff, any, All, arith, Bool-cases, inl, inr,
}
use fire2api.Text.{Text, Unicode, codes, upper, mem}
use fire2api.Sql.Comments.{strip_comments}
use fire2api.Sql.Literals.{strip_literals}
use fire2api.Sql.Validate.{Verdict, valid, invalid, validate_query}
use fire2api.Query.Convert.{Python}
use fire2api.Query.Binds.{named_binds, binds_from}
use fire2api.Query.Detect.{detect_parameters, is_reserved, names_of, canonical, path_names}
use fire2api.Query.Detect.Names.{IsNodup, mem-detect_parameters}
use fire2api.Catalog.Drafts.{
  Draft, Problem, bad_type, bad_source, bad_name, reserved_name, not_unique, not_configured,
  wrong_path, optional_path, body_of_get, or_else, problem_if, is_typed, has_source, is_name,
  validate_parameter_data, is_path, is_body, is_distinct, all_in, draft_names, path_draft_names,
  check_draft, check_drafts, check_sql, validate_parameter_configuration,
}

-- No `raise` was reached in either part.
pub or_else-none : (p q : Option Problem) → or_else p q ≡ none → (p ≡ none) × (q ≡ none)
or_else-none none q h = (refl, h)
or_else-none (some p) q h = cc

pub problem_if-none : (b : Bool) (p : Problem) → problem_if b p ≡ none → b ≡ false
problem_if-none b p h = ground arith

of_not : (b : Bool) → not b ≡ false → b ≡ true
of_not b h = ground arith

is_distinct-IsNodup : (ws : List Text) → is_distinct ws ≡ true → IsNodup ws
is_distinct-IsNodup [] h = tt
is_distinct-IsNodup (w ∷ ws) h = ground (arith, is_distinct-IsNodup ws)

all_in-mem :
    (w : Text) (ws vs : List Text) → all_in ws vs ≡ true → mem w ws ≡ true → mem w vs ≡ true
all_in-mem w [] vs h m = cc
all_in-mem w (v ∷ ws) vs h m = elim (Bool-cases (v == w)) [
  | inl same ↦ sym (ap (λ x. mem x vs) ((list_beq_iff v w).0 same)) ∙ first (mem v vs) _ h
  | inr other ↦ all_in-mem w ws vs (rest (mem v vs) _ h) (rw other at m)
]
  where
    first : (a b : Bool) → (a && b) ≡ true → a ≡ true
    first a b x = ground arith

    rest : (a b : Bool) → (a && b) ≡ true → b ≡ true
    rest a b x = ground arith

-- A draft that was accepted.
abbrev pub IsDraft : Unicode → Draft → Type 0
IsDraft u d =
    (is_typed d.param_type ≡ true)
    × (has_source d.source ≡ true)
    × (is_name d.name ≡ true)
    × (is_reserved (upper u d.name) ≡ false)

pub record IsConfigured (u : Unicode) (route_path query_sql method : Text) (ds : List Draft)
    : Type 0 where
  pub type : Text
  pub is_valid : validate_query u query_sql method ≡ valid type
  pub drafts : All (IsDraft u) ds
  pub distinct : IsNodup (draft_names u ds)
  pub binds :
      (w : Text)
      → mem w (canonical u (named_binds query_sql)) ≡ true
      → is_reserved w ≡ false
      → mem w (draft_names u ds) ≡ true
  pub placeholders :
      (w : Text) → mem w (canonical u (path_names route_path)) ≡ mem w (path_draft_names u ds)
  pub required : All (λ (d : Draft). (is_path d.source && not d.required) ≡ false) ds
  pub no_body : (method == codes "GET") ≡ true → All (λ (d : Draft). is_body d.source ≡ false) ds

check_sql-valid :
    (u : Unicode) {O : Type 0} (py : Python O) (compiles : Text → Bool) (v : Verdict)
    → check_sql u py compiles v ≡ none
    → (type : Text) × (v ≡ valid type)
check_sql-valid u py compiles (valid type) h = (type, refl)
check_sql-valid u py compiles (invalid r) h = cc

module _ (u : Unicode) {O : Type 0} (py : Python O) (compiles : Text → Bool) where
  draft-IsDraft : (d : Draft) → check_draft u py compiles d ≡ none → IsDraft u d
  draft-IsDraft d h =
      let (fields, later) = or_else-none (validate_parameter_data compiles d) _ h in
      let (reserved, _) =
        or_else-none (problem_if (is_reserved (upper u d.name)) reserved_name) _ later in
      let (typed, fields') =
        or_else-none (problem_if (not (is_typed d.param_type)) bad_type) _ fields in
      let (sourced, fields'') =
        or_else-none (problem_if (not (has_source d.source)) bad_source) _ fields' in
      let (named, _) = or_else-none (problem_if (not (is_name d.name)) bad_name) _ fields'' in
      (
        of_not _ (problem_if-none _ bad_type typed),
        of_not _ (problem_if-none _ bad_source sourced),
        of_not _ (problem_if-none _ bad_name named),
        problem_if-none _ reserved_name reserved,
      )

  drafts-IsDraft : (ds : List Draft) → check_drafts u py compiles ds ≡ none → All (IsDraft u) ds
  drafts-IsDraft [] h = tt
  drafts-IsDraft (d ∷ ds) h =
      let (here, later) = or_else-none (check_draft u py compiles d) _ h in
      (draft-IsDraft d here, drafts-IsDraft ds later)

  any-none :
      (p : Draft → Bool) (ds : List Draft) → any p ds ≡ false → All (λ (d : Draft). p d ≡ false) ds
  any-none p [] h = tt
  any-none p (d ∷ ds) h = (here (p d) _ h, any-none p ds (later (p d) _ h))
    where
      here : (a b : Bool) → (a || b) ≡ false → a ≡ false
      here a b x = ground arith

      later : (a b : Bool) → (a || b) ≡ false → b ≡ false
      later a b x = ground arith

  -- Two lists of names hold the same.
  same_names :
      (w : Text) (ws vs : List Text)
      → all_in ws vs ≡ true
      → all_in vs ws ≡ true
      → mem w ws ≡ mem w vs
  same_names w ws vs h g = elim (Bool-cases (mem w ws)) [
    | inl there ↦ there ∙ sym (all_in-mem w ws vs h there)
    | inr gone ↦ elim (Bool-cases (mem w vs)) [
      | inl back ↦ all_in-mem w vs ws g back ∙ sym back
      | inr too ↦ gone ∙ sym too
    ]
  ]

  -- The empty statement has no binds.
  no_binds :
      (route_path w : Text)
      → (mem w (canonical u (path_names route_path))
          || (mem w (canonical u (named_binds [])) && not (is_reserved w)))
        ≡ mem w (canonical u (path_names route_path))
  unfolding named_binds binds_from strip_comments strip_literals
  no_binds route_path w = ground arith

  -- A configuration is accepted only if its statement is valid for the method, each parameter has
  -- a name, a type and a source that are allowed, and a name of its own that is not reserved, every
  -- bind of the statement outside literals and comments that is not reserved is configured, the
  -- parameters from the path are exactly the placeholders and required, and a GET has none from
  -- the body.
  pub validate_parameter_configuration-IsConfigured :
      (route_path query_sql method : Text) (ds : List Draft)
      → validate_parameter_configuration u py compiles route_path query_sql method ds ≡ none
      → IsConfigured u route_path query_sql (upper u method) ds
  unfolding validate_parameter_configuration
  validate_parameter_configuration-IsConfigured route_path query_sql method ds h =
      let m = upper u method in
      let (sql, h1) = or_else-none (check_sql u py compiles (validate_query u query_sql m)) _ h in
      let (drafts, h2) = or_else-none (check_drafts u py compiles ds) _ h1 in
      let (distinct, h3) =
        or_else-none (problem_if (not (is_distinct (draft_names u ds))) not_unique) _ h2 in
      let (configured, h4) = or_else-none _ _ h3 in
      let (paths, h5) = or_else-none _ _ h4 in
      let (required, no_body) = or_else-none _ _ h5 in
      let (valid_type, is) = check_sql-valid u py compiles (validate_query u query_sql m) sql in
      let both =
        two (all_in (names_of (detect_parameters u route_path [] m)) (path_draft_names u ds)) _
          (of_not _ (problem_if-none _ wrong_path paths)) in
      record {
        type = valid_type;
        is_valid = is;
        drafts = drafts-IsDraft ds drafts;
        distinct =
            is_distinct-IsNodup (draft_names u ds)
              (of_not _ (problem_if-none _ not_unique distinct));
        binds = λ w bound free.
            all_in-mem w (names_of (detect_parameters u route_path query_sql m)) (draft_names u ds)
              (of_not _ (problem_if-none _ not_configured configured))
              (mem-detect_parameters u route_path query_sql m w ∙ detected _ _ _ bound free);
        placeholders = λ w.
            sym (mem-detect_parameters u route_path [] m w ∙ no_binds route_path w)
            ∙ same_names w (names_of (detect_parameters u route_path [] m)) (path_draft_names u ds)
                both.0 both.1;
        required = any-none _ ds (problem_if-none _ optional_path required);
        no_body = λ get. any-none _ ds (of_get _ _ get (problem_if-none _ body_of_get no_body));
      }
    where
      two : (a b : Bool) → (a && b) ≡ true → (a ≡ true) × (b ≡ true)
      two a b x = ground arith

      detected : (a b c : Bool) → b ≡ true → c ≡ false → (a || (b && not c)) ≡ true
      detected a b c x y = ground arith

      of_get : (a b : Bool) → a ≡ true → (a && b) ≡ false → b ≡ false
      of_get a b x y = ground arith
