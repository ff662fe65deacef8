-- ===== src/Query/Parameters/Values.antt =====
-- What the value of one definition has to be, read off its columns.
use fire2api.Base.{
  ◌≡◌, true, false, sym, [], ◌∷◌, Option, none, some, if◌then◌else◌, Dict, get, Bool-cases, inl,
  inr, nat_eq, list_eq,
}
use fire2api.Text.{Text, Unicode, upper}
use fire2api.Query.Convert.{Value, string, ok, fails, missing, ◌>>=◌, Python, str, convert_value}
use fire2api.Query.Convert.Reads.{IsText, IsOf, str-IsText, convert_value-IsOf}
use fire2api.Query.Convert.Chains.{fails_not_ok, same_ok, first_ok}
use fire2api.Query.Parameters.{
  Definition, Sources, source, check_rule, converted, chosen, bound_value,
}

module _ (u : Unicode) {O : Type 0} (py : Python O) where
  -- The text of the value matches the rule in full, where there is one.
  abbrev pub Matches : Option Text → Value O → Type 0
  Matches none x = Unit
  Matches (some []) x = Unit
  Matches (some (c ∷ rule)) x = (t : Text) × IsText py x t × (py.full_match (c ∷ rule) t ≡ true)

  abbrev pub IsConverted : Definition → Value O → Option (Value O) → Type 0
  IsConverted d raw v =
      (x : Value O) × IsOf u py d.param_type raw x × Matches d.validation_rule x × (v ≡ some x)

  -- What is bound where the request gives nothing.
  abbrev pub IsDefault : Definition → Option Text → Option (Value O) → Type 0
  IsDefault d (some text) v = IsConverted d (string text) v
  IsDefault d none v = (d.required ≡ false) × (v ≡ none)

  -- What is bound for what the source holds: a value, a null or nothing.
  abbrev pub IsValue : Definition → Option (Option (Value O)) → Option (Value O) → Type 0
  IsValue d (some (some raw)) v = IsConverted d raw v
  IsValue d (some none) v = v ≡ none
  IsValue d none v = IsDefault d d.default_value v

  check_rule-Matches :
      (rule : Option Text) (x : Value O) (v : Option (Value O))
      → check_rule u py rule x ≡ ok v
      → Matches rule x × (v ≡ some x)
  check_rule-Matches none x v h = (tt, sym (same_ok h))
  check_rule-Matches (some []) x v h = (tt, sym (same_ok h))
  check_rule-Matches (some (c ∷ rule)) x v h =
      elim (Bool-cases (py.full_match (c ∷ rule) (str u py x))) [
        | inl good ↦ ((str u py x, str-IsText py u x, good), sym (same_ok (rw good at h)))
        | inr bad ↦ absurd (fails_not_ok (rw bad at h))
      ]

  converted-IsConverted :
      (d : Definition) (raw : Value O) (v : Option (Value O))
      → converted u py d (some raw) ≡ ok v
      → IsConverted d raw v
  converted-IsConverted d raw v h =
      let (x, is, e) =
        first_ok (convert_value u py raw d.param_type) (check_rule u py d.validation_rule) v h in
      let (good, same) = check_rule-Matches d.validation_rule x v e in
      (x, convert_value-IsOf u py raw x d.param_type is, good, same)

  absent-IsDefault :
      (d : Definition) (o : Option Text) (v : Option (Value O))
      → (elim o [
        | some text ↦ ok (some (string text))
        | none ↦ if d.required then fails missing else ok none
      ])
          >>= converted u py d
        ≡ ok v
      → IsDefault d o v
  absent-IsDefault d (some text) v h = converted-IsConverted d (string text) v h
  absent-IsDefault d none v h = elim (Bool-cases d.required) [
    | inl needed ↦ absurd (fails_not_ok (rw needed at h))
    | inr free ↦ (free, sym (same_ok (rw free at h)))
  ]

  chosen-IsValue :
      (d : Definition) (g : Option (Option (Value O))) (v : Option (Value O))
      → chosen u py d g >>= converted u py d ≡ ok v
      → IsValue d g v
  chosen-IsValue d (some (some raw)) v h = converted-IsConverted d raw v h
  chosen-IsValue d (some none) v h = sym (same_ok h)
  chosen-IsValue d none v h = absent-IsDefault d d.default_value v h

  pub bound_value-IsValue :
      (s : Sources (Dict Text (Option (Value O)))) (d : Definition) (v : Option (Value O))
      → bound_value u py s d ≡ ok v
      → IsValue d (get (source d.place s) (upper u d.name)) v
  unfolding bound_value
  bound_value-IsValue s d v h = chosen-IsValue d (get (source d.place s) (upper u d.name)) v h
