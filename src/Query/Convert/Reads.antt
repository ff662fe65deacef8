-- ===== src/Query/Convert/Reads.antt =====
-- What `int`, `str` and the conversions make of a value, by the kind of the value.
use fire2api.Base.{
  ℤ, pos, negsuc, zero, suc, ◌≡◌, ◌⊎◌, inl, inr, refl, sym, ap, Bool, true, false, ◌&&◌, not, [],
  ◌∷◌, Option, none, some, if◌then◌else◌, nat_eq, list_eq, Bool-cases,
}
use fire2api.Text.{Text, Unicode, codes, mem, strip}
use fire2api.Query.Convert.{
  Value, boolean, integer, string, other, ok, fails, bad_value, ◌>>=◌, Python, ParamType, a_string,
  an_integer, a_float, a_boolean, a_date, a_datetime, no_type, replace_z, or_bad, int_of, str,
  to_bool, to_integer, to_float, to_date, to_datetime, convert_value,
}
use fire2api.Query.Convert.Chains.{fails_not_ok, same_ok, first_ok}

module _ {O : Type 0} (py : Python O) where
  -- The integer that a value reads as.
  abbrev pub IsInteger : Value O → ℤ → Type 0
  IsInteger (boolean true) n = n ≡ pos 1
  IsInteger (boolean false) n = n ≡ pos 0
  IsInteger (integer z) n = n ≡ z
  IsInteger (string s) n = py.parse_int s ≡ some n
  IsInteger (other o) n = py.truncate o ≡ ok n

  -- The text that a value is written as.
  abbrev pub IsText : Value O → Text → Type 0
  IsText (string s) t = t ≡ s
  IsText v t = t ≡ py.show v

  found_or_bad : {A : Type 0} (o : Option A) (a : A) → or_bad o ≡ ok a → o ≡ some a
  found_or_bad none a h = absurd (fails_not_ok h)
  found_or_bad (some b) a h = ap some (same_ok h)

  pub int_of-IsInteger : (v : Value O) (n : ℤ) → int_of py v ≡ ok n → IsInteger v n
  int_of-IsInteger (boolean true) n h = sym (same_ok h)
  int_of-IsInteger (boolean false) n h = sym (same_ok h)
  int_of-IsInteger (integer z) n h = sym (same_ok h)
  int_of-IsInteger (string s) n h = found_or_bad (py.parse_int s) n h
  int_of-IsInteger (other o) n h = h

  pub str-IsText : (u : Unicode) (v : Value O) → IsText v (str u py v)
  str-IsText u (string s) = refl
  str-IsText u (boolean b) = refl
  str-IsText u (integer z) = refl
  str-IsText u (other o) = refl

module _ (u : Unicode) {O : Type 0} (py : Python O) where
  -- The Boolean that a value reads as: itself, the numbers 1 and 0, and the texts of both.
  abbrev pub IsBoolean : Value O → Bool → Type 0
  IsBoolean (boolean b) c = c ≡ b
  IsBoolean (integer z) c = z ≡ pos (if c then 1 else 0)
  IsBoolean (string s) c =
      (if c
        then mem (u.lower (strip u.is_space s))
            (codes "true" ∷ codes "1" ∷ codes "yes" ∷ codes "on" ∷ codes "sim" ∷ [])
        else mem (u.lower (strip u.is_space s)) (
            codes "false"
            ∷ codes "0"
            ∷ codes "no"
            ∷ codes "off"
            ∷ codes "nao"
            ∷ (110 ∷ 227 ∷ 111 ∷ [])
            ∷ []))
      ≡ true
  IsBoolean (other o) c = ⊥

  -- A value of the type, made of the one given; floats, dates and times are values of `O`. A date
  -- is one already, or parsed from the text of the value, and a date with a time is the same,
  -- a `Z` in the text replaced.
  abbrev pub IsOf : ParamType → Value O → Value O → Type 0
  IsOf a_string raw x = (t : Text) × IsText py raw t × (x ≡ string t)
  IsOf an_integer raw x = (n : ℤ) × IsInteger py raw n × (x ≡ integer n)
  IsOf a_float raw x = (o : O) × (py.to_float raw ≡ some o) × (x ≡ other o)
  IsOf a_boolean raw x = (b : Bool) × IsBoolean raw b × (x ≡ boolean b)
  IsOf a_date raw x =
      (o : O) × (x ≡ other o)
      × (((raw ≡ other o) × (py.is_date o ≡ true) × (py.is_datetime o ≡ false))
          ⊎ ((t : Text) × IsText py raw t × (py.parse_date t ≡ some o)))
  IsOf a_datetime raw x =
      (o : O) × (x ≡ other o)
      × (((raw ≡ other o) × (py.is_datetime o ≡ true))
          ⊎ ((t : Text) × IsText py raw t × (py.parse_datetime (replace_z t) ≡ some o)))
  IsOf no_type raw x = ⊥

  made_other :
      (o : Option O) (x : Value O)
      → or_bad o >>= (λ a. ok (other a)) ≡ ok x
      → (a : O) × (o ≡ some a) × (x ≡ other a)
  made_other none x h = absurd (fails_not_ok h)
  made_other (some a) x h = (a, refl, sym (same_ok h))

  bool_of_text-boolean :
      (a b : Bool) (x : Value O)
      → (if a then ok (boolean true) else if b then ok (boolean false) else fails bad_value) ≡ ok x
      → (c : Bool) × ((if c then a else b) ≡ true) × (x ≡ boolean c)
  bool_of_text-boolean true b x h = (true, refl, sym (same_ok h))
  bool_of_text-boolean false true x h = (false, refl, sym (same_ok h))
  bool_of_text-boolean false false x h = absurd (fails_not_ok h)

  to_bool-IsOf : (raw x : Value O) → to_bool u py raw ≡ ok x → IsOf a_boolean raw x
  unfolding to_bool
  to_bool-IsOf (boolean b) x h = (b, refl, sym (same_ok h))
  to_bool-IsOf (integer (pos zero)) x h = (false, refl, sym (same_ok h))
  to_bool-IsOf (integer (pos (suc zero))) x h = (true, refl, sym (same_ok h))
  to_bool-IsOf (integer (pos (suc (suc n)))) x h = absurd (fails_not_ok h)
  to_bool-IsOf (integer (negsuc n)) x h = absurd (fails_not_ok h)
  to_bool-IsOf (string s) x h = bool_of_text-boolean _ _ x h
  to_bool-IsOf (other o) x h = absurd (fails_not_ok h)

  made_integer :
      (raw x : Value O)
      → int_of py raw >>= (λ n. ok (integer n)) ≡ ok x
      → (n : ℤ) × IsInteger py raw n × (x ≡ integer n)
  made_integer raw x h =
      let (n, is, e) = first_ok (int_of py raw) _ x h in
      (n, int_of-IsInteger py raw n is, sym (same_ok e))

  to_integer-IsOf : (raw x : Value O) → to_integer u py raw ≡ ok x → IsOf an_integer raw x
  to_integer-IsOf (boolean b) x h = absurd (fails_not_ok h)
  to_integer-IsOf (integer z) x h = made_integer (integer z) x h
  to_integer-IsOf (string s) x h = made_integer (string s) x h
  to_integer-IsOf (other o) x h = made_integer (other o) x h

  to_float-IsOf : (raw x : Value O) → to_float u py raw ≡ ok x → IsOf a_float raw x
  to_float-IsOf (boolean b) x h = absurd (fails_not_ok h)
  to_float-IsOf (integer z) x h = made_other (py.to_float (integer z)) x h
  to_float-IsOf (string s) x h = made_other (py.to_float (string s)) x h
  to_float-IsOf (other o) x h = made_other (py.to_float (other o)) x h

  parsed_date :
      (raw x : Value O)
      → or_bad (py.parse_date (str u py raw)) >>= (λ a. ok (other a)) ≡ ok x
      → IsOf a_date raw x
  parsed_date raw x h =
      let (o, is, e) = made_other (py.parse_date (str u py raw)) x h in
      (o, e, inr (str u py raw, str-IsText py u raw, is))

  to_date-IsOf : (raw x : Value O) → to_date u py raw ≡ ok x → IsOf a_date raw x
  to_date-IsOf (boolean b) x h = parsed_date (boolean b) x h
  to_date-IsOf (integer z) x h = parsed_date (integer z) x h
  to_date-IsOf (string s) x h = parsed_date (string s) x h
  to_date-IsOf (other o) x h = decided (py.is_date o) (py.is_datetime o) refl refl h
    where
      decided :
          (a b : Bool)
          → py.is_date o ≡ a
          → py.is_datetime o ≡ b
          → (if a && not b
              then ok (other o)
              else or_bad (py.parse_date (py.show (other o))) >>= (λ d. ok (other d)))
            ≡ ok x
          → IsOf a_date (other o) x
      decided true false d t k = (o, sym (same_ok k), inl (refl, d, t))
      decided true true d t k = parsed_date (other o) x k
      decided false b d t k = parsed_date (other o) x k

  parsed_datetime :
      (raw x : Value O)
      → or_bad (py.parse_datetime (replace_z (str u py raw))) >>= (λ a. ok (other a)) ≡ ok x
      → IsOf a_datetime raw x
  parsed_datetime raw x h =
      let (o, is, e) = made_other (py.parse_datetime (replace_z (str u py raw))) x h in
      (o, e, inr (str u py raw, str-IsText py u raw, is))

  to_datetime-IsOf : (raw x : Value O) → to_datetime u py raw ≡ ok x → IsOf a_datetime raw x
  to_datetime-IsOf (boolean b) x h = parsed_datetime (boolean b) x h
  to_datetime-IsOf (integer z) x h = parsed_datetime (integer z) x h
  to_datetime-IsOf (string s) x h = parsed_datetime (string s) x h
  to_datetime-IsOf (other o) x h = elim (Bool-cases (py.is_datetime o)) [
    | inl t ↦ (o, sym (same_ok (rw t at h)), inl (refl, t))
    | inr t ↦ parsed_datetime (other o) x (rw t at h)
  ]

  pub convert_value-IsOf :
      (raw x : Value O) (type : ParamType) → convert_value u py raw type ≡ ok x → IsOf type raw x
  unfolding convert_value
  convert_value-IsOf raw x a_string h = (str u py raw, str-IsText py u raw, sym (same_ok h))
  convert_value-IsOf raw x an_integer h = to_integer-IsOf raw x h
  convert_value-IsOf raw x a_float h = to_float-IsOf raw x h
  convert_value-IsOf raw x a_boolean h = to_bool-IsOf raw x h
  convert_value-IsOf raw x a_date h = to_date-IsOf raw x h
  convert_value-IsOf raw x a_datetime h = to_datetime-IsOf raw x h
  convert_value-IsOf raw x no_type h = absurd (fails_not_ok h)
