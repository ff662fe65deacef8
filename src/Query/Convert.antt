-- ===== src/Query/Convert.antt =====
-- `QueryService.convert_value` and `_bool`. What Python's own conversions do with a value is the record `Python`.
pub mod Chains
pub mod Reads
use fire2api.Base.{
  ℤ, pos, zero, suc, Bool, true, false, ◌&&◌, not, [], ◌∷◌, ◌++◌, Option, none, some, ◌==◌, nat_eq,
  list_eq, if◌then◌else◌,
}
use fire2api.Text.{Text, Unicode, codes, strip, mem}

-- A value that is not None: the scalars of JSON; floats, dates and times are of a type `O`.
pub data Value (O : Type 0) : Type 0 where
  boolean : Bool → Value O
  integer : ℤ → Value O
  string : Text → Value O
  other : O → Value O

-- Every ValueError by its cause, and the OverflowError of `int` of an infinite float.
pub data Reason : Type 0 where
  duplicate unknown missing bad_value bad_rule bad_type overflow : Reason

pub data Result (A : Type 0) : Type 0 where
  ok : A → Result A
  fails : Reason → Result A

infixl 20 ◌>>=◌
abbrev pub ◌>>=◌ : {A B : Type 0} → Result A → (A → Result B) → Result B
◌>>=◌ (ok a) f = f a
◌>>=◌ (fails r) f = fails r

-- `str`, `int`, `float`, `bool`, the `fromisoformat` of date and datetime, and `re.fullmatch`.
pub record Python (O : Type 0) : Type 0 where
  pub show : Value O → Text
  pub parse_int : Text → Option ℤ
  pub truncate : O → Result ℤ
  pub to_float : Value O → Option O
  pub is_true : O → Bool
  pub is_date : O → Bool
  pub is_datetime : O → Bool
  pub parse_date : Text → Option O
  pub parse_datetime : Text → Option O
  pub full_match : Text → Text → Bool

pub data ParamType : Type 0 where
  a_string an_integer a_float a_boolean a_date a_datetime no_type : ParamType

-- `.replace("Z", "+00:00")`.
abbrev pub replace_z : Text → Text
replace_z [] = []
replace_z (c ∷ s) = if c == b'Z' then codes "+00:00" ++ replace_z s else c ∷ replace_z s

abbrev pub or_bad : {A : Type 0} → Option A → Result A
or_bad none = fails bad_value
or_bad (some a) = ok a

-- `int(value)`; True is 1.
abbrev pub int_of : {O : Type 0} → Python O → Value O → Result ℤ
int_of py (boolean b) = ok (pos (if b then 1 else 0))
int_of py (integer n) = ok n
int_of py (string s) = or_bad (py.parse_int s)
int_of py (other o) = py.truncate o

module _ (u : Unicode) {O : Type 0} (py : Python O) where
  abbrev pub str : Value O → Text
  str (string s) = s
  str v = py.show v

  -- The texts that `_bool` reads.
  abbrev pub bool_of_text : Text → Result (Value O)
  bool_of_text s =
      if mem s (codes "true" ∷ codes "1" ∷ codes "yes" ∷ codes "on" ∷ codes "sim" ∷ [])
      then ok (boolean true)
      else if mem s (
          codes "false"
          ∷ codes "0"
          ∷ codes "no"
          ∷ codes "off"
          ∷ codes "nao"
          ∷ (110 ∷ 227 ∷ 111 ∷ [])
          ∷ [])
      then ok (boolean false)
      else fails bad_value

  unfoldable pub to_bool : Value O → Result (Value O)
  to_bool (boolean b) = ok (boolean b)
  to_bool (integer (pos zero)) = ok (boolean false)
  to_bool (integer (pos (suc zero))) = ok (boolean true)
  to_bool (integer _) = fails bad_value
  to_bool (string s) = bool_of_text (u.lower (strip u.is_space s))
  to_bool (other o) = fails bad_value

  abbrev pub to_integer : Value O → Result (Value O)
  to_integer (boolean b) = fails bad_value
  to_integer v = int_of py v >>= (λ n. ok (integer n))

  abbrev pub to_float : Value O → Result (Value O)
  to_float (boolean b) = fails bad_value
  to_float v = or_bad (py.to_float v) >>= (λ o. ok (other o))

  abbrev pub to_date : Value O → Result (Value O)
  to_date (other o) =
      if py.is_date o && not (py.is_datetime o)
      then ok (other o)
      else or_bad (py.parse_date (py.show (other o))) >>= (λ d. ok (other d))
  to_date v = or_bad (py.parse_date (str v)) >>= (λ d. ok (other d))

  abbrev pub to_datetime : Value O → Result (Value O)
  to_datetime (other o) =
      if py.is_datetime o
      then ok (other o)
      else or_bad (py.parse_datetime (replace_z (py.show (other o)))) >>= (λ d. ok (other d))
  to_datetime v = or_bad (py.parse_datetime (replace_z (str v))) >>= (λ d. ok (other d))

  unfoldable pub convert_value : Value O → ParamType → Result (Value O)
  convert_value v a_string = ok (string (str v))
  convert_value v an_integer = to_integer v
  convert_value v a_float = to_float v
  convert_value v a_boolean = to_bool v
  convert_value v a_date = to_date v
  convert_value v a_datetime = to_datetime v
  convert_value v no_type = fails bad_type
