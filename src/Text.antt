-- ===== src/Text.antt =====
-- Python's `str` as a list of code points, with the methods that the program calls. What depends
-- on the character database of the interpreter (`str.upper`, `str.lower`, `str.isspace`,
-- `str.isalnum`, and case folding of `re.IGNORECASE`) is the parameter `Unicode`.
pub mod Ascii
use Prim.Native.Char.{code}
use fire2api.Base.{
  ℕ, ◌+◌, ◌-◌, ◌≡◌, String, Bool, true, false, ◌&&◌, ◌||◌, not, List, [], ◌∷◌, ◌++◌, Option, none,
  some, leb, ltb, ◌==◌, nat_eq, list_eq, if◌then◌else◌, any,
}

abbrev pub Text : Type 0
Text = List ℕ

-- The code points of a literal.
abbrev pub codes : String → Text
codes String.[] = []
codes (String.◌∷◌ c s) = code c ∷ codes s

pub record Unicode : Type 0 where
  -- `c.upper()` of one character, which may be several ("ß" becomes "SS").
  pub upper_char : ℕ → Text
  -- `s.lower()`, which depends on the neighbours of a final sigma.
  pub lower : Text → Text
  pub is_space : ℕ → Bool
  pub is_alnum : ℕ → Bool
  -- Whether a character matches one of the pattern under `re.IGNORECASE`.
  pub ignore_case : ℕ → ℕ → Bool

-- `s[:1]` as an option.
abbrev pub next : Text → Option ℕ
next [] = none
next (c ∷ s) = some c

abbrev pub is_char : ℕ → Option ℕ → Bool
is_char c none = false
is_char c (some d) = d == c

-- `[A-Z]`, `[A-Za-z_]`, `[0-9]` and `[A-Za-z0-9_]` of a pattern.
abbrev pub is_upper : ℕ → Bool
is_upper c = leb b'A' c && leb c b'Z'

abbrev pub is_lower : ℕ → Bool
is_lower c = leb b'a' c && leb c b'z'

abbrev pub is_digit : ℕ → Bool
is_digit c = leb b'0' c && leb c b'9'

abbrev pub is_name_start : ℕ → Bool
is_name_start c = is_upper c || is_lower c || c == b'_'

abbrev pub is_name_char : ℕ → Bool
is_name_char c = is_name_start c || is_digit c

-- `s.startswith(p)`.
unfoldable pub starts_with : Text → Text → Bool
starts_with [] s = true
starts_with (c ∷ p) [] = false
starts_with (c ∷ p) (d ∷ s) = c == d && starts_with p s

-- `w in words`.
abbrev pub mem : Text → List Text → Bool
mem w = any (λ v. v == w)

-- `s.rstrip()` and `s.lstrip()` by a test of what is white space.
unfoldable pub rstrip : (ℕ → Bool) → Text → Text
rstrip p [] = []
rstrip p (c ∷ s) = drop_blank (rstrip p s)
  where
    drop_blank : Text → Text
    drop_blank [] = if p c then [] else c ∷ []
    drop_blank (d ∷ r) = c ∷ d ∷ r

unfoldable pub lstrip : (ℕ → Bool) → Text → Text
lstrip p [] = []
lstrip p (c ∷ s) = let rest = lstrip p s in if p c then rest else c ∷ s

abbrev pub strip : (ℕ → Bool) → Text → Text
strip p s = rstrip p (lstrip p s)

-- `s.strip()` is false: nothing but white space.
abbrev pub is_blank : (ℕ → Bool) → Text → Bool
is_blank p [] = true
is_blank p (c ∷ s) = p c && is_blank p s

-- `s.upper()`.
abbrev pub upper : Unicode → Text → Text
upper u [] = []
upper u (c ∷ s) = u.upper_char c ++ upper u s

-- `s.lower()` of a text of the letters A to Z.
abbrev pub lower_ascii : Text → Text
lower_ascii [] = []
lower_ascii (c ∷ s) = (c + 32) ∷ lower_ascii s
