-- ===== src/Text/Ascii.antt =====
-- The ASCII part of the character database, as data for the tests.
use fire2api.Base.{ℕ, ◌+◌, ◌-◌, ◌||◌, [], ◌∷◌, ◌==◌, nat_eq, if◌then◌else◌}
use fire2api.Text.{Text, Unicode, is_upper, is_lower, is_digit}

abbrev pub lower_text : Text → Text
lower_text [] = []
lower_text (c ∷ s) = (if is_upper c then c + 32 else c) ∷ lower_text s

abbrev pub up : ℕ → ℕ
up c = if is_lower c then c - 32 else c

abbrev pub ascii : Unicode
ascii = record {
  upper_char = λ c. up c ∷ [];
  lower = lower_text;
  is_space = λ c. c == b' ' || c == b'\n' || c == b'\t' || c == b'\r';
  is_alnum = λ c. is_upper c || is_lower c || is_digit c;
  ignore_case = λ c d. up c == up d;
}
