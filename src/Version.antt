-- ===== src/Version.antt =====
-- The release tool, version.py: version numbers, `parse_version` and `bump_version`.
pub mod Digits
pub mod Bumps
pub mod Lines
pub mod Release
mod Tests
use fire2api.Base.{
  ℕ, zero, suc, ◌+◌, ◌-◌, ◌*◌, ◌/◌, ◌%◌, Bool, true, false, ◌&&◌, ◌||◌, not, List, [], ◌∷◌, ◌++◌,
  Option, none, some, ◌==◌, nat_eq, list_eq, if◌then◌else◌, all, ltb,
}
use fire2api.Text.{Text, codes, is_digit}

pub data Kind : Type 0 where
  major minor patch : Kind

abbrev pub Triple : Type 0
Triple = ℕ × ℕ × ℕ

-- `0|[1-9][0-9]*`, all of the text.
abbrev pub is_number : Text → Bool
is_number [] = false
is_number (c ∷ s) = (c == b'0' && s == []) || (is_digit c && (not (c == b'0') && all is_digit s))

-- `int(part)` of decimal digits, behind those read so far.
abbrev pub read_onto : ℕ → Text → ℕ
read_onto n [] = n
read_onto n (c ∷ s) = read_onto (10 * n + (c - 48)) s

-- The parts between dots, of which no number has one.
unfoldable pub split_dots : Text → Text → List Text
split_dots part [] = part ∷ []
split_dots part (c ∷ s) =
    let closed = split_dots [] s in
    let longer = split_dots (part ++ c ∷ []) s in if c == b'.' then part ∷ closed else longer

abbrev pub triple_of : List Text → Option Triple
triple_of (a ∷ b ∷ c ∷ []) =
    if is_number a && (is_number b && is_number c)
    then some (read_onto 0 a, read_onto 0 b, read_onto 0 c)
    else none
triple_of _ = none

unfoldable pub parse_version : Text → Option Triple
unfolding split_dots
parse_version value = triple_of (split_dots [] value)

-- The decimal digits of a number, in front of a text; `fuel` is at least the number.
unfoldable pub digits_onto : ℕ → ℕ → Text → Text
digits_onto zero n s = (48 + n) ∷ s
digits_onto (suc fuel) n s =
    let more = digits_onto fuel (n / 10) ((48 + n % 10) ∷ s) in
    if ltb n 10 then (48 + n) ∷ s else more

-- `f"{n}"`.
abbrev pub decimal : ℕ → Text
decimal n = digits_onto n n []

abbrev pub dotted : Triple → Text
dotted (a, b, c) = decimal a ++ b'.' ∷ (decimal b ++ b'.' ∷ decimal c)

abbrev pub bumped : Kind → Triple → Triple
bumped major (a, b, c) = (a + 1, 0, 0)
bumped minor (a, b, c) = (a, b + 1, 0)
bumped patch (a, b, c) = (a, b, c + 1)

abbrev pub print_bumped : Kind → Option Triple → Option Text
print_bumped release none = none
print_bumped release (some v) = some (dotted (bumped release v))

unfoldable pub bump_version : Text → Kind → Option Text
unfolding digits_onto parse_version
bump_version current release = print_bumped release (parse_version current)
