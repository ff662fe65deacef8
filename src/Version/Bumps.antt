-- ===== src/Version/Bumps.antt =====
-- A bumped version is read back as the next one.
use mathlib.Core.List.{append_assoc, append-nil}
use fire2api.Base.{
  ℕ, zero, suc, ◌+◌, ◌/◌, ◌%◌, ◌≡◌, ◌≤◌, refl, sym, ap, ◌∙◌, Bool, true, false, ◌&&◌, ◌||◌, not, [],
  ◌∷◌, ◌++◌, some, ◌==◌, nat_eq, list_eq, all, ltb, arith, inl, inr, Bool-cases,
}
use fire2api.Text.{Text, is_digit}
use fire2api.Version.{
  Kind, major, minor, patch, Triple, is_number, read_onto, split_dots, triple_of, parse_version,
  digits_onto, decimal, dotted, bumped, print_bumped, bump_version,
}
use fire2api.Version.Digits.{read_onto-digits_onto, digits_onto-digits, digit-mod}

-- A text of digits of which the first is not 0.
abbrev is_lead : Text → Bool
is_lead [] = false
is_lead (c ∷ s) = is_digit c && (not (c == b'0') && all is_digit s)

lead-number : (s : Text) → is_lead s ≡ true → is_number s ≡ true
lead-number [] h = h
lead-number (c ∷ s) h = later (c == b'0' && s == []) _ h
  where
    later : (a b : Bool) → b ≡ true → (a || b) ≡ true
    later a b x = ground arith

digits_onto-lead :
    (fuel n : ℕ) (s : Text)
    → n ≤ fuel
    → 1 ≤ n
    → all is_digit s ≡ true
    → is_lead (digits_onto fuel n s) ≡ true
unfolding digits_onto
digits_onto-lead zero n s h p d = absurd (never n h p)
  where
    never : (n : ℕ) → n ≤ 0 → 1 ≤ n → ⊥
    never n x y = omega arith
digits_onto-lead (suc fuel) n s h p d = elim (Bool-cases (ltb n 10)) [
  | inl small ↦ rw small (rw d (first n p small))
  | inr large ↦ rw large (
      digits_onto-lead fuel (n / 10) ((48 + n % 10) ∷ s) (less n fuel large h) (more n large)
        (rw (digit-mod n) d))
]
  where
    first :
        (n : ℕ)
        → 1 ≤ n
        → ltb n 10 ≡ true
        → (is_digit (48 + n) && (not (48 + n == b'0') && true)) ≡ true
    first n x y = ground arith

    less : (n fuel : ℕ) → ltb n 10 ≡ false → n ≤ suc fuel → n / 10 ≤ fuel
    less n fuel x y = ground arith

    more : (n : ℕ) → ltb n 10 ≡ false → 1 ≤ n / 10
    more n x = ground arith

decimal-number : (n : ℕ) → is_number (decimal n) ≡ true
unfolding digits_onto
decimal-number zero = refl
decimal-number (suc n) =
    lead-number (decimal (suc n))
      (digits_onto-lead (suc n) (suc n) [] (omega arith) (omega arith) refl)

split_dots-digits :
    (part s t : Text)
    → all is_digit s ≡ true
    → (split_dots part s ≡ (part ++ s) ∷ [])
      × (split_dots part (s ++ b'.' ∷ t) ≡ (part ++ s) ∷ split_dots [] t)
unfolding split_dots
split_dots-digits part [] t h = (
  ap (λ (p : Text). p ∷ []) (sym (append-nil part)),
  ap (λ (p : Text). p ∷ split_dots [] t) (sym (append-nil part)),
)
split_dots-digits part (c ∷ s) t h =
    let (now, later) = split_dots-digits (part ++ c ∷ []) s t (rest (is_digit c) _ h) in
    rw (no_dot c (all is_digit s) h) (
      now ∙ ap (λ (p : Text). p ∷ []) (append_assoc part (c ∷ []) s),
      later ∙ ap (λ (p : Text). p ∷ split_dots [] t) (append_assoc part (c ∷ []) s),
    )
  where
    rest : (a b : Bool) → (a && b) ≡ true → b ≡ true
    rest a b x = ground arith

    no_dot : (c : ℕ) (b : Bool) → (is_digit c && b) ≡ true → (c == b'.') ≡ false
    no_dot c b x = ground arith

decimal-digits : (n : ℕ) → all is_digit (decimal n) ≡ true
decimal-digits n = digits_onto-digits n n [] (omega arith) refl

pub parse_version-dotted : (v : Triple) → parse_version (dotted v) ≡ some v
unfolding parse_version
parse_version-dotted (a, b, c) =
    ap triple_of (
      (split_dots-digits [] (decimal a) (decimal b ++ b'.' ∷ decimal c) (decimal-digits a)).1
      ∙ ap (◌∷◌ (decimal a)) (
          (split_dots-digits [] (decimal b) (decimal c) (decimal-digits b)).1
          ∙ ap (◌∷◌ (decimal b)) (split_dots-digits [] (decimal c) [] (decimal-digits c)).0))
    ∙ read
  where
    value : (n : ℕ) → read_onto 0 (decimal n) ≡ n
    value n = read_onto-digits_onto n n [] (omega arith)

    read : triple_of (decimal a ∷ decimal b ∷ decimal c ∷ []) ≡ some (a, b, c)
    read = rw (decimal-number a) (
        rw (decimal-number b)
          (rw (decimal-number c) (rw (value a) (rw (value b) (rw (value c) refl)))))

-- The version behind another one, of a kind: the number of the kind is one higher, those before it
-- stay, and those behind it are 0.
abbrev pub IsNext : Kind → Triple → Triple → Type 0
IsNext major (a, b, c) (x, y, z) = (x ≡ a + 1) × (y ≡ 0) × (z ≡ 0)
IsNext minor (a, b, c) (x, y, z) = (x ≡ a) × (y ≡ b + 1) × (z ≡ 0)
IsNext patch (a, b, c) (x, y, z) = (x ≡ a) × (y ≡ b) × (z ≡ c + 1)

bumped-IsNext : (release : Kind) (v : Triple) → IsNext release v (bumped release v)
bumped-IsNext major (a, b, c) = (omega arith, refl, refl)
bumped-IsNext minor (a, b, c) = (refl, omega arith, refl)
bumped-IsNext patch (a, b, c) = (refl, refl, omega arith)

-- Bumping a text that is a version gives a text that `parse_version` reads as the next version of
-- that kind: the number of the kind one higher, those before it kept, and those behind it 0.
pub parse_version-bump_version :
    (current : Text) (release : Kind) (v : Triple)
    → parse_version current ≡ some v
    → (new : Text) × (bump_version current release ≡ some new)
      × ((next : Triple) × (parse_version new ≡ some next) × IsNext release v next)
unfolding bump_version
parse_version-bump_version current release v h = (
  dotted (bumped release v),
  ap (print_bumped release) h,
  (bumped release v, parse_version-dotted (bumped release v), bumped-IsNext release v),
)
