-- ===== src/Version/Digits.antt =====
-- Decimal digits are read back as the number.
use fire2api.Base.{
  ℕ, zero, suc, ◌+◌, ◌-◌, ◌*◌, ◌/◌, ◌%◌, ◌≡◌, ◌≤◌, ap, ◌∙◌, true, false, ◌&&◌, ◌∷◌, nat_eq, list_eq,
  all, ltb, arith, inl, inr, Bool-cases,
}
use fire2api.Text.{Text, is_digit}
use fire2api.Version.{read_onto, digits_onto}

pub digit-lt : (n : ℕ) → ltb n 10 ≡ true → is_digit (48 + n) ≡ true
digit-lt n h = ground arith

pub digit-mod : (n : ℕ) → is_digit (48 + n % 10) ≡ true
digit-mod n = ground arith

pub read_onto-digits_onto :
    (fuel n : ℕ) (s : Text) → n ≤ fuel → read_onto 0 (digits_onto fuel n s) ≡ read_onto n s
unfolding digits_onto
read_onto-digits_onto zero n s h = ap (λ k. read_onto k s) (omega arith)
read_onto-digits_onto (suc fuel) n s h = elim (Bool-cases (ltb n 10)) [
  | inl small ↦ rw small (ap (λ k. read_onto k s) (omega arith))
  | inr large ↦ rw large (
      read_onto-digits_onto fuel (n / 10) ((48 + n % 10) ∷ s) (less n fuel large h)
      ∙ ap (λ k. read_onto k s) (whole n))
]
  where
    less : (n fuel : ℕ) → ltb n 10 ≡ false → n ≤ suc fuel → n / 10 ≤ fuel
    less n fuel x y = ground arith

    whole : (n : ℕ) → 10 * (n / 10) + (48 + n % 10 - 48) ≡ n
    whole n = omega arith

pub digits_onto-digits :
    (fuel n : ℕ) (s : Text)
    → n ≤ fuel
    → all is_digit s ≡ true
    → all is_digit (digits_onto fuel n s) ≡ true
unfolding digits_onto
digits_onto-digits zero n s h d = rw d (digit-true n h)
  where
    digit-true : (n : ℕ) → n ≤ 0 → (is_digit (48 + n) && true) ≡ true
    digit-true n h = ground arith
digits_onto-digits (suc fuel) n s h d = elim (Bool-cases (ltb n 10)) [
  | inl small ↦ rw small (rw (digit-lt n small) d)
  | inr large ↦ rw large (
      digits_onto-digits fuel (n / 10) ((48 + n % 10) ∷ s) (less n fuel large h)
        (rw (digit-mod n) d))
]
  where
    less : (n fuel : ℕ) → ltb n 10 ≡ false → n ≤ suc fuel → n / 10 ≤ fuel
    less n fuel x y = ground arith
