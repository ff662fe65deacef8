-- ===== src/Base/Lists.antt =====
-- Lists measured by native numbers, and filters by a Boolean test.
use Prim.Native.Nat.{ℕ, zero, suc, ◌+◌, ◌≤◌}
use mathlib.Core.Path.{◌≡◌, refl, ap, ◌∙◌}
use mathlib.Core.Bool.{Bool, true, false, ◌&&◌, ◌||◌}
use mathlib.Core.List.{List, [], ◌∷◌, ◌++◌}
use native.Mathlib.Omega.{arith}
use mathlib.Core.Logic.{inl, inr}
use fire2api.Base.Tests.{if◌then◌else◌, Bool-cases}

module _ {ℓ} {A : Type ℓ} where
  abbrev pub length : List A → ℕ
  length [] = 0
  length (x ∷ xs) = suc (length xs)

  abbrev pub take : ℕ → List A → List A
  take zero xs = []
  take (suc n) [] = []
  take (suc n) (x ∷ xs) = x ∷ take n xs

  abbrev pub drop : ℕ → List A → List A
  drop zero xs = xs
  drop (suc n) [] = []
  drop (suc n) (x ∷ xs) = drop n xs

  pub length-append : (xs ys : List A) → length (xs ++ ys) ≡ length xs + length ys
  length-append [] ys = omega arith
  length-append (x ∷ xs) ys = omega (arith, length-append xs ys)

  pub length-take-le : (n : ℕ) (xs : List A) → length (take n xs) ≤ n
  length-take-le zero xs = omega arith
  length-take-le (suc n) [] = omega arith
  length-take-le (suc n) (x ∷ xs) = omega (arith, length-take-le n xs)

  -- The entries that pass a test, in order.
  abbrev pub keep_if : (A → Bool) → List A → List A
  keep_if p [] = []
  keep_if p (x ∷ xs) = let rest = keep_if p xs in if p x then x ∷ rest else rest

  abbrev pub any : (A → Bool) → List A → Bool
  any p [] = false
  any p (x ∷ xs) = p x || any p xs

  abbrev pub all : (A → Bool) → List A → Bool
  all p [] = true
  all p (x ∷ xs) = p x && all p xs

-- A statement about every entry.
abbrev pub All {ℓ κ} : {A : Type ℓ} → (A → Type κ) → List A → Type κ
All P [] = Unit
All P (x ∷ xs) = P x × All P xs

module _ {ℓ κ} {A : Type ℓ} (P : A → Type κ) where
  pub All-append : (xs ys : List A) → All P xs → All P ys → All P (xs ++ ys)
  All-append [] ys hx hy = hy
  All-append (x ∷ xs) ys hx hy = (hx.0, All-append xs ys hx.1 hy)

  pub All-keep_if : (g : A → Bool) (xs : List A) → All P xs → All P (keep_if g xs)
  All-keep_if g [] h = tt
  All-keep_if g (x ∷ xs) h = elim (Bool-cases (g x)) [
    | inl kept ↦ rw kept (h.0, All-keep_if g xs h.1)
    | inr gone ↦ rw gone (All-keep_if g xs h.1)
  ]

pub any-append :
    {A : Type 0} (f : A → Bool) (xs : List A) (y : A) → any f (xs ++ y ∷ []) ≡ (any f xs || f y)
any-append f [] y = swap (f y)
  where
    swap : (b : Bool) → (b || false) ≡ b
    swap b = ground arith
any-append f (x ∷ xs) y = ap (λ b. f x || b) (any-append f xs y) ∙ assoc (f x) (any f xs) (f y)
  where
    assoc : (a b c : Bool) → (a || (b || c)) ≡ ((a || b) || c)
    assoc a b c = ground arith

pub any-keep_if :
    {A : Type 0} (f g : A → Bool) (xs : List A) → any f xs ≡ false → any f (keep_if g xs) ≡ false
any-keep_if f g [] h = refl
any-keep_if f g (x ∷ xs) h = elim (Bool-cases (g x)) [
  | inl kept ↦
      rw kept (rw (first (f x) (any f xs) h) (any-keep_if f g xs (rest (f x) (any f xs) h)))
  | inr gone ↦ rw gone (any-keep_if f g xs (rest (f x) (any f xs) h))
]
  where
    first : (a b : Bool) → (a || b) ≡ false → a ≡ false
    first a b x = ground arith

    rest : (a b : Bool) → (a || b) ≡ false → b ≡ false
    rest a b x = ground arith
