-- ===== src/Sql/Literals.antt =====
-- `QueryService._strip_literals`.
pub mod Hidden
use fire2api.Base.{
  ℕ, ◌≡◌, ◌≢◌, refl, ap, Bool-cases, inl, inr, Bool, true, false, List, [], ◌∷◌, ◌++◌, Option, none,
  some, arith, ◌==◌, nat_eq, if◌then◌else◌,
}
use fire2api.Text.{Text, next, is_char}
use fire2api.Sql.Scan.{emit, final}

-- The outer loop, the inner loop over a literal, and the second character of `''` in one.
pub data Mode : Type 0 where
  outside inside second_quote : Mode

unfoldable pub step : Mode → ℕ → Option ℕ → Text × Mode
step outside c ahead = if c == b'\'' then (b'\'' ∷ b'\'' ∷ [], inside) else (c ∷ [], outside)
step inside c ahead =
    if c == b'\''
    then (if is_char b'\'' ahead then ([], second_quote) else ([], outside))
    else ([], inside)
step second_quote c ahead = ([], inside)

unfoldable pub strip_literals : Text → Text
unfolding step emit
strip_literals = emit step outside

next-emit :
    (s : Text) → is_char b'\'' (next s) ≡ false → is_char b'\'' (next (emit step outside s)) ≡ false
unfolding emit step
next-emit [] h = refl
next-emit (c ∷ s) h = ground arith

-- What an emptied literal is followed by never begins with a quote, so it is scanned as itself.
emptied :
    (s : Text)
    → is_char b'\'' (next s) ≡ false
    → emit step outside s ≡ s
    → emit step outside (b'\'' ∷ b'\'' ∷ s) ≡ b'\'' ∷ b'\'' ∷ s
unfolding emit step
emptied s h e = ground arith

-- The output of a suffix is its own output again; behind an opening quote, with the `''` that
-- was written for it.
abbrev IsStable : Mode → Text → Type 0
IsStable outside s = emit step outside (emit step outside s) ≡ emit step outside s
IsStable m s = emit step outside (b'\'' ∷ b'\'' ∷ emit step m s) ≡ b'\'' ∷ b'\'' ∷ emit step m s

outside-IsStable :
    (c : ℕ) (s : Text) → IsStable outside s → IsStable inside s → IsStable outside (c ∷ s)
unfolding step
outside-IsStable c s o i = elim (Bool-cases (c == b'\'')) [
  | inl quote ↦ unfold emit in rw quote i
  | inr other ↦ unfold emit in rw other (rw (emit, other) (ap (◌∷◌ c) o))
]

inside-IsStable :
    (c : ℕ) (s : Text)
    → IsStable outside s
    → IsStable inside s
    → IsStable second_quote s
    → IsStable inside (c ∷ s)
inside-IsStable c s o i t = elim (Bool-cases (c == b'\'')) [
  | inl quote ↦ elim (Bool-cases (is_char b'\'' (next s))) [
    | inl doubled ↦ unfold emit step in rw quote (rw doubled t)
    | inr ends ↦
        let e = emptied (emit step outside s) (next-emit s ends) o in
        unfold emit step in rw quote (rw ends e)
  ]
  | inr other ↦ unfold emit step in rw other i
]

emit_again : (m : Mode) (s : Text) → IsStable m s
unfolding emit step
emit_again outside [] = refl
emit_again inside [] = refl
emit_again second_quote [] = refl
emit_again outside (c ∷ s) = outside-IsStable c s (emit_again outside s) (emit_again inside s)
emit_again inside (c ∷ s) =
    inside-IsStable c s (emit_again outside s) (emit_again inside s) (emit_again second_quote s)
emit_again second_quote (c ∷ s) = emit_again inside s

-- Emptied literals stay as they are: a second pass changes nothing.
pub strip_literals_idem : (s : Text) → strip_literals (strip_literals s) ≡ strip_literals s
unfolding strip_literals
strip_literals_idem s = emit_again outside s
