-- ===== src/Sql/Parens.antt =====
-- `QueryService._balanced`.
use mathlib.Core.List.{append_assoc, append-nil}
use fire2api.Base.{
  ℕ, zero, suc, ◌+◌, ◌-◌, ◌≡◌, ◌≢◌, ◌↔◌, refl, sym, ap, ◌∙◌, Bool, true, false, [], ◌∷◌, ◌++◌,
  arith, ◌==◌, nat_eq, nat_beq_iff, if◌then◌else◌, Bool-cases, inl, inr,
}
use mathlib.Core.Path.{subst}
use fire2api.Text.{Text}
use fire2api.Sql.Literals.{strip_literals}

-- The loop over the characters, with `depth`; it returns false where the depth would fall below 0.
unfoldable pub balanced_from : ℕ → Text → Bool
balanced_from depth [] = depth == 0
balanced_from depth (c ∷ s) =
    let rest =
      balanced_from (if c == b'(' then depth + 1 else if c == b')' then depth - 1 else depth) s in
    if c == b'(' then rest else if c == b')' then (if depth == 0 then false else rest) else rest

unfoldable pub balanced : Text → Bool
unfolding balanced_from
balanced sql = balanced_from 0 (strip_literals sql)

-- Text in which every parenthesis has its partner.
pub data Nested : Text → Type 0 where
  nil : Nested []
  plain : {c : ℕ} {s : Text} → c ≢ b'(' → c ≢ b')' → Nested s → Nested (c ∷ s)
  group : {a b : Text} → Nested a → Nested b → Nested (b'(' ∷ (a ++ b')' ∷ b))

-- A nested text leaves the depth as it was.
Nested-skips :
    {a : Text} (depth : ℕ) (rest : Text)
    → Nested a
    → balanced_from depth (a ++ rest) ≡ balanced_from depth rest
unfolding balanced_from
Nested-skips depth rest nil = refl
Nested-skips depth rest (plain {c} {s} l r n) = ground (arith, Nested-skips depth rest n)
Nested-skips depth rest (group {a} {b} n m) =
    rw append_assoc
      (Nested-skips (depth + 1) (b')' ∷ (b ++ rest)) n ∙ ground (arith, Nested-skips depth rest m))

-- What closes `depth` open groups.
data Unwinds : ℕ → Text → Type 0 where
  last : {s : Text} → Nested s → Unwinds 0 s
  more :
      {depth : ℕ} {a b s : Text}
      → Nested a
      → Unwinds depth b
      → s ≡ a ++ b')' ∷ b
      → Unwinds (suc depth) s

Unwinds-plain :
    (depth : ℕ) {c : ℕ} {s : Text} → c ≢ b'(' → c ≢ b')' → Unwinds depth s → Unwinds depth (c ∷ s)
Unwinds-plain zero l r (last n) = last (plain l r n)
Unwinds-plain (suc depth) {c} l r (more n u e) = more (plain l r n) u (ap (◌∷◌ c) e)

Unwinds-open : (depth : ℕ) {s : Text} → Unwinds (suc depth) s → Unwinds depth (b'(' ∷ s)
Unwinds-open zero (more n (last m) e) = last (subst (λ t. Nested (b'(' ∷ t)) (sym e) (group n m))
Unwinds-open (suc depth) (more {a = a} n (more {a = a'} {b = b'} m u e') e) =
    more (group n m) u (
      ap (◌∷◌ b'(') (e ∙ ap (λ t. a ++ b')' ∷ t) e' ∙ sym (append_assoc a (b')' ∷ a') (b')' ∷ b'))))

Unwinds-close :
    (depth : ℕ) (s : Text) → (depth == 0) ≡ false → Unwinds (depth - 1) s → Unwinds depth (b')' ∷ s)
Unwinds-close zero s h u = absurd (ground arith)
Unwinds-close (suc depth) s h u = more nil (subst (λ d. Unwinds d s) (omega arith) u) refl

balanced_from-Unwinds : (depth : ℕ) (s : Text) → balanced_from depth s ≡ true → Unwinds depth s
unfolding balanced_from
balanced_from-Unwinds zero [] h = last nil
balanced_from-Unwinds (suc depth) [] h = absurd (ground arith)
balanced_from-Unwinds depth (c ∷ s) h = elim (Bool-cases (c == b'(')) [
  | inl opens ↦
      subst (λ x. Unwinds depth (x ∷ s)) (sym ((nat_beq_iff c b'(').0 opens))
        (Unwinds-open depth (balanced_from-Unwinds (suc depth) s (ground arith)))
  | inr other ↦ elim (Bool-cases (c == b')')) [
    | inl closes ↦
        subst (λ x. Unwinds depth (x ∷ s)) (sym ((nat_beq_iff c b')').0 closes))
          (Unwinds-close depth s (ground arith)
            (balanced_from-Unwinds (depth - 1) s (ground arith)))
    | inr neither ↦
        Unwinds-plain depth (ground arith) (ground arith)
          (balanced_from-Unwinds depth s (ground arith))
  ]
]

unwound : {depth : ℕ} {s : Text} → depth ≡ 0 → Unwinds depth s → Nested s
unwound e (last n) = n
unwound e (more n u _) = absurd (omega arith)

-- The test accepts a text exactly if, with its literals emptied, every parenthesis has its partner.
pub balanced_iff : (sql : Text) → (balanced sql ≡ true) ↔ Nested (strip_literals sql)
unfolding balanced
balanced_iff sql = (λ h. unwound refl (balanced_from-Unwinds 0 (strip_literals sql) h), nested)
  where
    nested : Nested (strip_literals sql) → balanced_from 0 (strip_literals sql) ≡ true
    nested n = ap (balanced_from 0) (sym (append-nil (strip_literals sql))) ∙ Nested-skips 0 [] n
