-- ===== src/Sql/Literals/Hidden.antt =====
-- A string literal as a client writes it, and what the two passes make of it.
use fire2api.Base.{
  ℕ, ◌≡◌, ◌≢◌, refl, ap, false, [], ◌∷◌, ◌++◌, arith, ◌==◌, nat_eq, if◌then◌else◌, All, Bool-cases,
  inl, inr, nat_beq_iff,
}
use fire2api.Text.{Text, next, is_char}
use fire2api.Sql.Scan.{emit}
use fire2api.Sql.Comments
use fire2api.Sql.Comments.{strip_comments}
use fire2api.Sql.Literals
use fire2api.Sql.Literals.{strip_literals}

-- The contents of a literal with each quote written twice, and the literal.
abbrev pub doubled : Text → Text
doubled [] = []
doubled (c ∷ s) = let rest = doubled s in if c == b'\'' then c ∷ c ∷ rest else c ∷ rest

abbrev pub quote : Text → Text → Text
quote body rest = b'\'' ∷ (doubled body ++ b'\'' ∷ rest)

inside-doubled :
    (body t : Text)
    → is_char b'\'' (next t) ≡ false
    → emit Literals.step Literals.inside (doubled body ++ b'\'' ∷ t)
      ≡ emit Literals.step Literals.outside t
unfolding emit Literals.step
inside-doubled [] t h = rw h refl
inside-doubled (c ∷ body) t h = elim (Bool-cases (c == b'\'')) [
  | inl q ↦ rw q (rw ((nat_beq_iff c b'\'').0 q) (inside-doubled body t h))
  | inr other ↦ rw other (rw other (inside-doubled body t h))
]

abbrev pub NoQuote : Text → Type 0
NoQuote = All (λ c. c ≢ b'\'')

-- Of a literal nothing but its quotes is left, whatever it holds: behind text without quotes, and
-- in front of anything but a quote.
pub strip_literals-quote :
    (before body t : Text)
    → NoQuote before
    → is_char b'\'' (next t) ≡ false
    → strip_literals (before ++ quote body t) ≡ before ++ b'\'' ∷ b'\'' ∷ strip_literals t
unfolding strip_literals
strip_literals-quote [] body t n h = ap (λ r. b'\'' ∷ b'\'' ∷ r) (inside-doubled body t h)
strip_literals-quote (c ∷ before) body t n h =
    rw (plain c n.0) (ap (◌∷◌ c) (strip_literals-quote before body t n.1 h))
  where
    plain : (c : ℕ) → c ≢ b'\'' → (c == b'\'') ≡ false
    plain c ne = ground arith

quoted-doubled :
    (body t : Text)
    → is_char b'\'' (next t) ≡ false
    → emit Comments.step Comments.quoted (doubled body ++ b'\'' ∷ t)
      ≡ doubled body ++ b'\'' ∷ emit Comments.step Comments.plain t
unfolding emit Comments.step
quoted-doubled [] t h = rw h refl
quoted-doubled (c ∷ body) t h = elim (Bool-cases (c == b'\'')) [
  | inl q ↦
      rw q (rw ((nat_beq_iff c b'\'').0 q) (ap (λ r. b'\'' ∷ b'\'' ∷ r) (quoted-doubled body t h)))
  | inr other ↦ rw other (rw other (ap (◌∷◌ c) (quoted-doubled body t h)))
]

-- A literal survives the removal of comments unchanged, comment marks inside it included.
pub strip_comments-quote :
    (body t : Text)
    → is_char b'\'' (next t) ≡ false
    → strip_comments (quote body t) ≡ quote body (strip_comments t)
unfolding strip_comments
strip_comments-quote body t h = ap (◌∷◌ b'\'') (quoted-doubled body t h)
