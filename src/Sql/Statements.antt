-- ===== src/Sql/Statements.antt =====
-- `QueryService._split_statements`.
use mathlib.Core.List.{append_assoc, append-nil}
use fire2api.Base.{
  ℕ, ◌≡◌, refl, ap, ◌∙◌, Bool, true, false, ◌&&◌, not, List, [], ◌∷◌, ◌++◌, Option, arith, ◌==◌,
  nat_eq, if◌then◌else◌, All,
}
use fire2api.Text.{Text, next, is_char, is_blank}

-- `quoted` is false in `outside`; `second_quote` is the second character of `''` in a literal.
pub data Mode : Type 0 where
  outside inside second_quote : Mode

-- The mode behind a character that does not end a statement.
unfoldable pub step : Mode → ℕ → Option ℕ → Mode
step outside c ahead = if c == b'\'' then inside else outside
step inside c ahead =
    if c == b'\'' then (if is_char b'\'' ahead then second_quote else outside) else inside
step second_quote c ahead = inside

-- `char == ";" and not quoted`.
unfoldable pub is_end : Mode → ℕ → Bool
is_end outside c = c == b';'
is_end _ c = false

module _ (is_space : ℕ → Bool) where
  -- `if "".join(current).strip(): statements.append("".join(current))`, before the later ones.
  abbrev pub flush : Text → List Text → List Text
  flush current later = if is_blank is_space current then later else current ∷ later

  -- The loop, with the statements that it has still to append.
  unfoldable pub split_from : Mode → Text → Text → List Text
  split_from m current [] = flush current []
  split_from m current (c ∷ s) =
      let ended = is_end m c in
      let rest =
        split_from (if ended then m else step m c (next s))
          (if ended then [] else current ++ c ∷ []) s in
      if ended then flush current rest else rest

  unfoldable pub split_statements : Text → List Text
  unfolding split_from step is_end
  split_statements s = split_from outside [] s

abbrev is_outside : Mode → Bool
is_outside outside = true
is_outside _ = false

-- A text read from a mode: no `;` outside its literals, and all of them closed.
unfoldable pub closed : Mode → Text → Bool
closed m [] = is_outside m
closed m (c ∷ s) = not (is_end m c) && closed (step m c (next s)) s

closed-cons :
    (m : Mode) (c : ℕ) (p : Text)
    → closed m (c ∷ p) ≡ true
    → (is_end m c ≡ false) × (closed (step m c (next p)) p ≡ true)
unfolding closed
closed-cons m c p h = ground arith

-- A semicolon behind a text is as good as its end to the last character.
step-ahead :
    (m : Mode) (c : ℕ) (p rest : Text) → step m c (next (p ++ b';' ∷ rest)) ≡ step m c (next p)
unfolding step
step-ahead outside c [] rest = refl
step-ahead inside c [] rest = refl
step-ahead second_quote c [] rest = refl
step-ahead m c (d ∷ p) rest = refl

-- Statements joined by semicolons.
abbrev pub joined : List Text → Text
joined [] = []
joined (p ∷ ps) = p ++ b';' ∷ joined ps

module _ (is_space : ℕ → Bool) where
  -- A closed text runs up to the semicolon behind it.
  split_from-closed :
      (m : Mode) (current p rest : Text)
      → closed m p ≡ true
      → split_from is_space m current (p ++ b';' ∷ rest)
        ≡ flush is_space (current ++ p) (split_from is_space outside [] rest)
  unfolding split_from closed is_end
  split_from-closed outside current [] rest h = rw append-nil refl
  split_from-closed inside current [] rest h = cc
  split_from-closed second_quote current [] rest h = cc
  split_from-closed m current (c ∷ p) rest h =
      let (goes_on, h') = closed-cons m c p h in
      rw goes_on (
        rw (step-ahead m c p rest) (
          split_from-closed (step m c (next p)) (current ++ c ∷ []) p rest h'
          ∙ ap (λ t. flush is_space t (split_from is_space outside [] rest))
              (append_assoc current (c ∷ []) p)))

  -- A closed text at the end is the last statement.
  split_from-last :
      (m : Mode) (current p : Text)
      → closed m p ≡ true
      → split_from is_space m current p ≡ flush is_space (current ++ p) []
  unfolding split_from closed
  split_from-last m current [] h = rw append-nil refl
  split_from-last m current (c ∷ p) h =
      let (goes_on, h') = closed-cons m c p h in
      rw goes_on (
        split_from-last (step m c (next p)) (current ++ c ∷ []) p h'
        ∙ ap (λ t. flush is_space t []) (append_assoc current (c ∷ []) p))

  -- Splitting gives back the statements that were joined, each with its semicolon and then a
  -- last one without: any number of texts that have no semicolon outside a literal and leave no
  -- literal open, of which only the last may be blank, which makes it no statement.
  pub split_statements-joined :
      (ps : List Text) (last : Text)
      → All (λ p. (closed outside p ≡ true) × (is_blank is_space p ≡ false)) ps
      → closed outside last ≡ true
      → split_statements is_space (joined ps ++ last) ≡ ps ++ flush is_space last []
  unfolding split_statements
  split_statements-joined [] last h e = split_from-last outside [] last e
  split_statements-joined (p ∷ ps) last h e = rw (append_assoc p (b';' ∷ joined ps) last) (
      split_from-closed outside [] p (joined ps ++ last) h.0.0
      ∙ rw h.0.1 (ap (◌∷◌ p) (split_statements-joined ps last h.1 e)))
