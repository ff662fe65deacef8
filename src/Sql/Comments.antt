-- ===== src/Sql/Comments.antt =====
-- `QueryService._strip_comments`.
use fire2api.Base.{
  ℕ, ◌≡◌, ◌≢◌, refl, ap, true, ◌&&◌, [], ◌∷◌, Option, arith, ◌==◌, nat_eq, if◌then◌else◌,
}
use fire2api.Text.{Text, next, is_char}
use fire2api.Sql.Scan.{emit}

-- `quoted` is false in `plain` and true in `quoted`. `second_quote`, `line_opened`,
-- `block_opened` and `block_closed` stand at the second character of `''`, `--`, `/*` and `*/`.
pub data Mode : Type 0 where
  plain quoted second_quote line_opened in_line block_opened in_block block_closed : Mode

unfoldable pub step : Mode → ℕ → Option ℕ → Text × Mode
step plain c ahead =
    if c == b'\''
    then (c ∷ [], quoted)
    else if c == b'-' && is_char b'-' ahead
    then (b' ' ∷ [], line_opened)
    else if c == b'/' && is_char b'*' ahead
    then (b' ' ∷ [], block_opened)
    else (c ∷ [], plain)
step quoted c ahead =
    if c == b'\''
    then (if is_char b'\'' ahead then (c ∷ [], second_quote) else (c ∷ [], plain))
    else (c ∷ [], quoted)
step second_quote c ahead = (c ∷ [], quoted)
step line_opened c ahead = ([], in_line)
step in_line c ahead = if c == b'\n' then (c ∷ [], plain) else ([], in_line)
step block_opened c ahead = ([], in_block)
step in_block c ahead =
    if c == b'*' && is_char b'/' ahead then ([], block_closed) else ([], in_block)
step block_closed c ahead = ([], plain)

unfoldable pub strip_comments : Text → Text
unfolding step emit
strip_comments = emit step plain

-- The mode in which the output itself is scanned: what stands for a comment is plain.
abbrev again : Mode → Mode
again quoted = quoted
again second_quote = second_quote
again _ = plain

-- Plain text starts its output with its own first character, or with the blank for a comment.
next-emit :
    (a : ℕ) (s : Text)
    → a ≢ b' '
    → is_char a (next (emit step plain s)) ≡ true
    → is_char a (next s) ≡ true
unfolding emit step
next-emit a [] ne h = cc
next-emit a (c ∷ s) ne h = ground arith

next-second_quote : (s : Text) → next (emit step second_quote s) ≡ next s
unfolding emit step
next-second_quote [] = refl
next-second_quote (c ∷ s) = refl

-- The output of a suffix is its own output again.
abbrev IsStable : Mode → Text → Type 0
IsStable m s = emit step (again m) (emit step m s) ≡ emit step m s

plain-IsStable :
    (c : ℕ) (s : Text)
    → IsStable plain s
    → IsStable quoted s
    → IsStable line_opened s
    → IsStable block_opened s
    → IsStable plain (c ∷ s)
unfolding emit step
plain-IsStable c s p q l b =
    ground (arith, next-emit b'-' s (omega arith), next-emit b'*' s (omega arith))

quoted-IsStable :
    (c : ℕ) (s : Text)
    → IsStable plain s
    → IsStable quoted s
    → IsStable second_quote s
    → IsStable quoted (c ∷ s)
unfolding emit step
quoted-IsStable c s p q t = ground (arith, next-emit b'\'' s (omega arith), next-second_quote s)

in_block-IsStable :
    (c : ℕ) (s : Text) → IsStable in_block s → IsStable block_closed s → IsStable in_block (c ∷ s)
unfolding emit step
in_block-IsStable c s i b = ground arith

in_line-IsStable :
    (c : ℕ) (s : Text) → IsStable in_line s → IsStable plain s → IsStable in_line (c ∷ s)
unfolding emit step
in_line-IsStable c s i p = ground arith

emit_again : (m : Mode) (s : Text) → IsStable m s
unfolding emit step
emit_again m [] = refl
emit_again plain (c ∷ s) =
    plain-IsStable c s (emit_again plain s) (emit_again quoted s) (emit_again line_opened s)
      (emit_again block_opened s)
emit_again quoted (c ∷ s) =
    quoted-IsStable c s (emit_again plain s) (emit_again quoted s) (emit_again second_quote s)
emit_again second_quote (c ∷ s) = ap (◌∷◌ c) (emit_again quoted s)
emit_again line_opened (c ∷ s) = emit_again in_line s
emit_again in_line (c ∷ s) = in_line-IsStable c s (emit_again in_line s) (emit_again plain s)
emit_again block_opened (c ∷ s) = emit_again in_block s
emit_again in_block (c ∷ s) =
    in_block-IsStable c s (emit_again in_block s) (emit_again block_closed s)
emit_again block_closed (c ∷ s) = emit_again plain s

-- Stripping comments leaves none: a second pass changes nothing.
pub strip_comments_idem : (s : Text) → strip_comments (strip_comments s) ≡ strip_comments s
unfolding strip_comments
strip_comments_idem s = emit_again plain s
