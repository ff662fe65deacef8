-- ===== src/Sql/Words.antt =====
-- The words of a statement: `QueryService._top_level_words` and the patterns of
-- app/core/query_service.py that look for words.
use fire2api.Base.{
  ℕ, ◌+◌, ◌-◌, Bool, true, false, ◌&&◌, ◌||◌, not, List, [], ◌∷◌, ◌++◌, Option, none, some, ◌==◌,
  nat_eq, if◌then◌else◌, all, keep_if,
}
use fire2api.Text.{Text, Unicode, upper, is_upper, lstrip}

abbrev pub push_run : Text → List Text → List Text
push_run [] later = later
push_run (c ∷ w) later = (c ∷ w) ∷ later

module _ (u : Unicode) where
  -- `if ... and current: words.append("".join(current).upper())`, before the later words.
  abbrev pub push_word : Text → List Text → List Text
  push_word [] later = later
  push_word (c ∷ w) later = upper u (c ∷ w) ∷ later

  -- `\w` of a pattern.
  abbrev pub is_word : ℕ → Bool
  is_word c = u.is_alnum c || c == b'_'

  -- The loop, with `depth` and `current`, and the words still to append. At a space or a sign on
  -- the top level `current` is emptied also where it is empty.
  unfoldable pub words_from : ℕ → Text → Text → List Text
  words_from depth current [] = push_word current []
  words_from depth current (c ∷ s) = elim (c == b'(') [
    | true ↦ elim (depth == 0) [
      | true ↦ push_word current (words_from (depth + 1) [] s)
      | false ↦ words_from (depth + 1) current s
    ]
    | false ↦ elim (c == b')') [
      | true ↦ words_from (depth - 1) current s
      | false ↦ elim (depth == 0) [
        | true ↦ elim (is_word c) [
          | true ↦ words_from depth (current ++ c ∷ []) s
          | false ↦ push_word current (words_from depth [] s)
        ]
        | false ↦ words_from depth current s
      ]
    ]
  ]

  unfoldable pub top_level_words : Text → List Text
  unfolding words_from
  top_level_words sql = words_from 0 [] sql

  -- The maximal runs of `\w`: only there `\b` can stand on both sides of word characters.
  unfoldable pub runs_from : Text → Text → List Text
  runs_from current [] = push_run current []
  runs_from current (c ∷ s) = elim (is_word c) [
    | true ↦ runs_from (current ++ c ∷ []) s
    | false ↦ push_run current (runs_from [] s)
  ]

-- `[A-Z][A-Z_]*`, all of a run.
abbrev pub is_token : Text → Bool
is_token [] = false
is_token (c ∷ w) = is_upper c && all (λ d. is_upper d || d == b'_') w

-- `re.findall(r"\b[A-Z][A-Z_]*\b", text)`: a match fills the run that it starts.
unfoldable pub tokens : Unicode → Text → List Text
unfolding runs_from
tokens u s = keep_if is_token (runs_from u [] s)

-- The text behind a prefix, compared character by character.
unfoldable pub drop_prefix : (ℕ → ℕ → Bool) → Text → Text → Option Text
drop_prefix same [] s = some s
drop_prefix same (c ∷ p) [] = none
drop_prefix same (c ∷ p) (d ∷ s) =
    let rest = drop_prefix same p s in if same c d then rest else none

abbrev pub is_next : (ℕ → Bool) → Text → Bool
is_next p [] = false
is_next p (c ∷ s) = p c

module _ (u : Unicode) where
  -- `re.match(r"A\s+B\b", s)` for words A, B, ... of letters: `\s+` takes all the white space, since
  -- the next word begins with none.
  unfoldable pub match_words : (ℕ → ℕ → Bool) → List Text → Text → Bool
  unfolding drop_prefix lstrip
  match_words same [] s = true
  match_words same (w ∷ []) s = elim (drop_prefix same w s) [
    | none ↦ false
    | some r ↦ not (is_next (is_word u) r)
  ]
  match_words same (w ∷ v ∷ ws) s = elim (drop_prefix same w s) [
    | none ↦ false
    | some r ↦ is_next u.is_space r && match_words same (v ∷ ws) (lstrip u.is_space r)
  ]

  -- The leading `[A-Z]+`.
  unfoldable pub leading_upper : Text → Text
  leading_upper [] = []
  leading_upper (c ∷ s) = let rest = leading_upper s in if is_upper c then c ∷ rest else []
