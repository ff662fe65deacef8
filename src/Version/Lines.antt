-- ===== src/Version/Lines.antt =====
-- `replace_version_line` of version.py.
pub mod Replaced
use fire2api.Base.{
  ℕ, zero, suc, ◌+◌, Bool, true, false, ◌&&◌, ◌||◌, not, List, [], ◌∷◌, ◌++◌, Option, none, some,
  ◌==◌, nat_eq, list_eq, if◌then◌else◌, any, length, drop,
}
use fire2api.Text.{Text, codes, starts_with}

-- The line boundaries of `str.splitlines`.
abbrev pub is_break : ℕ → Bool
is_break c = any (λ b. b == c) (10 ∷ 11 ∷ 12 ∷ 13 ∷ 28 ∷ 29 ∷ 30 ∷ 133 ∷ 8232 ∷ 8233 ∷ [])

abbrev pub is_newline : Text → Bool
is_newline [] = false
is_newline (c ∷ s) = c == 10

-- A line ends at a boundary, of which `\r\n` is one.
abbrev pub ends_line : ℕ → Text → Bool
ends_line c s = is_break c && not (c == 13 && is_newline s)

-- `text.splitlines(keepends=True)`, behind the line read so far.
unfoldable pub split_lines : Text → Text → List Text
split_lines [] [] = []
split_lines (c ∷ line) [] = (c ∷ line) ∷ []
split_lines line (c ∷ s) =
    let closed = split_lines [] s in
    let longer = split_lines (line ++ c ∷ []) s in
    if ends_line c s then (line ++ c ∷ []) ∷ closed else longer

-- `line.rstrip("\r\n")`.
abbrev pub trim_end : Text → Text
trim_end [] = []
trim_end (c ∷ s) =
    let rest = trim_end s in if (c == 10 || c == 13) && rest == [] then [] else c ∷ rest

abbrev pub version_line : Text → Text
version_line version = codes "version = " ++ 34 ∷ (version ++ 34 ∷ [])

abbrev pub is_line : Text → Text → Bool
is_line old line = trim_end line == old

abbrev pub count_lines : Text → List Text → ℕ
count_lines old [] = 0
count_lines old (l ∷ ls) = let rest = count_lines old ls in if is_line old l then suc rest else rest

-- `s.replace(old, new, 1)`.
abbrev pub replace_first : Text → Text → Text → Text
replace_first old new [] = if starts_with old [] then new else []
replace_first old new (c ∷ s) =
    let rest = replace_first old new s in
    if starts_with old (c ∷ s) then new ++ drop (length old) (c ∷ s) else c ∷ rest

-- The change of the one line that matches.
abbrev pub replace_lines : Text → Text → List Text → List Text
replace_lines old new [] = []
replace_lines old new (l ∷ ls) =
    (if is_line old l then replace_first old new l else l) ∷ replace_lines old new ls

abbrev pub join_lines : List Text → Text
join_lines [] = []
join_lines (l ∷ ls) = l ++ join_lines ls

unfoldable pub replace_version_line : Text → Text → Text → Option Text
unfolding split_lines starts_with
replace_version_line text current new =
    if count_lines (version_line current) (split_lines [] text) == 1
    then some
        (join_lines (replace_lines (version_line current) (version_line new) (split_lines [] text)))
    else none
