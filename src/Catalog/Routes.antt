-- ===== src/Catalog/Routes.antt =====
-- `QueryService._normalize_route_path`.
use fire2api.Base.{
  ℕ, Bool, true, false, ◌&&◌, List, [], ◌∷◌, ◌++◌, ◌==◌, nat_eq, list_eq, if◌then◌else◌,
}
use fire2api.Text.{Text, Unicode, codes, upper, strip, lstrip, rstrip, is_name_start, starts_with}
use fire2api.Sql.Words.{is_next}
use fire2api.Query.Detect.{behind_name}

-- A placeholder stands behind this brace.
abbrev pub opens_name : ℕ → Text → Bool
opens_name c s = c == b'{' && (is_next is_name_start s && is_next (λ d. d == b'}') (behind_name s))

-- `re.split(r"(\{[A-Za-z_][A-Za-z0-9_]*\})", ...)`: the part read so far, which is a placeholder
-- or not, and the text that follows.
unfoldable pub split_names : Bool → Text → Text → List Text
split_names inside part [] = part ∷ []
split_names true part (c ∷ s) =
    let on = split_names true (part ++ c ∷ []) s in
    let ended = split_names false [] s in if c == b'}' then (part ++ c ∷ []) ∷ ended else on
split_names false part (c ∷ s) =
    let on = split_names false (part ++ c ∷ []) s in
    let opened = split_names true (c ∷ []) s in if opens_name c s then part ∷ opened else on

abbrev pub cased : Unicode → Text → Text
cased u part = if starts_with (codes "{") part then upper u part else u.lower part

abbrev pub join_cased : Unicode → List Text → Text
join_cased u [] = []
join_cased u (part ∷ parts) = cased u part ++ join_cased u parts

unfoldable pub normalize_route_path : Unicode → Text → Text
unfolding split_names starts_with lstrip rstrip
normalize_route_path u route_path =
    join_cased u (split_names false [] (strip u.is_space route_path))
