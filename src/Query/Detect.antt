-- ===== src/Query/Detect.antt =====
-- `QueryService.detect_parameters`.
pub mod Names
use fire2api.Base.{
  ℕ, ◌≡◌, Bool, true, false, ◌&&◌, ◌||◌, not, List, [], ◌∷◌, ◌++◌, Option, none, some, ◌==◌, nat_eq,
  list_eq, if◌then◌else◌, map,
}
use fire2api.Text.{Text, Unicode, codes, upper, is_name_start, is_name_char, mem, starts_with}
use fire2api.Sql.Words.{is_next}
use fire2api.Query.Binds.{name_at, named_binds}

pub data Source : Type 0 where
  path query body : Source

-- A detected parameter; its type is "string" and it is required, whatever it is.
pub record Detected : Type 0 where
  pub name : Text
  pub source : Source

-- What stands behind the name at the front.
abbrev pub behind_name : Text → Text
behind_name [] = []
behind_name (c ∷ s) = let rest = behind_name s in if is_name_char c then rest else c ∷ s

-- `re.findall(r"\{([A-Za-z_][A-Za-z0-9_]*)\}", route_path)`; a name holds no brace, so going on
-- inside a match finds nothing.
unfoldable pub path_names : Text → List Text
path_names [] = []
path_names (c ∷ s) =
    let rest = path_names s in
    if c == b'{' && (is_next is_name_start s && is_next (λ d. d == b'}') (behind_name s))
    then name_at s ∷ rest
    else rest

-- `RESERVED_PARAMETER_NAMES` and the prefix of the service's own binds.
unfoldable pub is_reserved : Text → Bool
unfolding starts_with
is_reserved name =
    mem name (codes "LIMIT" ∷ codes "OFFSET" ∷ codes "ORDER_BY" ∷ [])
    || starts_with (codes "__F2A_") name

abbrev pub names_of : List Detected → List Text
names_of [] = []
names_of (d ∷ ds) = d.name ∷ names_of ds

-- Both loops: a name that was seen, or that the second loop skips, adds nothing. The names seen are
-- those detected.
unfoldable pub collect : (Text → Bool) → Source → List Text → List Detected → List Detected
collect skips source [] found = found
collect skips source (name ∷ names) found = collect skips source names (
    if mem name (names_of found) || skips name
    then found
    else found ++ record { name = name; source = source } ∷ [])

abbrev pub canonical : Unicode → List Text → List Text
canonical u [] = []
canonical u (name ∷ names) = upper u name ∷ canonical u names

-- `"query" if method == "GET" else "body"`.
abbrev pub default_source : Unicode → Text → Source
default_source u method = if upper u method == codes "GET" then query else body

unfoldable pub detect_parameters : Unicode → Text → Text → Text → List Detected
detect_parameters u route_path query_sql method =
    collect is_reserved (default_source u method) (canonical u (named_binds query_sql))
      (collect (λ _. false) path (canonical u (path_names route_path)) [])
