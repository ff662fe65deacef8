-- ===== src/Query/Order.antt =====
-- ORDER_BY in `QueryService.apply_query_options`.
pub mod Harmless
mod Tests
use fire2api.Base.{
  ℕ, ◌≡◌, Bool, true, false, ◌&&◌, ◌||◌, not, List, [], ◌∷◌, ◌++◌, Option, none, some, ◌==◌, nat_eq,
  list_eq, if◌then◌else◌, any, all,
}
use fire2api.Text.{Text, Unicode, codes, is_digit, rstrip, lstrip, strip}
use fire2api.Sql.Comments.{strip_comments}
use fire2api.Sql.Literals.{strip_literals}
use fire2api.Sql.Words.{top_level_words}

abbrev pub letters : Text
letters = codes "ABCDEFGHIJKLMNOPQRSTUVWXYZ"

-- `.split(",")`, behind the characters of the first part.
abbrev pub split_commas : Text → Text → List Text
split_commas part [] = part ∷ []
split_commas part (c ∷ s) =
    let on = split_commas (part ++ c ∷ []) s in
    let next = split_commas [] s in if c == b',' then part ∷ next else on

-- `", ".join(items)`.
abbrev pub join_commas : List Text → Text
join_commas [] = []
join_commas (item ∷ []) = item
join_commas (item ∷ items) = item ++ b',' ∷ b' ' ∷ join_commas items

-- `first == "ORDER" and second == "BY"` for two words in a row.
abbrev pub has_order : List Text → Bool
has_order [] = false
has_order (v ∷ []) = false
has_order (v ∷ w ∷ ws) = (v == codes "ORDER" && w == codes "BY") || has_order (w ∷ ws)

module _ (u : Unicode) where
  -- `[A-Za-z_]` and `[A-Za-z0-9_$]`, ignoring case.
  abbrev pub is_letter : ℕ → Bool
  is_letter c = any (λ d. u.ignore_case c d) letters

  abbrev pub is_order_start : ℕ → Bool
  is_order_start c = is_letter c || c == b'_'

  abbrev pub is_order_char : ℕ → Bool
  is_order_char c = is_order_start c || is_digit c || c == b'$'

  unfoldable pub drop_name : Text → Text
  drop_name [] = []
  drop_name (c ∷ s) = let rest = drop_name s in if is_order_char c then rest else c ∷ s

  -- The text behind a name at the front.
  abbrev pub behind_order_name : Text → Option Text
  behind_order_name [] = none
  behind_order_name (c ∷ s) = if is_order_start c then some (drop_name s) else none

  -- A word, ignoring case.
  unfoldable pub is_word : Text → Text → Bool
  is_word [] [] = true
  is_word (d ∷ w) (c ∷ s) = u.ignore_case c d && is_word w s
  is_word _ _ = false

  -- `(?:\s+(?:ASC|DESC))?`, to the end.
  unfoldable pub is_direction : Text → Bool
  unfolding is_word lstrip
  is_direction [] = true
  is_direction (c ∷ s) =
      u.is_space c
      && (is_word (codes "ASC") (lstrip u.is_space s)
          || is_word (codes "DESC") (lstrip u.is_space s))

  abbrev pub behind_dot : Option Text → Bool
  behind_dot none = false
  behind_dot (some s) = is_direction s

  abbrev pub behind_first : Option Text → Bool
  behind_first none = false
  behind_first (some []) = true
  behind_first (some (c ∷ s)) =
      if c == b'.' then behind_dot (behind_order_name s) else is_direction (c ∷ s)

  -- `_ORDER_ITEM.fullmatch(item)`.
  unfoldable pub is_order_item : Text → Bool
  unfolding drop_name is_direction
  is_order_item s = behind_first (behind_order_name s)

  abbrev pub strip_all : List Text → List Text
  strip_all [] = []
  strip_all (part ∷ parts) = strip u.is_space part ∷ strip_all parts

  -- `[item.strip() for item in str(order_by).split(",")]`.
  unfoldable pub order_items : Text → List Text
  unfolding lstrip rstrip
  order_items order_by = strip_all (split_commas [] order_by)

  -- `none` stands for both ValueErrors.
  unfoldable pub apply_order_by : Text → Option Text → Option Text
  unfolding is_order_item order_items
  apply_order_by sql none = some sql
  apply_order_by sql (some []) = some sql
  apply_order_by sql (some (c ∷ s)) =
      if not (all is_order_item (order_items (c ∷ s)))
      then none
      else if has_order (top_level_words u (strip_literals (strip_comments sql)))
      then none
      else some (rstrip u.is_space sql ++ codes " ORDER BY " ++ join_commas (order_items (c ∷ s)))
