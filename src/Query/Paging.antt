-- ===== src/Query/Paging.antt =====
-- The paging part of `QueryService.apply_query_options`, from `raw_limit = ...` on, behind the
-- statement that an accepted ORDER_BY has already extended.
pub mod Rows
pub mod Swallowed
use fire2api.Base.{
  ℕ, ℤ, pos, negsuc, zero, suc, ◌+◌, ◌≡◌, Bool, true, false, ◌&&◌, ◌||◌, not, List, [], ◌∷◌, ◌++◌,
  Option, none, some, ltb, min, ◌==◌, nat_eq, list_eq, if◌then◌else◌, any, Dict, put,
}
use fire2api.Query.Convert.{Value, string, Result, ok, fails, bad_value, ◌>>=◌, Python, int_of}
use fire2api.Text.{Text, Unicode, codes, rstrip, mem}
use fire2api.Sql.Comments.{strip_comments}
use fire2api.Sql.Literals.{strip_literals}
use fire2api.Sql.Words.{top_level_words}

abbrev pub paging_words : List Text
paging_words = codes "ROWS" ∷ codes "FIRST" ∷ codes "SKIP" ∷ codes "OFFSET" ∷ codes "FETCH" ∷ []

abbrev pub is_paged : Unicode → Text → Bool
is_paged u sql =
    any (λ w. mem w (top_level_words u (strip_literals (strip_comments sql)))) paging_words

abbrev pub row_limit : Text
row_limit = codes "__f2a_row_limit"

abbrev pub row_start : Text
row_start = codes "__f2a_row_start"

abbrev pub row_end : Text
row_end = codes "__f2a_row_end"

-- ` ROWS :__f2a_row_limit` and ` ROWS :__f2a_row_start TO :__f2a_row_end`.
abbrev pub limit_clause : Text
limit_clause = codes " ROWS :__f2a_row_limit"

abbrev pub window_clause : Text
window_clause = codes " ROWS :__f2a_row_start TO :__f2a_row_end"

-- `min(int(raw_limit), max_rows) if raw_limit not in (None, "") else max_rows`.
abbrev pub least : ℕ → ℤ → ℤ
least max_rows (pos n) = pos (min n max_rows)
least max_rows (negsuc n) = negsuc n

module _ {O : Type 0} (py : Python O) where
  abbrev pub read_limit : Option (Value O) → ℕ → Result ℤ
  read_limit none max_rows = ok (pos max_rows)
  read_limit (some (string [])) max_rows = ok (pos max_rows)
  read_limit (some v) max_rows = int_of py v >>= (λ n. ok (least max_rows n))

  -- `int(options.get("offset") or 0)`: whatever else is falsy, `int` reads as 0.
  abbrev pub read_offset : Option (Value O) → Result ℤ
  read_offset none = ok (pos 0)
  read_offset (some (string [])) = ok (pos 0)
  read_offset (some v) = int_of py v

-- `if limit <= 0 or offset < 0: raise`.
abbrev pub in_range : ℤ → ℤ → Result (ℕ × ℕ)
in_range (pos (suc n)) (pos offset) = ok (suc n, offset)
in_range _ _ = fails bad_value

module _ (u : Unicode) {V : Type 0} (number : ℕ → V) where
  abbrev pub append_rows : Text → Dict Text V → ℕ → ℕ → Text × Dict Text V
  append_rows sql params limit offset =
      if not (offset == 0)
      then (
        rstrip u.is_space sql ++ window_clause,
        put (put params row_start (number (offset + 1))) row_end (number (offset + limit)),
      )
      else (rstrip u.is_space sql ++ limit_clause, put params row_limit (number limit))

  abbrev pub page : Text → Dict Text V → ℕ × ℕ → Text × Dict Text V
  page sql params (limit, offset) =
      if is_paged u sql then (sql, params) else append_rows sql params limit offset

  unfoldable pub apply_paging :
      {O : Type 0}
      → Python O
      → Text
      → Dict Text V
      → Option (Value O)
      → Option (Value O)
      → ℕ
      → Result (Text × Dict Text V)
  apply_paging py sql params limit offset max_rows = read_limit py limit max_rows >>= (λ l.
      read_offset py offset >>= (λ o. in_range l o >>= (λ window. ok (page sql params window))))
