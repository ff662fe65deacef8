-- ===== src/Query/Options.antt =====
-- `QueryService.apply_query_options`: ORDER_BY, then LIMIT and OFFSET, from the options that
-- `bind_parameters` returns.
use fire2api.Base.{ℕ, zero, pos, false, Option, none, some, Dict, if◌then◌else◌}
use fire2api.Text.{Text, Unicode}
use fire2api.Query.Convert.{
  Value, boolean, integer, string, other, Result, ok, fails, bad_value, ◌>>=◌, Python, str,
}
use fire2api.Query.Order.{apply_order_by}
use fire2api.Query.Paging.{apply_paging}
use fire2api.Query.Parameters.{Options}

module _ (u : Unicode) {O : Type 0} (py : Python O) where
  -- `if order_by: ... str(order_by)`; `none` where the value is falsy.
  abbrev pub order_text : Option (Value O) → Option Text
  order_text none = none
  order_text (some (boolean false)) = none
  order_text (some (integer (pos zero))) = none
  order_text (some (string s)) = some s
  order_text (some (other o)) = if py.is_true o then some (str u py (other o)) else none
  order_text (some v) = some (str u py v)

  abbrev pub number : ℕ → Option (Value O)
  number n = some (integer (pos n))

  abbrev pub or_invalid : Option Text → Result Text
  or_invalid none = fails bad_value
  or_invalid (some sql) = ok sql

  unfoldable pub apply_query_options :
      Text
      → Dict Text (Option (Value O))
      → Options O
      → ℕ
      → Result (Text × Dict Text (Option (Value O)))
  apply_query_options sql params options max_rows =
      or_invalid (apply_order_by u sql (order_text options.order_by))
      >>= (λ ordered. apply_paging u number py ordered params options.limit options.offset max_rows)
