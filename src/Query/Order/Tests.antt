-- ===== src/Query/Order/Tests.antt =====
-- ORDER_BY on concrete requests.
use fire2api.Base.{◌≡◌, refl, false, true, ◌++◌, none, some, all, nat_eq}
use fire2api.Text.{Text, codes, rstrip, lstrip}
use fire2api.Text.Ascii.{ascii}
use fire2api.Sql.Comments.{strip_comments}
use fire2api.Sql.Literals.{strip_literals}
use fire2api.Sql.Words.{top_level_words}
use fire2api.Query.Order.{has_order, is_order_item, order_items, apply_order_by}
use fire2api.Query.Order.Harmless.{is_harmless, apply_order_by-harmless}

abbrev select : Text
select = codes "SELECT * FROM t "

ordered :
    apply_order_by ascii select (some (codes "a asc, t.b"))
    ≡ some (codes "SELECT * FROM t ORDER BY a asc, t.b")
unfolding apply_order_by is_order_item order_items rstrip lstrip top_level_words strip_literals
    strip_comments
ordered = refl

injected : apply_order_by ascii select (some (codes "a; DROP TABLE t")) ≡ none
unfolding apply_order_by is_order_item order_items rstrip lstrip
injected = refl

harmful : all (λ c. is_harmless ascii c) (codes "a;") ≡ false
harmful = refl

apply_order_by-harmless_example :
    (tail : Text) × (codes "SELECT * FROM t ORDER BY a asc, t.b"
      ≡ rstrip ascii.is_space select ++ codes " ORDER BY " ++ tail)
    × (all (is_harmless ascii) tail ≡ true)
    × (has_order (top_level_words ascii (strip_literals (strip_comments select))) ≡ false)
apply_order_by-harmless_example =
    apply_order_by-harmless ascii select (codes "SELECT * FROM t ORDER BY a asc, t.b") b'a'
      (codes " asc, t.b") refl ordered
