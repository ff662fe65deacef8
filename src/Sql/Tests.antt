-- ===== src/Sql/Tests.antt =====
-- The scanner on concrete statements.
use fire2api.Base.{◌≡◌, ◌↔◌, refl, true, false, List, [], ◌∷◌, ◌++◌}
use fire2api.Text.{Text, codes, rstrip, strip, upper, mem, is_blank}
use fire2api.Text.Ascii.{ascii}
use fire2api.Sql.Comments.{strip_comments}
use fire2api.Sql.Literals.{strip_literals}
use fire2api.Sql.Statements.{split_statements, joined, closed, split_statements-joined}
use fire2api.Sql.Statements
use fire2api.Sql.Parens.{balanced, Nested, balanced_iff}
use fire2api.Sql.Words.{tokens}
use fire2api.Sql.Validate.{
  valid, invalid, forbidden, not_single, methods, statement_type, validate_query,
}
use fire2api.Sql.Validate.Accepts.{Accepted, validate_query-Accepted}

abbrev commented : Text
commented = codes "SELECT a -- x\nFROM t /* y */ WHERE b = '--'"

comments_gone : strip_comments commented ≡ codes "SELECT a  \nFROM t   WHERE b = '--'"
unfolding strip_comments
comments_gone = refl

literals_gone : strip_literals (codes "a = 'it''s' + 'b'") ≡ codes "a = '' + ''"
unfolding strip_literals
literals_gone = refl

abbrev pieces : List Text
pieces = codes "SELECT ';'" ∷ codes " DROP t" ∷ []

split_statements-joined_example :
    split_statements ascii.is_space (joined pieces ++ codes " COMMIT")
    ≡ pieces ++ codes " COMMIT" ∷ []
unfolding closed Statements.step Statements.is_end
split_statements-joined_example =
    split_statements-joined ascii.is_space pieces (codes " COMMIT")
      ((refl, refl), ((refl, refl), tt)) refl

balanced_iff_example :
    (balanced (codes "(a ')') (b)") ≡ true) ↔ Nested (strip_literals (codes "(a ')') (b)"))
balanced_iff_example = balanced_iff (codes "(a ')') (b)")

abbrev select : Text
select = codes "select a from t where b = 'DROP;' -- c"

select_valid : validate_query ascii select (codes "get") ≡ valid (codes "select")
unfolding validate_query balanced statement_type tokens rstrip
select_valid = refl

refusals :
    (validate_query ascii (codes "select 1; select 2") (codes "GET") ≡ invalid not_single)
    × (validate_query ascii (codes "select 1 from (drop) t") (codes "GET")
        ≡ invalid (forbidden (codes "DROP")))
unfolding validate_query balanced statement_type tokens rstrip
refusals = (refl, refl)

validate_query-Accepted_example :
    (statement : Text) × (split_statements ascii.is_space
        (strip ascii.is_space (strip_comments select))
      ≡ statement ∷ [])
    × (is_blank ascii.is_space statement ≡ false)
    × (mem (upper ascii (codes "get")) methods ≡ true)
    × Accepted ascii (upper ascii (codes "get")) (strip ascii.is_space statement) (codes "select")
validate_query-Accepted_example =
    validate_query-Accepted ascii select (codes "get") (codes "select") select_valid
