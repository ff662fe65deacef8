-- ===== src/Sql/Validate.antt =====
-- `QueryService.statement_type` and `QueryService.validate_query`.
pub mod Accepts
use fire2api.Base.{
  ℕ, ◌≡◌, Bool, true, false, ◌&&◌, ◌||◌, not, List, [], ◌∷◌, ◌++◌, Option, none, some, ◌==◌, nat_eq,
  list_eq, if◌then◌else◌, keep_if, any,
}
use fire2api.Text.{
  Text, Unicode, codes, upper, lower_ascii, lstrip, rstrip, strip, is_blank, mem, starts_with,
}
use fire2api.Sql.Comments.{strip_comments}
use fire2api.Sql.Literals.{strip_literals}
use fire2api.Sql.Statements.{split_statements}
use fire2api.Sql.Parens.{balanced}
use fire2api.Sql.Words.{top_level_words, tokens, match_words, leading_upper}

abbrev operation_words : List Text
operation_words =
    codes "SELECT" ∷ codes "INSERT" ∷ codes "UPDATE" ∷ codes "DELETE" ∷ codes "MERGE" ∷ []

-- `operations[-1].lower() if operations else ""`.
abbrev last_operation : List Text → Text
last_operation [] = []
last_operation (w ∷ []) = lower_ascii w
last_operation (w ∷ v ∷ ws) = last_operation (v ∷ ws)

abbrev exactly : ℕ → ℕ → Bool
exactly c d = c == d

unfoldable pub statement_type : Unicode → Text → Text
unfolding strip_comments strip_literals top_level_words match_words leading_upper starts_with lstrip
statement_type u statement =
    let scrubbed = strip_literals (strip_comments statement) in
    let text = lstrip u.is_space (upper u scrubbed) in
    if match_words u exactly (codes "EXECUTE" ∷ codes "PROCEDURE" ∷ []) text
    then codes "procedure"
    else if match_words u exactly (codes "UPDATE" ∷ codes "OR" ∷ codes "INSERT" ∷ []) text
    then codes "upsert"
    else if starts_with (codes "WITH") text
    then last_operation (keep_if (λ w. mem w operation_words) (top_level_words u scrubbed))
    else lower_ascii (leading_upper u text)

-- `METHODS`, with the statement types that each of them allows.
abbrev pub methods : List Text
methods = codes "GET" ∷ codes "POST" ∷ codes "PUT" ∷ codes "PATCH" ∷ codes "DELETE" ∷ []

abbrev pub allowed : Text → List Text
allowed method =
    if method == codes "GET"
    then codes "select" ∷ []
    else if method == codes "POST"
    then codes "insert" ∷ codes "procedure" ∷ []
    else if method == codes "DELETE"
    then codes "delete" ∷ codes "procedure" ∷ []
    else codes "update" ∷ codes "merge" ∷ codes "upsert" ∷ codes "procedure" ∷ []

-- `FORBIDDEN`, sorted, so that the first one found is `sorted(forbidden)[0]`.
unfoldable pub forbidden_words : List Text
forbidden_words =
    codes "ALTER"
    ∷ codes "COMMIT"
    ∷ codes "CONNECT"
    ∷ codes "CREATE"
    ∷ codes "DISCONNECT"
    ∷ codes "DROP"
    ∷ codes "GRANT"
    ∷ codes "REVOKE"
    ∷ codes "ROLLBACK"
    ∷ codes "SAVEPOINT"
    ∷ codes "TRUNCATE"
    ∷ []

pub data Refusal : Type 0 where
  unsupported_method not_single transaction_control unbalanced execute_block : Refusal
  forbidden : Text → Refusal
  incompatible : Text → Text → Refusal

-- `{"valid": ..., "error": ..., "statement_type": ...}`.
pub data Verdict : Type 0 where
  valid : Text → Verdict
  invalid : Refusal → Verdict

abbrev pub reserved_set : Unicode → Text → Bool
reserved_set u statement =
    any (λ w. match_words u u.ignore_case (codes "SET" ∷ w ∷ []) statement)
      (codes "TRANSACTION" ∷ codes "AUTODDL" ∷ codes "TERM" ∷ [])

-- The words of a statement that the checks look at.
abbrev pub statement_tokens : Unicode → Text → List Text
statement_tokens u statement = tokens u (upper u (strip_literals statement))

abbrev check_type : Text → Text → Verdict
check_type method type =
    if mem type (allowed method) then valid type else invalid (incompatible type method)

abbrev check_forbidden : List Text → Verdict → Verdict
check_forbidden [] v = v
check_forbidden (w ∷ ws) v = invalid (forbidden w)

-- From `statement = statements[0].strip()` on.
unfoldable pub check_statement : Unicode → Text → Text → Verdict
unfolding match_words forbidden_words
check_statement u method statement =
    let words = statement_tokens u statement in
    if reserved_set u statement
    then invalid transaction_control
    else if not (balanced statement)
    then invalid unbalanced
    else if mem (codes "EXECUTE") words && mem (codes "BLOCK") words
    then invalid execute_block
    else check_forbidden (keep_if (λ w. mem w words) forbidden_words)
        (check_type method (statement_type u statement))

abbrev check_statements : Unicode → Text → List Text → Verdict
check_statements u method [] = invalid not_single
check_statements u method (s ∷ []) =
    if is_blank u.is_space s
    then invalid not_single
    else check_statement u method (strip u.is_space s)
check_statements u method (s ∷ t ∷ ss) = invalid not_single

unfoldable pub validate_query : Unicode → Text → Text → Verdict
unfolding check_statement strip_comments split_statements
validate_query u query_sql method =
    let method = upper u method in
    if not (mem method methods)
    then invalid unsupported_method
    else check_statements u method
        (split_statements u.is_space (strip u.is_space (strip_comments query_sql)))
