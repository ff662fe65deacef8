-- ===== src/Sql/Validate/Accepts.antt =====
-- What an accepted query is, and what is refused.
use fire2api.Base.{
  ◌≡◌, refl, sym, ◌∙◌, Bool, true, false, ◌&&◌, not, List, [], ◌∷◌, arith, nat_eq, list_eq,
  if◌then◌else◌, keep_if, All, Bool-cases, inl, inr, list_beq_iff,
}
use fire2api.Text.{Text, Unicode, codes, upper, strip, is_blank, mem}
use fire2api.Sql.Comments.{strip_comments}
use fire2api.Sql.Literals.{strip_literals}
use fire2api.Sql.Statements.{split_statements}
use fire2api.Sql.Parens.{balanced, Nested, balanced_iff}
use fire2api.Sql.Validate.{
  Refusal, transaction_control, unbalanced, execute_block, unsupported_method, not_single, Verdict,
  valid, invalid, statement_type, methods, allowed, forbidden_words, reserved_set, statement_tokens,
  check_statement, check_statements, check_forbidden, check_type, validate_query,
}

keep_if-nil : (p : Text → Bool) (ws : List Text) → keep_if p ws ≡ [] → All (λ w. p w ≡ false) ws
keep_if-nil p [] h = tt
keep_if-nil p (w ∷ ws) h = elim (Bool-cases (p w)) [
  | inl found ↦ absurd (ground arith)
  | inr other ↦ (other, keep_if-nil p ws (ground arith))
]

check_forbidden-valid :
    (ws : List Text) (v : Verdict) (t : Text)
    → check_forbidden ws v ≡ valid t
    → (ws ≡ []) × (v ≡ valid t)
check_forbidden-valid [] v t h = (refl, h)
check_forbidden-valid (w ∷ ws) v t h = cc

not-false : (b : Bool) → not b ≡ false → b ≡ true
not-false b h = ground arith

if_invalid-valid :
    (b : Bool) (r : Refusal) (v : Verdict) (t : Text)
    → (if b then invalid r else v) ≡ valid t
    → (b ≡ false) × (v ≡ valid t)
if_invalid-valid true r v t h = cc
if_invalid-valid false r v t h = (refl, h)

if_valid-valid :
    (b : Bool) (x : Text) (r : Refusal) (t : Text)
    → (if b then valid x else invalid r) ≡ valid t
    → (b ≡ true) × (t ≡ x)
if_valid-valid true x r t h = (refl, cc)
if_valid-valid false x r t h = cc

check_statements-valid :
    (u : Unicode) (method : Text) (ss : List Text) (t : Text)
    → check_statements u method ss ≡ valid t
    → (s : Text) × (ss ≡ s ∷ [])
      × (is_blank u.is_space s ≡ false)
      × (check_statement u method (strip u.is_space s) ≡ valid t)
check_statements-valid u method [] t h = cc
check_statements-valid u method (s ∷ []) t h =
    let (full, h) = if_invalid-valid (is_blank u.is_space s) not_single _ t h in (s, refl, full, h)
check_statements-valid u method (a ∷ b ∷ ss) t h = cc

-- What the checks make sure of for a statement and its type.
pub record Accepted (u : Unicode) (method statement type : Text) : Type 0 where
  pub not_reserved : reserved_set u statement ≡ false
  pub nested : Nested (strip_literals statement)
  pub not_block :
      (mem (codes "EXECUTE") (statement_tokens u statement)
        && mem (codes "BLOCK") (statement_tokens u statement))
      ≡ false
  pub none_forbidden : All (λ w. mem w (statement_tokens u statement) ≡ false) forbidden_words
  pub typed : type ≡ statement_type u statement
  pub is_allowed : mem (statement_type u statement) (allowed method) ≡ true

check_statement-Accepted :
    (u : Unicode) (method statement type : Text)
    → check_statement u method statement ≡ valid type
    → Accepted u method statement type
unfolding check_statement
check_statement-Accepted u method statement type h =
    let (free, h) = if_invalid-valid (reserved_set u statement) transaction_control _ type h in
    let (even, h) = if_invalid-valid (not (balanced statement)) unbalanced _ type h in
    let (block, h) = if_invalid-valid _ execute_block _ type h in
    let (found, h) =
      check_forbidden-valid _ (check_type method (statement_type u statement)) type h in
    let (fits, typed) =
      if_valid-valid (mem (statement_type u statement) (allowed method)) _ _ type h in
    record {
      not_reserved = free;
      nested = (balanced_iff statement).0 (not-false (balanced statement) even);
      not_block = block;
      none_forbidden =
          keep_if-nil (λ w. mem w (statement_tokens u statement)) forbidden_words found;
      typed = typed;
      is_allowed = fits;
    }

-- An accepted query is one statement, with the method among the five: its text without comments
-- splits into that one statement, which is not blank, has nested parentheses, holds no forbidden
-- word outside its literals, is no EXECUTE BLOCK or SET TRANSACTION, AUTODDL or TERM, and is of a type
-- that the method allows.
pub validate_query-Accepted :
    (u : Unicode) (query_sql method type : Text)
    → validate_query u query_sql method ≡ valid type
    → (statement : Text) × (split_statements u.is_space
          (strip u.is_space (strip_comments query_sql))
        ≡ statement ∷ [])
      × (is_blank u.is_space statement ≡ false)
      × (mem (upper u method) methods ≡ true)
      × Accepted u (upper u method) (strip u.is_space statement) type
unfolding validate_query
validate_query-Accepted u query_sql method type h =
    let (known, h) =
      if_invalid-valid (not (mem (upper u method) methods)) unsupported_method _ type h in
    let (s, one, full, checked) = check_statements-valid u (upper u method) _ type h in
    (
      s,
      one,
      full,
      not-false (mem (upper u method) methods) known,
      check_statement-Accepted u (upper u method) (strip u.is_space s) type checked,
    )

-- A GET route is only ever accepted for a select.
pub validate_query-get :
    (u : Unicode) (query_sql method type : Text)
    → upper u method ≡ codes "GET"
    → validate_query u query_sql method ≡ valid type
    → type ≡ codes "select"
validate_query-get u query_sql method type get h =
    let (_, _, _, _, ok) = validate_query-Accepted u query_sql method type h in
    ok.typed ∙ only _ (rw get at ok.is_allowed)
  where
    only : (t : Text) → mem t (codes "select" ∷ []) ≡ true → t ≡ codes "select"
    only t e = sym ((list_beq_iff (codes "select") t).0 (ground arith))
