-- ===== src/Query/Tests.antt =====
-- The parameters of concrete statements.
use fire2api.Query.Convert.{string, ok, Python}
use fire2api.Base.{
  pos, true, false, ℕ, ◌≡◌, refl, [], ◌∷◌, none, some, Dict, get, put, nat_eq, list_eq,
  if◌then◌else◌,
}
use fire2api.Text.{Text, codes, mem, rstrip, starts_with, upper}
use fire2api.Text.Ascii.{ascii}
use fire2api.Sql.Comments.{step, strip_comments}
use fire2api.Sql.Scan.{final}
use fire2api.Sql.Literals.{strip_literals}
use fire2api.Sql.Words.{top_level_words}
use fire2api.Query.Binds.{
  found_or, named_binds, binds_from, execution_bindings, get-execution_bindings,
}
use fire2api.Query.Detect.{path_names, is_reserved, names_of, detect_parameters, collect}
use fire2api.Query.Paging.{row_limit, apply_paging}
use fire2api.Query.Paging.Rows.{IsWindow, apply_paging-IsWindow}
use fire2api.Query.Paging.Swallowed.{IsForeign, IsLost, apply_paging-swallowed}

abbrev select : Text
select = codes "SELECT * FROM t WHERE id = :id AND x = ':no' AND n > :LIMIT"

abbrev params : Dict Text ℕ
params = (codes "ID", 7) ∷ (codes "other", 8) ∷ []

bindings : execution_bindings ascii select params ≡ (codes "id", 7) ∷ []
unfolding execution_bindings named_binds binds_from strip_comments strip_literals get put
bindings = refl

get-execution_bindings_example : get (execution_bindings ascii select params) (codes "id") ≡ (
    if mem (codes "id") (named_binds select)
    then found_or (get params (codes "id")) (get params (upper ascii (codes "id")))
    else none)
get-execution_bindings_example = get-execution_bindings ascii params select (codes "id")

detected :
    names_of (detect_parameters ascii (codes "/t/{id}/{day}") select (codes "get"))
    ≡ codes "ID" ∷ codes "DAY" ∷ []
unfolding detect_parameters path_names collect is_reserved named_binds binds_from strip_comments
    strip_literals starts_with
detected = refl

-- `int` of the texts "5" and "20"; no floats and no dates.
abbrev pub python : Python ℕ
python = record {
  show = λ v. codes "True";
  parse_int = λ s. elim s [ [] ↦ none | c ∷ r ↦ some (pos (elim r [ [] ↦ 5 | d ∷ q ↦ 20 ])) ];
  truncate = λ o. ok (pos o);
  to_float = λ v. none;
  is_true = λ o. true;
  is_date = λ o. false;
  is_datetime = λ o. false;
  parse_date = λ s. none;
  parse_datetime = λ s. none;
  full_match = λ rule s. true;
}

abbrev no_params : Dict Text ℕ
no_params = []

abbrev commented : Text
commented = codes "SELECT * FROM t -- all"

paged :
    apply_paging ascii
      (λ n. n)
      python
      (codes "SELECT * FROM t")
      no_params
      (some (string (codes "20")))
      none
      10
    ≡ ok (codes "SELECT * FROM t ROWS :__f2a_row_limit", (row_limit, 10) ∷ [])
unfolding apply_paging top_level_words strip_comments strip_literals rstrip put
paged = refl

apply_paging-IsWindow_example :
    IsWindow python (some (string (codes "20"))) none (λ n. n) no_params 10 ((row_limit, 10) ∷ [])
unfolding top_level_words strip_comments strip_literals
apply_paging-IsWindow_example =
    apply_paging-IsWindow python ascii (λ n. n) (codes "SELECT * FROM t")
      (codes "SELECT * FROM t ROWS :__f2a_row_limit") no_params ((row_limit, 10) ∷ [])
      (some (string (codes "20"))) none 10 refl paged

-- The clause stands in the comment.
commented_paged :
    apply_paging ascii (λ n. n) python commented no_params (some (string (codes "5"))) none 10
    ≡ ok (codes "SELECT * FROM t -- all ROWS :__f2a_row_limit", (row_limit, 5) ∷ [])
unfolding apply_paging top_level_words strip_comments strip_literals rstrip put
commented_paged = refl

commented-IsForeign : IsForeign (rstrip ascii.is_space commented)
unfolding named_binds binds_from strip_comments strip_literals rstrip
commented-IsForeign = (refl, (refl, (refl, tt)))

apply_paging-swallowed_example :
    IsLost ascii {V = ℕ}
      (rstrip ascii.is_space commented)
      (codes "SELECT * FROM t -- all ROWS :__f2a_row_limit")
      ((row_limit, 5) ∷ [])
unfolding step final rstrip top_level_words strip_comments strip_literals
apply_paging-swallowed_example =
    apply_paging-swallowed python ascii (λ n. n) commented
      (codes "SELECT * FROM t -- all ROWS :__f2a_row_limit") no_params ((row_limit, 5) ∷ [])
      (some (string (codes "5"))) none 10 refl refl commented-IsForeign commented_paged
