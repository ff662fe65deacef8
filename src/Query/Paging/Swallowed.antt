-- ===== src/Query/Paging/Swallowed.antt =====
-- A statement that ends in a line comment takes the paging clause into the comment.
use mathlib.Core.List.{append-nil}
use fire2api.Base.{
  ℕ, ◌≡◌, ◌⊎◌, refl, ap, ◌∙◌, Bool, false, [], ◌∷◌, ◌++◌, Option, none, ◌==◌, nat_eq, list_eq, Dict,
  get, All, if◌then◌else◌, Bool-cases, inl, inr,
}
use fire2api.Text.{Text, Unicode, rstrip, mem}
use fire2api.Sql.Scan.{emit, final, Closes, emit-append}
use fire2api.Sql.Comments.{plain, quoted, in_line, step, strip_comments}
use fire2api.Sql.Literals.{strip_literals}
use fire2api.Query.Binds.{named_binds, binds_from, execution_bindings, get-execution_bindings}
use fire2api.Query.Convert.{Value, ok, Python}
use fire2api.Query.Paging.Rows.{apply_paging-window}
use fire2api.Query.Paging.{
  is_paged, row_limit, row_start, row_end, limit_clause, window_clause, page, apply_paging,
}

limit-Closes : Closes step limit_clause
unfolding step
limit-Closes plain c = refl
limit-Closes quoted c = refl
limit-Closes _ c = refl

window-Closes : Closes step window_clause
unfolding step
window-Closes plain c = refl
window-Closes quoted c = refl
window-Closes _ c = refl

limit-in_line : emit step in_line limit_clause ≡ []
unfolding emit step
limit-in_line = refl

window-in_line : emit step in_line window_clause ≡ []
unfolding emit step
window-in_line = refl

-- The statement, without the white space at its end, ends inside `-- ...`.
abbrev pub EndsInComment : Text → Type 0
EndsInComment sql = final step plain sql ≡ in_line

swallowed :
    (sql clause : Text)
    → Closes step clause
    → emit step in_line clause ≡ []
    → EndsInComment sql
    → strip_comments (sql ++ clause) ≡ strip_comments sql
unfolding strip_comments
swallowed sql clause closes silent ends =
    emit-append step clause closes plain sql
    ∙ rw ends (rw silent (append-nil (emit step plain sql)))

-- The names that the clauses bind are not binds of the statement: they are reserved.
abbrev pub IsForeign : Text → Type 0
IsForeign sql =
    All (λ name. mem name (named_binds sql) ≡ false) (row_limit ∷ row_start ∷ row_end ∷ [])

-- The bind has no value among those that are given to the driver.
abbrev pub IsUnbound : Unicode → {V : Type 0} → Text → Dict Text V → Text → Type 0
IsUnbound u sql params name = get (execution_bindings u sql params) name ≡ none

-- The statement has a paging clause at its end, none of whose binds gets a value.
abbrev pub IsLost : Unicode → {V : Type 0} → Text → Text → Dict Text V → Type 0
IsLost u sql sql' params =
    ((sql' ≡ sql ++ limit_clause) × IsUnbound u sql' params row_limit)
    ⊎ ((sql' ≡ sql ++ window_clause)
        × IsUnbound u sql' params row_start
        × IsUnbound u sql' params row_end)

swallowed-IsUnbound :
    (u : Unicode) {V : Type 0} (params : Dict Text V) (sql sql' name : Text)
    → strip_comments sql' ≡ strip_comments sql
    → mem name (named_binds sql) ≡ false
    → IsUnbound u sql' params name
swallowed-IsUnbound u {V} params sql sql' name same foreign =
    get-execution_bindings u params sql' name
    ∙ unbound (mem name (named_binds sql')) _ (ap (mem name) (same_binds sql' sql same) ∙ foreign)
  where
    same_binds : (a b : Text) → strip_comments a ≡ strip_comments b → named_binds a ≡ named_binds b
    same_binds a b e = unfold named_binds in ap (λ s. binds_from false (strip_literals s)) e

    unbound : (b : Bool) (o : Option V) → b ≡ false → (if b then o else none) ≡ none
    unbound b o e = rw e refl

page-IsLost :
    (u : Unicode) {V : Type 0} (number : ℕ → V) (sql sql' : Text) (params params' : Dict Text V)
    (limit offset : ℕ)
    → EndsInComment (rstrip u.is_space sql)
    → is_paged u sql ≡ false
    → IsForeign (rstrip u.is_space sql)
    → page u number sql params (limit, offset) ≡ (sql', params')
    → IsLost u (rstrip u.is_space sql) sql' params'
page-IsLost u {V} number sql sql' params params' limit offset ends paged foreign h =
    elim (Bool-cases (offset == 0)) [
      | inl first ↦
          let e = text (rw first at (rw paged at h)) in
          let same =
            ap strip_comments e ∙ swallowed before limit_clause limit-Closes limit-in_line ends in
          inl (e, swallowed-IsUnbound u params' before sql' row_limit same foreign.0)
      | inr later ↦
          let e = text (rw later at (rw paged at h)) in
          let same =
            ap strip_comments e
            ∙ swallowed before window_clause window-Closes window-in_line ends in
          inr (
            e,
            swallowed-IsUnbound u params' before sql' row_start same foreign.1.0,
            swallowed-IsUnbound u params' before sql' row_end same foreign.1.1.0,
          )
    ]
  where
    before : Text
    before = rstrip u.is_space sql

    text :
        {a : Text} {b : Dict Text V}
        → ◌≡◌ {A = Text × Dict Text V} (a, b) (sql', params')
        → sql' ≡ a
    text e = cc

-- To a statement that ends in a line comment, white space behind it aside, that does no paging of
-- its own and has none of the reserved binds, accepted options add a paging clause whose binds
-- stand in the comment: they are part of the text, but get no value among those that are given to
-- the driver.
pub apply_paging-swallowed :
    {O : Type 0} (py : Python O) (u : Unicode) {V : Type 0} (number : ℕ → V) (sql sql' : Text)
    (params params' : Dict Text V) (limit offset : Option (Value O)) (max_rows : ℕ)
    → EndsInComment (rstrip u.is_space sql)
    → is_paged u sql ≡ false
    → IsForeign (rstrip u.is_space sql)
    → apply_paging u number py sql params limit offset max_rows ≡ ok (sql', params')
    → IsLost u (rstrip u.is_space sql) sql' params'
apply_paging-swallowed py u number sql sql' params params' limit offset max_rows ends paged foreign
      h =
    let (n, o, _, _, _, e) =
      apply_paging-window py u number sql sql' params params' limit offset max_rows h in
    page-IsLost u number sql sql' params params' n o ends paged foreign e
