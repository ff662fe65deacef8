-- ===== src/Execution/History/Retention.antt =====
-- How many finished executions the table keeps.
use mathlib.Core.List.{append_assoc}
use mathlib.Core.Path.{subst}
use fire2api.Base.{
  ℕ, zero, suc, ◌+◌, ◌≤◌, ◌≡◌, refl, ◌∙◌, String, Bool, true, not, List, [], ◌∷◌, ◌++◌, arith,
  string_eq, keep_if, length, take, drop, length-take-le, ==-refl,
}
use fire2api.Execution.History.{
  is_terminal, Row, History, insert_desc, by_created_desc, is_finished, surplus, names, trim,
  Change, set_status, update,
}

-- How many rows pass a test.
abbrev pub count : (Row → Bool) → List Row → ℕ
count p xs = length (keep_if p xs)

count-insert_desc :
    (p : Row → Bool) (r : Row) (xs : List Row) → count p (insert_desc r xs) ≡ count p (r ∷ xs)
unfolding insert_desc
count-insert_desc p r [] = refl
count-insert_desc p r (s ∷ xs) = ground (arith, count-insert_desc p r xs)

count-by_created_desc : (p : Row → Bool) (xs : List Row) → count p (by_created_desc xs) ≡ count p xs
unfolding by_created_desc
count-by_created_desc p [] = refl
count-by_created_desc p (r ∷ xs) =
    count-insert_desc p r (by_created_desc xs) ∙ ground (arith, count-by_created_desc p xs)

count-take-drop :
    (p : Row → Bool) (n : ℕ) (xs : List Row)
    → count p xs ≡ count p (take n xs) + count p (drop n xs)
count-take-drop p zero xs = omega arith
count-take-drop p (suc n) [] = omega arith
count-take-drop p (suc n) (x ∷ xs) = ground (arith, count-take-drop p n xs)

count-le : (p : Row → Bool) (xs : List Row) → count p xs ≤ length xs
count-le p [] = omega arith
count-le p (x ∷ xs) = ground (arith, count-le p xs)

named_here :
    (kept : List Row) (r : Row) (named : List Row) → names r.execution_id (kept ++ r ∷ named) ≡ true
named_here [] r named = rw (==-refl r.execution_id)
named_here (s ∷ kept) r named = ground (arith, named_here kept r named)

-- Rows named by a list of which they are members are not kept.
count-named :
    (kept named : List Row) → count (λ r. not (names r.execution_id (kept ++ named))) named ≡ 0
count-named kept [] = refl
count-named kept (r ∷ named) = rw (named_here kept r named) (
    subst (λ xs. count (λ x. not (names x.execution_id xs)) named ≡ 0)
      (append_assoc kept (r ∷ []) named) (count-named (kept ++ r ∷ []) named))

count-keep_if : (p q : Row → Bool) (xs : List Row) → count p (keep_if q xs) ≡ count q (keep_if p xs)
count-keep_if p q [] = refl
count-keep_if p q (x ∷ xs) = ground (arith, count-keep_if p q xs)

abbrev survives : ℕ → History → Row → Bool
survives n h r = not (names r.execution_id (surplus n h))

-- After a deletion at most `n` finished executions are left.
trim-count : (n : ℕ) (h : History) → count is_finished (trim n h) ≤ n
unfolding trim
trim-count n h =
    let sorted = by_created_desc (keep_if is_finished h) in
    omega (
      arith,
      count-keep_if is_finished (survives n h) h,
      count-by_created_desc (survives n h) (keep_if is_finished h),
      count-take-drop (survives n h) n sorted,
      count-named [] (drop n sorted),
      count-le (survives n h) (take n sorted),
      length-take-le n sorted,
    )

-- Whatever the table held, a change to a terminal status leaves at most `query_history_size`
-- finished executions in it.
pub set_status-retains :
    (size : ℕ) (id : String) (c : Change) (h : History)
    → is_terminal c.status ≡ true
    → count is_finished (set_status size id c h).0 ≤ size
unfolding set_status
set_status-retains size id c h t = rw t (trim-count size (update id c h))
