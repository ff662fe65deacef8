-- ===== src/Query/Paging/Rows.antt =====
-- The window that a request may ask for.
use fire2api.Base.{
  ℕ, ℤ, pos, negsuc, zero, suc, ◌+◌, ◌≤◌, ◌<◌, ◌≡◌, ◌⊎◌, refl, sym, min, ap, ◌∙◌, false, [], ◌∷◌,
  Option, none, some, arith, inl, inr, ◌==◌, nat_eq, list_eq, Dict, put, Bool-cases,
}
use fire2api.Text.{Text, Unicode}
use fire2api.Query.Convert.{
  Value, boolean, integer, string, other, Result, ok, ◌>>=◌, Python, int_of,
}
use fire2api.Query.Convert.Reads.{IsInteger, int_of-IsInteger}
use fire2api.Query.Convert.Chains.{fails_not_ok, same_ok, first_ok}
use fire2api.Query.Paging.{
  is_paged, row_limit, row_start, row_end, least, read_limit, read_offset, in_range, page,
  apply_paging,
}

least-pos :
    (max_rows n : ℕ) (z : ℤ)
    → least max_rows z ≡ pos n
    → (m : ℕ) × (z ≡ pos m) × (n ≡ min m max_rows)
least-pos max_rows n (pos m) h = (m, refl, sym (same_pos h))
  where
    same_pos : {a b : ℕ} → pos a ≡ pos b → a ≡ b
    same_pos x = cc
least-pos max_rows n (negsuc m) h = absurd (differ h)
  where
    differ : negsuc m ≡ pos n → ⊥
    differ x = cc

module _ {O : Type 0} (py : Python O) where
  -- The limit that a request asks for: the least of its own and `max_rows`, or `max_rows` where it
  -- names none.
  abbrev pub IsLimit : Option (Value O) → ℕ → ℕ → Type 0
  IsLimit none max_rows n = n ≡ max_rows
  IsLimit (some (string [])) max_rows n = n ≡ max_rows
  IsLimit (some v) max_rows n = (m : ℕ) × IsInteger py v (pos m) × (n ≡ min m max_rows)

  -- The rows to pass over that a request asks for, or 0 where it names none.
  abbrev pub IsOffset : Option (Value O) → ℕ → Type 0
  IsOffset none o = o ≡ 0
  IsOffset (some (string [])) o = o ≡ 0
  IsOffset (some v) o = IsInteger py v (pos o)

  some_limit :
      (v : Value O) (max_rows n : ℕ)
      → int_of py v >>= (λ m. ok (least max_rows m)) ≡ ok (pos n)
      → (m : ℕ) × IsInteger py v (pos m) × (n ≡ min m max_rows)
  some_limit v max_rows n h =
      let (z, is, e) = first_ok (int_of py v) _ (pos n) h in
      let (m, same, least) = least-pos max_rows n z (same_ok e) in
      (m, int_of-IsInteger py v (pos m) (is ∙ ap ok same), least)

  same_pos : {a b : ℕ} → ◌≡◌ {A = Result ℤ} (ok (pos a)) (ok (pos b)) → b ≡ a
  same_pos h = cc

  read_limit-IsLimit :
      (limit : Option (Value O)) (max_rows n : ℕ)
      → read_limit py limit max_rows ≡ ok (pos n)
      → IsLimit limit max_rows n
  read_limit-IsLimit none max_rows n h = same_pos h
  read_limit-IsLimit (some (string [])) max_rows n h = same_pos h
  read_limit-IsLimit (some (string (c ∷ s))) max_rows n h = some_limit (string (c ∷ s)) max_rows n h
  read_limit-IsLimit (some (boolean b)) max_rows n h = some_limit (boolean b) max_rows n h
  read_limit-IsLimit (some (integer z)) max_rows n h = some_limit (integer z) max_rows n h
  read_limit-IsLimit (some (other o)) max_rows n h = some_limit (other o) max_rows n h

  least_limit :
      (v : Value O) (max_rows n : ℕ)
      → (m : ℕ) × IsInteger py v (pos m) × (n ≡ min m max_rows)
      → n ≤ max_rows
  least_limit v max_rows n (m, _, e) = omega (arith, e)

  IsLimit-le : (limit : Option (Value O)) (max_rows n : ℕ) → IsLimit limit max_rows n → n ≤ max_rows
  IsLimit-le none max_rows n h = omega (arith, h)
  IsLimit-le (some (string [])) max_rows n h = omega (arith, h)
  IsLimit-le (some (string (c ∷ s))) max_rows n h = least_limit (string (c ∷ s)) max_rows n h
  IsLimit-le (some (boolean b)) max_rows n h = least_limit (boolean b) max_rows n h
  IsLimit-le (some (integer z)) max_rows n h = least_limit (integer z) max_rows n h
  IsLimit-le (some (other o)) max_rows n h = least_limit (other o) max_rows n h

  read_offset-IsOffset :
      (offset : Option (Value O)) (o : ℕ) → read_offset py offset ≡ ok (pos o) → IsOffset offset o
  read_offset-IsOffset none o h = same_pos h
  read_offset-IsOffset (some (string [])) o h = same_pos h
  read_offset-IsOffset (some (string (c ∷ s))) o h = int_of-IsInteger py (string (c ∷ s)) (pos o) h
  read_offset-IsOffset (some (boolean b)) o h = int_of-IsInteger py (boolean b) (pos o) h
  read_offset-IsOffset (some (integer z)) o h = int_of-IsInteger py (integer z) (pos o) h
  read_offset-IsOffset (some (other v)) o h = int_of-IsInteger py (other v) (pos o) h

  in_range-pos :
      (l o : ℤ) (n offset : ℕ)
      → in_range l o ≡ ok (n, offset)
      → (l ≡ pos n) × (o ≡ pos offset) × (1 ≤ n)
  in_range-pos (pos (suc m)) (pos k) n offset h =
      let e : suc m ≡ n = ap (λ (w : ℕ × ℕ). w.0) (same_ok h) in
      (ap pos e, ap (λ (w : ℕ × ℕ). pos w.1) (same_ok h), omega arith)
  in_range-pos (pos zero) o n offset h = absurd (fails_not_ok h)
  in_range-pos (negsuc m) o n offset h = absurd (fails_not_ok h)
  in_range-pos (pos (suc m)) (negsuc k) n offset h = absurd (fails_not_ok h)

  -- Accepted options ask for a window of at least one row, of the limit and from the offset.
  pub apply_paging-window :
      (u : Unicode) {V : Type 0} (number : ℕ → V) (sql sql' : Text) (params params' : Dict Text V)
      (limit offset : Option (Value O)) (max_rows : ℕ)
      → apply_paging u number py sql params limit offset max_rows ≡ ok (sql', params')
      → (n : ℕ) × (o : ℕ) × (1 ≤ n)
        × IsLimit limit max_rows n
        × IsOffset offset o
        × (page u number sql params (n, o) ≡ (sql', params'))
  unfolding apply_paging
  apply_paging-window u number sql sql' params params' limit offset max_rows h =
      let (l, is_l, hl) = first_ok (read_limit py limit max_rows) _ (sql', params') h in
      let (o, is_o, ho) = first_ok (read_offset py offset) _ (sql', params') hl in
      let (w, is_w, hw) = first_ok (in_range l o) _ (sql', params') ho in
      let (is_n, is_from, le) = in_range-pos l o w.0 w.1 is_w in
      (
        w.0,
        w.1,
        le,
        read_limit-IsLimit limit max_rows w.0 (is_l ∙ ap ok is_n),
        read_offset-IsOffset offset w.1 (is_o ∙ ap ok is_from),
        same_ok hw,
      )

-- The parameters of the window that a request asks for, of at least one row and at most `max_rows`.
abbrev pub IsWindow :
    {O : Type 0}
    → Python O
    → Option (Value O)
    → Option (Value O)
    → {V : Type 0} → (ℕ → V)
    → Dict Text V
    → ℕ
    → Dict Text V
    → Type 0
IsWindow py limit offset number params max_rows params' =
    (n : ℕ) × (o : ℕ) × (1 ≤ n)
    × (n ≤ max_rows)
    × IsLimit py limit max_rows n
    × IsOffset py offset o
    × (((o ≡ 0) × (params' ≡ put params row_limit (number n)))
        ⊎ ((0 < o)
            × (params' ≡ put (put params row_start (number (o + 1))) row_end (number (o + n)))))

page-numbers :
    (u : Unicode) {V : Type 0} (number : ℕ → V) (sql sql' : Text) (params params' : Dict Text V)
    (n o : ℕ)
    → is_paged u sql ≡ false
    → page u number sql params (n, o) ≡ (sql', params')
    → ((o ≡ 0) × (params' ≡ put params row_limit (number n)))
      ⊎ ((0 < o) × (params' ≡ put (put params row_start (number (o + 1))) row_end (number (o + n))))
page-numbers u {V} number sql sql' params params' n o paged h = elim (Bool-cases (o == 0)) [
  | inl first ↦ inl (ground arith, parts (rw first at (rw paged at h)))
  | inr later ↦ inr (ground arith, parts (rw later at (rw paged at h)))
]
  where
    parts :
        {a : Text} {b : Dict Text V}
        → ◌≡◌ {A = Text × Dict Text V} (a, b) (sql', params')
        → params' ≡ b
    parts e = cc

-- Where the options are accepted and the statement does no paging of its own, the numbers put among
-- the parameters for the paging clause are those of the request: from the first row, or from the one behind as many as
-- OFFSET says where that is not 0, as many rows as LIMIT says and at most `max_rows`, which is
-- also the number where the request gives no limit or an empty one.
pub apply_paging-IsWindow :
    {O : Type 0} (py : Python O) (u : Unicode) {V : Type 0} (number : ℕ → V) (sql sql' : Text)
    (params params' : Dict Text V) (limit offset : Option (Value O)) (max_rows : ℕ)
    → is_paged u sql ≡ false
    → apply_paging u number py sql params limit offset max_rows ≡ ok (sql', params')
    → IsWindow py limit offset number params max_rows params'
apply_paging-IsWindow py u number sql sql' params params' limit offset max_rows paged h =
    let (n, o, le, is_limit, is_offset, e) =
      apply_paging-window py u number sql sql' params params' limit offset max_rows h in
    (
      n,
      o,
      le,
      IsLimit-le py limit max_rows n is_limit,
      is_limit,
      is_offset,
      page-numbers u number sql sql' params params' n o paged e,
    )
