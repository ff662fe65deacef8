-- ===== src/Query/Execute/Loop.antt =====
-- The loop that fetches the rows ends, and keeps to the limit.
use fire2api.Base.{
  ℕ, zero, suc, ◌+◌, ◌-◌, ◌≤◌, ◌≡◌, Bool, List, [], ◌∷◌, ◌++◌, some, ltb, length, min, arith,
  length-append, Bool-cases, Option-cases, inl, inr,
}
use fire2api.Query.Execute.{Driver, Fetched, fetched, no_fuel, fetch_rows}

-- `fetchmany(size)` returns at most `size` rows.
abbrev pub FetchesAtMost : {D C R V : Type 0} → Driver D C R V → Type 0
FetchesAtMost {C = C} {R = R} driver =
    (cursor : C) (size : ℕ) (chunk : List R) (next : C)
    → driver.fetchmany cursor size ≡ some (chunk, next)
    → length chunk ≤ size

-- What the loop may return: never for want of fuel, and no more rows than the limit.
abbrev pub Within : {R : Type 0} → ℕ → Fetched R → Type 0
Within max_rows (fetched rows k) = length rows ≤ max_rows
Within max_rows no_fuel = ⊥
Within max_rows _ = Unit

abbrev pub NotStuck : {R : Type 0} → Fetched R → Type 0
NotStuck no_fuel = ⊥
NotStuck _ = Unit

module _ {D C R V : Type 0} (driver : Driver D C R V) (polls : ℕ → Bool)
    (chunk_size max_rows : ℕ) where
  -- Each round that goes on adds a row.
  pub fetch_rows-NotStuck :
      (fuel k : ℕ) (cursor : C) (rows : List R)
      → max_rows ≤ length rows + fuel
      → NotStuck (fetch_rows driver polls chunk_size max_rows fuel k cursor rows)
  unfolding fetch_rows
  fetch_rows-NotStuck zero k cursor rows le = ground arith
  fetch_rows-NotStuck (suc fuel) k cursor rows le = elim (Bool-cases (ltb (length rows) max_rows)) [
    | inr full ↦ rw (full, NotStuck, fetch_rows) tt
    | inl room ↦ elim (Bool-cases (polls k)) [
      | inl stop ↦ rw (room, NotStuck, fetch_rows) (rw (stop, NotStuck, fetch_rows) tt)
      | inr on ↦
          elim (Option-cases (driver.fetchmany cursor (min chunk_size (max_rows - length rows)))) [
            | inl broken ↦
                rw (room, NotStuck, fetch_rows)
                  (rw (on, NotStuck, fetch_rows) (rw (broken, NotStuck, fetch_rows) tt))
            | inr (([], next), is) ↦
                rw (room, NotStuck, fetch_rows)
                  (rw (on, NotStuck, fetch_rows) (rw (is, NotStuck, fetch_rows) tt))
            | inr ((r ∷ rs, next), is) ↦
                rw (room, NotStuck, fetch_rows)
                  (rw (on, NotStuck, fetch_rows)
                    (rw (is, NotStuck, fetch_rows)
                      (fetch_rows-NotStuck fuel (k + 1) next (rows ++ r ∷ rs)
                        (omega (arith, length-append rows (r ∷ rs))))))
          ]
    ]
  ]

  pub fetch_rows-Within :
      FetchesAtMost driver
      → (fuel k : ℕ) (cursor : C) (rows : List R) → length rows ≤ max_rows
      → max_rows ≤ length rows + fuel
      → Within max_rows (fetch_rows driver polls chunk_size max_rows fuel k cursor rows)
  unfolding fetch_rows
  fetch_rows-Within at_most zero k cursor rows h le = ground arith
  fetch_rows-Within at_most (suc fuel) k cursor rows h le =
      elim (Bool-cases (ltb (length rows) max_rows)) [
        | inr full ↦ rw (full, Within, fetch_rows) h
        | inl room ↦ elim (Bool-cases (polls k)) [
          | inl stop ↦ rw (room, Within, fetch_rows) (rw (stop, Within, fetch_rows) tt)
          | inr on ↦
              elim (Option-cases
                (driver.fetchmany cursor (min chunk_size (max_rows - length rows)))) [
                  | inl broken ↦
                      rw (room, Within, fetch_rows)
                        (rw (on, Within, fetch_rows) (rw (broken, Within, fetch_rows) tt))
                  | inr (([], next), is) ↦
                      rw (room, Within, fetch_rows)
                        (rw (on, Within, fetch_rows) (rw (is, Within, fetch_rows) h))
                  | inr ((r ∷ rs, next), is) ↦
                      let few =
                        at_most cursor (min chunk_size (max_rows - length rows)) (r ∷ rs) next is in
                      rw (room, Within, fetch_rows)
                        (rw (on, Within, fetch_rows)
                          (rw (is, Within, fetch_rows)
                            (fetch_rows-Within at_most fuel (k + 1) next (rows ++ r ∷ rs)
                              (omega (arith, length-append rows (r ∷ rs)))
                              (omega (arith, length-append rows (r ∷ rs))))))
                ]
        ]
      ]
