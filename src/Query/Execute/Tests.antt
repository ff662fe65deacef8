-- ===== src/Query/Execute/Tests.antt =====
-- Statements on a small database, which counts what is run.
use fire2api.Base.{
  ℕ, zero, suc, pos, ◌+◌, ◌-◌, ◌≤◌, ◌≡◌, ◌≢◌, refl, Bool, true, false, List, [], ◌∷◌, Option, none,
  some, Dict, length, min, arith,
}
use fire2api.Text.{Text, codes, rstrip, lstrip}
use fire2api.Text.Ascii.{ascii}
use fire2api.Sql.Parens.{balanced}
use fire2api.Sql.Words.{tokens}
use fire2api.Sql.Validate.{valid, statement_type, validate_query}
use fire2api.Query.Binds.{execution_bindings}
use fire2api.Query.Convert.{Value, ok, Python}
use fire2api.Query.Parameters.{Options}
use fire2api.Query.Execute.{
  Answer, Driver, returned, out_of_fuel, rolled_back, committed, is_get, fetch_rows, execute_query,
}
use fire2api.Query.Execute.Loop.{FetchesAtMost}
use fire2api.Query.Execute.Safety.{execute_query-commits}
use fire2api.Query.Execute.Bounded.{execute_query-ends, execute_query-bounded}

abbrev python : Python ℕ
python = record {
  show = λ v. codes "True";
  parse_int = λ s. some (pos 2);
  truncate = λ o. ok (pos o);
  to_float = λ v. none;
  is_true = λ o. true;
  is_date = λ o. false;
  is_datetime = λ o. false;
  parse_date = λ s. none;
  parse_datetime = λ s. none;
  full_match = λ rule s. true;
}

abbrev rows : ℕ → List ℕ
rows zero = []
rows (suc n) = n ∷ rows n

length-rows : (n : ℕ) → length (rows n) ≡ n
length-rows zero = refl
length-rows (suc n) = omega (arith, length-rows n)

-- Each statement changes the count and returns five rows.
abbrev driver : Driver ℕ ℕ ℕ (Option (Value ℕ))
driver = record {
  connects = true;
  execute =
      λ db sql binds. some (db + 1, record { cursor = 5; returns_rows = true; rowcount = pos 5 });
  fetchmany = λ left size. some (rows (min left size), left - size);
  commits = true;
}

driver-FetchesAtMost : FetchesAtMost driver
driver-FetchesAtMost cursor size chunk next e =
    omega (arith, length-rows (min cursor size), ap_length)
  where
    parts :
        {a b : List ℕ} {c d : ℕ} → ◌≡◌ {A = Option (List ℕ × ℕ)} (some (a, c)) (some (b, d)) → a ≡ b
    parts x = cc

    ap_length : length (rows (min cursor size)) ≡ length chunk
    ap_length = rw (parts e) refl

abbrev no_options : Options ℕ
no_options = record { limit = none; offset = none; order_by = none }

abbrev insert : Text
insert = codes "insert into t values (:a)"

abbrev params : Dict Text (Option (Value ℕ))
params = (codes "A", none) ∷ []

never : ℕ → Bool
never k = false

inserted :
    execute_query ascii python driver never insert (codes "POST") params no_options 4 3 false 7
    ≡ (returned (2 ∷ 1 ∷ 0 ∷ 0 ∷ []) 5 (codes "insert"), committed 8)
unfolding execute_query validate_query balanced statement_type tokens lstrip rstrip fetch_rows never
inserted = refl

tried :
    (execute_query ascii python driver never insert (codes "POST") params no_options 4 3 true 7).1
    ≡ rolled_back
unfolding execute_query validate_query balanced statement_type tokens lstrip rstrip fetch_rows never
tried = refl

execute_query-commits_example :
    (is_get (codes "POST") ≡ false)
    × (false ≡ false)
    × ((type : Text) × (answer : Answer ℕ) × (found : List ℕ) × (n : ℕ) × (validate_query ascii
            insert
            (codes "POST")
          ≡ valid type)
        × (driver.execute 7 insert (execution_bindings ascii insert params) ≡ some (8, answer))
        × ((execute_query ascii python driver never insert
              (codes "POST")
              params
              no_options
              4
              3
              false
              7).0
            ≡ returned found n type))
unfolding execute_query validate_query balanced statement_type tokens lstrip rstrip fetch_rows never
execute_query-commits_example =
    execute_query-commits ascii python driver never insert (codes "POST") params no_options 4 3
      false 7 8 refl

execute_query-ends_example :
    (execute_query ascii python driver never insert (codes "POST") params no_options 4 0 false 7).0
    ≢ out_of_fuel
execute_query-ends_example =
    execute_query-ends ascii python driver never insert (codes "POST") params no_options 4 0 false 7

execute_query-bounded_example : length {A = ℕ} (2 ∷ 1 ∷ 0 ∷ 0 ∷ []) ≤ 4
unfolding execute_query validate_query balanced statement_type tokens lstrip rstrip fetch_rows never
execute_query-bounded_example =
    execute_query-bounded ascii python driver never insert (codes "POST") params no_options 4 3
      false 7 driver-FetchesAtMost (2 ∷ 1 ∷ 0 ∷ 0 ∷ []) 5 (codes "insert") refl
