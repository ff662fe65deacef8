-- ===== src/Idempotency/Tests.antt =====
-- One key on concrete requests.
use fire2api.Base.{ℕ, ◌≡◌, ◌==◌, string_eq, if◌then◌else◌, refl, String, List, [], ◌∷◌, arith}
use fire2api.Text.{Text, codes}
use fire2api.Idempotency.{
  Table, Request, begun, conflict, Conflict, different_payload, already_processed, begin, complete,
  abandon,
}
use fire2api.Idempotency.Guard.{Step, begins, completes, abandons, run}
use fire2api.Idempotency.Lifecycle.{begin_once, begin_completed, abandon_reopens}

-- A hash that tells these keys apart.
abbrev hash : Text → String
hash [] = "nothing"
hash (c ∷ s) = elim s [ [] ↦ "one" | d ∷ r ↦ "more" ]

abbrev empty : Table
empty = record { rows = [] }

abbrev request : String → ℕ → Request
request payload now = record {
  access_key_id = 7;
  method = "POST";
  route_path = "/api/orders";
  idempotency_key = codes "order-1";
  request_hash = payload;
  now = now;
}

begins_first : (begin hash 24 empty (request "a" 5)).1 ≡ begun 1
unfolding begin
begins_first = refl

other_payload :
    (begin hash 24 (begin hash 24 empty (request "a" 5)).0 (request "b" 9)).1
    ≡ conflict different_payload
unfolding begin
other_payload = refl

-- The execution is completed, and a record that is not there is given up.
abbrev steps : List Step
steps = begins (request "b" 6) ∷ completes 1 "response" "e1" ∷ abandons 2 ∷ []

begin_once_example :
    (c : Conflict) × ((begin hash 24
        (run hash 24 (begin hash 24 empty (request "a" 5)).0 steps)
        (request "b" 9)).1
      ≡ conflict c)
begin_once_example =
    begin_once hash 24 empty (request "a" 5) (request "b" 9) 1 steps begins_first
      (omega arith, (tt, ((λ e. omega arith), tt))) refl refl (omega arith)

begin_completed_example :
    (begin hash 24
      (complete (begin hash 24 empty (request "a" 5)).0 1 "response" "e1").0
      (request "a" 9)).1
    ≡ conflict (if ◌==◌ {X = String} "a" "a" then already_processed else different_payload)
begin_completed_example =
    begin_completed hash 24 empty (request "a" 5) (request "a" 9) 1 "response" "e1" begins_first
      refl refl (omega arith)

same_id_again :
    (begin hash 24 (abandon (begin hash 24 empty (request "a" 5)).0 1) (request "b" 9)).1 ≡ begun 1
unfolding begin abandon
same_id_again = refl

abandon_reopens_example :
    (id : ℕ) × ((begin hash 24
        (abandon (begin hash 24 empty (request "a" 5)).0 1)
        (request "b" 9)).1
      ≡ begun id)
abandon_reopens_example =
    abandon_reopens hash 24 empty (request "a" 5) (request "b" 9) 1 begins_first refl refl
