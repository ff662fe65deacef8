-- ===== src/Idempotency.antt =====
-- app/core/idempotency.py and the table `idempotency_records`. `begin` runs between `BEGIN
-- IMMEDIATE` and `commit`, and `complete` and `abandon` are one statement each, so each is one
-- step. SHA-256 is a parameter; times are in microseconds, since ISO texts of one time zone sort
-- as their times.
pub mod Guard
pub mod Lifecycle
mod Tests
use fire2api.Base.{
  ℕ, max, zero, suc, ◌+◌, ◌*◌, ◌≡◌, String, Bool, true, false, ◌&&◌, ◌||◌, not, List, [], ◌∷◌, ◌++◌,
  Option, none, some, leb, ltb, ◌==◌, nat_eq, string_eq, pair_eq, if◌then◌else◌, keep_if, any,
  length,
}
use fire2api.Text.{Text}

pub data Status : Type 0 where
  running completed : Status

-- The columns of the unique constraint: key, method, path and hashed Idempotency-Key.
abbrev pub Scope : Type 0
Scope = ℕ × (String × (String × String))

pub record Entry : Type 0 where
  pub id : ℕ
  pub scope : Scope
  pub request_hash : String
  pub response_hash : Option String
  pub execution_id : Option String
  pub status : Status
  pub expires_at : ℕ

-- The rows in the order of their insertion. The key is `INTEGER PRIMARY KEY` without
-- AUTOINCREMENT, so nothing else is kept.
pub record Table : Type 0 where
  pub rows : List Entry

pub data Conflict : Type 0 where
  different_payload already_processed still_running : Conflict

-- `begin` returns the record's id, or raises `ValueError` or `IdempotencyConflict`.
pub data Outcome : Type 0 where
  begun : ℕ → Outcome
  bad_key : Outcome
  conflict : Conflict → Outcome

abbrev pub is_running : Status → Bool
is_running running = true
is_running completed = false

abbrev pub find : Scope → List Entry → Option Entry
find s [] = none
find s (r ∷ rs) = if r.scope == s then some r else find s rs

-- The two tests on the header: its length, and characters that break a header line.
abbrev pub is_valid_key : Text → Bool
is_valid_key key =
    ltb 0 (length key)
    && leb (length key) 200
    && not (any (λ c. c == b'\r' || c == b'\n' || c == b'\t') key)

-- `DELETE ... WHERE expires_at <= now`.
abbrev pub purge : ℕ → List Entry → List Entry
purge now = keep_if (λ r. not (leb r.expires_at now))

abbrev pub hour : ℕ
hour = 3_600_000_000

abbrev pub conflict_with : Entry → String → Conflict
conflict_with r request_hash =
    if not (r.request_hash == request_hash)
    then different_payload
    else elim r.status [ completed ↦ already_processed | running ↦ still_running ]

-- The id that SQLite gives to an inserted row: one more than the greatest id there is, so that the
-- id of a record that was deleted may come again.
abbrev pub max_id : List Entry → ℕ
max_id [] = 0
max_id (r ∷ rs) = max r.id (max_id rs)

abbrev pub next_id : List Entry → ℕ
next_id rows = max_id rows + 1

abbrev pub decide : Table → Scope → String → ℕ → List Entry → Option Entry → Table × Outcome
decide t s request_hash expires rows (some r) =
    (record { rows = rows }, conflict (conflict_with r request_hash))
decide t s request_hash expires rows none = (
  record {
    rows =
        rows
        ++ record {
          id = next_id rows;
          scope = s;
          request_hash = request_hash;
          response_hash = none;
          execution_id = none;
          status = running;
          expires_at = expires;
        }
          ∷ [];
  },
  begun (next_id rows),
)

-- The arguments of `begin`, with the time it reads.
pub record Request : Type 0 where
  pub access_key_id : ℕ
  pub method : String
  pub route_path : String
  pub idempotency_key : Text
  pub request_hash : String
  pub now : ℕ

module _ (sha256 : Text → String) (ttl_hours : ℕ) where
  abbrev pub scope_of : Request → Scope
  scope_of q = (q.access_key_id, (q.method, (q.route_path, sha256 q.idempotency_key)))

  unfoldable pub begin : Table → Request → Table × Outcome
  begin t q =
      if not (is_valid_key q.idempotency_key)
      then (t, bad_key)
      else decide t (scope_of q) q.request_hash (q.now + ttl_hours * hour) (purge q.now t.rows)
          (find (scope_of q) (purge q.now t.rows))

-- `WHERE id = ? AND status = 'running'`.
abbrev pub selects : ℕ → Entry → Bool
selects id r = r.id == id && is_running r.status

abbrev pub completed_row : String → String → Entry → Entry
completed_row response_hash execution_id r = record r {
  status = completed;
  response_hash = some response_hash;
  execution_id = some execution_id;
}

unfoldable pub complete_rows : ℕ → String → String → List Entry → List Entry
complete_rows id response_hash execution_id [] = []
complete_rows id response_hash execution_id (r ∷ rs) =
    (if selects id r then completed_row response_hash execution_id r else r)
    ∷ complete_rows id response_hash execution_id rs

-- `complete`; false where it raises, since `cursor.rowcount` is not 1.
unfoldable pub complete : Table → ℕ → String → String → Table × Bool
unfolding complete_rows
complete t id response_hash execution_id = (
  record { rows = complete_rows id response_hash execution_id t.rows },
  length (keep_if (selects id) t.rows) == 1,
)

unfoldable pub abandon : Table → ℕ → Table
abandon t id = record { rows = keep_if (λ r. not (selects id r)) t.rows }
