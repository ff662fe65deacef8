-- ===== src/Execution/History.antt =====
-- The table `execution_history` and the methods of `ExecutionService` that read and write it. A
-- call of `_now()` is an argument, in microseconds: the ISO texts of one time zone sort as their
-- times. Each method runs its statements in one SQLite transaction, so it is one step.
pub mod Terminal
pub mod Retention
use fire2api.Base.{
  ℕ, ◌+◌, ◌≡◌, String, Bool, true, false, ◌&&◌, ◌||◌, not, List, [], ◌∷◌, ◌++◌, Option, none, some,
  leb, min, max, ◌==◌, string_eq, nat_eq, if◌then◌else◌, keep_if, any, map, length, take, drop,
}

pub data Status : Type 0 where
  queued running cancel_requested completed failed canceled timeout : Status

-- `TERMINAL`.
unfoldable pub is_terminal : Status → Bool
is_terminal completed = true
is_terminal failed = true
is_terminal canceled = true
is_terminal timeout = true
is_terminal _ = false

pub record Row : Type 0 where
  pub execution_id : String
  pub owner_hash : String
  pub route_type : String
  pub route_ref : String
  pub http_method : String
  pub statement_type : String
  pub status : Status
  pub affected_rows : Option ℕ
  pub started_at : Option ℕ
  pub finished_at : Option ℕ
  pub error_message : Option String
  pub created_at : ℕ

abbrev pub History : Type 0
History = List Row

-- `_insert_record`; the primary key refuses an identifier that is there already.
unfoldable pub insert_record :
    History → String → String → String → String → String → String → ℕ → Option History
insert_record h id owner route_type route_ref method statement_type now =
    if any (λ r. r.execution_id == id) h
    then none
    else some (
        h
        ++ record {
          execution_id = id;
          owner_hash = owner;
          route_type = route_type;
          route_ref = route_ref;
          http_method = method;
          statement_type = statement_type;
          status = queued;
          affected_rows = none;
          started_at = none;
          finished_at = none;
          error_message = none;
          created_at = now;
        }
          ∷ [])

-- SQL's `COALESCE(a, b)`.
abbrev pub coalesce {ℓ} : {A : Type ℓ} → Option A → Option A → Option A
coalesce none b = b
coalesce (some a) b = some a

-- The arguments of `_status`, with the two times that it reads.
pub record Change : Type 0 where
  pub status : Status
  pub error : Option String
  pub started : Bool
  pub finished : Bool
  pub affected_rows : Option ℕ
  pub started_now : ℕ
  pub finished_now : ℕ

-- The `SET` list.
abbrev pub changed : Change → Row → Row
changed c r = record r {
  status = c.status;
  error_message = c.error;
  started_at = if c.started then coalesce r.started_at (some c.started_now) else r.started_at;
  finished_at = if c.finished then some c.finished_now else r.finished_at;
  affected_rows = coalesce c.affected_rows r.affected_rows;
}

-- The `WHERE` clause.
abbrev pub selects : String → Row → Bool
selects id r = r.execution_id == id && not (is_terminal r.status)

unfoldable pub update : String → Change → History → History
unfolding is_terminal
update id c [] = []
update id c (r ∷ h) = (if selects id r then changed c r else r) ∷ update id c h

-- `ORDER BY created_at DESC`; SQLite leaves the order of equal times open, here the older entry
-- of the table stands first.
unfoldable pub insert_desc : Row → List Row → List Row
insert_desc r [] = r ∷ []
insert_desc r (s ∷ rs) =
    let rest = insert_desc r rs in if leb s.created_at r.created_at then r ∷ s ∷ rs else s ∷ rest

unfoldable pub by_created_desc : List Row → List Row
unfolding insert_desc
by_created_desc [] = []
by_created_desc (r ∷ rs) = insert_desc r (by_created_desc rs)

abbrev pub is_finished : Row → Bool
is_finished r = is_terminal r.status

-- The rows that the inner `SELECT ... LIMIT -1 OFFSET n` names.
abbrev pub surplus : ℕ → History → List Row
surplus n h = drop n (by_created_desc (keep_if is_finished h))

abbrev pub names : String → List Row → Bool
names id = any (λ r. r.execution_id == id)

-- The `DELETE`.
unfoldable pub trim : ℕ → History → History
unfolding by_created_desc is_terminal
trim n h = keep_if (λ r. not (names r.execution_id (surplus n h))) h

-- `_status`, and whether `cursor.rowcount == 1`.
unfoldable pub set_status : ℕ → String → Change → History → History × Bool
unfolding update trim
set_status history_size id c h =
    let h' = update id c h in
    (
      if is_terminal c.status then trim history_size h' else h',
      length (keep_if (selects id) h) == 1,
    )

-- `list_executions`; `limit` is the caller's number, 0 for a negative one.
unfoldable pub list_executions : History → String → Bool → ℕ → List Row
unfolding by_created_desc
list_executions h owner is_admin limit =
    take (max 1 (min limit 1000))
      (by_created_desc (if is_admin then h else keep_if (λ r. r.owner_hash == owner) h))

-- `request_cancel`: the answer, the history, and whether the context is told to cancel.
pub data CancelReply : Type 0 where
  not_found : CancelReply
  already_finished : Status → CancelReply
  accepted : CancelReply

abbrev pub find : String → History → Option Row
find id [] = none
find id (r ∷ h) = if r.execution_id == id then some r else find id h

abbrev pub cancel_change : ℕ → Change
cancel_change now = record {
  status = cancel_requested;
  error = some "Cancelamento solicitado";
  started = false;
  finished = false;
  affected_rows = none;
  started_now = now;
  finished_now = now;
}

abbrev pub cancel_row :
    ℕ → String → String → Bool → ℕ → History → Option Row → CancelReply × History × Bool
cancel_row size id owner is_admin now h none = (not_found, h, false)
cancel_row size id owner is_admin now h (some r) =
    if not is_admin && not (r.owner_hash == owner)
    then (not_found, h, false)
    else if is_terminal r.status
    then (already_finished r.status, h, false)
    else (accepted, (set_status size id (cancel_change now) h).0, true)

unfoldable pub request_cancel :
    ℕ → String → String → Bool → ℕ → History → CancelReply × History × Bool
request_cancel size id owner is_admin now h = cancel_row size id owner is_admin now h (find id h)
