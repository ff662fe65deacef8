-- ===== src/Execution/History/Terminal.antt =====
-- A terminal status is final.
use text.Mathlib.TextEquality.{eq_iff}
use fire2api.Base.{
  ℕ, ◌≡◌, ◌≢◌, ◌⊎◌, refl, ap, ◌∙◌, String, Bool, true, false, ◌&&◌, ◌||◌, not, List, [], ◌∷◌, arith,
  Option, none, some, ◌==◌, string_eq, if◌then◌else◌, keep_if, Bool-cases, inl, inr, ==-ne,
}
use fire2api.Execution.History.{
  is_terminal, cancel_requested, Row, History, names, selects, changed, Change, find, surplus, trim,
  update, set_status, cancel_change, request_cancel, accepted, not_found, already_finished,
}

-- A look-up after a deletion by identifiers.
find-keep_if :
    (id : String) (dropped : List Row) (h : History)
    → find id (keep_if (λ r. not (names r.execution_id dropped)) h)
      ≡ (if names id dropped then none else find id h)
find-keep_if id dropped [] = ground arith
find-keep_if id dropped (r ∷ h) = elim (Bool-cases (r.execution_id == id)) [
  | inl same ↦
      let e = ap (λ x. names x dropped) ((eq_iff r.execution_id id).0 same) in
      ground (arith, find-keep_if id dropped h)
  | inr other ↦ ground (arith, find-keep_if id dropped h)
]

abbrev pub changed_if : String → String → Change → Option Row → Option Row
changed_if id j c none = none
changed_if id j c (some r) = some (if selects id r then changed c r else r)

find-update :
    (id j : String) (c : Change) (h : History)
    → find j (update id c h) ≡ changed_if id j c (find j h)
unfolding update
find-update id j c [] = refl
find-update id j c (r ∷ h) = elim (Bool-cases (selects id r)) [
  | inl hit ↦ rw hit (ground (arith, find-update id j c h))
  | inr miss ↦ rw miss (ground (arith, find-update id j c h))
]

find-trim :
    (n : ℕ) (id : String) (h : History)
    → find id (trim n h) ≡ (if names id (surplus n h) then none else find id h)
unfolding trim
find-trim n id h = find-keep_if id (surplus n h) h

-- A finished row after a change of any execution to any status: the same, or deleted.
abbrev pub KeptOrGone : String → Row → History → Type 0
KeptOrGone j r h = (find j h ≡ some r) ⊎ (find j h ≡ none)

update-final :
    (id j : String) (c : Change) (h : History) (r : Row)
    → find j h ≡ some r
    → is_terminal r.status ≡ true
    → find j (update id c h) ≡ some r
update-final id j c h r e t = rw find-update (rw e (rw t (ground arith)))

set_status-final :
    (size : ℕ) (id j : String) (c : Change) (h : History) (r : Row)
    → find j h ≡ some r
    → is_terminal r.status ≡ true
    → KeptOrGone j r (set_status size id c h).0
unfolding set_status
set_status-final size id j c h r e t =
    ground (arith, update-final id j c h r e t, find-trim size j (update id c h))

-- A deleted row does not come back: a change inserts nothing.
set_status-gone :
    (size : ℕ) (id j : String) (c : Change) (h : History)
    → find j h ≡ none
    → find j (set_status size id c h).0 ≡ none
unfolding set_status
set_status-gone size id j c h e =
    ground (arith, find-update id j c h, find-trim size j (update id c h))

-- Calls of `_status` in a row, of any executions, from any threads.
unfoldable pub run_changes : ℕ → List (String × Change) → History → History
run_changes size [] h = h
run_changes size ((id, c) ∷ cs) h = run_changes size cs (set_status size id c h).0

run_changes-gone :
    (size : ℕ) (cs : List (String × Change)) (j : String) (h : History)
    → find j h ≡ none
    → find j (run_changes size cs h) ≡ none
unfolding run_changes
run_changes-gone size [] j h e = e
run_changes-gone size ((id, c) ∷ cs) j h e =
    run_changes-gone size cs j (set_status size id c h).0 (set_status-gone size id j c h e)

-- An execution that has finished stays as it is: after any sequence of status changes its row is
-- the same in every column, or retention has deleted it.
pub run_changes-final :
    (size : ℕ) (cs : List (String × Change)) (j : String) (h : History) (r : Row)
    → find j h ≡ some r
    → is_terminal r.status ≡ true
    → KeptOrGone j r (run_changes size cs h)
unfolding run_changes
run_changes-final size [] j h r e t = inl e
run_changes-final size ((id, c) ∷ cs) j h r e t = elim (set_status-final size id j c h r e t) [
  | inl kept ↦ run_changes-final size cs j (set_status size id c h).0 r kept t
  | inr gone ↦ inr (run_changes-gone size cs j (set_status size id c h).0 gone)
]

-- A change to a status that is not terminal reaches exactly a row of its id that has not finished,
-- and leaves the row that any other id finds.
pub set_status-moves :
    (size : ℕ) (id j : String) (c : Change) (h : History)
    → is_terminal c.status ≡ false
    → find j (set_status size id c h).0 ≡ changed_if id j c (find j h)
unfolding set_status
set_status-moves size id j c h t = rw t (find-update id j c h)

-- To a caller who is neither the owner nor an administrator, another's execution looks like one
-- that does not exist: the same answer, an unchanged table, and no context told to cancel.
pub request_cancel-hides :
    (size : ℕ) (id owner : String) (now : ℕ) (h : History) (r : Row)
    → find id h ≡ some r
    → r.owner_hash ≢ owner
    → request_cancel size id owner false now h ≡ (not_found, h, false)
unfolding request_cancel
request_cancel-hides size id owner now h r e ne = rw e (rw (==-ne ne))

may_cancel : (a b : Bool) → (a || b) ≡ true → (not a && not b) ≡ false
may_cancel a b h = ground arith

find-execution_id :
    (id : String) (h : History) (r : Row) → find id h ≡ some r → (r.execution_id == id) ≡ true
find-execution_id id [] r e = cc
find-execution_id id (s ∷ h) r e = ground (arith, find-execution_id id h r)

cancels :
    (size : ℕ) (id : String) (now : ℕ) (h : History) (r : Row)
    → find id h ≡ some r
    → is_terminal r.status ≡ false
    → find id (set_status size id (cancel_change now) h).0 ≡ some (changed (cancel_change now) r)
cancels size id now h r e t =
    set_status-moves size id id (cancel_change now) h (unfold is_terminal in refl)
    ∙ rw e (rw (find-execution_id id h r e) (rw t))

-- A cancel request for an execution that has not finished, by its owner or an administrator, is
-- accepted: its context is told to cancel, and its row says `cancel_requested` and is otherwise
-- as it was but for the message.
pub request_cancel-accepted :
    (size : ℕ) (id owner : String) (is_admin : Bool) (now : ℕ) (h : History) (r : Row)
    → find id h ≡ some r
    → (is_admin || r.owner_hash == owner) ≡ true
    → is_terminal r.status ≡ false
    → ((request_cancel size id owner is_admin now h).0 ≡ accepted)
      × ((request_cancel size id owner is_admin now h).2 ≡ true)
      × (find id (request_cancel size id owner is_admin now h).1
          ≡ some (record r {
            status = cancel_requested;
            error_message = some "Cancelamento solicitado";
          }))
unfolding request_cancel
request_cancel-accepted size id owner is_admin now h r e may t = rw e (
    rw (may_cancel is_admin (r.owner_hash == owner) may)
      (rw t (refl, refl, cancels size id now h r e t)))

-- Once an execution has finished, a cancel request changes nothing and tells no context, whoever
-- asks; those who may see it are told its status.
pub request_cancel-finished :
    (size : ℕ) (id owner : String) (is_admin : Bool) (now : ℕ) (h : History) (r : Row)
    → find id h ≡ some r
    → is_terminal r.status ≡ true
    → request_cancel size id owner is_admin now h ≡ (
      if is_admin || r.owner_hash == owner then already_finished r.status else not_found,
      h,
      false,
    )
unfolding request_cancel
request_cancel-finished size id owner is_admin now h r e t = rw e (rw t (ground arith))
