-- ===== src/Execution/Lifecycle/Settled.antt =====
-- What an execution is left with that has ended.
use fire2api.Base.{
  ℕ, String, ◌≡◌, ◌⊎◌, inl, inr, refl, ap, ◌∙◌, Bool, true, false, ◌||◌, not, List, [], ◌∷◌, Option,
  none, some, ◌==◌, string_eq, All, any-append, any-keep_if, Bool-cases, arith,
}
use fire2api.Query.Execute.{Outcome}
use fire2api.Execution.History.{
  History, Row, CancelReply, is_terminal, insert_record, request_cancel,
}
use fire2api.Execution.Lifecycle.{
  Context, Service, Submission, pop_context, Event, submit, deny, start, finish, time_out,
  ask_cancel, disconnect, after_record, after_cancel, step_event, run_events,
}
use fire2api.Execution.Lifecycle.Covered.{
  has_context, IsCovered, IsLive, has_context-cancel_context,
}
use fire2api.Execution.Lifecycle.Live.{run_events-IsLive}

-- The event does not submit an execution of that id: `uuid4` gives each a new one.
abbrev pub Spares : {R : Type 0} → String → Event R → Type 0
Spares id (submit e now) = (e.execution_id == id) ≡ false
Spares id _ = Unit

-- A row of the execution is terminal.
abbrev pub IsSettled : String → Row → Type 0
IsSettled id r = ((r.execution_id == id) ≡ false) ⊎ (is_terminal r.status ≡ true)

has_context-popped : (id : String) (cs : List Context) → has_context id (pop_context id cs) ≡ false
has_context-popped id [] = refl
has_context-popped id (c ∷ cs) = elim (Bool-cases (c.execution_id == id)) [
  | inl own ↦ rw own (has_context-popped id cs)
  | inr other ↦ rw other (rw other (has_context-popped id cs))
]

after_record-gone :
    (id : String) (s : Service) (e : Submission) (o : Option History)
    → (e.execution_id == id) ≡ false
    → has_context id s.contexts ≡ false
    → has_context id (after_record s e o).contexts ≡ false
after_record-gone id s e none other h = h
after_record-gone id s e (some x) other h =
    any-append (λ (c : Context). c.execution_id == id) (pop_context e.execution_id s.contexts) _
    ∙ neither _ _
        (any-keep_if _ (λ (c : Context). not (c.execution_id == e.execution_id)) s.contexts h) other
  where
    neither : (a b : Bool) → a ≡ false → b ≡ false → (a || b) ≡ false
    neither a b x y = ground arith

after_cancel-gone :
    (id j : String) (s : Service) (r : CancelReply × History × Bool)
    → has_context j s.contexts ≡ false
    → has_context j (after_cancel id s r).contexts ≡ false
after_cancel-gone id j s (reply, h, true) x = has_context-cancel_context id j s.contexts ∙ x
after_cancel-gone id j s (reply, h, false) x = x

without_context-IsSettled :
    (id : String) (cs : List Context) (h : History)
    → has_context id cs ≡ false
    → All (IsCovered cs) h
    → All (IsSettled id) h
without_context-IsSettled id cs [] gone x = tt
without_context-IsSettled id cs (r ∷ h) gone x =
    (one x.0, without_context-IsSettled id cs h gone x.1)
  where
    apart : (a b : Bool) → a ≡ b → a ≡ true → b ≡ false → ⊥
    apart a b e y z = cc

    one : IsCovered cs r → IsSettled id r
    one (inr over) = inr over
    one (inl there) = elim (Bool-cases (r.execution_id == id)) [
      | inr other ↦ inl other
      | inl own ↦ absurd (
          apart _ _
            (ap (λ (k : String). has_context k cs) ((string_eq.beq_iff r.execution_id id).0 own))
            there gone)
    ]

module _ {R : Type 0} (size : ℕ) (id : String) where
  step_event-gone :
      (e : Event R) (s : Service)
      → Spares id e
      → has_context id s.contexts ≡ false
      → has_context id (step_event size e s).contexts ≡ false
  step_event-gone (submit e now) s spares h =
      after_record-gone id s e
        (insert_record s.history e.execution_id e.owner_hash e.route_type e.route_ref e.http_method
          e.statement_type now)
        spares h
  step_event-gone (deny j now) s spares h =
      any-keep_if _ (λ (c : Context). not (c.execution_id == j)) s.contexts h
  step_event-gone (start j now) s spares h = h
  step_event-gone (finish j outcome now) s spares h =
      any-keep_if _ (λ (c : Context). not (c.execution_id == j)) s.contexts h
  step_event-gone (time_out j now) s spares h = has_context-cancel_context j id s.contexts ∙ h
  step_event-gone (ask_cancel j owner is_admin now) s spares h =
      after_cancel-gone j id s (request_cancel size j owner is_admin now s.history) h
  step_event-gone (disconnect j) s spares h = has_context-cancel_context j id s.contexts ∙ h

  run_events-gone :
      (es : List (Event R)) (s : Service)
      → All (Spares id) es
      → has_context id s.contexts ≡ false
      → has_context id (run_events size es s).contexts ≡ false
  run_events-gone [] s spares h = h
  run_events-gone (e ∷ es) s spares h =
      run_events-gone es (step_event size e s) spares.1 (step_event-gone e s spares.0 h)

  -- From a history in which each open entry has a context: behind the end of an execution's worker,
  -- whatever its outcome was, and behind every further event that does not submit the same id
  -- again, no entry of that execution is left open.
  pub run_events-IsSettled :
      (outcome : Outcome R) (now : ℕ) (es : List (Event R)) (s : Service)
      → IsLive s
      → All (Spares id) es
      → All (IsSettled id) (run_events size (finish id outcome now ∷ es) s).history
  run_events-IsSettled outcome now es s live spares =
      without_context-IsSettled id (run_events size (finish id outcome now ∷ es) s).contexts
        (run_events size (finish id outcome now ∷ es) s).history
        (run_events-gone es (step_event size (finish id outcome now) s) spares
          (has_context-popped id s.contexts))
        (run_events-IsLive size (finish id outcome now ∷ es) s live)
