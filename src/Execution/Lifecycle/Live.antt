-- ===== src/Execution/Lifecycle/Live.antt =====
-- No execution stays open without a context.
use fire2api.Base.{
  ℕ, String, ◌≡◌, inl, inr, refl, sym, ap, ◌∙◌, Bool, true, false, ◌&&◌, ◌||◌, not, List, [], ◌∷◌,
  ◌++◌, Option, none, some, ◌==◌, string_eq, any, All, All-append, any-append, Bool-cases, arith,
  ==-refl,
}
use fire2api.Query.Execute.{
  Outcome, returned, refused_sql, refused_options, canceled, driver_failed, out_of_fuel,
}
use fire2api.Execution.History.{
  History, Row, insert_record, request_cancel, is_terminal, find, cancel_row, cancel_change,
}
use fire2api.Execution.Lifecycle.{
  Context, Service, Submission, pop_context, worker_change, Event, submit, deny, start, finish,
  time_out, ask_cancel, disconnect, after_record, after_cancel, step_event, run_events,
}
use fire2api.Execution.Lifecycle.Covered.{
  IsCovered, IsLive, cancel_context-IsCovered, has_context, has_context-pop_context,
  set_status-ends, set_status-goes_on,
}

register-has_context :
    (id j : String) (c : Context) (cs : List Context)
    → c.execution_id ≡ id
    → has_context j cs ≡ true
    → has_context j (pop_context id cs ++ c ∷ []) ≡ true
register-has_context id j c cs own h =
    any-append (λ c. c.execution_id == j) (pop_context id cs) c ∙ elim (Bool-cases (j == id)) [
      | inl same ↦
          right _ _
            (ap (λ (k : String). k == j) (own ∙ sym ((string_eq.beq_iff j id).0 same)) ∙ ==-refl j)
      | inr other ↦ left _ _ (has_context-pop_context id j cs other h)
    ]
  where
    right : (a b : Bool) → b ≡ true → (a || b) ≡ true
    right a b x = ground arith

    left : (a b : Bool) → a ≡ true → (a || b) ≡ true
    left a b x = ground arith

after_record-IsLive :
    (s : Service) (e : Submission) (now : ℕ)
    → IsLive s
    → IsLive (
        after_record s e (
          insert_record s.history e.execution_id e.owner_hash e.route_type e.route_ref e.http_method
            e.statement_type now))
unfolding insert_record
after_record-IsLive s e now live =
    elim (Bool-cases (any (λ r. r.execution_id == e.execution_id) s.history)) [
      | inl there ↦ rw there live
      | inr new ↦ rw new (All-append (IsCovered _) s.history _ (kept s.history live) (inl own, tt))
    ]
  where
    right : (a b : Bool) → b ≡ true → (a || b) ≡ true
    right a b x = ground arith

    own :
        has_context e.execution_id (
          pop_context e.execution_id s.contexts
          ++ record {
            execution_id = e.execution_id;
            owner_hash = e.owner_hash;
            is_canceled = false;
          }
            ∷ [])
        ≡ true
    own =
        any-append (λ (c : Context). c.execution_id == e.execution_id)
          (pop_context e.execution_id s.contexts) _
        ∙ right _ _ (==-refl e.execution_id)

    kept :
        (h : History)
        → All (IsCovered s.contexts) h
        → All
            (IsCovered (
              pop_context e.execution_id s.contexts
              ++ record {
                execution_id = e.execution_id;
                owner_hash = e.owner_hash;
                is_canceled = false;
              }
                ∷ []))
            h
    kept [] x = tt
    kept (r ∷ h) x = (one x.0, kept h x.1)
      where
        one :
            IsCovered s.contexts r
            → IsCovered
                (pop_context e.execution_id s.contexts
                  ++ record {
                    execution_id = e.execution_id;
                    owner_hash = e.owner_hash;
                    is_canceled = false;
                  }
                    ∷ [])
                r
        one (inl there) =
            inl (register-has_context e.execution_id r.execution_id _ s.contexts refl there)
        one (inr over) = inr over

worker_change-IsTerminal :
    {R : Type 0} (o : Outcome R) (now : ℕ) → is_terminal (worker_change o now).status ≡ true
unfolding is_terminal
worker_change-IsTerminal (returned rows n type) now = refl
worker_change-IsTerminal refused_sql now = refl
worker_change-IsTerminal refused_options now = refl
worker_change-IsTerminal canceled now = refl
worker_change-IsTerminal driver_failed now = refl
worker_change-IsTerminal out_of_fuel now = refl

after_cancel-IsLive :
    (size : ℕ) (id owner : String) (is_admin : Bool) (now : ℕ) (s : Service)
    → IsLive s
    → IsLive (after_cancel id s (request_cancel size id owner is_admin now s.history))
unfolding request_cancel
after_cancel-IsLive size id owner is_admin now s live = go (find id s.history)
  where
    go :
        (o : Option Row)
        → IsLive (after_cancel id s (cancel_row size id owner is_admin now s.history o))
    go none = live
    go (some r) = elim (Bool-cases (not is_admin && not (r.owner_hash == owner))) [
      | inl foreign ↦ rw foreign live
      | inr own ↦ rw own (elim (Bool-cases (is_terminal r.status)) [
        | inl over ↦ rw over live
        | inr running ↦ rw running (
            cancel_context-IsCovered id s.contexts _
              (set_status-goes_on size id (cancel_change now) s.contexts s.history live))
      ])
    ]

module _ {R : Type 0} (size : ℕ) where
  pub step_event-IsLive : (e : Event R) (s : Service) → IsLive s → IsLive (step_event size e s)
  unfolding is_terminal
  step_event-IsLive (submit e now) s live = after_record-IsLive s e now live
  step_event-IsLive (deny id now) s live = set_status-ends size id _ s.contexts s.history refl live
  step_event-IsLive (start id now) s live = set_status-goes_on size id _ s.contexts s.history live
  step_event-IsLive (finish id outcome now) s live =
      set_status-ends size id (worker_change outcome now) s.contexts s.history
        (worker_change-IsTerminal outcome now) live
  step_event-IsLive (time_out id now) s live =
      cancel_context-IsCovered id s.contexts _
        (set_status-goes_on size id _ s.contexts s.history live)
  step_event-IsLive (ask_cancel id owner is_admin now) s live =
      after_cancel-IsLive size id owner is_admin now s live
  step_event-IsLive (disconnect id) s live = cancel_context-IsCovered id s.contexts s.history live

  -- From a state in which each entry of the history is terminal or its execution has a context,
  -- such as an empty history, every sequence of events of executions leads to such a state again:
  -- none of them takes the context from an execution whose entry is not terminal. A start of the
  -- program is no event, and neither is its end.
  pub run_events-IsLive :
      (es : List (Event R)) (s : Service) → IsLive s → IsLive (run_events size es s)
  run_events-IsLive [] s live = live
  run_events-IsLive (e ∷ es) s live =
      run_events-IsLive es (step_event size e s) (step_event-IsLive e s live)
