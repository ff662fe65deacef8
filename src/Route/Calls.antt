-- ===== src/Route/Calls.antt =====
-- What a call with an Idempotency-Key leaves of the records, and when it runs nothing.
use fire2api.Base.{
  ℕ, ◌≡◌, refl, sym, ap, ◌∙◌, String, Bool, true, false, List, [], ◌∷◌, ◌++◌, Option, none, some,
  ◌==◌, nat_eq, string_eq, list_eq, Dict, All, arith, Bool-cases, inl, inr,
}
use fire2api.Text.{Text}
use fire2api.Idempotency.{
  Table, Request, Entry, Outcome, Conflict, begun, bad_key, conflict, begin, next_id, purge, decide,
  complete, is_valid_key,
}
use fire2api.Idempotency.Guard.{Step, run, Spares}
use fire2api.Query.Convert.{Value, overflow, Result, ok, fails}
use fire2api.Query.Parameters.{Field, Options}
use fire2api.Route.{
  Body, no_body, not_json, not_object, nested, flat, Run, returned, no_capacity, timed_out,
  was_canceled, broke, Reply, bad_json, unprocessable, refused, done, exhausted, timeout, canceled,
  failed, raised, Query, Call, Around, is_get, read_body, close, execute_once, record_request,
  execute_bound, bind_call, after_binding, after_body,
}

-- The responses behind a call of `execute`.
abbrev pub ran : Reply → Bool
ran bad_json = false
ran unprocessable = false
ran refused = false
ran raised = false
ran _ = true

pub read_body-ran :
    {O : Type 0} (method : String) (b : Body O) (reply : Reply)
    → (read_body method b).1 ≡ some reply
    → ran reply ≡ false
read_body-ran method no_body reply h = cc
read_body-ran method not_json reply h = ground arith
read_body-ran method not_object reply h = ground arith
read_body-ran method nested reply h = ground arith
read_body-ran method (flat fields) reply h = ground arith

not_done : {reply : Reply} → ran reply ≡ false → reply ≡ done → ⊥
not_done {reply} h e = absurd (true_false (ap ran (sym e) ∙ h))
  where
    true_false : true ≡ false → ⊥
    true_false x = cc

decide-next :
    (t : Table) (s : ℕ × (String × (String × String))) (request : String) (end id : ℕ)
    (rows : List Entry) (o : Option Entry)
    → (decide t s request end rows o).1 ≡ begun id
    → id ≡ next_id rows
decide-next t s request end id rows none h = same h
  where
    same : {a b : ℕ} → begun a ≡ begun b → b ≡ a
    same x = cc
decide-next t s request end id rows (some r) h = absurd (differ h)
  where
    differ : {k : Conflict} {a : ℕ} → conflict k ≡ begun a → ⊥
    differ x = cc

module _ (sha256 : Text → String) (ttl : ℕ) where
  pub run-append :
      (xs ys : List Step) (t : Table)
      → run sha256 ttl t (xs ++ ys) ≡ run sha256 ttl (run sha256 ttl t xs) ys
  run-append [] ys t = refl
  run-append (x ∷ xs) ys t = run-append xs ys _

  pub All-append :
      (id end : ℕ) (xs ys : List Step)
      → All (Spares sha256 ttl id end) xs
      → All (Spares sha256 ttl id end) ys
      → All (Spares sha256 ttl id end) (xs ++ ys)
  All-append id end [] ys hx hy = hy
  All-append id end (x ∷ xs) ys hx hy = (hx.0, All-append id end xs ys hx.1 hy)

  pub begun_facts :
      (t : Table) (q : Request) (id : ℕ)
      → (begin sha256 ttl t q).1 ≡ begun id
      → (is_valid_key q.idempotency_key ≡ true) × (id ≡ next_id (purge q.now t.rows))
  unfolding begin
  begun_facts t q id h = elim (Bool-cases (is_valid_key q.idempotency_key)) [
    | inl good ↦ (good, decide-next t _ q.request_hash _ id _ _ (rw good at h))
    | inr bad ↦ absurd (differ (rw bad at h))
  ]
    where
      differ : bad_key ≡ begun id → ⊥
      differ x = cc

module _ {O : Type 0} (c : Around O) (q : Query O) where
  -- The table behind a call that has returned: its record was begun and is completed.
  abbrev pub Began : Table → Call O → List Step → Table → Type 0
  Began t call meanwhile t' =
      (bound : Dict Text (Option (Value O)) × Options O) × (id : ℕ) × (h : String) × (e : String)
      × ((begin c.sha256 c.ttl_hours t (record_request c q call bound)).1 ≡ begun id)
      × (t'
          ≡ (complete
              (run c.sha256 c.ttl_hours
                (begin c.sha256 c.ttl_hours t (record_request c q call bound)).0 meanwhile)
              id h e).0)

  close-done :
      (t : Table) (id : ℕ) (r : Run)
      → (close t id r).1 ≡ done
      → (h : String) × (e : String) × ((close t id r).0 ≡ (complete t id h e).0)
  unfolding close
  close-done t id (returned h e) x = (h, e, refl)
  close-done t id no_capacity x = absurd (differ x)
    where
      differ : exhausted ≡ done → ⊥
      differ y = cc
  close-done t id timed_out x = absurd (differ x)
    where
      differ : timeout ≡ done → ⊥
      differ y = cc
  close-done t id was_canceled x = absurd (differ x)
    where
      differ : canceled ≡ done → ⊥
      differ y = cc
  close-done t id broke x = absurd (differ x)
    where
      differ : failed ≡ done → ⊥
      differ y = cc

  execute_once-begun :
      (o : Table × Outcome) (meanwhile : List Step) (r : Run)
      → (execute_once c o meanwhile r).1 ≡ done
      → (id : ℕ) × (h : String) × (e : String) × (o.1 ≡ begun id)
        × ((execute_once c o meanwhile r).0
            ≡ (complete (run c.sha256 c.ttl_hours o.0 meanwhile) id h e).0)
  unfolding execute_once
  execute_once-begun (t, begun id) meanwhile r x =
      let (h, e, same) = close-done (run c.sha256 c.ttl_hours t meanwhile) id r x in
      (id, h, e, refl, same)
  execute_once-begun (t, bad_key) meanwhile r x = absurd (not_done refl x)
  execute_once-begun (t, conflict _) meanwhile r x = absurd (not_done refl x)

  module _ (call : Call O) (post : is_get q.method ≡ false)
      (keyed : (call.idempotency_key == []) ≡ false) where
    execute_bound-keyed :
        (t : Table) (bound : Dict Text (Option (Value O)) × Options O) (meanwhile : List Step)
        (r : Run)
        → execute_bound c t q call bound meanwhile r
          ≡ execute_once c
              (begin c.sha256 c.ttl_hours t (record_request c q call bound))
              meanwhile
              r
    execute_bound-keyed t bound meanwhile r = rw post (rw keyed refl)

    binding-Began :
        (t : Table) (o : Result (Dict Text (Option (Value O)) × Options O)) (meanwhile : List Step)
        (r : Run)
        → (after_binding c t q call o meanwhile r).1 ≡ done
        → Began t call meanwhile (after_binding c t q call o meanwhile r).0
    binding-Began t (fails overflow) meanwhile r x = absurd (not_done refl x)
    binding-Began t (fails _) meanwhile r x = absurd (not_done refl x)
    binding-Began t (ok bound) meanwhile r x =
        let same = execute_bound-keyed t bound meanwhile r in
        let (id, h, e, b, closed) =
          execute_once-begun (begin c.sha256 c.ttl_hours t (record_request c q call bound))
            meanwhile r (sym (ap (λ (y : Table × Reply). y.1) same) ∙ x) in
        (bound, id, h, e, b, ap (λ (y : Table × Reply). y.0) same ∙ closed)

    pub body-Began :
        (t : Table) (p : List (Field O) × Option Reply) (meanwhile : List Step) (r : Run)
        → ((reply : Reply) → p.1 ≡ some reply → ran reply ≡ false)
        → (after_body c t q call p meanwhile r).1 ≡ done
        → Began t call meanwhile (after_body c t q call p meanwhile r).0
    body-Began t (fields, some reply) meanwhile r h x = absurd (not_done (h reply refl) x)
    body-Began t (fields, none) meanwhile r h x =
        binding-Began t (bind_call c q call fields) meanwhile r x

    -- Whatever the request says: it runs nothing where its record cannot be begun.
    binding-refused :
        (t : Table) (o : Result (Dict Text (Option (Value O)) × Options O)) (meanwhile : List Step)
        (r : Run)
        → ((bound : Dict Text (Option (Value O)) × Options O)
            → (k : Conflict) × ((begin c.sha256 c.ttl_hours t (record_request c q call bound)).1
                ≡ conflict k))
        → ran (after_binding c t q call o meanwhile r).1 ≡ false
    unfolding execute_once
    binding-refused t (fails overflow) meanwhile r h = refl
    binding-refused t (fails _) meanwhile r h = refl
    binding-refused t (ok bound) meanwhile r h =
        ap (λ (y : Table × Reply). ran y.1) (execute_bound-keyed t bound meanwhile r)
        ∙ refuses (begin c.sha256 c.ttl_hours t (record_request c q call bound)) (h bound)
      where
        refuses :
            (o : Table × Outcome)
            → (k : Conflict) × (o.1 ≡ conflict k)
            → ran (execute_once c o meanwhile r).1 ≡ false
        refuses (t', begun id) (k, e) = absurd (differ e)
          where
            differ : begun id ≡ conflict k → ⊥
            differ y = cc
        refuses (t', bad_key) e = refl
        refuses (t', conflict _) e = refl

    pub body-refused :
        (t : Table) (p : List (Field O) × Option Reply) (meanwhile : List Step) (r : Run)
        → ((reply : Reply) → p.1 ≡ some reply → ran reply ≡ false)
        → ((bound : Dict Text (Option (Value O)) × Options O)
            → (k : Conflict) × ((begin c.sha256 c.ttl_hours t (record_request c q call bound)).1
                ≡ conflict k))
        → ran (after_body c t q call p meanwhile r).1 ≡ false
    body-refused t (fields, some reply) meanwhile r h x = h reply refl
    body-refused t (fields, none) meanwhile r h x =
        binding-refused t (bind_call c q call fields) meanwhile r x
