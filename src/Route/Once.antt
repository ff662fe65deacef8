-- ===== src/Route/Once.antt =====
-- One key runs one statement.
use mathlib.Core.Path.{subst}
use fire2api.Base.{
  ◌+◌, ◌*◌, ◌<◌, ◌≡◌, sym, ap, ◌∙◌, false, List, [], ◌∷◌, ◌++◌, ◌==◌, nat_eq, string_eq, list_eq,
  All,
}
use fire2api.Idempotency.{Table, begin, is_valid_key, next_id, purge, hour}
use fire2api.Idempotency.Guard.{Step, completes, run, Spares}
use fire2api.Idempotency.Lifecycle.{begin_once}
use fire2api.Route.{Run, done, Query, Call, Around, is_get, read_body, record_request, endpoint}
use fire2api.Route.Calls.{
  ran, run-append, All-append, begun_facts, read_body-ran, body-Began, body-refused,
}

module _ {O : Type 0} (c : Around O) (q : Query O) where
  -- On a route that is no GET, a call with an Idempotency-Key that was answered 200 is never run
  -- again: whatever other requests do to the records while it runs and afterwards, its own record
  -- (the id behind the greatest that is left once those of ended keys are deleted) not given up, a
  -- second call of the same key and access key before the record ends is
  -- answered without running the statement, whatever its body and parameters are.
  pub endpoint_once :
      (t : Table) (call again : Call O) (meanwhile later others : List Step) (r r' : Run)
      → is_get q.method ≡ false
      → (call.idempotency_key == []) ≡ false
      → again.access_key_id ≡ call.access_key_id
      → again.idempotency_key ≡ call.idempotency_key
      → All
          (Spares c.sha256 c.ttl_hours
            (next_id (purge call.now t.rows))
            (call.now + c.ttl_hours * hour))
          meanwhile
      → All
          (Spares c.sha256 c.ttl_hours
            (next_id (purge call.now t.rows))
            (call.now + c.ttl_hours * hour))
          later
      → again.now < call.now + c.ttl_hours * hour
      → (endpoint c t q call meanwhile r).1 ≡ done
      → ran
          (endpoint c
            (run c.sha256 c.ttl_hours (endpoint c t q call meanwhile r).0 later)
            q
            again
            others
            r').1
        ≡ false
  unfolding endpoint
  endpoint_once t call again meanwhile later others r r' post keyed same_caller same_key sm sl early
        is_done =
      let (bound, id, h, e, b, same) =
        body-Began c q call post keyed t (read_body q.method call.body) meanwhile r
          (read_body-ran q.method call.body) is_done in
      let req = record_request c q call bound in
      let (valid, next) = begun_facts c.sha256 c.ttl_hours t req id b in
      let after = (begin c.sha256 c.ttl_hours t req).0 in
      let steps = meanwhile ++ completes id h e ∷ later in
      let tables =
        ap (λ x. run c.sha256 c.ttl_hours x later) same
        ∙ sym (run-append c.sha256 c.ttl_hours meanwhile (completes id h e ∷ later) after) in
      let spares : All (Spares c.sha256 c.ttl_hours id (call.now + c.ttl_hours * hour)) steps =
        subst (λ i. All (Spares c.sha256 c.ttl_hours i (call.now + c.ttl_hours * hour)) steps)
          (sym next)
          (All-append c.sha256 c.ttl_hours (next_id (purge call.now t.rows))
            (call.now + c.ttl_hours * hour) meanwhile (completes id h e ∷ later) sm (tt, sl)) in
      body-refused c q again post (ap (λ k. k == []) same_key ∙ keyed) _
        (read_body q.method again.body) others r' (read_body-ran q.method again.body)
        (λ bound'.
          let (k, is) =
            begin_once c.sha256 c.ttl_hours t req (record_request c q again bound') id steps b
              spares
              (ap (λ a. (a, (q.method, (q.route_path, c.sha256 again.idempotency_key)))) same_caller
                ∙ ap (λ x. (call.access_key_id, (q.method, (q.route_path, c.sha256 x)))) same_key)
              (ap is_valid_key same_key ∙ valid) early in
          (
            k,
            ap (λ x. (begin c.sha256 c.ttl_hours x (record_request c q again bound')).1) tables
                ∙ is,
          ))
