-- ===== src/Idempotency/Lifecycle.antt =====
-- What a caller sees of an Idempotency-Key from `begin` to `complete` or `abandon`.
use fire2api.Base.{
  ℕ, ◌+◌, ◌*◌, ◌≡◌, ◌<◌, refl, ap, ◌∙◌, String, Bool, true, false, not, List, [], ◌∷◌, ◌++◌, Option,
  none, some, leb, ◌==◌, nat_eq, string_eq, pair_eq, if◌then◌else◌, keep_if, arith, All, Bool-cases,
  inl, inr, ==-refl,
}
use fire2api.Text.{Text}
use fire2api.Idempotency.{
  running, Scope, Entry, Table, begun, bad_key, conflict, Conflict, different_payload,
  already_processed, conflict_with, find, is_valid_key, purge, next_id, decide, Request, scope_of,
  hour, begin, selects, complete, abandon,
}
use fire2api.Idempotency.Guard.{
  Step, IsGuarded, Spares, run, find-new, find-keep_if, run-IsGuarded, find-complete_rows, changed,
}

find-keep_if-none :
    (p : Entry → Bool) (s : Scope) (rs : List Entry)
    → find s rs ≡ none
    → find s (keep_if p rs) ≡ none
find-keep_if-none p s [] e = refl
find-keep_if-none p s (q ∷ rs) e = elim (Bool-cases (q.scope == s)) [
  | inl same ↦ absurd (some_not_none (rw same at e))
  | inr other ↦ ground (arith, find-keep_if-none p s rs (rw other at e))
]
  where
    some_not_none : {a : Entry} → some a ≡ none → ⊥
    some_not_none h = cc

keep_if-drop_last :
    (p : Entry → Bool) (rs : List Entry) (r : Entry)
    → p r ≡ false
    → keep_if p (rs ++ r ∷ []) ≡ keep_if p rs
keep_if-drop_last p [] r h = rw h
keep_if-drop_last p (q ∷ rs) r h = ground (arith, keep_if-drop_last p rs r h)

-- The record that `begin` inserts.
abbrev fresh : ℕ → Scope → String → ℕ → Entry
fresh id s request expires = record {
  id = id;
  scope = s;
  request_hash = request;
  response_hash = none;
  execution_id = none;
  status = running;
  expires_at = expires;
}

selects-fresh :
    (id : ℕ) (s : Scope) (request : String) (expires : ℕ)
    → selects id (fresh id s request expires) ≡ true
selects-fresh id s request expires = rw (==-refl id)

record IsFresh (t u : Table) (s : Scope) (request : String) (now expires id : ℕ) : Type 0 where
  unseen : find s (purge now t.rows) ≡ none
  numbered : next_id (purge now t.rows) ≡ id
  added : u.rows ≡ purge now t.rows ++ fresh id s request expires ∷ []

decide-IsFresh :
    (t : Table) (s : Scope) (request : String) (now expires id : ℕ) (o : Option Entry)
    → find s (purge now t.rows) ≡ o
    → (decide t s request expires (purge now t.rows) o).1 ≡ begun id
    → IsFresh t (decide t s request expires (purge now t.rows) o).0 s request now expires id
decide-IsFresh t s request now expires id (some r) e h = cc
decide-IsFresh t s request now expires id none e h =
    let same : next_id (purge now t.rows) ≡ id = begun_id h in
    record {
      unseen = e;
      numbered = same;
      added = ap (λ i. purge now t.rows ++ fresh i s request expires ∷ []) same;
    }
  where
    begun_id : {a b : ℕ} → begun a ≡ begun b → a ≡ b
    begun_id x = cc

module _ (sha256 : Text → String) (ttl_hours : ℕ) where
  abbrev pub end_of : Request → ℕ
  end_of q = q.now + ttl_hours * hour

  begin-IsFresh :
      (t : Table) (q : Request) (id : ℕ)
      → (begin sha256 ttl_hours t q).1 ≡ begun id
      → IsFresh t
          (begin sha256 ttl_hours t q).0
          (scope_of sha256 ttl_hours q)
          q.request_hash
          q.now
          (end_of q)
          id
  unfolding begin
  begin-IsFresh t q id h = elim (Bool-cases (is_valid_key q.idempotency_key)) [
    | inl good ↦ rw good (
        decide-IsFresh t (scope_of sha256 ttl_hours q) q.request_hash q.now (end_of q) id _ refl
          (rw good at h))
    | inr bad ↦ absurd (bad_not_begun (rw bad at h))
  ]
    where
      bad_not_begun : bad_key ≡ begun id → ⊥
      bad_not_begun x = cc

  -- The record of a begun key is there.
  fresh_found :
      (t u : Table) (s : Scope) (request : String) (now expires id : ℕ)
      → IsFresh t u s request now expires id
      → find s u.rows ≡ some (fresh id s request expires)
  fresh_found t u s request now expires id f =
      rw f.added (find-new s (purge now t.rows) _ f.unseen (==-refl s))

  begin_found :
      (t : Table) (q : Request) (r : Entry)
      → find (scope_of sha256 ttl_hours q) t.rows ≡ some r
      → q.now < r.expires_at
      → is_valid_key q.idempotency_key ≡ true
      → (begin sha256 ttl_hours t q).1 ≡ conflict (conflict_with r q.request_hash)
  unfolding begin
  begin_found t q r e lt good = rw good (
      rw
        (find-keep_if (λ x. not (leb x.expires_at q.now)) (scope_of sha256 ttl_hours q) t.rows r e
          (ground arith))
        refl)

  -- A key that has begun an execution begins no second one: whatever other requests begin before
  -- its record ends, and whatever records but its own are abandoned and any completed, in the
  -- meantime, a request with a valid key of the same scope (caller, method, path and hash of the
  -- key) is refused with a conflict until the record ends.
  pub begin_once :
      (t : Table) (q again : Request) (id : ℕ) (steps : List Step)
      → (begin sha256 ttl_hours t q).1 ≡ begun id
      → All (Spares sha256 ttl_hours id (end_of q)) steps
      → scope_of sha256 ttl_hours again ≡ scope_of sha256 ttl_hours q
      → is_valid_key again.idempotency_key ≡ true
      → again.now < end_of q
      → (c : Conflict) × ((begin sha256 ttl_hours
            (run sha256 ttl_hours (begin sha256 ttl_hours t q).0 steps)
            again).1
          ≡ conflict c)
  begin_once t q again id steps h spare same good early =
      let s = scope_of sha256 ttl_hours q in
      let f = begin-IsFresh t q id h in
      let g : IsGuarded s id (end_of q) (begin sha256 ttl_hours t q).0 = record {
        entry = fresh id s q.request_hash (end_of q);
        found = fresh_found t _ s q.request_hash q.now (end_of q) id f;
        same_id = refl;
        same_end = refl;
      } in
      let later = run-IsGuarded sha256 ttl_hours s id (end_of q) steps _ spare g in
      (
        conflict_with later.entry again.request_hash,
        begin_found _ again later.entry (rw same later.found) (rw later.same_end early) good,
      )

  -- The answer to a key whose execution has been completed, to a request with a valid key before
  -- the record ends: a conflict that says so for the same payload, and that the payload differs
  -- for another.
  pub begin_completed :
      (t : Table) (q again : Request) (id : ℕ) (response execution : String)
      → (begin sha256 ttl_hours t q).1 ≡ begun id
      → scope_of sha256 ttl_hours again ≡ scope_of sha256 ttl_hours q
      → is_valid_key again.idempotency_key ≡ true
      → again.now < end_of q
      → (begin sha256 ttl_hours
          (complete (begin sha256 ttl_hours t q).0 id response execution).0
          again).1
        ≡ conflict
            (if q.request_hash == again.request_hash then already_processed else different_payload)
  begin_completed t q again id response execution h same good early =
      let s = scope_of sha256 ttl_hours q in
      let f = begin-IsFresh t q id h in
      let found =
        find-complete_rows id response execution s (begin sha256 ttl_hours t q).0.rows _
          (fresh_found t _ s q.request_hash q.now (end_of q) id f) in
      let r = fresh id s q.request_hash (end_of q) in
      begin_found (complete (begin sha256 ttl_hours t q).0 id response execution).0 again
        (changed id response execution r) (unfold complete in rw same found)
        (rw (selects-fresh id s q.request_hash (end_of q)) early) good
      ∙ rw (selects-fresh id s q.request_hash (end_of q)) (ground arith)

  -- Giving up the record that a request began frees its key: the next request with it, a valid key
  -- as before, of any payload and at any time, begins anew, with whatever
  -- id it then gets, which may be the same.
  pub abandon_reopens :
      (t : Table) (q again : Request) (id : ℕ)
      → (begin sha256 ttl_hours t q).1 ≡ begun id
      → scope_of sha256 ttl_hours again ≡ scope_of sha256 ttl_hours q
      → is_valid_key again.idempotency_key ≡ true
      → (id' : ℕ) × ((begin sha256 ttl_hours (abandon (begin sha256 ttl_hours t q).0 id) again).1
          ≡ begun id')
  unfolding abandon
  abandon_reopens t q again id h same good =
      let s = scope_of sha256 ttl_hours q in
      let f = begin-IsFresh t q id h in
      let rows = (begin sha256 ttl_hours t q).0.rows in
      let given_up : find s (keep_if (λ r. not (selects id r)) rows) ≡ none = rw f.added (
        rw
          (keep_if-drop_last (λ r. not (selects id r)) (purge q.now t.rows)
            (fresh id s q.request_hash (end_of q))
            (ap not (selects-fresh id s q.request_hash (end_of q))))
          (find-keep_if-none _ s (purge q.now t.rows) f.unseen)) in
      let u = abandon (begin sha256 ttl_hours t q).0 id in
      (
        next_id (purge again.now u.rows),
        unfold begin in
            rw good (
              rw same
                (rw (find-keep_if-none (λ r. not (leb r.expires_at again.now)) s _ given_up) refl)),
      )
