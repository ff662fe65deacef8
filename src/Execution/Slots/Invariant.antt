-- ===== src/Execution/Slots/Invariant.antt =====
-- No semaphore place is lost or made up, whatever the interleaving.
use fire2api.Base.{
  ℕ, zero, suc, ◌+◌, ◌≤◌, ◌≡◌, refl, String, Bool, false, List, [], ◌∷◌, Option, none, some,
  string_eq, get, arith,
}
use fire2api.Execution.Slots.{
  Phase, starting, wait_global, wait_owner, running, refused, released, Task, Slots, Capacity,
  Event, enter, global_acquired, global_timeout, owner_acquired, owner_timeout, done, get_elem?,
  acquire_owner, acquire_global, step_task, step_at, step, or_same, run, starts, initial,
}
use fire2api.Execution.Slots.Balance.{
  number, count, is_running, holds, holds_global, runs, runs_of, entered_of, OwnerBalance,
  runs-le-entered, moved_runs, moved_entered, moved_holds, keeps, Holds, enters, releases, takes,
}

record IsBalanced (c : Capacity) (s : Slots) : Type 0 where
  global : s.global_free + count holds_global s.tasks ≡ c.global
  owners : (o : String) → OwnerBalance c o (get s.owner_free o) s.tasks

acquire_owner-IsBalanced :
    (c : Capacity) (s : Slots) (i : ℕ) (t : Task) (g : Option ℕ)
    → get s.owner_free t.owner_hash ≡ g
    → t.phase ≡ wait_owner
    → get_elem? s.tasks i ≡ some t
    → IsBalanced c s
    → Holds (IsBalanced c) (acquire_owner s i t g)
acquire_owner-IsBalanced c s i t none eg ep et b = tt
acquire_owner-IsBalanced c s i t (some zero) eg ep et b = tt
acquire_owner-IsBalanced c s i t (some (suc n)) eg ep et b = record {
  global = ground (arith, moved_holds s i t running et, b.global);
  owners = λ o.
      takes c s.owner_free t.owner_hash o n s.tasks _ eg
        (ground (arith, moved_runs s i t running et o))
        (ground (arith, moved_entered s i t running et o)) (b.owners o);
}

acquire_global-IsBalanced :
    (c : Capacity) (s : Slots) (i : ℕ) (t : Task) (n : ℕ)
    → s.global_free ≡ n
    → t.phase ≡ wait_global
    → get_elem? s.tasks i ≡ some t
    → IsBalanced c s
    → Holds (IsBalanced c) (acquire_global s i t n)
acquire_global-IsBalanced c s i t zero eg ep et b = tt
acquire_global-IsBalanced c s i t (suc n) eg ep et b = record {
  global = ground (arith, moved_holds s i t wait_owner et, b.global);
  owners = λ o.
      keeps c o _ s.tasks _ (ground (arith, moved_runs s i t wait_owner et o))
        (ground (arith, moved_entered s i t wait_owner et o)) (b.owners o);
}

step_task-IsBalanced :
    (c : Capacity) (s : Slots) (i : ℕ) (t : Task) (p : Phase) (e : Event)
    → t.phase ≡ p
    → get_elem? s.tasks i ≡ some t
    → IsBalanced c s
    → Holds (IsBalanced c) (step_task c s i t p e)
unfolding step_task
step_task-IsBalanced c s i t starting enter ep et b = record {
  global = ground (arith, moved_holds s i t wait_global et, b.global);
  owners = λ o.
      enters c s.owner_free t.owner_hash o s.tasks _
        (ground (arith, moved_runs s i t wait_global et o))
        (λ ne. ground (arith, moved_entered s i t wait_global et o)) (b.owners o);
}
step_task-IsBalanced c s i t wait_global global_timeout ep et b = record {
  global = ground (arith, moved_holds s i t refused et, b.global);
  owners = λ o.
      keeps c o _ s.tasks _ (ground (arith, moved_runs s i t refused et o))
        (ground (arith, moved_entered s i t refused et o)) (b.owners o);
}
step_task-IsBalanced c s i t wait_global global_acquired ep et b =
    acquire_global-IsBalanced c s i t s.global_free refl ep et b
step_task-IsBalanced c s i t wait_owner owner_acquired ep et b =
    acquire_owner-IsBalanced c s i t (get s.owner_free t.owner_hash) refl ep et b
step_task-IsBalanced c s i t wait_owner owner_timeout ep et b = record {
  global = ground (arith, moved_holds s i t refused et, b.global);
  owners = λ o.
      keeps c o _ s.tasks _ (ground (arith, moved_runs s i t refused et o))
        (ground (arith, moved_entered s i t refused et o)) (b.owners o);
}
step_task-IsBalanced c s i t running done ep et b = record {
  global = ground (arith, moved_holds s i t released et, b.global);
  owners = λ o.
      releases c s.owner_free t.owner_hash o s.tasks _
        (ground (arith, moved_runs s i t released et o))
        (ground (arith, moved_entered s i t released et o)) (b.owners o);
}
step_task-IsBalanced c s i t _ _ ep et b = tt

step_at-IsBalanced :
    (c : Capacity) (s : Slots) (i : ℕ) (e : Event) (o : Option Task)
    → get_elem? s.tasks i ≡ o
    → IsBalanced c s
    → Holds (IsBalanced c) (step_at c s i e o)
step_at-IsBalanced c s i e none et b = tt
step_at-IsBalanced c s i e (some t) et b = step_task-IsBalanced c s i t t.phase e refl et b

or_same-IsBalanced :
    (c : Capacity) (s : Slots) (o : Option Slots)
    → IsBalanced c s
    → Holds (IsBalanced c) o
    → IsBalanced c (or_same s o)
or_same-IsBalanced c s none b h = b
or_same-IsBalanced c s (some t) b h = h

run-IsBalanced :
    (c : Capacity) (es : List (ℕ × Event)) (s : Slots) → IsBalanced c s → IsBalanced c (run c s es)
unfolding run
run-IsBalanced c [] s b = b
run-IsBalanced c ((i, e) ∷ es) s b = run-IsBalanced c es (or_same s (step c s (i, e))) (
    or_same-IsBalanced c s (step c s (i, e)) b
      (unfold step in step_at-IsBalanced c s i e (get_elem? s.tasks i) refl b))

none_yet :
    (q : Task → Bool) (os : List String)
    → ((o : String) → q (record { owner_hash = o; phase = starting }) ≡ false)
    → count q (starts os) ≡ 0
none_yet q [] h = refl
none_yet q (o ∷ os) h = rw (h o) (omega (arith, none_yet q os h))

initial-IsBalanced : (c : Capacity) (owners : List String) → IsBalanced c (initial c owners)
unfolding get
initial-IsBalanced c owners = record {
  global = omega (arith, none_yet holds_global owners (λ o. refl));
  owners = λ o. none_yet (entered_of o) owners (λ _. refl);
}

runs-le-holds : (ts : List Task) → count runs ts ≤ count holds_global ts
runs-le-holds [] = omega arith
runs-le-holds (t ∷ ts) = omega (arith, once t.phase, runs-le-holds ts)
  where
    once : (p : Phase) → number (is_running p) ≤ number (holds p)
    once running = omega arith
    once _ = omega arith

owner_bound :
    (c : Capacity) (o : String) (g : Option ℕ) (ts : List Task)
    → OwnerBalance c o g ts
    → count (runs_of o) ts ≤ c.per_token
owner_bound c o none ts b = omega (arith, runs-le-entered o ts)
owner_bound c o (some n) ts b = omega arith

-- Whatever executions come, and in whatever order they acquire, time out and end, at most the
-- global limit of them run at a time, and of any one owner at most the limit per token.
pub run-limits :
    (c : Capacity) (owners : List String) (es : List (ℕ × Event)) (o : String)
    → (count runs (run c (initial c owners) es).tasks ≤ c.global)
      × (count (runs_of o) (run c (initial c owners) es).tasks ≤ c.per_token)
run-limits c owners es o =
    let b = run-IsBalanced c es (initial c owners) (initial-IsBalanced c owners) in
    let s = run c (initial c owners) es in
    (
      omega (arith, b.global, runs-le-holds s.tasks),
      owner_bound c o (get s.owner_free o) s.tasks (b.owners o),
    )

-- When no execution waits for its owner's semaphore or runs, every global place is free again:
-- no timeout, refusal or end loses one or gives one back twice.
pub run-returns :
    (c : Capacity) (owners : List String) (es : List (ℕ × Event))
    → count holds_global (run c (initial c owners) es).tasks ≡ 0
    → (run c (initial c owners) es).global_free ≡ c.global
run-returns c owners es none_left =
    let b = run-IsBalanced c es (initial c owners) (initial-IsBalanced c owners) in
    omega (arith, b.global)
