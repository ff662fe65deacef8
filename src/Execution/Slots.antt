-- ===== src/Execution/Slots.antt =====
-- The two semaphores of `ExecutionService._acquire` and `_release`. Coroutines run one at a time
-- between their `await`s, so the executions interleave as a sequence of events; a semaphore's wait
-- may end by its timeout at any time, and succeeds only while the semaphore has a free place.
pub mod Balance
pub mod Invariant
use fire2api.Base.{
  ℕ, zero, suc, ◌+◌, ◌-◌, ◌≡◌, String, Bool, true, false, ◌&&◌, ◌||◌, not, List, [], ◌∷◌, Option,
  none, some, ltb, ◌==◌, string_eq, if◌then◌else◌, Dict, get, put, keep_if, length,
}

-- Where a call of `execute` stands: before `_acquire`, at its two waits, with its slots
-- (`context.slots`), without them after `_acquire` returned false, and after `_release`.
pub data Phase : Type 0 where
  starting wait_global wait_owner running refused released : Phase

pub record Task : Type 0 where
  pub owner_hash : String
  pub phase : Phase

-- `global_sem`, `owner_sems` and the executions.
pub record Slots : Type 0 where
  pub global_free : ℕ
  pub owner_free : Dict String ℕ
  pub tasks : List Task

-- `query_max_concurrency_global` and `query_max_concurrency_per_token`.
pub record Capacity : Type 0 where
  pub global : ℕ
  pub per_token : ℕ

-- What happens next to an execution: `setdefault` of its semaphore, a wait that succeeds or times
-- out, the end of its future.
pub data Event : Type 0 where
  enter global_acquired global_timeout owner_acquired owner_timeout done : Event

abbrev pub get_elem? : List Task → ℕ → Option Task
get_elem? [] i = none
get_elem? (t ∷ ts) zero = some t
get_elem? (t ∷ ts) (suc i) = get_elem? ts i

abbrev pub set : List Task → ℕ → Task → List Task
set [] i v = []
set (t ∷ ts) zero v = v ∷ ts
set (t ∷ ts) (suc i) v = t ∷ set ts i v

abbrev pub move : Slots → ℕ → Task → Phase → Slots
move s i t p = record s { tasks = set s.tasks i (record t { phase = p }) }

-- `self.owner_sems.setdefault(owner, Semaphore(n))`.
abbrev pub set_default : Dict String ℕ → String → ℕ → Dict String ℕ
set_default d o n = elim (get d o) [ none ↦ put d o n | some m ↦ d ]

-- `self.owner_sems.get(owner)`, and `release` of it if it is there.
abbrev pub release_owner : Dict String ℕ → String → Dict String ℕ
release_owner d o = elim (get d o) [ none ↦ d | some n ↦ put d o (n + 1) ]

-- `owner_sem.acquire()`, if a place is free.
abbrev pub acquire_owner : Slots → ℕ → Task → Option ℕ → Option Slots
acquire_owner s i t none = none
acquire_owner s i t (some zero) = none
acquire_owner s i t (some (suc n)) =
    some (record (move s i t running) { owner_free = put s.owner_free t.owner_hash n })

abbrev pub acquire_global : Slots → ℕ → Task → ℕ → Option Slots
acquire_global s i t zero = none
acquire_global s i t (suc n) = some (record (move s i t wait_owner) { global_free = n })

-- One event of one execution; `none` where it cannot happen.
unfoldable pub step_task : Capacity → Slots → ℕ → Task → Phase → Event → Option Slots
step_task c s i t starting enter = some (record (move s i t wait_global) {
  owner_free = set_default s.owner_free t.owner_hash c.per_token;
})
step_task c s i t wait_global global_acquired = acquire_global s i t s.global_free
step_task c s i t wait_global global_timeout = some (move s i t refused)
step_task c s i t wait_owner owner_acquired = acquire_owner s i t (get s.owner_free t.owner_hash)
step_task c s i t wait_owner owner_timeout =
    some (record (move s i t refused) { global_free = s.global_free + 1 })
step_task c s i t running done = some (record (move s i t released) {
  global_free = s.global_free + 1;
  owner_free = release_owner s.owner_free t.owner_hash;
})
step_task c s i t _ _ = none

abbrev pub step_at : Capacity → Slots → ℕ → Event → Option Task → Option Slots
step_at c s i e none = none
step_at c s i e (some t) = step_task c s i t t.phase e

unfoldable pub step : Capacity → Slots → ℕ × Event → Option Slots
unfolding step_task
step c s (i, e) = step_at c s i e (get_elem? s.tasks i)

-- A schedule: events that cannot happen are passed over.
abbrev pub or_same : Slots → Option Slots → Slots
or_same s none = s
or_same s (some t) = t

unfoldable pub run : Capacity → Slots → List (ℕ × Event) → Slots
unfolding step
run c s [] = s
run c s (e ∷ es) = run c (or_same s (step c s e)) es

abbrev pub starts : List String → List Task
starts [] = []
starts (o ∷ os) = record { owner_hash = o; phase = starting } ∷ starts os

-- The service after `startup`, with executions of these owners to come.
abbrev pub initial : Capacity → List String → Slots
initial c owners = record { global_free = c.global; owner_free = []; tasks = starts owners }
