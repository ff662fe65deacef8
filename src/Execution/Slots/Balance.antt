-- ===== src/Execution/Slots/Balance.antt =====
-- The counts of executions in a phase, and an owner's balance of places under each move.
use fire2api.Base.{
  ℕ, zero, suc, ◌+◌, ◌≤◌, ◌≡◌, sym, ap, ◌∙◌, String, Bool, true, false, ◌&&◌, List, [], ◌∷◌, Option,
  none, some, ◌==◌, string_eq, Dict, get, put, get-put, arith, Bool-cases, Option-cases, inl, inr,
}
use text.Mathlib.TextEquality.{eq_iff}
use fire2api.Execution.Slots.{
  Phase, starting, wait_owner, running, Task, Slots, Capacity, get_elem?, set, set_default,
  release_owner,
}

abbrev pub number : Bool → ℕ
number true = 1
number false = 0

-- How many executions pass a test.
abbrev pub count : (Task → Bool) → List Task → ℕ
count p [] = 0
count p (t ∷ ts) = number (p t) + count p ts

abbrev pub is_running : Phase → Bool
is_running running = true
is_running _ = false

abbrev pub holds : Phase → Bool
holds wait_owner = true
holds running = true
holds _ = false

abbrev pub has_entered : Phase → Bool
has_entered starting = false
has_entered _ = true

abbrev pub holds_global : Task → Bool
holds_global t = holds t.phase

abbrev pub runs : Task → Bool
runs t = is_running t.phase

abbrev pub runs_of : String → Task → Bool
runs_of o t = is_running t.phase && t.owner_hash == o

abbrev pub entered_of : String → Task → Bool
entered_of o t = has_entered t.phase && t.owner_hash == o

pub count-set :
    (p : Task → Bool) (ts : List Task) (i : ℕ) (t v : Task)
    → get_elem? ts i ≡ some t
    → count p (set ts i v) + number (p t) ≡ count p ts + number (p v)
count-set p [] i t v e = cc
count-set p (u ∷ ts) zero t v e = ground arith
count-set p (u ∷ ts) (suc i) t v e = omega (arith, count-set p ts i t v e)

-- The places of an owner's semaphore: free and taken make the limit; before the semaphore is
-- made, no execution of the owner has entered.
abbrev pub OwnerBalance : Capacity → String → Option ℕ → List Task → Type 0
OwnerBalance c o none ts = count (entered_of o) ts ≡ 0
OwnerBalance c o (some free) ts = free + count (runs_of o) ts ≡ c.per_token

pub runs-le-entered : (o : String) (ts : List Task) → count (runs_of o) ts ≤ count (entered_of o) ts
runs-le-entered o [] = omega arith
runs-le-entered o (t ∷ ts) = omega (arith, once t.phase (t.owner_hash == o), runs-le-entered o ts)
  where
    once : (p : Phase) (b : Bool) → number (is_running p && b) ≤ number (has_entered p && b)
    once running b = ground arith
    once _ b = ground arith

-- What one move of execution `i` does to the counts.
module _ (s : Slots) (i : ℕ) (t : Task) (q : Phase) (et : get_elem? s.tasks i ≡ some t) where
  pub moved_runs :
      (o : String)
      → count (runs_of o) (set s.tasks i (record t { phase = q })) + number (runs_of o t)
        ≡ count (runs_of o) s.tasks + number (is_running q && t.owner_hash == o)
  moved_runs o = count-set (runs_of o) s.tasks i t (record t { phase = q }) et

  pub moved_entered :
      (o : String)
      → count (entered_of o) (set s.tasks i (record t { phase = q })) + number (entered_of o t)
        ≡ count (entered_of o) s.tasks + number (has_entered q && t.owner_hash == o)
  moved_entered o = count-set (entered_of o) s.tasks i t (record t { phase = q }) et

  pub moved_holds :
      count holds_global (set s.tasks i (record t { phase = q })) + number (holds t.phase)
      ≡ count holds_global s.tasks + number (holds q)
  moved_holds = count-set holds_global s.tasks i t (record t { phase = q }) et

-- An owner whose semaphore and counts stay as they are.
pub keeps :
    (c : Capacity) (o : String) (g : Option ℕ) (ts ts' : List Task)
    → count (runs_of o) ts' ≡ count (runs_of o) ts
    → count (entered_of o) ts' ≡ count (entered_of o) ts
    → OwnerBalance c o g ts
    → OwnerBalance c o g ts'
keeps c o none ts ts' r e b = e ∙ b
keeps c o (some n) ts ts' r e b = omega arith

abbrev pub Holds : (Slots → Type 0) → Option Slots → Type 0
Holds P none = Unit
Holds P (some s) = P s

pub here : (d : Dict String ℕ) (k o : String) → (k == o) ≡ true → get d o ≡ get d k
here d k o same = ap (get d) (sym ((eq_iff k o).0 same))

-- The owner's side of a first event: its semaphore is there from then on.
pub enters :
    (c : Capacity) (d : Dict String ℕ) (k o : String) (ts ts' : List Task)
    → count (runs_of o) ts' ≡ count (runs_of o) ts
    → ((k == o) ≡ false → count (entered_of o) ts' ≡ count (entered_of o) ts)
    → OwnerBalance c o (get d o) ts
    → OwnerBalance c o (get (set_default d k c.per_token) o) ts'
enters c d k o ts ts' r e b = elim (Bool-cases (k == o)) [
  | inr other ↦ elim (Option-cases (get d k)) [
    | inl absent ↦
        rw (absent, set_default) (rw get-put (rw other (keeps c o (get d o) ts ts' r (e other) b)))
    | inr (n, present) ↦ rw (present, set_default) (keeps c o (get d o) ts ts' r (e other) b)
  ]
  | inl same ↦ elim (Option-cases (get d k)) [
    | inl absent ↦
        let none_entered = rw (here d k o same ∙ absent) at b in
        rw (absent, set_default) (rw get-put (rw same (omega (arith, runs-le-entered o ts))))
    | inr (n, present) ↦
        let balance = rw (here d k o same ∙ present) at b in
        rw (present, set_default) (rw (here d k o same ∙ present) (omega arith))
  ]
]

-- The owner's side of a release: one place more, one execution less.
pub releases :
    (c : Capacity) (d : Dict String ℕ) (k o : String) (ts ts' : List Task)
    → count (runs_of o) ts' + number (k == o) ≡ count (runs_of o) ts
    → count (entered_of o) ts' ≡ count (entered_of o) ts
    → OwnerBalance c o (get d o) ts
    → OwnerBalance c o (get (release_owner d k) o) ts'
releases c d k o ts ts' r e b = elim (Bool-cases (k == o)) [
  | inr other ↦
      let r' = rw other at r in
      elim (Option-cases (get d k)) [
        | inl absent ↦ rw (absent, release_owner) (keeps c o (get d o) ts ts' (omega arith) e b)
        | inr (n, present) ↦
            rw (present, release_owner)
              (rw get-put (rw other (keeps c o (get d o) ts ts' (omega arith) e b)))
      ]
  | inl same ↦
      let r' = rw same at r in
      elim (Option-cases (get d k)) [
        | inl absent ↦
            let none_entered = rw (here d k o same ∙ absent) at b in
            rw (absent, release_owner) (rw (here d k o same ∙ absent) (omega arith))
        | inr (n, present) ↦
            let balance = rw (here d k o same ∙ present) at b in
            rw (present, release_owner) (rw get-put (rw same (omega arith)))
      ]
]

-- The owner's side of an acquired place: one place less, one execution more.
pub takes :
    (c : Capacity) (d : Dict String ℕ) (k o : String) (n : ℕ) (ts ts' : List Task)
    → get d k ≡ some (suc n)
    → count (runs_of o) ts' ≡ count (runs_of o) ts + number (k == o)
    → count (entered_of o) ts' ≡ count (entered_of o) ts
    → OwnerBalance c o (get d o) ts
    → OwnerBalance c o (get (put d k n) o) ts'
takes c d k o n ts ts' present r e b = elim (Bool-cases (k == o)) [
  | inr other ↦
      let r' = rw other at r in rw get-put (rw other (keeps c o (get d o) ts ts' (omega arith) e b))
  | inl same ↦
      let r' = rw same at r in
      let balance = rw (here d k o same ∙ present) at b in rw get-put (rw same (omega arith))
]
