-- ===== src/Catalog/Consistent.antt =====
-- The state of the tables that their constraints keep: keys and ids of the routes differ, and each
-- parameter belongs to a route.
pub mod Writes
pub mod Owners
pub mod Saves
pub mod Calls
pub mod Runs
use fire2api.Base.{
  any-append, any-keep_if, ℕ, pos, zero, suc, ◌+◌, ◌≡◌, ◌≢◌, ◌<◌, ◌≤◌, ◌⊎◌, inl, inr, refl, sym, ap,
  ◌∙◌, Bool, true, false, ◌&&◌, ◌||◌, not, List, [], ◌∷◌, ◌++◌, Option, none, some, ◌==◌, nat_eq,
  list_eq, pair_eq, if◌then◌else◌, keep_if, any, all, All, All-append, arith, Bool-cases,
  nat_beq_iff, ==-refl, ==-false-sym,
}
use fire2api.Text.{Text, Unicode, upper}
use fire2api.Catalog.{
  Route, Parameter, Tables, RouteData, Created, created, refused, taken, Updated, updated,
  not_valid, key_taken, insert_route, update_route, has_key, has_id, has_other, key_of, new_route,
  update_rows, with_data,
}
use fire2api.Catalog.Routes.{normalize_route_path}

-- The keys of the routes differ, and so do their ids.
abbrev pub IsKeyed : List Route → Type 0
IsKeyed [] = Unit
IsKeyed (r ∷ rs) = (has_key (key_of r) rs ≡ false) × (has_id r.id rs ≡ false) × IsKeyed rs

abbrev pub IsOwned : List Route → Parameter → Type 0
IsOwned rs p = has_id p.query_id rs ≡ true

pub record IsConsistent (t : Tables) : Type 0 where
  pub keyed : IsKeyed t.queries
  pub fresh : All (λ r. r.id < t.next_query) t.queries
  pub owned : All (IsOwned t.queries) t.parameters

pub IsKeyed-append :
    (rs : List Route) (r : Route)
    → IsKeyed rs
    → has_key (key_of r) rs ≡ false
    → has_id r.id rs ≡ false
    → IsKeyed (rs ++ r ∷ [])
IsKeyed-append [] r w k i = (refl, refl, tt)
IsKeyed-append (q ∷ rs) r w k i = (
  any-append (λ p. key_of p == key_of q) rs r
      ∙ neither _ _ w.0 (==-false-sym (key_of q) (key_of r) (first _ _ k)),
  any-append (λ p. p.id == q.id) rs r ∙ neither _ _ w.1 (==-false-sym (q.id) (r.id) (first _ _ i)),
  IsKeyed-append rs r w.2 (rest _ _ k) (rest _ _ i),
)
  where
    neither : (a b : Bool) → a ≡ false → b ≡ false → (a || b) ≡ false
    neither a b x y = ground arith

    first : (a b : Bool) → (a || b) ≡ false → a ≡ false
    first a b x = ground arith

    rest : (a b : Bool) → (a || b) ≡ false → b ≡ false
    rest a b x = ground arith

pub IsKeyed-keep_if : (g : Route → Bool) (rs : List Route) → IsKeyed rs → IsKeyed (keep_if g rs)
IsKeyed-keep_if g [] w = tt
IsKeyed-keep_if g (r ∷ rs) w = elim (Bool-cases (g r)) [
  | inl kept ↦ rw kept (any-keep_if _ g rs w.0, any-keep_if _ g rs w.1, IsKeyed-keep_if g rs w.2)
  | inr gone ↦ rw gone (IsKeyed-keep_if g rs w.2)
]

-- An id that is not given yet.
pub has_id-fresh : (n : ℕ) (rs : List Route) → All (λ r. r.id < n) rs → has_id n rs ≡ false
has_id-fresh n [] h = refl
has_id-fresh n (r ∷ rs) h = apart r.id n h.0 (has_id n rs) (has_id-fresh n rs h.1)
  where
    apart : (a b : ℕ) → a < b → (c : Bool) → c ≡ false → (a == b || c) ≡ false
    apart a b l c x = ground arith
