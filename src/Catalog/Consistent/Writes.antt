-- ===== src/Catalog/Consistent/Writes.antt =====
-- The insertion and the update of a route on consistent tables.
use fire2api.Base.{
  any-append, ℕ, ◌+◌, ◌≡◌, ◌<◌, ◌⊎◌, inl, inr, refl, sym, ap, ◌∙◌, Bool, true, false, ◌&&◌, ◌||◌,
  not, List, [], ◌∷◌, ◌++◌, ◌==◌, nat_eq, list_eq, pair_eq, All, All-append, arith, Bool-cases,
  nat_beq_iff, ==-false-sym,
}
use fire2api.Text.{Text, Unicode}
use fire2api.Catalog.{
  Route, Parameter, Tables, RouteData, insert_route, update_route, has_key, has_id, has_other,
  key_of, new_route, update_rows,
}
use fire2api.Catalog.Consistent.{IsKeyed, IsOwned, IsConsistent, IsKeyed-append, has_id-fresh}

module _ (u : Unicode) (d : RouteData) where
  pub has_id-update_rows :
      (id n : ℕ) (rs : List Route) → has_id n (update_rows u d id rs) ≡ has_id n rs
  has_id-update_rows id n [] = refl
  has_id-update_rows id n (r ∷ rs) = elim (Bool-cases (r.id == id)) [
    | inl own ↦ rw own (ap (λ b. r.id == n || b) (has_id-update_rows id n rs))
    | inr other ↦ rw other (ap (λ b. r.id == n || b) (has_id-update_rows id n rs))
  ]

  pub All-update_rows :
      (id n : ℕ) (rs : List Route)
      → All (λ r. r.id < n) rs
      → All (λ r. r.id < n) (update_rows u d id rs)
  All-update_rows id n [] h = tt
  All-update_rows id n (r ∷ rs) h = elim (Bool-cases (r.id == id)) [
    | inl own ↦ rw own (h.0, All-update_rows id n rs h.1)
    | inr other ↦ rw other (h.0, All-update_rows id n rs h.1)
  ]

  -- A key that neither the row to come nor a present one has.
  has_key-update_rows :
      (id : ℕ) (k : Text × Text) (rs : List Route)
      → (key_of (new_route u d id) == k) ≡ false
      → has_key k rs ≡ false
      → has_key k (update_rows u d id rs) ≡ false
  has_key-update_rows id k [] new h = refl
  has_key-update_rows id k (r ∷ rs) new h = elim (Bool-cases (r.id == id)) [
    | inl own ↦ rw own (neither _ _ new (has_key-update_rows id k rs new (rest _ _ h)))
    | inr other ↦
        rw other (neither _ _ (first _ _ h) (has_key-update_rows id k rs new (rest _ _ h)))
  ]
    where
      neither : (a b : Bool) → a ≡ false → b ≡ false → (a || b) ≡ false
      neither a b x y = ground arith

      first : (a b : Bool) → (a || b) ≡ false → a ≡ false
      first a b x = ground arith

      rest : (a b : Bool) → (a || b) ≡ false → b ≡ false
      rest a b x = ground arith

  -- Where the id is missing, an update changes nothing.
  update_rows-missing :
      (id : ℕ) (rs : List Route)
      → has_id id rs ≡ false
      → (update_rows u d id rs ≡ rs)
        × (has_key (key_of (new_route u d id)) rs ≡ has_other id (key_of (new_route u d id)) rs)
  update_rows-missing id [] h = (refl, refl)
  update_rows-missing id (r ∷ rs) h =
      let later = update_rows-missing id rs (rest _ _ h) in
      rw (first (r.id == id) (has_id id rs) h)
        (ap (◌∷◌ r) later.0, ap (λ b. key_of r == key_of (new_route u d id) || b) later.1)
    where
      first : (a b : Bool) → (a || b) ≡ false → a ≡ false
      first a b x = ground arith

      rest : (a b : Bool) → (a || b) ≡ false → b ≡ false
      rest a b x = ground arith

  pub IsKeyed-update_rows :
      (id : ℕ) (rs : List Route)
      → IsKeyed rs
      → has_other id (key_of (new_route u d id)) rs ≡ false
      → IsKeyed (update_rows u d id rs)
  IsKeyed-update_rows id [] w o = tt
  IsKeyed-update_rows id (r ∷ rs) w o = elim (Bool-cases (r.id == id)) [
    | inl own ↦
        let missing =
          update_rows-missing id rs
            (sym (ap (λ n. has_id n rs) ((nat_beq_iff r.id id).0 own)) ∙ w.1) in
        rw own (rw missing.0 (missing.1 ∙ rest _ _ o, w.1, w.2))
    | inr other ↦ rw other (
      has_key-update_rows id (key_of r) rs
          (==-false-sym (key_of r) (key_of (new_route u d id)) (apart _ _ _ other o)) w.0,
      has_id-update_rows id r.id rs ∙ w.1,
      IsKeyed-update_rows id rs w.2 (rest _ _ o),
    )
  ]
    where
      rest : (a b : Bool) → (a || b) ≡ false → b ≡ false
      rest a b x = ground arith

      apart : (a b c : Bool) → a ≡ false → (not a && b || c) ≡ false → b ≡ false
      apart a b c x y = ground arith

  -- The two writes of a route.
  pub insert_route-IsConsistent :
      (t : Tables) → IsConsistent t → IsConsistent (insert_route u t d).0
  insert_route-IsConsistent t w =
      elim (Bool-cases (has_key (key_of (new_route u d t.next_query)) t.queries)) [
        | inl clash ↦ rw clash w
        | inr free ↦ rw free record {
          keyed =
              IsKeyed-append t.queries (new_route u d t.next_query) w.keyed free
                (has_id-fresh t.next_query t.queries w.fresh);
          fresh =
              All-append (λ r. r.id < t.next_query + 1) t.queries _ (raise t.queries w.fresh)
                (below, tt);
          owned = keep t.parameters w.owned;
        }
      ]
    where
      below : t.next_query < t.next_query + 1
      below = omega arith

      up : (a b : ℕ) → a < b → a < b + 1
      up a b l = omega arith

      raise :
          (rs : List Route)
          → All (λ r. r.id < t.next_query) rs
          → All (λ r. r.id < t.next_query + 1) rs
      raise [] h = tt
      raise (r ∷ rs) h = (up r.id t.next_query h.0, raise rs h.1)

      or_true : (a b : Bool) → a ≡ true → (a || b) ≡ true
      or_true a b x = ground arith

      keep :
          (ps : List Parameter)
          → All (IsOwned t.queries) ps
          → All (IsOwned (t.queries ++ new_route u d t.next_query ∷ [])) ps
      keep [] h = tt
      keep (p ∷ ps) h = (
        any-append (λ r. r.id == p.query_id) t.queries (new_route u d t.next_query)
            ∙ or_true _ _ h.0,
        keep ps h.1,
      )

  pub update_route-IsConsistent :
      (t : Tables) (id : ℕ) → IsConsistent t → IsConsistent (update_route u t id d).0
  update_route-IsConsistent t id w =
      elim (Bool-cases
        (has_id id t.queries && has_other id (key_of (new_route u d id)) t.queries)) [
          | inl clash ↦ rw clash w
          | inr free ↦ rw free record {
            keyed = written (Bool-cases (has_id id t.queries)) free;
            fresh = All-update_rows id t.next_query t.queries w.fresh;
            owned = keep t.parameters w.owned;
          }
        ]
    where
      second : (a b : Bool) → a ≡ true → (a && b) ≡ false → b ≡ false
      second a b x y = ground arith

      written :
          (has_id id t.queries ≡ true) ⊎ (has_id id t.queries ≡ false)
          → (has_id id t.queries && has_other id (key_of (new_route u d id)) t.queries) ≡ false
          → IsKeyed (update_rows u d id t.queries)
      written (inl there) f = IsKeyed-update_rows id t.queries w.keyed (second _ _ there f)
      written (inr gone) f = rw (update_rows-missing id t.queries gone).0 w.keyed

      keep :
          (ps : List Parameter)
          → All (IsOwned t.queries) ps
          → All (IsOwned (update_rows u d id t.queries)) ps
      keep [] h = tt
      keep (p ∷ ps) h = (has_id-update_rows id p.query_id t.queries ∙ h.0, keep ps h.1)
