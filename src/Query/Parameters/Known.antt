-- ===== src/Query/Parameters/Known.antt =====
-- What a request may name.
use fire2api.Base.{
  ◌≡◌, sym, ap, ◌∙◌, Bool, true, ◌&&◌, ◌||◌, List, [], ◌∷◌, Option, none, nat_eq, list_eq, all, All,
  Dict, get, put, arith, Bool-cases, Option-cases, inl, inr,
}
use fire2api.Text.{Text, Unicode, upper, mem}
use fire2api.Query.Convert.{Value, ok, Python}
use fire2api.Query.Detect.{Source, path, query, body}
use fire2api.Query.Parameters.{
  Definition, Field, Sources, source, extras, Options, normalize, normalized_sources, allowed_names,
  is_known, bind_known, bind_parameters,
}
use fire2api.Query.Convert.Chains.{fails_not_ok, same_ok, first_ok}

abbrev test : {V : Type 0} → (Text → Bool) → Text × V → Bool
test q e = q e.0

all-put :
    {V : Type 0} (q : Text → Bool) (d : Dict Text V) (k : Text) (v : V)
    → get d k ≡ none
    → all (test q) (put d k v) ≡ (all (test q) d && q k)
unfolding get put
all-put q [] k v h = ground arith
all-put q ((j, w) ∷ d) k v h = ground (arith, all-put q d k v)

two : (a b : Bool) → (a && b) ≡ true → (a ≡ true) × (b ≡ true)
two a b h = ground arith

module _ (u : Unicode) {O : Type 0} (py : Python O) where
  -- Normalising keeps the keys: a test that all of the result pass, all of the fields passed.
  normalize-all :
      (q : Text → Bool) (fields : List (Field O)) (d d' : Dict Text (Option (Value O)))
      → normalize u py fields d ≡ ok d'
      → all (test q) d' ≡ true
      → (all (test q) d ≡ true) × All (λ (f : Field O). q (upper u f.0) ≡ true) fields
  unfolding normalize
  normalize-all q [] d d' h t = (rw (sym (same_ok h)) at t, tt)
  normalize-all q ((raw, v) ∷ fields) d d' h t = elim (Option-cases (get d (upper u raw))) [
    | inl new ↦
        let rest = normalize-all q fields (put d (upper u raw) v) d' (rw (new, normalize) at h) t in
        let both = two _ _ (sym (all-put q d (upper u raw) v new) ∙ rest.0) in
        (both.0, (both.1, rest.1))
    | inr (w, old) ↦ absurd (fails_not_ok (rw (old, normalize) at h))
  ]

  normalized-source :
      (raw : Sources (List (Field O))) (s : Sources (Dict Text (Option (Value O)))) (p : Source)
      → normalized_sources u py raw ≡ ok s
      → normalize u py (source p raw) [] ≡ ok (source p s)
  normalized-source raw s p h =
      let (a, ea, ha) = first_ok (normalize u py raw.path_values []) _ s h in
      let (b, eb, hb) = first_ok (normalize u py raw.query_values []) _ s ha in
      let (c, ec, hc) = first_ok (normalize u py raw.body_values []) _ s hb in
      at_place p a b c ea eb ec (same_ok hc)
    where
      at_place :
          (p : Source) (a b c : Dict Text (Option (Value O)))
          → normalize u py raw.path_values [] ≡ ok a
          → normalize u py raw.query_values [] ≡ ok b
          → normalize u py raw.body_values [] ≡ ok c
          → record { path_values = a; query_values = b; body_values = c } ≡ s
          → normalize u py (source p raw) [] ≡ ok (source p s)
      at_place path a b c ea eb ec same = ea ∙ ap (λ x. ok x.path_values) same
      at_place query a b c ea eb ec same = eb ∙ ap (λ x. ok x.query_values) same
      at_place body a b c ea eb ec same = ec ∙ ap (λ x. ok x.body_values) same

  -- An accepted request names nothing that was not declared: every field of a source has the
  -- canonical name of a parameter declared for that source, or, in the query string alone, is
  -- LIMIT, OFFSET or ORDER_BY.
  pub bind_parameters-known :
      (ds : List Definition) (raw : Sources (List (Field O))) (bound : Dict Text (Option (Value O)))
      (options : Options O) (p : Source)
      → bind_parameters u py ds raw ≡ ok (bound, options)
      → All
          (λ (f : Field O).
            (mem (upper u f.0) (allowed_names u py p ds) || mem (upper u f.0) (extras p)) ≡ true)
          (source p raw)
  unfolding bind_parameters
  bind_parameters-known ds raw bound options p h =
      let (s, is, known) = first_ok (normalized_sources u py raw) _ (bound, options) h in
      (normalize-all (λ w. mem w (allowed_names u py p ds) || mem w (extras p)) (source p raw) []
        (source p s) (normalized-source raw s p is) (accepted s known)).1
    where
      at_place :
          (p : Source) (s : Sources (Dict Text (Option (Value O))))
          → (is_known u py path ds s && (is_known u py query ds s && is_known u py body ds s))
            ≡ true
          → is_known u py p ds s ≡ true
      at_place path s e = (two _ _ e).0
      at_place query s e = (two _ _ (two _ _ e).1).0
      at_place body s e = (two _ _ (two _ _ e).1).1

      accepted :
          (s : Sources (Dict Text (Option (Value O))))
          → bind_known u py ds s ≡ ok (bound, options)
          → is_known u py p ds s ≡ true
      accepted s e =
          elim (Bool-cases
            (is_known u py path ds s && (is_known u py query ds s && is_known u py body ds s))) [
              | inl known ↦ at_place p s known
              | inr strange ↦ absurd (fails_not_ok (rw strange at e))
            ]
