-- ===== src/Query/Parameters/Bound.antt =====
-- What an accepted request has bound.
use fire2api.Base.{
  ◌≡◌, refl, sym, ap, ◌∙◌, Bool, false, ◌&&◌, ◌||◌, List, [], ◌∷◌, Option, some, ◌==◌, nat_eq,
  list_eq, All, Dict, get, get-put, arith, Bool-cases, inl, inr, ==-refl,
}
use fire2api.Text.{Text, Unicode, upper, mem}
use fire2api.Query.Convert.{Value, Result, ok, Python}
use fire2api.Query.Convert.Chains.{fails_not_ok, same_ok, first_ok}
use fire2api.Query.Detect.Names.{IsNodup}
use fire2api.Query.Detect.{path, query, body}
use fire2api.Query.Parameters.{
  Definition, Field, Sources, Options, source, normalized_sources, is_known, bound_value,
  bind_all_definitions, bind_known, bind_parameters,
}
use fire2api.Query.Parameters.Values.{IsValue, bound_value-IsValue}

no_mem : (a b : Bool) → (a || b) ≡ false → (a ≡ false) × (b ≡ false)
no_mem a b h = ground arith

module _ (u : Unicode) {O : Type 0} (py : Python O) where
  abbrev pub declared : List Definition → List Text
  declared [] = []
  declared (d ∷ ds) = upper u d.name ∷ declared ds

  abbrev pub HasBound :
      Sources (Dict Text (Option (Value O))) → Dict Text (Option (Value O)) → Definition → Type 0
  HasBound s bound d =
      (v : Option (Value O)) × IsValue u py d (get (source d.place s) (upper u d.name)) v
      × (get bound (upper u d.name) ≡ some v)

  module _ (s : Sources (Dict Text (Option (Value O)))) where
    bind_all_definitions-frame :
        (ds : List Definition) (acc bound : Dict Text (Option (Value O))) (name : Text)
        → bind_all_definitions u py s ds acc ≡ ok bound
        → mem name (declared ds) ≡ false
        → get bound name ≡ get acc name
    unfolding bind_all_definitions
    bind_all_definitions-frame [] acc bound name h e = ap (λ d. get d name) (sym (same_ok h))
    bind_all_definitions-frame (d ∷ ds) acc bound name h e =
        let (v, is, later) = first_ok (bound_value u py s d) _ bound h in
        let (other, others) = no_mem (upper u d.name == name) (mem name (declared ds)) e in
        bind_all_definitions-frame ds _ bound name later others ∙ rw get-put (rw other refl)

    bind_all_definitions-HasBound :
        (ds : List Definition) (acc bound : Dict Text (Option (Value O)))
        → bind_all_definitions u py s ds acc ≡ ok bound
        → IsNodup (declared ds)
        → All (HasBound s bound) ds
    unfolding bind_all_definitions
    bind_all_definitions-HasBound [] acc bound h n = tt
    bind_all_definitions-HasBound (d ∷ ds) acc bound h n =
        let (v, is, later) = first_ok (bound_value u py s d) _ bound h in
        (
          (
            v,
            bound_value-IsValue u py s d v is,
            bind_all_definitions-frame ds _ bound (upper u d.name) later n.0
                ∙ rw get-put (rw (==-refl (upper u d.name)) refl),
          ),
          bind_all_definitions-HasBound ds _ bound later n.1,
        )

  -- In an accepted request every declared parameter, the names declared once each, is bound. What
  -- its source gives is converted to a value of its type that matches the rule in full, where
  -- there is one. Where the source does not name it, the same is done with the default, and
  -- without a default the parameter is not required and bound to None. A null that the source gives
  -- is bound to None, of a required parameter too.
  pub bind_parameters-HasBound :
      (ds : List Definition) (raw : Sources (List (Field O))) (bound : Dict Text (Option (Value O)))
      (options : Options O)
      → IsNodup (declared ds)
      → bind_parameters u py ds raw ≡ ok (bound, options)
      → (s : Sources (Dict Text (Option (Value O)))) × (normalized_sources u py raw ≡ ok s)
        × All (HasBound s bound) ds
  unfolding bind_parameters
  bind_parameters-HasBound ds raw bound options n h =
      let (s, is, known) = first_ok (normalized_sources u py raw) _ (bound, options) h in
      (s, is, from_known s known)
    where
      same_first :
          {b : Dict Text (Option (Value O))} {o : Options O}
          → ◌≡◌ {A = Result (Dict Text (Option (Value O)) × Options O)}
              (ok (b, o))
              (ok (bound, options))
          → b ≡ bound
      same_first e = cc

      from_known :
          (s : Sources (Dict Text (Option (Value O))))
          → bind_known u py ds s ≡ ok (bound, options)
          → All (HasBound s bound) ds
      from_known s e =
          elim (Bool-cases
            (is_known u py path ds s && (is_known u py query ds s && is_known u py body ds s))) [
              | inl known ↦
                  let (b, is, same) =
                    first_ok (bind_all_definitions u py s ds []) _ (bound, options)
                      (rw known at e) in
                  bind_all_definitions-HasBound s ds [] bound (is ∙ ap ok (same_first same)) n
              | inr strange ↦ absurd (fails_not_ok (rw strange at e))
            ]
