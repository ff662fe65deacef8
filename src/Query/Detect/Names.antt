-- ===== src/Query/Detect/Names.antt =====
-- What the detector finds: every name once, path placeholders first.
use mathlib.Core.Path.{subst}
use fire2api.Base.{
  ◌≡◌, refl, ◌∙◌, Bool, true, false, ◌&&◌, ◌||◌, not, List, [], ◌∷◌, ◌++◌, arith, ◌==◌, nat_eq,
  list_eq, if◌then◌else◌, Bool-cases, inl, inr, list_beq_iff, ==-refl,
}
use fire2api.Text.{Text, Unicode, mem}
use fire2api.Query.Binds.{named_binds}
use fire2api.Query.Detect.{
  Source, path, Detected, path_names, is_reserved, names_of, collect, canonical, detect_parameters,
}

abbrev pub IsNodup : List Text → Type 0
IsNodup [] = Unit
IsNodup (w ∷ ws) = (mem w ws ≡ false) × IsNodup ws

abbrev added : Source → Text → List Detected → List Detected
added source name found = found ++ record { name = name; source = source } ∷ []

mem-added :
    (w : Text) (source : Source) (name : Text) (found : List Detected)
    → mem w (names_of (added source name found)) ≡ (mem w (names_of found) || name == w)
mem-added w source name [] = ground arith
mem-added w source name (d ∷ ds) = ground (arith, mem-added w source name ds)

IsNodup-added :
    (source : Source) (name : Text) (found : List Detected)
    → mem name (names_of found) ≡ false
    → IsNodup (names_of found)
    → IsNodup (names_of (added source name found))
IsNodup-added source name [] h n = (refl, tt)
IsNodup-added source name (d ∷ ds) h n = (
  ground (
    arith,
    mem-added d.name source name ds,
    n.0,
    list_beq_iff name d.name,
    list_beq_iff d.name name,
  ),
  IsNodup-added source name ds (ground arith) n.1,
)

collect-IsNodup :
    (skips : Text → Bool) (source : Source) (names : List Text) (found : List Detected)
    → IsNodup (names_of found)
    → IsNodup (names_of (collect skips source names found))
unfolding collect
collect-IsNodup skips source [] found n = n
collect-IsNodup skips source (name ∷ names) found n =
    collect-IsNodup skips source names _ (step (mem name (names_of found)) refl)
  where
    step :
        (b : Bool)
        → mem name (names_of found) ≡ b
        → IsNodup (names_of (if b || skips name then found else added source name found))
    step true e = n
    step false e = elim (Bool-cases (skips name)) [
      | inl skipped ↦ rw skipped n
      | inr taken ↦ rw taken (IsNodup-added source name found e n)
    ]

abbrev grown : (Text → Bool) → Source → Text → List Detected → List Detected
grown skips source name found =
    if mem name (names_of found) || skips name then found else added source name found

mem-grown_self :
    (skips : Text → Bool) (source : Source) (name : Text) (found : List Detected)
    → mem name (names_of (grown skips source name found))
      ≡ (mem name (names_of found) || not (skips name))
mem-grown_self skips source name found = elim (Bool-cases (mem name (names_of found))) [
  | inl seen ↦ rw seen seen
  | inr new ↦ elim (Bool-cases (skips name)) [
    | inl skipped ↦ rw new (rw skipped new)
    | inr taken ↦ rw new (rw taken (mem-added name source name found ∙ rw new (==-refl name)))
  ]
]

mem-grown :
    (skips : Text → Bool) (source : Source) (name : Text) (found : List Detected) (w : Text)
    → mem w (names_of (grown skips source name found))
      ≡ (mem w (names_of found) || (name == w && not (skips w)))
mem-grown skips source name found w = elim (Bool-cases (name == w)) [
  | inl same ↦ rw same (
      subst
        (λ x.
          mem x (names_of (grown skips source name found))
          ≡ (mem x (names_of found) || not (skips x)))
        ((list_beq_iff name w).0 same) (mem-grown_self skips source name found))
  | inr other ↦ rw other (elim (Bool-cases (mem name (names_of found) || skips name)) [
    | inl kept ↦ rw kept (or_false (mem w (names_of found)))
    | inr taken ↦ rw taken (mem-added w source name found ∙ rw other refl)
  ])
]
  where
    or_false : (b : Bool) → b ≡ (b || false)
    or_false b = ground arith

-- What a name needs to be among the detected after a loop.
mem-collect :
    (skips : Text → Bool) (source : Source) (names : List Text) (found : List Detected) (w : Text)
    → mem w (names_of (collect skips source names found))
      ≡ (mem w (names_of found) || (mem w names && not (skips w)))
unfolding collect
mem-collect skips source [] found w = ground arith
mem-collect skips source (name ∷ names) found w =
    mem-collect skips source names (grown skips source name found) w
    ∙ rw (mem-grown skips source name found w)
        (gather (mem w (names_of found)) (name == w) (not (skips w)) (mem w names))
  where
    gather : (a e n m : Bool) → ((a || (e && n)) || (m && n)) ≡ (a || ((e || m) && n))
    gather a e n m = ground arith

-- No name is detected twice.
pub detect_parameters-IsNodup :
    (u : Unicode) (route_path query_sql method : Text)
    → IsNodup (names_of (detect_parameters u route_path query_sql method))
unfolding detect_parameters
detect_parameters-IsNodup u route_path query_sql method =
    collect-IsNodup is_reserved _ (canonical u (named_binds query_sql)) _
      (collect-IsNodup (λ _. false) path (canonical u (path_names route_path)) [] tt)

-- A name is detected exactly if it is the canonical name of a placeholder of the path, or of a
-- bind of the statement outside literals and comments that is not reserved.
pub mem-detect_parameters :
    (u : Unicode) (route_path query_sql method w : Text)
    → mem w (names_of (detect_parameters u route_path query_sql method)) ≡ (
        mem w (canonical u (path_names route_path))
        || (mem w (canonical u (named_binds query_sql)) && not (is_reserved w)))
unfolding detect_parameters
mem-detect_parameters u route_path query_sql method w =
    mem-collect is_reserved _ (canonical u (named_binds query_sql)) _ w
    ∙ rw (mem-collect (λ _. false) path (canonical u (path_names route_path)) [] w) (ground arith)
