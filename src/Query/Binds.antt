-- ===== src/Query/Binds.antt =====
-- The named binds of a statement and `QueryService._execution_bindings`.
use mathlib.Core.Path.{subst}
use fire2api.Base.{
  ◌≡◌, refl, sym, ap, ◌∙◌, Bool, true, false, ◌&&◌, not, List, [], ◌∷◌, Option, none, some, arith,
  ◌==◌, nat_eq, list_eq, if◌then◌else◌, Dict, get, put, get-put, Bool-cases, inl, inr, list_beq_iff,
}
use fire2api.Text.{Text, Unicode, upper, is_name_start, is_name_char, mem}
use fire2api.Sql.Comments.{strip_comments}
use fire2api.Sql.Literals.{strip_literals}
use fire2api.Sql.Words.{is_next}

-- The characters at the front that belong to a name.
abbrev pub name_at : Text → Text
name_at [] = []
name_at (c ∷ s) = let rest = name_at s in if is_name_char c then c ∷ rest else []

-- `re.finditer(r"(?<!:):([A-Za-z_][A-Za-z0-9_]*)", text)`, the groups; the flag tells whether the
-- character in front is a colon. A name holds no colon, so going on inside it finds nothing.
unfoldable pub binds_from : Bool → Text → List Text
binds_from colon [] = []
binds_from colon (c ∷ s) =
    let rest = binds_from (c == b':') s in
    if c == b':' && (not colon && is_next is_name_start s) then name_at s ∷ rest else rest

unfoldable pub named_binds : Text → List Text
unfolding binds_from
named_binds sql = binds_from false (strip_literals (strip_comments sql))

module _ (u : Unicode) {V : Type 0} where
  -- What a bind of this name gets: the parameter of its spelling, or of its canonical one.
  abbrev pub value_of : Dict Text V → Text → Option V
  value_of params name = elim (get params name) [
    | some v ↦ some v
    | none ↦ get params (upper u name)
  ]

  abbrev pub put_option : Dict Text V → Text → Option V → Dict Text V
  put_option d name none = d
  put_option d name (some v) = put d name v

  -- The loop, over the names found.
  unfoldable pub bind_all : Dict Text V → List Text → Dict Text V → Dict Text V
  bind_all params [] bound = bound
  bind_all params (name ∷ names) bound =
      bind_all params names (put_option bound name (value_of params name))

  unfoldable pub execution_bindings : Text → Dict Text V → Dict Text V
  unfolding bind_all named_binds
  execution_bindings sql params = bind_all params (named_binds sql) []

-- The first of two values that is there.
abbrev pub found_or {ℓ} : {V : Type ℓ} → Option V → Option V → Option V
found_or none d = d
found_or (some v) d = some v

found_or-twice {ℓ} :
    {V : Type ℓ} (b : Bool) (x g : Option V)
    → (if b then found_or x (found_or x g) else found_or x g) ≡ found_or x g
found_or-twice true none g = refl
found_or-twice true (some v) g = refl
found_or-twice false x g = refl

found_or-none {ℓ} :
    {V : Type ℓ} (b : Bool) (x : Option V)
    → (if b then found_or x none else none) ≡ (if b then x else none)
found_or-none b none = refl
found_or-none b (some v) = refl

module _ (u : Unicode) {V : Type 0} (params : Dict Text V) where
  get-put_option :
      (bound : Dict Text V) (name other : Text) (o : Option V)
      → get (put_option u bound name o) other
        ≡ (if name == other then found_or o (get bound other) else get bound other)
  get-put_option bound name other none = ground arith
  get-put_option bound name other (some v) = get-put bound name other v

  get-bind_all :
      (names : List Text) (bound : Dict Text V) (name : Text)
      → get (bind_all u params names bound) name ≡ (
          if mem name names
          then found_or (value_of u params name) (get bound name)
          else get bound name)
  unfolding bind_all
  get-bind_all [] bound name = refl
  get-bind_all (n ∷ names) bound name =
      get-bind_all names (put_option u bound n (value_of u params n)) name
      ∙ rw (get-put_option bound n name (value_of u params n)) (elim (Bool-cases (n == name)) [
        | inl same ↦ rw same (
            subst
              (λ x.
                (if mem name names
                  then found_or (value_of u params name)
                      (found_or (value_of u params x) (get bound name))
                  else found_or (value_of u params x) (get bound name))
                ≡ found_or (value_of u params name) (get bound name))
              (sym ((list_beq_iff n name).0 same))
              (found_or-twice (mem name names) (value_of u params name) (get bound name)))
        | inr other ↦ rw other refl
      ])

  -- Exactly the binds of the statement are given to the driver, each with the parameter of its
  -- own spelling or else of its canonical name; one without either, and any parameter that the
  -- statement does not name, is left out.
  pub get-execution_bindings :
      (sql name : Text)
      → get (execution_bindings u sql params) name ≡ (
          if mem name (named_binds sql)
          then found_or (get params name) (get params (upper u name))
          else none)
  unfolding execution_bindings get
  get-execution_bindings sql name =
      get-bind_all (named_binds sql) [] name
      ∙ found_or-none (mem name (named_binds sql)) (value_of u params name)
      ∙ ap (λ o. if mem name (named_binds sql) then o else none)
          (first_found (get params name) (get params (upper u name)))
    where
      first_found : (o d : Option V) → (elim o [ some v ↦ some v | none ↦ d ]) ≡ found_or o d
      first_found none d = refl
      first_found (some v) d = refl
