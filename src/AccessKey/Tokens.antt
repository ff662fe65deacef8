-- ===== src/AccessKey/Tokens.antt =====
-- Which tokens the service accepts, as keys are made, changed and removed.
use mathlib.Core.Path.{subst}
use text.Mathlib.TextEquality.{eq_iff}
use fire2api.Base.{
  ℕ, ◌+◌, ◌≡◌, ◌≤◌, refl, sym, ap, ◌∙◌, String, Bool, true, false, ◌||◌, not, List, [], ◌∷◌, ◌++◌,
  Option, none, some, ltb, ◌==◌, nat_eq, string_eq, keep_if, length, arith, Bool-cases, inl, inr,
  ==-refl,
}
use fire2api.Text.{Text}
use fire2api.AccessKey.{
  Row, Table, created, too_short, already_there, has_hash, chosen_token, new_row, create_key,
  delete_key, find_active, validate_token,
}

-- No hash stands twice: the constraint `uq_access_keys_key_hash`.
abbrev pub IsUnique : List Row → Type 0
IsUnique [] = Unit
IsUnique (r ∷ rs) = (has_hash r.key_hash rs ≡ false) × IsUnique rs

has_hash-append :
    (h : String) (rs : List Row) (r : Row)
    → has_hash h (rs ++ r ∷ []) ≡ (has_hash h rs || r.key_hash == h)
has_hash-append h [] r = ground arith
has_hash-append h (q ∷ rs) r = ground (arith, has_hash-append h rs r)

IsUnique-append :
    (rs : List Row) (r : Row)
    → IsUnique rs
    → has_hash r.key_hash rs ≡ false
    → IsUnique (rs ++ r ∷ [])
IsUnique-append [] r u h = (refl, tt)
IsUnique-append (q ∷ rs) r u h = (
  ground (
    arith,
    has_hash-append q.key_hash rs r,
    u.0,
    eq_iff q.key_hash r.key_hash,
    eq_iff r.key_hash q.key_hash,
  ),
  IsUnique-append rs r u.1 (ground arith),
)

-- Creating a key in a table where no hash stands twice leaves it so, whatever token is chosen.
pub create_key-IsUnique :
    (is_space : ℕ → Bool) (sha256 : Text → String) (t : Table) (description : Text)
    (is_active : Bool) (plain : Option Text) (generated : Text) (now : ℕ)
    → IsUnique t.rows
    → IsUnique (create_key is_space sha256 t description is_active plain generated now).0.rows
unfolding create_key
create_key-IsUnique is_space sha256 t description is_active plain generated now u =
    elim (Bool-cases (ltb (length token) 32)) [
      | inl short ↦ rw short u
      | inr long ↦ elim (Bool-cases (has_hash (sha256 token) t.rows)) [
        | inl there ↦ rw long (rw there u)
        | inr free ↦ rw long (rw free (IsUnique-append t.rows _ u free))
      ]
    ]
  where
    token : Text
    token = chosen_token is_space sha256 plain generated

not_there : (h : String) (rs : List Row) → has_hash h rs ≡ false → find_active h rs ≡ none
not_there h [] e = refl
not_there h (r ∷ rs) e = ground (arith, not_there h rs)

not_there-keep_if :
    (p : Row → Bool) (h : String) (rs : List Row)
    → has_hash h rs ≡ false
    → has_hash h (keep_if p rs) ≡ false
not_there-keep_if p h [] e = refl
not_there-keep_if p h (r ∷ rs) e = ground (arith, not_there-keep_if p h rs)

find_active-append :
    (h : String) (rs : List Row) (r : Row)
    → has_hash h rs ≡ false
    → (r.key_hash == h) ≡ true
    → r.is_active ≡ true
    → find_active h (rs ++ r ∷ []) ≡ some r
find_active-append h [] r e same on = ground arith
find_active-append h (q ∷ rs) r e same on = ground (arith, find_active-append h rs r)

accepts :
    (sha256 : Text → String) (t : Table) (token : Text) (r : Row)
    → 32 ≤ length token
    → find_active (sha256 token) t.rows ≡ some r
    → validate_token sha256 t token ≡ some r
unfolding validate_token
accepts sha256 t [] r l e = absurd (omega arith)
accepts sha256 t (c ∷ token) r l e = e

-- A key that was created active is accepted at once, by the token that the caller was given, with
-- the id that the caller was told; it has at least 32 characters.
pub create_key-validates :
    (is_space : ℕ → Bool) (sha256 : Text → String) (t : Table) (description : Text)
    (plain : Option Text) (generated : Text) (now id : ℕ) (token : Text)
    → (create_key is_space sha256 t description true plain generated now).1 ≡ created id token
    → (r : Row) × (validate_token sha256
          (create_key is_space sha256 t description true plain generated now).0
          token
        ≡ some r)
      × (r.id ≡ id)
      × (32 ≤ length token)
unfolding create_key
create_key-validates is_space sha256 t description plain generated now id token h =
    elim (Bool-cases (ltb (length chosen) 32)) [
      | inl short ↦ absurd (short_not_created (rw short at h))
      | inr long ↦ elim (Bool-cases (has_hash (sha256 chosen) t.rows)) [
        | inl there ↦ absurd (there_not_created (rw there at (rw long at h)))
        | inr free ↦ rw long (
            rw free (
              let same = created_same (rw free at (rw long at h)) in
              let found =
                find_active-append (sha256 chosen) t.rows
                  (new_row is_space sha256 t description true chosen now) free
                  (==-refl (sha256 chosen)) refl in
              (
                row,
                subst (λ x. validate_token sha256 after x ≡ some row) same.1
                    (accepts sha256 after chosen row (long_enough (length chosen) long) found),
                same.0,
                subst (λ x. 32 ≤ length x) same.1 (long_enough (length chosen) long),
              )))
      ]
    ]
  where
    chosen : Text
    chosen = chosen_token is_space sha256 plain generated

    row : Row
    row = new_row is_space sha256 t description true chosen now

    after : Table
    after = record { rows = t.rows ++ row ∷ []; next_id = t.next_id + 1 }

    short_not_created : too_short ≡ created id token → ⊥
    short_not_created x = cc

    there_not_created : already_there ≡ created id token → ⊥
    there_not_created x = cc

    created_same : {a : ℕ} {u : Text} → created a u ≡ created id token → (a ≡ id) × (u ≡ token)
    created_same x = (cc, cc)

    long_enough : (n : ℕ) → ltb n 32 ≡ false → 32 ≤ n
    long_enough n x = ground arith

delete-forgets :
    (h : String) (id : ℕ) (rs : List Row) (r : Row)
    → IsUnique rs
    → find_active h rs ≡ some r
    → (r.id == id) ≡ true
    → find_active h (keep_if (λ q. not (q.id == id)) rs) ≡ none
delete-forgets h id [] r u e i = refl
delete-forgets h id (q ∷ rs) r u e i = elim (Bool-cases (q.key_hash == h)) [
  | inl same ↦
      let none_left : has_hash h rs ≡ false =
        ap (λ x. has_hash x rs) (sym ((eq_iff q.key_hash h).0 same)) ∙ u.0 in
      ground (
        arith,
        not_there h rs none_left,
        not_there h (keep_if (λ x. not (x.id == id)) rs)
            (not_there-keep_if (λ x. not (x.id == id)) h rs none_left),
      )
  | inr other ↦ ground (arith, delete-forgets h id rs r u.1)
]

-- Where no hash stands twice, the token of a deleted key is refused.
pub delete_key-revokes :
    (sha256 : Text → String) (t : Table) (token : Text) (r : Row)
    → IsUnique t.rows
    → validate_token sha256 t token ≡ some r
    → validate_token sha256 (delete_key t r.id).0 token ≡ none
unfolding validate_token delete_key
delete_key-revokes sha256 t [] r u e = refl
delete_key-revokes sha256 t (c ∷ token) r u e =
    delete-forgets (sha256 (c ∷ token)) r.id t.rows r u e (==-refl r.id)
