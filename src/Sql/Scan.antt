-- ===== src/Sql/Scan.antt =====
-- The loops over `sql[index]` that copy, drop or replace characters, as one machine: a step reads
-- a character and the one behind it, writes some output and moves to the next mode. Where the
-- source advances its index by two, a mode stands for the second of the two characters.
use mathlib.Core.List.{append_assoc}
use fire2api.Base.{ℕ, ◌≡◌, refl, [], ◌∷◌, ◌++◌, Option, none, some}
use fire2api.Text.{Text, next}

module _ {M : Type 0} (step : M → ℕ → Option ℕ → Text × M) where
  -- The output of a scan that starts in a mode, and the mode in which it stops.
  unfoldable pub emit : M → Text → Text
  emit m [] = []
  emit m (c ∷ s) = (step m c (next s)).0 ++ emit (step m c (next s)).1 s

  unfoldable pub final : M → Text → M
  final m [] = m
  final m (c ∷ s) = final (step m c (next s)).1 s

-- A text that starts with no character that a step looks ahead for.
abbrev pub Closes : {M : Type 0} → (M → ℕ → Option ℕ → Text × M) → Text → Type 0
Closes {M} step t = (m : M) (c : ℕ) → step m c (next t) ≡ step m c none

module _ {M : Type 0} (step : M → ℕ → Option ℕ → Text × M) (t : Text) (closes : Closes step t) where
  -- The scan of two texts in a row, where the second does not touch the end of the first.
  pub emit-append :
      (m : M) (s : Text) → emit step m (s ++ t) ≡ emit step m s ++ emit step (final step m s) t
  unfolding emit final
  emit-append m [] = refl
  emit-append m (c ∷ []) = rw (closes m c) (simp append_assoc)
  emit-append m (c ∷ d ∷ s) = rw (emit-append (step m c (some d)).1 (d ∷ s)) (simp append_assoc)
