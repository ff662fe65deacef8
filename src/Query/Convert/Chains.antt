-- ===== src/Query/Convert/Chains.antt =====
-- Chains of steps that may fail.
use fire2api.Base.{◌≡◌, refl}
use fire2api.Query.Convert.{Reason, Result, ok, fails, ◌>>=◌}

pub fails_not_ok : {A : Type 0} {x : Reason} {a : A} → fails x ≡ ok a → ⊥
fails_not_ok h = cc

pub same_ok : {A : Type 0} {a b : A} → ok a ≡ ok b → a ≡ b
same_ok h = cc

-- A chain that succeeds has a first step that does.
pub first_ok :
    {A B : Type 0} (r : Result A) (f : A → Result B) (b : B)
    → r >>= f ≡ ok b
    → (a : A) × (r ≡ ok a) × (f a ≡ ok b)
first_ok (ok a) f b h = (a, refl, h)
first_ok (fails x) f b h = absurd (fails_not_ok h)
