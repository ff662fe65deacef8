-- ===== src/Auth/Paths.antt =====
-- Which paths are guarded.
use fire2api.Base.{
  ◌≡◌, refl, Bool, true, false, ◌&&◌, not, [], ◌∷◌, ◌++◌, none, some, nat_eq, list_eq,
  if◌then◌else◌, arith, ==-refl,
}
use fire2api.Text.{Text, codes, starts_with}
use fire2api.Auth.{admin, api, under, requires_auth}

starts_with-append : (p s : Text) → starts_with p (p ++ s) ≡ true
unfolding starts_with
starts_with-append [] s = refl
starts_with-append (c ∷ p) s = rw (==-refl c) (starts_with-append p s)

guards :
    (admin_path in_api base : Bool)
    → (if admin_path then some admin else if in_api && not base then some api else none) ≡ none
    → in_api ≡ true
    → (admin_path ≡ false) × (base ≡ true)
guards a i b h e = ground arith

-- Under /api/ only the public base is open: a path that needs no authentication stands under
-- /api/base and not under /api/base/admin.
pub requires_auth-none :
    (rest : Text)
    → requires_auth (codes "/api/" ++ rest) ≡ none
    → (under (codes "/api/base/admin") (codes "/api/" ++ rest) ≡ false)
      × (under (codes "/api/base") (codes "/api/" ++ rest) ≡ true)
requires_auth-none rest h =
    guards (under (codes "/api/base/admin") path) (starts_with (codes "/api/") path)
      (under (codes "/api/base") path) (unfold requires_auth in h)
      (starts_with-append (codes "/api/") rest)
  where
    path : Text
    path = codes "/api/" ++ rest
