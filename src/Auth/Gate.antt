-- ===== src/Auth/Gate.antt =====
-- Nobody passes the middleware without a valid token.
use fire2api.Base.{
  ℕ, ◌≡◌, refl, sym, ◌∙◌, Bool, true, false, ◌&&◌, [], ◌∷◌, Option, none, some, ◌==◌, nat_eq,
  string_eq, list_eq, if◌then◌else◌, arith, Bool-cases, inl, inr, list_beq_iff,
}
use fire2api.Text.{Text}
use fire2api.RateLimit
use fire2api.RateLimit.{Limiter, second, recorded}
use fire2api.AccessKey
use fire2api.AccessKey.{validate_token, has_active_keys}
use fire2api.Auth.{
  Area, admin, api, requires_auth, extract_token, is_ascii, validate_admin_token, World, Config,
  Request, forwarded_public, forwarded, rate_limited, not_configured, unauthorized, raised, key_of,
  refuse, or_empty, admit_admin, admit_api, authenticate, guarded, handle,
}

-- What an authenticated request has shown in an area.
abbrev Shows : Config → World → Text → Bool → Option ℕ → Area → Type 0
Shows c w t b k admin = (t ≡ c.admin_api_key) × (b ≡ true) × (k ≡ none)
Shows c w t b k api =
    (r : AccessKey.Row) × (validate_token c.sha256 w.keys t ≡ some r)
    × (b ≡ false)
    × (k ≡ some r.id)

module _ (c : Config) (q : Request) (t : Text) (b : Bool) (k : Option ℕ) where
  refuse-forwards : (w : World) (a : Area) → (refuse c w a q).1 ≡ forwarded t b k → ⊥
  refuse-forwards w a h =
      elim (Bool-cases
        ((RateLimit.register_failure c.limits w.limiter (key_of a q) q.monotonic).1 == 0)) [
          | inl first ↦ plain (rw first at h)
          | inr later ↦ limited (rw later at h)
        ]
    where
      plain : unauthorized ≡ forwarded t b k → ⊥
      plain x = cc

      limited : {n : ℕ} → rate_limited n ≡ forwarded t b k → ⊥
      limited x = cc

  same_parts :
      {u : Text} {a : Bool} {j : Option ℕ}
      → forwarded u a j ≡ forwarded t b k
      → (u ≡ t) × (a ≡ b) × (j ≡ k)
  same_parts x = (cc, cc, cc)

  admit_admin-Shows :
      (w : World) (token : Option Text) (v : Option Bool)
      → validate_admin_token c.admin_api_key token ≡ v
      → (admit_admin c w q token v).1 ≡ forwarded t b k
      → Shows c w t b k admin
  admit_admin-Shows w token none e h = absurd (failed h)
    where
      failed : raised ≡ forwarded t b k → ⊥
      failed x = cc
  admit_admin-Shows w token (some false) e h = absurd (refuse-forwards w admin h)
  admit_admin-Shows w none (some true) e h = absurd (no_token e)
    where
      no_token : some false ≡ some true → ⊥
      no_token x = cc
  admit_admin-Shows w (some []) (some true) e h = absurd (no_token e)
    where
      no_token : some false ≡ some true → ⊥
      no_token x = cc
  admit_admin-Shows w (some (d ∷ ds)) (some true) e h =
      let same = same_parts h in
      (
        sym same.0
            ∙ (list_beq_iff (d ∷ ds) c.admin_api_key).0
                (digest (is_ascii (d ∷ ds) && is_ascii c.admin_api_key) _ e),
        sym same.1,
        sym same.2,
      )
    where
      digest : (x y : Bool) → (if x then some y else none) ≡ some true → y ≡ true
      digest x y z = ground arith

  admit_api-Shows :
      (w : World) (token : Option Text) (o : Option AccessKey.Row)
      → validate_token c.sha256 w.keys (or_empty token) ≡ o
      → (admit_api c w q token o).1 ≡ forwarded t b k
      → Shows c w t b k api
  admit_api-Shows w token none e h = absurd (refuse-forwards w api h)
  admit_api-Shows w token (some r) e h =
      let same = same_parts h in (r, rw same.0 at e, sym same.1, sym same.2)

  authenticate-Shows :
      (w : World) (a : Area) (token : Option Text)
      → (authenticate c w a q token).1 ≡ forwarded t b k
      → Shows c w t b k a
  authenticate-Shows w admin token h = admit_admin-Shows w token _ refl h
  authenticate-Shows w api token h = elim (Bool-cases (has_active_keys w.keys)) [
    | inl there ↦ admit_api-Shows w token _ refl (rw there at h)
    | inr nowhere ↦ absurd (not_ready (rw nowhere at h))
  ]
    where
      not_ready : not_configured ≡ forwarded t b k → ⊥
      not_ready x = cc

  -- The limiter has no part in it.
  same_keys :
      (w : World) (l : Limiter) (a : Area)
      → Shows c (record w { limiter = l }) t b k a
      → Shows c w t b k a
  same_keys w l admin s = s
  same_keys w l api s = s

  guarded-Shows :
      (w : World) (o : Option Area)
      → (guarded c w q o).1 ≡ forwarded t b k
      → (a : Area) × (o ≡ some a) × Shows c w t b k a
  guarded-Shows w none h = absurd (open_path h)
    where
      open_path : forwarded_public ≡ forwarded t b k → ⊥
      open_path x = cc
  guarded-Shows w (some a) h =
      elim (Bool-cases ((RateLimit.retry_after w.limiter (key_of a q) q.monotonic).1 == 0)) [
        | inl free ↦ (
          a,
          refl,
          same_keys w (RateLimit.retry_after w.limiter (key_of a q) q.monotonic).0 a
              (authenticate-Shows _ a (extract_token c.unicode q.authorization) (rw free at h)),
        )
        | inr shut ↦ absurd (limited (rw shut at h))
      ]
    where
      limited : {n : ℕ} → rate_limited n ≡ forwarded t b k → ⊥
      limited x = cc

-- What a forwarded request has shown.
abbrev pub Proves : Config → World → Request → Text → Bool → Option ℕ → Type 0
Proves c w q t true key = (requires_auth q.path ≡ some admin) × (t ≡ c.admin_api_key) × (key ≡ none)
Proves c w q t false key =
    (requires_auth q.path ≡ some api)
    × ((r : AccessKey.Row) × (validate_token c.sha256 w.keys t ≡ some r) × (key ≡ some r.id))

-- A request that reaches a guarded application as authenticated carries the administrator's key
-- on an admin path, or the token of an active access key, whose id it is given, on an API path.
pub handle-forwarded :
    (c : Config) (w : World) (q : Request) (t : Text) (is_admin : Bool) (key : Option ℕ)
    → (handle c w q).1 ≡ forwarded t is_admin key
    → Proves c w q t is_admin key
unfolding handle
handle-forwarded c w q t true key h =
    admin_part (guarded-Shows c q t true key w (requires_auth q.path) h)
  where
    admin_part :
        (a : Area) × (requires_auth q.path ≡ some a) × Shows c w t true key a
        → Proves c w q t true key
    admin_part (admin, e, s) = (e, s.0, s.2)
    admin_part (api, e, s) = absurd (wrong s.2)
      where
        wrong : true ≡ false → ⊥
        wrong x = cc
handle-forwarded c w q t false key h =
    api_part (guarded-Shows c q t false key w (requires_auth q.path) h)
  where
    api_part :
        (a : Area) × (requires_auth q.path ≡ some a) × Shows c w t false key a
        → Proves c w q t false key
    api_part (admin, e, s) = absurd (wrong s.1)
      where
        wrong : false ≡ true → ⊥
        wrong x = cc
    api_part (api, e, s) = (e, (s.0, s.1, s.3))

pub retry_after-failures :
    (l : Limiter) (key : RateLimit.Key) (now : ℕ)
    → (RateLimit.retry_after l key now).0.failures ≡ l.failures
unfolding RateLimit.retry_after
retry_after-failures l key now = ground arith

-- Outside a lockout, an admin request whose token has a character outside ASCII raises TypeError
-- in `hmac.compare_digest` and leaves the middleware as an exception: the failure is neither
-- counted against the address nor audited.
pub handle-not_ascii :
    (c : Config) (w : World) (q : Request) (t : Text)
    → requires_auth q.path ≡ some admin
    → (RateLimit.retry_after w.limiter (key_of admin q) q.monotonic).1 ≡ 0
    → extract_token c.unicode q.authorization ≡ some t
    → is_ascii t ≡ false
    → ((handle c w q).1 ≡ raised)
      × ((handle c w q).0.limiter.failures ≡ w.limiter.failures)
      × ((handle c w q).0.audit ≡ w.audit)
unfolding handle
handle-not_ascii c w q t e free et na = rw e (
    rw free (
      rw et (
        rw (raises t na)
          (refl, retry_after-failures w.limiter (key_of admin q) q.monotonic, refl))))
  where
    raises : (s : Text) → is_ascii s ≡ false → validate_admin_token c.admin_api_key (some s) ≡ none
    raises [] x = cc
    raises (d ∷ s) x = rw x
