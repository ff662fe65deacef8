-- ===== src/Auth/Lockout.antt =====
-- What a lockout answers, through the middleware.
use fire2api.Base.{◌≡◌, true, false, none, some, nat_eq, string_eq, list_eq}
use fire2api.RateLimit
use fire2api.RateLimit.{Limiter}
use fire2api.AccessKey.{validate_token, has_active_keys}
use fire2api.Auth.{
  Area, admin, api, extract_token, validate_admin_token, World, Config, Request, key_of, or_empty,
}

-- The request shows nothing that its area accepts, where the area is in use.
abbrev pub Fails : Config → World → Request → Area → Type 0
Fails c w q admin =
    validate_admin_token c.admin_api_key (extract_token c.unicode q.authorization) ≡ some false
Fails c w q api =
    (has_active_keys w.keys ≡ true)
    × (validate_token c.sha256 w.keys (or_empty (extract_token c.unicode q.authorization)) ≡ none)

-- The limiter that a failed request leaves.
abbrev failed_limiter : Config → World → Area → Request → Limiter
failed_limiter c w a q =
    (RateLimit.register_failure c.limits
      (RateLimit.retry_after w.limiter (key_of a q) q.monotonic).0 (key_of a q) q.monotonic).0
