-- ===== src/Auth.antt =====
-- app/core/auth_middleware.py and app/core/auth_service.py: who is let through to the admin and
-- the dynamic API. The limiter is RateLimit, the keys are AccessKey. The header values and the
-- path are texts of code points; a response is named by its status and detail.
pub mod Gate
pub mod Lockout
pub mod Paths
mod Tests
use fire2api.Base.{
  ℕ, zero, suc, ◌+◌, ◌≡◌, String, Bool, true, false, ◌&&◌, ◌||◌, not, List, [], ◌∷◌, ◌++◌, Option,
  none, some, leb, ltb, ◌==◌, nat_eq, string_eq, list_eq, if◌then◌else◌, keep_if, any, length, take,
  drop,
}
use fire2api.Text.{Text, Unicode, codes, starts_with, strip, lstrip, rstrip}
use fire2api.RateLimit
use fire2api.RateLimit.{Limiter, Limits}
use fire2api.AccessKey
use fire2api.AccessKey.{has_active_keys, validate_token, register_usage}

pub data Area : Type 0 where
  admin api : Area

-- `_under`.
abbrev pub under : Text → Text → Bool
under prefix path = path == prefix || starts_with (prefix ++ b'/' ∷ []) path

unfoldable pub requires_auth : Text → Option Area
unfolding starts_with
requires_auth path =
    if under (codes "/api/base/admin") path
    then some admin
    else if starts_with (codes "/api/") path && not (under (codes "/api/base") path)
    then some api
    else none

-- `headers.get("authorization", "")` is empty where the header is missing.
unfoldable pub extract_token : Unicode → Text → Option Text
unfolding starts_with lstrip rstrip
extract_token u value =
    let bearer = starts_with (codes "bearer ") (u.lower value) in
    let token = strip u.is_space (if bearer then drop 7 value else value) in
    if token == []
      || ltb 512 (length token)
      || any (λ c. c == b'\r' || c == b'\n' || c == b'\t') token
    then none
    else some token

abbrev pub is_ascii : Text → Bool
is_ascii s = not (any (λ c. leb 128 c) s)

-- `hmac.compare_digest` of two texts: it raises TypeError unless both are ASCII.
abbrev pub compare_digest : Text → Text → Option Bool
compare_digest a b = if is_ascii a && is_ascii b then some (a == b) else none

-- `AuthService.validate_admin_token`; `none` where it raises.
abbrev pub validate_admin_token : Text → Option Text → Option Bool
validate_admin_token admin_key none = some false
validate_admin_token admin_key (some []) = some false
validate_admin_token admin_key (some (c ∷ token)) = compare_digest (c ∷ token) admin_key

abbrev pub scope_name : Area → String
scope_name admin = "admin"
scope_name api = "api"

-- The state that `AuthMiddleware` reads and writes; the audit holds area and remote address.
pub record World : Type 0 where
  pub limiter : Limiter
  pub keys : AccessKey.Table
  pub audit : List (Area × String)

pub record Config : Type 0 where
  pub unicode : Unicode
  pub sha256 : Text → String
  pub limits : Limits
  pub admin_api_key : Text

pub record Request : Type 0 where
  pub path : Text
  pub authorization : Text
  pub remote : String
  -- `time.monotonic()` in nanoseconds, and the clock of the database.
  pub monotonic : ℕ
  pub now : ℕ

-- `forwarded` is the call of the application, with `owner_hash` as the token it is made of, the
-- admin flag and `access_key_id`. `raised` is an exception that leaves the middleware.
pub data Response : Type 0 where
  forwarded_public : Response
  forwarded : Text → Bool → Option ℕ → Response
  rate_limited : ℕ → Response
  not_configured unauthorized raised : Response

abbrev pub key_of : Area → Request → RateLimit.Key
key_of a q = (scope_name a, q.remote)

-- `if not valid: ...`.
abbrev pub refuse : Config → World → Area → Request → World × Response
refuse c w a q =
    let (limiter, wait) = RateLimit.register_failure c.limits w.limiter (key_of a q) q.monotonic in
    (
      record w { limiter = limiter; audit = w.audit ++ (a, q.remote) ∷ [] },
      if wait == 0 then unauthorized else rate_limited wait,
    )

abbrev pub or_empty : Option Text → Text
or_empty none = []
or_empty (some t) = t

abbrev pub admit_admin : Config → World → Request → Option Text → Option Bool → World × Response
admit_admin c w q token none = (w, raised)
admit_admin c w q token (some false) = refuse c w admin q
admit_admin c w q token (some true) = (
  record w { limiter = RateLimit.register_success w.limiter (key_of admin q) },
  forwarded (or_empty token) true none,
)

abbrev pub admit_api :
    Config → World → Request → Option Text → Option AccessKey.Row → World × Response
admit_api c w q token none = refuse c w api q
admit_api c w q token (some r) = (
  record w {
    limiter = RateLimit.register_success w.limiter (key_of api q);
    keys = register_usage w.keys r.id q.path q.now;
  },
  forwarded (or_empty token) false (some r.id),
)

abbrev pub authenticate : Config → World → Area → Request → Option Text → World × Response
authenticate c w admin q token =
    admit_admin c w q token (validate_admin_token c.admin_api_key token)
authenticate c w api q token =
    if not (has_active_keys w.keys)
    then (w, not_configured)
    else admit_api c w q token (validate_token c.sha256 w.keys (or_empty token))

abbrev pub guarded : Config → World → Request → Option Area → World × Response
guarded c w q none = (w, forwarded_public)
guarded c w q (some a) =
    let (limiter, wait) = RateLimit.retry_after w.limiter (key_of a q) q.monotonic in
    let w = record w { limiter = limiter } in
    if not (wait == 0)
    then (w, rate_limited wait)
    else authenticate c w a q (extract_token c.unicode q.authorization)

-- `AuthMiddleware.__call__` for an HTTP scope.
unfoldable pub handle : Config → World → Request → World × Response
handle c w q = guarded c w q (requires_auth q.path)
