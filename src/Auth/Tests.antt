-- ===== src/Auth/Tests.antt =====
-- The middleware on concrete requests.
use fire2api.Base.{◌≡◌, refl, String, true, false, [], ◌∷◌, none, some, get}
use fire2api.Text.{Text, codes, starts_with, lstrip, rstrip}
use fire2api.Text.Ascii.{ascii}
use fire2api.RateLimit
use fire2api.RateLimit.{Limits, Limiter}
use fire2api.AccessKey
use fire2api.AccessKey.{Row, validate_token}
use fire2api.Auth.{requires_auth, extract_token, World, Config, Request, forwarded, raised, handle}
use fire2api.Auth.Gate.{Proves, handle-forwarded, handle-not_ascii}

abbrev hash : Text → String
hash [] = "nothing"
hash (c ∷ s) = "other"

abbrev config : Config
config = record {
  unicode = ascii;
  sha256 = hash;
  limits = record { attempts = 3; window_seconds = 60; lockout_seconds = 300 };
  admin_api_key = codes "admin-key";
}

abbrev key : Row
key = record {
  id = 4;
  description = codes "app";
  key_hash = "other";
  key_prefix = codes "tok";
  is_active = true;
  usage_count = 0;
  last_used_at = none;
  last_used_path = none;
  created_at = 5;
  updated_at = 5;
}

abbrev world : World
world = record {
  limiter = record { failures = []; blocked_until = [] };
  keys = record { rows = key ∷ []; next_id = 5 };
  audit = [];
}

abbrev request : Text → Text → Request
request path authorization = record {
  path = path;
  authorization = authorization;
  remote = "10.0.0.1";
  monotonic = 7;
  now = 9;
}

admin_passes :
    (handle config world (request (codes "/api/base/admin/queries") (codes "Bearer admin-key"))).1
    ≡ forwarded (codes "admin-key") true none
unfolding handle requires_auth starts_with extract_token lstrip rstrip RateLimit.retry_after get
admin_passes = refl

key_passes :
    (handle config world (request (codes "/api/orders") (codes "tok"))).1
    ≡ forwarded (codes "tok") false (some 4)
unfolding handle requires_auth starts_with extract_token lstrip rstrip RateLimit.retry_after get
    AccessKey.has_active_keys validate_token
key_passes = refl

handle-forwarded_example :
    Proves config world (request (codes "/api/orders") (codes "tok")) (codes "tok") false (some 4)
handle-forwarded_example =
    handle-forwarded config world (request (codes "/api/orders") (codes "tok")) (codes "tok") false
      (some 4) key_passes

-- Two failures are held, of one and two nanoseconds.
abbrev failing : World
failing = record world {
  limiter = record { failures = (("api", "10.0.0.1"), 1 ∷ 2 ∷ []) ∷ []; blocked_until = [] };
}

-- No token at all.
abbrev last_failure : Request
last_failure = request (codes "/api/orders") []

-- A good token, a nanosecond later.
abbrev later : Request
later = record (request (codes "/api/orders") (codes "tok")) { monotonic = 8 }

abbrev accented : Request
accented = request (codes "/api/base/admin") (233 ∷ [])

handle-not_ascii_example :
    ((handle config world accented).1 ≡ raised)
    × ((handle config world accented).0.limiter.failures ≡ [])
    × ((handle config world accented).0.audit ≡ [])
unfolding requires_auth starts_with extract_token lstrip rstrip RateLimit.retry_after get
handle-not_ascii_example = handle-not_ascii config world accented (233 ∷ []) refl refl refl refl
