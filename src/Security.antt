-- ===== src/Security.antt =====
-- `RequestSecurityMiddleware` of app/core/middleware.py: the identifier of a request and the bounds on
-- its body. Header values are texts; `int` of one, and the new identifier, are arguments.
pub mod Bodies
mod Tests
use fire2api.Base.{
  ℕ, ℤ, pos, negsuc, zero, suc, ◌+◌, Bool, true, false, ◌&&◌, ◌||◌, not, List, [], ◌∷◌, ◌++◌,
  Option, none, some, ◌==◌, nat_eq, list_eq, if◌then◌else◌, all, ltb, leb, length,
}
use fire2api.Text.{Text, is_digit, is_upper, is_lower}

-- `[A-Za-z0-9._-]`.
abbrev pub is_safe : ℕ → Bool
is_safe c = is_upper c || (is_lower c || (is_digit c || (c == b'.' || (c == b'_' || c == b'-'))))

-- `SAFE_REQUEST_ID`.
abbrev pub is_request_id : Text → Bool
is_request_id s = all is_safe s && (ltb 0 (length s) && leb (length s) 64)

abbrev pub request_id_of : Text → Text → Text
request_id_of incoming fresh = if is_request_id incoming then incoming else fresh

abbrev pub exceeds : ℕ → ℤ → Bool
exceeds max_bytes (pos n) = ltb max_bytes n
exceeds max_bytes (negsuc n) = false

abbrev pub too_large : ℕ → Option ℤ → Bool
too_large max_bytes none = true
too_large max_bytes (some n) = exceeds max_bytes n

-- The header content-length, where there is one that is not empty.
abbrev pub is_refused : (Text → Option ℤ) → ℕ → Option Text → Bool
is_refused parse_int max_bytes none = false
is_refused parse_int max_bytes (some []) = false
is_refused parse_int max_bytes (some (c ∷ s)) = too_large max_bytes (parse_int (c ∷ s))

-- A message that the application receives: a part of the body, or another.
pub data Message : Type 0 where
  body : List ℕ → Message
  other : Message

-- What a call hands on: the messages, and whether the next one was too much.
abbrev pub cons : Message → List Message × Bool → List Message × Bool
cons m (ms, cut) = (m ∷ ms, cut)

-- `limited_receive`, called until the application has all messages or RequestBodyTooLarge is raised.
unfoldable pub limited : ℕ → ℕ → List Message → List Message × Bool
limited max_bytes consumed [] = ([], false)
limited max_bytes consumed (other ∷ ms) = cons other (limited max_bytes consumed ms)
limited max_bytes consumed (body b ∷ ms) =
    let rest = cons (body b) (limited max_bytes (consumed + length b) ms) in
    if ltb max_bytes (consumed + length b) then ([], true) else rest

-- The answer of the middleware, or what the application is given.
pub data Handled : Type 0 where
  refused : Handled
  passed : List Message × Bool → Handled

unfoldable pub receive_all : (Text → Option ℤ) → ℕ → Option Text → List Message → Handled
unfolding limited
receive_all parse_int max_bytes content_length ms =
    if is_refused parse_int max_bytes content_length
    then refused
    else passed (limited max_bytes 0 ms)
