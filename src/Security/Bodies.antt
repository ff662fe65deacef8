-- ===== src/Security/Bodies.antt =====
-- How much of a body reaches the application.
use fire2api.Base.{
  ℕ, ℤ, ◌+◌, ◌≤◌, ◌<◌, ◌≡◌, refl, ap, Bool, true, false, List, [], ◌∷◌, Option, if◌then◌else◌, ltb,
  length, arith,
}
use fire2api.Text.{Text}
use fire2api.Security.{
  Message, body, other, cons, limited, Handled, refused, passed, is_refused, receive_all,
}

-- The bytes of the bodies.
abbrev pub total : List Message → ℕ
total [] = 0
total (other ∷ ms) = total ms
total (body b ∷ ms) = length b + total ms

-- From the bytes consumed before: what is handed on is within the bound, all of the messages where
-- nothing is cut, and something is cut only where all of them exceed the bound.
abbrev IsLimited : ℕ → ℕ → List Message → List Message × Bool → Type 0
IsLimited max_bytes consumed ms (given, true) =
    (consumed + total given ≤ max_bytes) × (max_bytes < consumed + total ms)
IsLimited max_bytes consumed ms (given, false) = (consumed + total given ≤ max_bytes) × (given ≡ ms)

limited-IsLimited :
    (max_bytes consumed : ℕ) (ms : List Message)
    → consumed ≤ max_bytes
    → IsLimited max_bytes consumed ms (limited max_bytes consumed ms)
unfolding limited
limited-IsLimited max_bytes consumed [] h = (omega arith, refl)
limited-IsLimited max_bytes consumed (other ∷ ms) h =
    go (limited max_bytes consumed ms) (limited-IsLimited max_bytes consumed ms h)
  where
    go :
        (r : List Message × Bool)
        → IsLimited max_bytes consumed ms r
        → IsLimited max_bytes consumed (other ∷ ms) (cons other r)
    go (given, true) x = x
    go (given, false) x = (x.0, ap (◌∷◌ other) x.1)
limited-IsLimited max_bytes consumed (body b ∷ ms) h =
    split (ltb max_bytes (consumed + length b)) refl
      (limited-IsLimited max_bytes (consumed + length b) ms)
  where
    over : (m c b t : ℕ) → ltb m (c + b) ≡ true → m < c + (b + t)
    over m c b t x = ground arith

    within : (m c b : ℕ) → ltb m (c + b) ≡ false → c + b ≤ m
    within m c b x = ground arith

    go :
        (r : List Message × Bool)
        → IsLimited max_bytes (consumed + length b) ms r
        → IsLimited max_bytes consumed (body b ∷ ms) (cons (body b) r)
    go (given, true) x = (omega (arith, x.0), omega (arith, x.1))
    go (given, false) x = (omega (arith, x.0), ap (◌∷◌ (body b)) x.1)

    split :
        (t : Bool)
        → ltb max_bytes (consumed + length b) ≡ t
        → (consumed + length b ≤ max_bytes
            → IsLimited max_bytes
                (consumed + length b)
                ms
                (limited max_bytes (consumed + length b) ms))
        → IsLimited max_bytes consumed
            (body b ∷ ms)
            (if t then ([], true) else cons (body b) (limited max_bytes (consumed + length b) ms))
    split true e ih = (omega (arith, h), over max_bytes consumed (length b) (total ms) e)
    split false e ih =
        go (limited max_bytes (consumed + length b) ms)
          (ih (within max_bytes consumed (length b) e))

abbrev pub IsWithin : (Text → Option ℤ) → ℕ → Option Text → List Message → Handled → Type 0
IsWithin parse_int max_bytes content_length ms refused =
    is_refused parse_int max_bytes content_length ≡ true
IsWithin parse_int max_bytes content_length ms (passed (given, true)) =
    (total given ≤ max_bytes) × (max_bytes < total ms)
IsWithin parse_int max_bytes content_length ms (passed (given, false)) =
    (total given ≤ max_bytes) × (given ≡ ms)

-- Whatever a client sends and whatever length it declares, the application never receives more bytes
-- of the body than the bound; a request is answered at once only by its declared length, is cut
-- off only where its body really exceeds the bound, and is received whole otherwise.
pub receive_all-IsWithin :
    (parse_int : Text → Option ℤ) (max_bytes : ℕ) (content_length : Option Text) (ms : List Message)
    → IsWithin parse_int max_bytes content_length ms
        (receive_all parse_int max_bytes content_length ms)
unfolding receive_all
receive_all-IsWithin parse_int max_bytes content_length ms =
    split (is_refused parse_int max_bytes content_length) refl
  where
    go :
        (r : List Message × Bool)
        → IsLimited max_bytes 0 ms r
        → IsWithin parse_int max_bytes content_length ms (passed r)
    go (given, true) x = (omega (arith, x.0), omega (arith, x.1))
    go (given, false) x = (omega (arith, x.0), x.1)

    split :
        (t : Bool)
        → is_refused parse_int max_bytes content_length ≡ t
        → IsWithin parse_int max_bytes content_length ms
            (if t then refused else passed (limited max_bytes 0 ms))
    split true e = e
    split false e = go (limited max_bytes 0 ms) (limited-IsLimited max_bytes 0 ms (omega arith))
