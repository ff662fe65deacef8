-- ===== src/Security/Tests.antt =====
-- Small bodies.
use fire2api.Base.{ℤ, pos, ◌≡◌, refl, true, List, [], ◌∷◌, Option, some}
use fire2api.Text.{Text, codes}
use fire2api.Security.{Message, body, other, passed, receive_all, request_id_of}
use fire2api.Security.Bodies.{IsWithin, receive_all-IsWithin}

parse_int : Text → Option ℤ
parse_int s = some (pos 3)

abbrev messages : List Message
messages = body (1 ∷ 2 ∷ []) ∷ other ∷ body (3 ∷ 4 ∷ []) ∷ []

-- The declared length is below the bound, and the body above.
cut :
    receive_all parse_int 3 (some (codes "3")) messages
    ≡ passed (body (1 ∷ 2 ∷ []) ∷ other ∷ [], true)
unfolding parse_int receive_all
cut = refl

replaced : request_id_of (codes "a b") (codes "new") ≡ codes "new"
replaced = refl

receive_all-IsWithin_example :
    IsWithin parse_int 3
      (some (codes "3"))
      messages
      (receive_all parse_int 3 (some (codes "3")) messages)
receive_all-IsWithin_example = receive_all-IsWithin parse_int 3 (some (codes "3")) messages
