-- ===== src/AccessKey/Tests.antt =====
-- The keys of one concrete table.
use fire2api.Base.{zero, suc, ◌≡◌, ◌≤◌, refl, String, true, [], ◌∷◌, none, some, length}
use fire2api.Text.{Text, codes, lstrip, rstrip}
use fire2api.Text.Ascii.{ascii}
use fire2api.AccessKey.{Row, Table, created, too_short, create_key, delete_key, validate_token}
use fire2api.AccessKey.Tokens.{create_key-validates, delete_key-revokes}

-- A hash that tells these tokens apart.
abbrev hash : Text → String
hash [] = "nothing"
hash (c ∷ s) = elim c [ zero ↦ "zero" | suc n ↦ "other" ]

abbrev empty : Table
empty = record { rows = []; next_id = 1 }

abbrev token : Text
token = codes "0123456789abcdef0123456789abcdef"

abbrev keys : Table
keys = (create_key ascii.is_space hash empty (codes " app ") true (some token) [] 5).0

made :
    (create_key ascii.is_space hash empty (codes " app ") true (some token) [] 5).1
    ≡ created 1 token
unfolding create_key lstrip rstrip
made = refl

short_token :
    (create_key ascii.is_space hash empty [] true (some (codes "0123")) [] 5).1 ≡ too_short
unfolding create_key lstrip rstrip
short_token = refl

create_key-validates_example :
    (r : Row) × (validate_token hash keys token ≡ some r) × (r.id ≡ 1) × (32 ≤ length token)
create_key-validates_example =
    create_key-validates ascii.is_space hash empty (codes " app ") (some token) [] 5 1 token made

abbrev row : Row
row = record {
  id = 1;
  description = codes "app";
  key_hash = hash token;
  key_prefix = codes "0123456789ab";
  is_active = true;
  usage_count = 0;
  last_used_at = none;
  last_used_path = none;
  created_at = 5;
  updated_at = 5;
}

abbrev one_key : Table
one_key = record { rows = row ∷ []; next_id = 2 }

valid_before : validate_token hash one_key token ≡ some row
unfolding validate_token
valid_before = refl

delete_key-revokes_example : validate_token hash (delete_key one_key 1).0 token ≡ none
delete_key-revokes_example = delete_key-revokes hash one_key token row (refl, tt) valid_before
