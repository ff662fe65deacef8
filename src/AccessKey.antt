-- ===== src/AccessKey.antt =====
-- app/core/access_key_service.py and the table `access_keys`. SHA-256, the generated token and
-- the clock are arguments. Each method is one transaction.
pub mod Tokens
mod Tests
use fire2api.Base.{
  ℕ, zero, suc, ◌+◌, ◌≡◌, String, Bool, true, false, ◌&&◌, ◌||◌, not, List, [], ◌∷◌, ◌++◌, Option,
  none, some, leb, ltb, ◌==◌, nat_eq, string_eq, if◌then◌else◌, keep_if, any, length, take,
}
use fire2api.Text.{Text, strip, lstrip, rstrip}

pub record Row : Type 0 where
  pub id : ℕ
  pub description : Text
  pub key_hash : String
  pub key_prefix : Text
  pub is_active : Bool
  pub usage_count : ℕ
  pub last_used_at : Option ℕ
  pub last_used_path : Option Text
  pub created_at : ℕ
  pub updated_at : ℕ

pub record Table : Type 0 where
  pub rows : List Row
  pub next_id : ℕ

pub data Creation : Type 0 where
  created : ℕ → Text → Creation
  too_short : Creation
  already_there : Creation

abbrev pub has_hash : String → List Row → Bool
has_hash h = any (λ r. r.key_hash == h)

abbrev pub or_text : Text → Text → Text
or_text [] t = t
or_text (c ∷ s) t = c ∷ s

module _ (is_space : ℕ → Bool) (sha256 : Text → String) where
  -- `(plain_key or "").strip() or cls.generate_token()`.
  abbrev pub chosen_token : Option Text → Text → Text
  chosen_token none generated = generated
  chosen_token (some plain) generated = or_text (strip is_space plain) generated

  abbrev pub new_row : Table → Text → Bool → Text → ℕ → Row
  new_row t description is_active token now = record {
    id = t.next_id;
    description = strip is_space description;
    key_hash = sha256 token;
    key_prefix = take 12 token;
    is_active = is_active;
    usage_count = 0;
    last_used_at = none;
    last_used_path = none;
    created_at = now;
    updated_at = now;
  }

  -- The unique constraint on `key_hash` makes the insertion fail.
  unfoldable pub create_key : Table → Text → Bool → Option Text → Text → ℕ → Table × Creation
  unfolding lstrip rstrip
  create_key t description is_active plain_key generated now =
      let token = chosen_token plain_key generated in
      if ltb (length token) 32
      then (t, too_short)
      else if has_hash (sha256 token) t.rows
      then (t, already_there)
      else (
        record {
          rows = t.rows ++ new_row t description is_active token now ∷ [];
          next_id = t.next_id + 1;
        },
        created t.next_id token,
      )

abbrev pub updated_row : (ℕ → Bool) → ℕ → Text → Bool → ℕ → Row → Row
updated_row is_space id description is_active now r =
    if r.id == id
    then record r {
      description = strip is_space description;
      is_active = is_active;
      updated_at = now;
    }
    else r

-- `update_key`, and whether a row was there.
abbrev pub map_rows : (Row → Row) → List Row → List Row
map_rows f [] = []
map_rows f (r ∷ rs) = f r ∷ map_rows f rs

unfoldable pub update_key : (ℕ → Bool) → Table → ℕ → Text → Bool → ℕ → Table × Bool
unfolding lstrip rstrip
update_key is_space t id description is_active now = (
  record t { rows = map_rows (updated_row is_space id description is_active now) t.rows },
  any (λ r. r.id == id) t.rows,
)

unfoldable pub delete_key : Table → ℕ → Table × Bool
delete_key t id =
    (record t { rows = keep_if (λ r. not (r.id == id)) t.rows }, any (λ r. r.id == id) t.rows)

unfoldable pub has_active_keys : Table → Bool
has_active_keys t = any (λ r. r.is_active) t.rows

abbrev pub find_active : String → List Row → Option Row
find_active h [] = none
find_active h (r ∷ rs) = if r.key_hash == h && r.is_active then some r else find_active h rs

unfoldable pub validate_token : (Text → String) → Table → Text → Option Row
validate_token sha256 t [] = none
validate_token sha256 t (c ∷ token) = find_active (sha256 (c ∷ token)) t.rows

abbrev pub used_row : ℕ → Text → ℕ → Row → Row
used_row id path now r =
    if r.id == id
    then record r {
      usage_count = r.usage_count + 1;
      last_used_at = some now;
      last_used_path = some (take 500 path);
      updated_at = now;
    }
    else r

unfoldable pub register_usage : Table → ℕ → Text → ℕ → Table
register_usage t id path now = record t { rows = map_rows (used_row id path now) t.rows }
