-- ===== src/Auth/Repository.antt =====
-- The clients table, src/auth/client.repository.ts. The rows stand in the order of their rowids,
-- which the index on `api_key_prefix` keeps. `none` is the exception of a violated constraint.
use ms_gatgeway_llm.Base.{
  ℕ, String, Bool, true, false, not, ◌||◌, ◌&&◌, Option, none, some, List, [], ◌∷◌, Dict, get, put,
  remove, string_key, ◌==◌, nat_eq, filter, length, join, split, or_else, is_present, if◌then◌else◌,
}

pub record ClientRow : Type 0 where
  pub name : String
  pub api_key_hash : String
  pub api_key_prefix : String
  pub scopes : String
  pub rate_limit_rpm : ℕ
  pub rate_limit_tpm : Option ℕ
  pub created_at : ℕ
  pub last_used_at : Option ℕ
  pub revoked_at : Option ℕ

pub record Client : Type 0 where
  pub id : String
  pub name : String
  pub api_key_hash : String
  pub api_key_prefix : String
  pub scopes : List String
  pub rate_limit_rpm : ℕ
  pub rate_limit_tpm : Option ℕ
  pub created_at : ℕ
  pub last_used_at : Option ℕ
  pub revoked : Bool

-- By the primary key `id`.
abbrev pub Clients : Type 0
Clients = Dict String ClientRow

abbrev pub is_set {ℓ} : {A : Type ℓ} → Option A → Bool
is_set none = false
is_set (some a) = true

-- `join(',')`, and `split(',')` without the empty pieces.
unfoldable pub scopes_text : List String → String
scopes_text scopes = join "," scopes

unfoldable pub scopes_of : String → List String
scopes_of text = filter is_present (split "," text)

unfoldable pub to_client : String → ClientRow → Client
to_client id row = record {
  id = id;
  name = row.name;
  api_key_hash = row.api_key_hash;
  api_key_prefix = row.api_key_prefix;
  scopes = scopes_of row.scopes;
  rate_limit_rpm = row.rate_limit_rpm;
  rate_limit_tpm = row.rate_limit_tpm;
  created_at = row.created_at;
  last_used_at = row.last_used_at;
  revoked = is_set row.revoked_at;
}

pub record NewClient : Type 0 where
  pub id : String
  pub name : String
  pub scopes : Option (List String)
  pub rate_limit_rpm : Option ℕ
  pub rate_limit_tpm : Option (Option ℕ)

pub record ClientFields : Type 0 where
  pub name : String
  pub scopes : List String
  pub rate_limit_rpm : ℕ
  pub rate_limit_tpm : Option ℕ

-- The CHECKs: both limits are positive.
abbrev pub is_zero : Option ℕ → Bool
is_zero none = false
is_zero (some n) = nat_eq n 0

abbrev pub is_refused : ℕ → Option ℕ → Bool
is_refused rpm tpm = nat_eq rpm 0 || is_zero tpm

-- `UPDATE … WHERE id = ?`: without such a row nothing happens.
unfoldable pub change : String → (ClientRow → ClientRow) → Clients → Clients
change id f db = elim (get id db) [ none ↦ db | some row ↦ put id (f row) db ]

abbrev pub default_scopes : List String
default_scopes = "chat.read" ∷ "chat.write" ∷ []

abbrev pub new_row : NewClient → String → String → ℕ → ClientRow
new_row input hash prefix now = record {
  name = input.name;
  api_key_hash = hash;
  api_key_prefix = prefix;
  scopes = scopes_text (or_else input.scopes default_scopes);
  rate_limit_rpm = or_else input.rate_limit_rpm 60;
  rate_limit_tpm = or_else input.rate_limit_tpm none;
  created_at = now;
  last_used_at = none;
  revoked_at = none;
}

unfoldable pub insert_client : NewClient → String → String → ℕ → Clients → Option Clients
insert_client input hash prefix now db =
    let row = new_row input hash prefix now in
    if is_set (get input.id db) || is_refused row.rate_limit_rpm row.rate_limit_tpm
    then none
    else some (put input.id row db)

abbrev pub with_fields : ClientFields → ClientRow → ClientRow
with_fields fields row = record row {
  name = fields.name;
  scopes = scopes_text fields.scopes;
  rate_limit_rpm = fields.rate_limit_rpm;
  rate_limit_tpm = fields.rate_limit_tpm;
}

unfoldable pub update_client : String → ClientFields → Clients → Option Clients
update_client id fields db =
    if is_set (get id db) && is_refused fields.rate_limit_rpm fields.rate_limit_tpm
    then none
    else some (change id (with_fields fields) db)

unfoldable pub delete_client : String → Clients → Clients
delete_client id db = remove id db

unfoldable pub rotate_hash : String → String → String → Clients → Clients
rotate_hash id hash prefix db =
    change id (λ row. record row { api_key_hash = hash; api_key_prefix = prefix }) db

unfoldable pub find_by_id : String → Clients → Option Client
find_by_id id db = elim (get id db) [ none ↦ none | some row ↦ some (to_client id row) ]

abbrev pub is_active_with : String → ClientRow → Bool
is_active_with prefix row = row.api_key_prefix == prefix && not (is_set row.revoked_at)

-- The first of the rows that match, as `.get` gives it.
unfoldable pub find_active_by_prefix : String → Clients → Option Client
find_active_by_prefix prefix [] = none
find_active_by_prefix prefix ((id, row) ∷ db) =
    if is_active_with prefix row then some (to_client id row) else find_active_by_prefix prefix db

unfoldable pub count_clients : Clients → ℕ
count_clients db = length db

unfoldable pub touch_last_used : String → ℕ → Clients → Clients
touch_last_used id seconds db = change id (λ row. record row { last_used_at = some seconds }) db

unfoldable pub revoke_client : String → ℕ → Clients → Clients
revoke_client id seconds db = change id (λ row. record row { revoked_at = some seconds }) db
