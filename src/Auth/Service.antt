-- ===== src/Auth/Service.antt =====
-- The client service, src/auth/client.service.ts. Times are in milliseconds; the random bytes of a
-- new key are an argument, as is whether the write of `last_used_at` throws.
use ms_gatgeway_llm.Base.{
  ℕ, ◌+◌, ◌/◌, ◌⊎◌, inl, inr, String, Bool, true, false, not, Option, none, some, List, [], ◌∷◌,
  Dict, get, put, remove, string_key, ltb, nat_eq, or_else, is_blank, if◌then◌else◌,
}
use ms_gatgeway_llm.Auth.Keys.{Crypto, extract_prefix, generate_api_key, hash_api_key, is_key_of}
use ms_gatgeway_llm.Auth.Repository.{
  Client, Clients, ClientFields, NewClient, insert_client, update_client, delete_client,
  rotate_hash, find_by_id, find_active_by_prefix, count_clients, touch_last_used, revoke_client,
}
use ms_gatgeway_llm.Auth.Cache.{RedisTexts, Codec, get_cached, set_cached}

pub record ClientService (S : Type 0) : Type 0 where
  pub repo : Clients
  pub cache : S
  pub last_touched_at : Dict String ℕ

-- What an operation throws.
pub data ClientError : Type 0 where
  not_found : ClientError
  is_revoked : ClientError
  no_scope : ClientError
  no_rate : ClientError
  bad_key : ClientError
  constraint : ClientError
  not_loaded : ClientError

-- The service after an operation, and its result.
abbrev pub Outcome : Type 0 → Type 0 → Type 0
Outcome S A = ClientService S × (ClientError ⊎ A)

abbrev pub touch_throttle_ms : ℕ
touch_throttle_ms = 60000

pub record CreatedClient : Type 0 where
  pub client : Client
  pub plaintext_api_key : String

pub record ClientUpdate : Type 0 where
  pub name : Option String
  pub scopes : Option (List String)
  pub rate_limit_rpm : Option ℕ
  pub rate_limit_tpm : Option (Option ℕ)

abbrev pub merged : ClientUpdate → Client → ClientFields
merged fields existing = record {
  name = or_else fields.name existing.name;
  scopes = or_else fields.scopes existing.scopes;
  rate_limit_rpm = or_else fields.rate_limit_rpm existing.rate_limit_rpm;
  rate_limit_tpm = or_else fields.rate_limit_tpm existing.rate_limit_tpm;
}

abbrev pub is_empty : List String → Bool
is_empty [] = true
is_empty (scope ∷ scopes) = false

abbrev pub fields_of : Client → ClientFields
fields_of c = record {
  name = c.name;
  scopes = c.scopes;
  rate_limit_rpm = c.rate_limit_rpm;
  rate_limit_tpm = c.rate_limit_tpm;
}

abbrev pub all_scopes : List String
all_scopes = "admin" ∷ "chat.read" ∷ "chat.write" ∷ []

abbrev pub admin_input : Option String → Option String → Option ℕ → NewClient
admin_input id name rpm = record {
  id = or_else id "admin";
  name = or_else name "Default admin";
  scopes = some all_scopes;
  rate_limit_rpm = some (or_else rpm 60);
  rate_limit_tpm = none;
}

module _ {S : Type 0} where
  -- A failed write is forgotten, so that the next request tries again.
  unfoldable pub touch_last_used_if_stale :
      String → ℕ → (fails : Bool) → ClientService S → ClientService S
  touch_last_used_if_stale id now fails s =
      let last = or_else (get id s.last_touched_at) 0 in
      if ltb now (last + touch_throttle_ms)
      then s
      else if fails
      then record s { last_touched_at = remove id (put id now s.last_touched_at) }
      else record s {
        last_touched_at = put id now s.last_touched_at;
        repo = touch_last_used id (now / 1000) s.repo;
      }

  unfoldable pub find_client : String → ClientService S → Option Client
  find_client id s = find_by_id id s.repo

  unfoldable pub revoke : String → ℕ → ClientService S → ClientService S
  revoke id now s = record s { repo = revoke_client id (now / 1000) s.repo }

  unfoldable pub delete : String → ClientService S → ClientService S
  delete id s = record s { repo = delete_client id s.repo }

  -- The row is read again after the write.
  abbrev pub loaded : String → ClientService S → Outcome S Client
  loaded id s = elim (find_client id s) [ none ↦ (s, inl not_loaded) | some c ↦ (s, inr c) ]

  unfoldable pub update_existing : String → ClientFields → ClientService S → Outcome S Client
  update_existing id next s =
      if is_empty next.scopes
      then (s, inl no_scope)
      else if nat_eq next.rate_limit_rpm 0
      then (s, inl no_rate)
      else elim (update_client id next s.repo) [
        | none ↦ (s, inl constraint)
        | some db ↦ loaded id (record s { repo = db })
      ]

  unfoldable pub update : String → ClientUpdate → ClientService S → Outcome S Client
  update id fields s = elim (find_client id s) [
    | none ↦ (s, inl not_found)
    | some existing ↦ update_existing id (merged fields existing) s
  ]

  module _ (crypto : Crypto) (pepper : String) where
    unfoldable pub insert_hashed :
        NewClient → String → String → ℕ → ClientService S → Outcome S Client
    insert_hashed input hash plaintext now s =
        elim (insert_client input hash (extract_prefix plaintext) (now / 1000) s.repo) [
          | none ↦ (s, inl constraint)
          | some db ↦ loaded input.id (record s { repo = db })
        ]

    unfoldable pub insert : NewClient → String → ℕ → ClientService S → Outcome S Client
    insert input plaintext now s = elim (hash_api_key crypto pepper plaintext) [
      | none ↦ (s, inl bad_key)
      | some hash ↦ insert_hashed input hash plaintext now s
    ]

    -- A key that is shown once.
    abbrev pub shown : String → Outcome S Client → Outcome S CreatedClient
    shown plaintext (s, inl e) = (s, inl e)
    shown plaintext (s, inr c) = (s, inr (record { client = c; plaintext_api_key = plaintext }))

    unfoldable pub create : NewClient → String → ℕ → ClientService S → Outcome S CreatedClient
    create input random_hex now s =
        let plaintext = generate_api_key random_hex in
        shown plaintext (insert input plaintext now s)

    -- The row is written twice: the columns that a caller may change, as they are, then the hash.
    unfoldable pub rotate_existing :
        Client → String → String → ClientService S → Outcome S CreatedClient
    rotate_existing existing hash plaintext s =
        elim (update_client existing.id (fields_of existing) s.repo) [
          | none ↦ (s, inl constraint)
          | some db ↦ shown plaintext (
              loaded existing.id
                (record s { repo = rotate_hash existing.id hash (extract_prefix plaintext) db }))
        ]

    unfoldable pub rotate_client : Client → String → ClientService S → Outcome S CreatedClient
    rotate_client existing plaintext s =
        if existing.revoked
        then (s, inl is_revoked)
        else elim (hash_api_key crypto pepper plaintext) [
          | none ↦ (s, inl bad_key)
          | some hash ↦ rotate_existing existing hash plaintext s
        ]

    unfoldable pub rotate_key : String → String → ClientService S → Outcome S CreatedClient
    rotate_key id random_hex s = elim (find_client id s) [
      | none ↦ (s, inl not_found)
      | some existing ↦ rotate_client existing (generate_api_key random_hex) s
    ]

    module _ (redis : RedisTexts S) (codec : Codec) where
      unfoldable pub verify_cold :
          String → ℕ → Bool → ClientService S → ClientService S × Option Client
      verify_cold plaintext now fails s =
          elim (find_active_by_prefix (extract_prefix plaintext) s.repo) [
            | none ↦ (s, none)
            | some candidate ↦
                if not (is_key_of crypto pepper plaintext candidate.api_key_hash)
                then (s, none)
                else let touched = touch_last_used_if_stale candidate.id now fails s in
                  (
                    record touched {
                      cache = set_cached codec redis plaintext candidate now touched.cache;
                    },
                    some candidate,
                  )
          ]

      -- The write to the cache is sent before the answer, and taken to come to Redis at that time.
      unfoldable pub verify_api_key :
          String → ℕ → Bool → ClientService S → ClientService S × Option Client
      verify_api_key plaintext now fails s =
          if is_blank plaintext
          then (s, none)
          else elim (get_cached codec redis plaintext now s.cache) [
            | some cached ↦ (touch_last_used_if_stale cached.id now fails s, some cached)
            | none ↦ verify_cold plaintext now fails s
          ]

    abbrev pub first_boot : Outcome S CreatedClient → Outcome S (Option CreatedClient)
    first_boot (after, inl e) = (after, inl e)
    first_boot (after, inr created) = (after, inr (some created))

    -- src/auth/seed-default-client.ts: `none` where there is a client already.
    unfoldable pub ensure_default_admin_client :
        Option String
        → Option String
        → Option ℕ
        → String
        → ℕ
        → ClientService S
        → Outcome S (Option CreatedClient)
    ensure_default_admin_client id name rpm random_hex now s =
        if ltb 0 (count_clients s.repo)
        then (s, inr none)
        else first_boot (create (admin_input id name rpm) random_hex now s)
