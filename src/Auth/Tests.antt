-- ===== src/Auth/Tests.antt =====
-- A client that is created, verified, revoked and remembered, and the theorems at such histories.
use ms_gatgeway_llm.Base.{
  ℕ, ◌≡◌, ◌≢◌, ◌↔◌, ◌⊎◌, inr, refl, String, true, false, Option, none, some, List, [], ◌∷◌, get,
  put, remove, split, includes, join,
}
use ms_gatgeway_llm.Auth.Keys.{extract_prefix, generate_api_key, hash_api_key, is_key_of}
use ms_gatgeway_llm.Auth.Hashes.{is_key_of-hash_api_key}
use ms_gatgeway_llm.Auth.Repository.{
  Client, NewClient, to_client, scopes_of, scopes_text, insert_client, update_client, change,
  find_by_id, find_active_by_prefix, touch_last_used, revoke_client, rotate_hash,
}
use ms_gatgeway_llm.Auth.Cache.{Codec, cache_key, get_cached, set_cached}
use ms_gatgeway_llm.Auth.Service.{
  ClientService, CreatedClient, ClientUpdate, create, insert, insert_hashed, find_client, update,
  update_existing, revoke, verify_api_key, verify_cold, touch_last_used_if_stale,
}
use ms_gatgeway_llm.Auth.History.{
  Calls, verifies, creates, revokes, apply_call, after_calls, HoldsKey, WasVerified,
}
use ms_gatgeway_llm.Auth.Grants.{verify_api_key-IsGranted}
use ms_gatgeway_llm.Auth.Scopes.{update-scopes, pieces}
use ms_gatgeway_llm.Auth.Creation.{create-IsAccepted}
use ms_gatgeway_llm.Auth.Guards.{
  Headers, admit, extract_bearer_token, bearer_token, trim, missing_scopes, check_scopes,
  scopes_missing,
}
use ms_gatgeway_llm.Auth.Admission.{Guarded, admit-IsGuarded}
use ms_gatgeway_llm.Auth.Interfaces.{
  crypto, crypto-IsCrypto, unary, counted, redis, redis-IsRedisTexts, Stored, find_text,
  empty_cache,
}

abbrev pepper : String
pepper = "0123456789abcdef0123456789abcdef"

abbrev key : String
key = "sk-12345678"

abbrev input : NewClient
input = record {
  id = "acme";
  name = "Acme";
  scopes = none;
  rate_limit_rpm = none;
  rate_limit_tpm = none;
}

service : Unit {0}
unfolding get put remove split includes join extract_prefix generate_api_key hash_api_key is_key_of
    to_client scopes_of scopes_text insert_client update_client change find_by_id
    find_active_by_prefix touch_last_used revoke_client rotate_hash cache_key get_cached set_cached
    create insert insert_hashed find_client update update_existing revoke verify_api_key verify_cold
    touch_last_used_if_stale apply_call after_calls admit extract_bearer_token bearer_token trim
    missing_scopes check_scopes unary counted find_text
service = tt

abbrev empty : ClientService Stored
empty = record { repo = []; cache = []; last_touched_at = [] }

abbrev acme : Client
acme = record {
  id = "acme";
  name = "Acme";
  api_key_hash = "hmac$111111111110";
  api_key_prefix = "sk-12345";
  scopes = "chat.read" ∷ "chat.write" ∷ [];
  rate_limit_rpm = 60;
  rate_limit_tpm = none;
  created_at = 1000;
  last_used_at = none;
  revoked = false;
}

abbrev codec : Codec
codec = record { stringify = λ c. c.id; parse = λ text. some acme; sha256 = λ k. k }

abbrev created : CreatedClient
created = record { client = acme; plaintext_api_key = key }

abbrev with_acme : ClientService Stored
with_acme = record {
  repo =
      (
        "acme",
        record {
          name = "Acme";
          api_key_hash = "hmac$111111111110";
          api_key_prefix = "sk-12345";
          scopes = "chat.read,chat.write";
          rate_limit_rpm = 60;
          rate_limit_tpm = none;
          created_at = 1000;
          last_used_at = none;
          revoked_at = none;
        },
      )
      ∷ [];
  cache = [];
  last_touched_at = [];
}

creates_acme : create crypto pepper input "12345678" 1000000 empty ≡ (with_acme, inr created)
unfolding service
creates_acme = refl

abbrev verified : Calls
verified =
    (1000000, creates input "12345678")
    ∷ (1001000, verifies key false)
    ∷ (1002000, revokes "acme")
    ∷ []

abbrev verify_at : ℕ → Option Client
verify_at now =
    (verify_api_key crypto pepper redis codec key now false
      (after_calls crypto pepper redis codec verified empty)).1

-- A revoked client is let in until the cache forgets it.
remembered : verify_at 1300999 ≡ some acme
unfolding service
remembered = refl

forgotten : verify_at 1301000 ≡ none
unfolding service
forgotten = refl

verify_api_key-IsGranted_example :
    HoldsKey crypto pepper redis codec key acme
      (after_calls crypto pepper redis codec verified empty).repo
    ⊎ WasVerified crypto pepper redis codec key acme 1300999 verified empty
verify_api_key-IsGranted_example =
    verify_api_key-IsGranted crypto pepper redis codec redis-IsRedisTexts key 1300999 false verified
      empty acme empty_cache remembered

create-IsAccepted_example :
    (verify_api_key crypto pepper redis codec key 2000000 false with_acme).1 ≡ some acme
unfolding find_active_by_prefix get_cached find_text
create-IsAccepted_example =
    create-IsAccepted crypto crypto-IsCrypto pepper redis codec input "12345678" 1000000 2000000
      false empty with_acme created creates_acme unused missed
  where
    unused : find_active_by_prefix (extract_prefix key) [] ≡ none
    unused = refl

    missed : get_cached codec redis key 2000000 [] ≡ none
    missed = refl

-- Two keys with the same first eight characters: the second client is refused.
shadowed :
    (verify_api_key crypto pepper redis codec "sk-12345-other" 2000000 false (
      after_calls crypto pepper redis codec
        ((1000000, creates input "12345678")
          ∷ (1000000, creates (record input { id = "other" }) "12345-other")
          ∷ [])
        empty)).1
    ≡ none
unfolding service
shadowed = refl

abbrev bearer : String → Headers
bearer token = record { authorization = some token; x_api_key = some key }

header_test :
    (extract_bearer_token (bearer "bearer   sk-1 ") ≡ some "sk-1")
    × (extract_bearer_token (bearer "Basic sk-1") ≡ none)
    × (extract_bearer_token (bearer "Bearer  ") ≡ none)
    × (extract_bearer_token (bearer "") ≡ some key)
unfolding service
header_test = (refl, refl, refl, refl)

abbrev admin_only : List String
admin_only = "chat.read" ∷ "admin" ∷ []

refused :
    (admit crypto pepper redis codec admin_only 1300999 false
      (bearer "Bearer sk-12345678")
      (after_calls crypto pepper redis codec verified empty)).1
    ≡ scopes_missing ("admin" ∷ [])
unfolding service
refused = refl

admit-IsGuarded_example :
    Guarded crypto pepper redis codec redis-IsRedisTexts admin_only 1300999 false verified empty
      (bearer "Bearer sk-12345678")
      (admit crypto pepper redis codec admin_only 1300999 false
        (bearer "Bearer sk-12345678")
        (after_calls crypto pepper redis codec verified empty)).1
admit-IsGuarded_example =
    admit-IsGuarded crypto pepper redis codec redis-IsRedisTexts admin_only 1300999 false verified
      empty (bearer "Bearer sk-12345678") empty_cache

hashed : hash_api_key crypto pepper key ≡ some "hmac$111111111110"
unfolding service
hashed = refl

is_key_of-hash_api_key_example :
    (is_key_of crypto pepper key "hmac$111111111110" ≡ true)
    ↔ ((key ≢ "") × (crypto.hmac pepper key ≡ crypto.hmac pepper key))
is_key_of-hash_api_key_example =
    is_key_of-hash_api_key crypto crypto-IsCrypto pepper key key "hmac$111111111110" hashed

abbrev comma_scope : List String
comma_scope = "chat.read,admin" ∷ []

abbrev two_in_one : ClientUpdate
two_in_one = record {
  name = none;
  scopes = some comma_scope;
  rate_limit_rpm = none;
  rate_limit_tpm = none;
}

abbrev promoted : Client
promoted = record acme { scopes = "chat.read" ∷ "admin" ∷ [] }

abbrev with_promoted : ClientService Stored
with_promoted = record with_acme {
  repo =
      (
        "acme",
        record {
          name = "Acme";
          api_key_hash = "hmac$111111111110";
          api_key_prefix = "sk-12345";
          scopes = "chat.read,admin";
          rate_limit_rpm = 60;
          rate_limit_tpm = none;
          created_at = 1000;
          last_used_at = none;
          revoked_at = none;
        },
      )
      ∷ [];
}

promotes : update "acme" two_in_one with_acme ≡ (with_promoted, inr promoted)
unfolding service
promotes = refl

update-scopes_example :
    (comma_scope ≢ [])
    × (find_client "acme" with_promoted ≡ some promoted)
    × (promoted.scopes ≡ pieces comma_scope)
update-scopes_example =
    update-scopes "acme" two_in_one comma_scope with_acme with_promoted promoted refl promotes
