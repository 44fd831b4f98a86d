-- ===== src/Auth/Admission.antt =====
-- What passes the guards of src/auth/, over any history of the client service.
use ms_gatgeway_llm.Base.{
  ℕ, ◌≡◌, ◌≢◌, ◌⊎◌, inl, inr, refl, sym, ap, ◌∙◌, String, Bool, true, not, ◌&&◌, Option, none, some,
  List, [], ◌∷◌, Option-cases, string_key, arith, contains, contains-filter,
}
use ms_gatgeway_llm.Auth.Keys.{Crypto}
use ms_gatgeway_llm.Auth.Repository.{Client}
use ms_gatgeway_llm.Auth.Cache.{RedisTexts, IsRedisTexts, Codec}
use ms_gatgeway_llm.Auth.Service.{ClientService, verify_api_key}
use ms_gatgeway_llm.Auth.History.{Calls, after_calls, HoldsKey, WasVerified}
use ms_gatgeway_llm.Auth.Grants.{verify_api_key-IsGranted}
use ms_gatgeway_llm.Auth.Guards.{
  Headers, Admission, key_missing, key_invalid, scopes_missing, admitted, extract_bearer_token,
  missing_scopes, check_scopes, admit, answer,
}

missing_scopes_lem :
    (required : List String) (client : Client) (scope : String)
    → contains (missing_scopes required client) scope
      ≡ (contains required scope && not (contains client.scopes scope))
unfolding missing_scopes
missing_scopes_lem required client scope = contains-filter _ required scope

none_missing :
    (required : List String) (client : Client) (scope : String)
    → missing_scopes required client ≡ []
    → contains required scope ≡ true
    → contains client.scopes scope ≡ true
unfolding contains
none_missing required client scope e h =
    let k = missing_scopes_lem required client scope in let z = rw e at k in ground arith

module _ {S : Type 0} (crypto : Crypto) (pepper : String) (redis : RedisTexts S) (codec : Codec)
    (laws : IsRedisTexts redis) (required : List String) (now : ℕ) (fails : Bool) (calls : Calls)
    (s : ClientService S) where
  abbrev pub state : ClientService S
  state = after_calls crypto pepper redis codec calls s

  abbrev pub Granted : String → Client → Type 0
  Granted token c =
      HoldsKey crypto pepper redis codec token c state.repo
      ⊎ WasVerified crypto pepper redis codec token c now calls s

  -- How a request with these headers may end.
  abbrev pub Guarded : Headers → Admission → Type 0
  Guarded headers key_missing = extract_bearer_token headers ≡ none
  Guarded headers key_invalid =
      (token : String) × (extract_bearer_token headers ≡ some token)
      × ((verify_api_key crypto pepper redis codec token now fails state).1 ≡ none)
  Guarded headers (scopes_missing missing) =
      (token : String) × (client : Client) × (extract_bearer_token headers ≡ some token)
      × Granted token client
      × (missing ≢ [])
      × ((scope : String)
          → contains missing scope
            ≡ (contains required scope && not (contains client.scopes scope)))
  Guarded headers (admitted client) =
      (token : String) × (extract_bearer_token headers ≡ some token)
      × Granted token client
      × ((scope : String) → contains required scope ≡ true → contains client.scopes scope ≡ true)

  check_scopes-Guarded :
      (headers : Headers) (token : String) (client : Client)
      → extract_bearer_token headers ≡ some token
      → Granted token client
      → Guarded headers (check_scopes required client)
  unfolding check_scopes
  check_scopes-Guarded headers token client e g = go (missing_scopes required client) refl
    where
      go :
          (missing : List String)
          → missing_scopes required client ≡ missing
          → Guarded headers
              (elim missing [ [] ↦ admitted client | m ∷ ms ↦ scopes_missing (m ∷ ms) ])
      go [] k = (token, e, g, λ scope. none_missing required client scope k)
      go (m ∷ ms) k = (
        token,
        client,
        e,
        g,
        (λ n. cc),
        λ scope. ap (λ l. contains l scope) (sym k) ∙ missing_scopes_lem required client scope,
      )

  answered :
      (headers : Headers) (token : String) (r : ClientService S × Option Client)
      → extract_bearer_token headers ≡ some token
      → ((c : Client) → r.1 ≡ some c → Granted token c)
      → (r.1 ≡ none → Guarded headers key_invalid)
      → Guarded headers (answer crypto pepper redis codec required now fails r).1
  answered headers token (after, none) e f g = g refl
  answered headers token (after, some c) e f g = check_scopes-Guarded headers token c e (f c refl)

  -- Over any history of the client service that starts with an empty cache: 401 is answered without a
  -- key in the headers, or with one that is not verified; 403 to a client that the key is granted to,
  -- with exactly the required scopes that it lacks; and the handler runs only for a client that the
  -- key is granted to (by the table, or by the cache for less than 300 seconds) and that has every
  -- required scope.
  pub admit-IsGuarded :
      (headers : Headers)
      → ((key text : String) (later : ℕ) → redis.get key later s.cache ≢ some (some text))
      → Guarded headers (admit crypto pepper redis codec required now fails headers state).1
  unfolding admit
  admit-IsGuarded headers empty = elim (Option-cases (extract_bearer_token headers)) [
    | inl e ↦ rw (e, admit) e
    | inr (token, e) ↦
        rw (e, admit)
          (answered headers token (verify_api_key crypto pepper redis codec token now fails state) e
            (λ c h.
              verify_api_key-IsGranted crypto pepper redis codec laws token now fails calls s c
                empty h)
            (λ h. (token, e, h)))
  ]
