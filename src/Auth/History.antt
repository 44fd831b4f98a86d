-- ===== src/Auth/History.antt =====
-- Histories of src/auth/client.service.ts: what its callers do, one after the other, each at a time
-- in milliseconds.
use ms_gatgeway_llm.Base.{
  ℕ, ◌+◌, ◌<◌, ◌≡◌, ◌⊎◌, inl, inr, refl, subst, String, Bool, true, Option, none, some, List, [],
  ◌∷◌, ◌++◌, Bool-cases, arith,
}
use ms_gatgeway_llm.Auth.Keys.{Crypto, is_key_of}
use ms_gatgeway_llm.Auth.Repository.{
  Client, ClientRow, Clients, NewClient, to_client, is_active_with, find_active_by_prefix,
}
use ms_gatgeway_llm.Auth.Cache.{RedisTexts, Codec, get_cached, cache_key}
use ms_gatgeway_llm.Auth.Service.{
  ClientService, ClientUpdate, revoke, delete, update, create, rotate_key, verify_api_key,
  touch_last_used_if_stale, insert, insert_hashed, rotate_client, rotate_existing, update_existing,
}

pub data Call : Type 0 where
  verifies : (plaintext : String) → (touch_fails : Bool) → Call
  creates : (input : NewClient) → (random_hex : String) → Call
  updates : (id : String) → (fields : ClientUpdate) → Call
  rotates : (id : String) → (random_hex : String) → Call
  revokes : (id : String) → Call
  deletes : (id : String) → Call

abbrev pub Calls : Type 0
Calls = List (ℕ × Call)

-- An entry of a list.
abbrev pub Among : {A : Type 0} → A → List A → Type 0
Among x [] = ⊥
Among x (y ∷ ys) = (x ≡ y) ⊎ Among x ys

module _ {S : Type 0} (crypto : Crypto) (pepper : String) (redis : RedisTexts S)
    (codec : Codec) where
  unfoldable pub apply_call : ℕ → Call → ClientService S → ClientService S
  apply_call now (verifies p f) s = (verify_api_key crypto pepper redis codec p now f s).0
  apply_call now (creates input hex) s = (create crypto pepper input hex now s).0
  apply_call now (updates id fields) s = (update id fields s).0
  apply_call now (rotates id hex) s = (rotate_key crypto pepper id hex s).0
  apply_call now (revokes id) s = revoke id now s
  apply_call now (deletes id) s = delete id s

  unfoldable pub after_calls : Calls → ClientService S → ClientService S
  after_calls [] s = s
  after_calls ((now, c) ∷ cs) s = after_calls cs (apply_call now c s)

  -- The table has this client's row, not revoked, with a hash that the key passes against.
  abbrev pub HoldsKey : String → Client → Clients → Type 0
  HoldsKey p c db =
      (row : ClientRow) × Among (c.id, row) db
      × (row.revoked_at ≡ none)
      × (c ≡ to_client c.id row)
      × (is_key_of crypto pepper p c.api_key_hash ≡ true)

  -- A call of the history that verified a key of the same cache key against the table, less than the
  -- 300 seconds of the cache before, as a client that the cache's JSON gives back as this one.
  abbrev pub WasVerified : String → Client → ℕ → Calls → ClientService S → Type 0
  WasVerified p c now calls s =
      (q : String) × (fails : Bool) × (at : ℕ) × (before : Calls) × (after : Calls) × (calls
        ≡ before ++ (at, verifies q fails) ∷ after)
      × (cache_key codec q ≡ cache_key codec p)
      × (d : Client) × HoldsKey q d (after_calls before s).repo
      × (codec.parse (codec.stringify d) ≡ some c)
      × (now < at + 300000)

  pub find_active-Among :
      (prefix : String) (db : Clients) (c : Client)
      → find_active_by_prefix prefix db ≡ some c
      → (row : ClientRow) × Among (c.id, row) db
        × (row.revoked_at ≡ none)
        × (c ≡ to_client c.id row)
  unfolding find_active_by_prefix to_client
  find_active-Among prefix [] c h = cc
  find_active-Among prefix ((id, row) ∷ db) c h = elim (Bool-cases (is_active_with prefix row)) [
    | inl a ↦
        let e : to_client id row ≡ c = ground (arith, a, h) in
        let n : row.revoked_at ≡ none = ground (arith, a) in
        subst
          (λ z.
            (r : ClientRow) × Among (z.id, r) ((id, row) ∷ db)
            × (r.revoked_at ≡ none)
            × (z ≡ to_client z.id r))
          e (row, inl refl, n, refl)
    | inr a ↦ let (r, m, n, e) = find_active-Among prefix db c (rw a at h) in (r, inr m, n, e)
  ]

  pub cached-text :
      (p : String) (now : ℕ) (s : S) (c : Client)
      → get_cached codec redis p now s ≡ some c
      → (text : String) × (redis.get (cache_key codec p) now s ≡ some (some text))
        × (codec.parse text ≡ some c)
  unfolding get_cached
  cached-text p now s c h = go (redis.get (cache_key codec p) now s) refl
    where
      go :
          (o : Option (Option String))
          → redis.get (cache_key codec p) now s ≡ o
          → (text : String) × (redis.get (cache_key codec p) now s ≡ some (some text))
            × (codec.parse text ≡ some c)
      go none e = let k = rw (e, get_cached) at h in cc
      go (some none) e = let k = rw (e, get_cached) at h in cc
      go (some (some text)) e = let k = rw (e, get_cached) at h in (text, e, ground arith)

  pub cache-touch :
      (id : String) (now : ℕ) (fails : Bool) (s : ClientService S)
      → (touch_last_used_if_stale id now fails s).cache ≡ s.cache
  unfolding touch_last_used_if_stale
  cache-touch id now fails s = ground arith

  pub cache-update :
      (id : String) (f : ClientUpdate) (s : ClientService S) → (update id f s).0.cache ≡ s.cache
  unfolding update update_existing
  cache-update id f s = ground arith

  pub cache-create :
      (i : NewClient) (hex : String) (now : ℕ) (s : ClientService S)
      → (create crypto pepper i hex now s).0.cache ≡ s.cache
  unfolding create insert insert_hashed
  cache-create i hex now s = ground arith

  pub cache-rotate :
      (id : String) (hex : String) (s : ClientService S)
      → (rotate_key crypto pepper id hex s).0.cache ≡ s.cache
  unfolding rotate_key rotate_client rotate_existing
  cache-rotate id hex s = ground arith
