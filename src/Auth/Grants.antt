-- ===== src/Auth/Grants.antt =====
-- Who is let in by src/auth/client.service.ts and its cache, over any history.
use ms_gatgeway_llm.Base.{
  ℕ, ◌+◌, ◌<◌, ◌≡◌, ◌≢◌, ◌⊎◌, inl, inr, refl, ap, subst, ◌∙◌, String, Bool, Option, none, some, [],
  ◌∷◌, Bool-cases, Option-cases, is_blank, arith,
}
use ms_gatgeway_llm.Auth.Keys.{Crypto, is_key_of, extract_prefix}
use ms_gatgeway_llm.Auth.Repository.{Client, find_active_by_prefix}
use ms_gatgeway_llm.Auth.Cache.{RedisTexts, IsRedisTexts, Codec, get_cached, set_cached, cache_key}
use ms_gatgeway_llm.Auth.Service.{ClientService, revoke, delete, verify_api_key, verify_cold}
use ms_gatgeway_llm.Auth.History.{
  Call, Calls, verifies, creates, updates, rotates, revokes, deletes, apply_call, after_calls,
  HoldsKey, WasVerified, find_active-Among, cached-text, cache-touch, cache-update, cache-create,
  cache-rotate,
}

module _ {S : Type 0} (crypto : Crypto) (pepper : String) (redis : RedisTexts S)
    (codec : Codec) where
  abbrev verify : String → ℕ → Bool → ClientService S → ClientService S × Option Client
  verify = verify_api_key crypto pepper redis codec

  abbrev cold : String → ℕ → Bool → ClientService S → ClientService S × Option Client
  cold = verify_cold crypto pepper redis codec

  abbrev Holds : String → Client → ClientService S → Type 0
  Holds p c s = HoldsKey crypto pepper redis codec p c s.repo

  -- What the table is asked: an answer is a client that holds the key, and is what is then cached.
  abbrev Cold : String → ℕ → ClientService S → ClientService S × Option Client → Type 0
  Cold p now s r =
      ((r.1 ≡ none) × (r.0.cache ≡ s.cache))
      ⊎ ((c : Client) × (r.1 ≡ some c)
          × Holds p c s
          × (r.0.cache ≡ set_cached codec redis p c now s.cache))

  cold_lem : (p : String) (now : ℕ) (f : Bool) (s : ClientService S) → Cold p now s (cold p now f s)
  unfolding verify_cold
  cold_lem p now f s = elim (Option-cases (find_active_by_prefix (extract_prefix p) s.repo)) [
    | inl e ↦ rw (e, verify_cold) (inl (refl, refl))
    | inr (c, e) ↦
        rw (e, verify_cold)
          (elim (Bool-cases (is_key_of crypto pepper p c.api_key_hash)) [
            | inl k ↦
                let (row, m, n, d) =
                  find_active-Among crypto pepper redis codec (extract_prefix p) s.repo c e in
                rw k (
                  inr (
                    c,
                    refl,
                    (row, m, n, d, k),
                    ap (set_cached codec redis p c now)
                        (cache-touch crypto pepper redis codec c.id now f s),
                  ))
            | inr k ↦ rw k (inl (refl, refl))
          ])
  ]

  abbrev Warm : String → ℕ → ClientService S → ClientService S × Option Client → Type 0
  Warm p now s r =
      (c : Client) × (get_cached codec redis p now s.cache ≡ some c)
      × (r.1 ≡ some c)
      × (r.0.cache ≡ s.cache)

  verify_lem :
      (p : String) (now : ℕ) (f : Bool) (s : ClientService S)
      → Cold p now s (verify p now f s) ⊎ Warm p now s (verify p now f s)
  unfolding verify_api_key
  verify_lem p now f s = elim (Bool-cases (is_blank p)) [
    | inl b ↦ rw b (inl (inl (refl, refl)))
    | inr b ↦ rw b (elim (Option-cases (get_cached codec redis p now s.cache)) [
      | inl e ↦ rw (e) (inl (cold_lem p now f s))
      | inr (c, e) ↦
          rw (e) (inr (c, refl, refl, cache-touch crypto pepper redis codec c.id now f s))
    ])
  ]

  module _ (laws : IsRedisTexts redis) where
    abbrev Written : String → String → ℕ → ℕ → Call → ClientService S → Type 0
    Written key text later now call s =
        (q : String) × (fails : Bool) × (c : Client) × (call ≡ verifies q fails)
        × (cache_key codec q ≡ key)
        × (codec.stringify c ≡ text)
        × Holds q c s
        × (later < now + 300000)

    -- A text of the cache after a call is an old one, or the call verified a key against the table.
    apply_call-cache :
        (key text : String) (later now : ℕ) (call : Call) (s : ClientService S)
        → redis.get key later (apply_call crypto pepper redis codec now call s).cache
          ≡ some (some text)
        → Written key text later now call s ⊎ (redis.get key later s.cache ≡ some (some text))
    unfolding apply_call
    apply_call-cache key text later now (verifies q f) s h = elim (verify_lem q now f s) [
      | inl (inl (e, k)) ↦ inr (rw k at h)
      | inl (inr (c, e, held, k)) ↦
          elim (laws.get-set_ex (cache_key codec q) key (codec.stringify c) text 300 now later
            s.cache (unfold set_cached in rw k at h)) [
              | inl (a, b, t) ↦ inl (q, f, c, refl, a, b, held, omega arith)
              | inr old ↦ inr old
            ]
      | inr (c, e, g, k) ↦ inr (rw k at h)
    ]
    apply_call-cache key text later now (creates i hex) s h =
        inr (rw (cache-create crypto pepper redis codec i hex now s) at h)
    apply_call-cache key text later now (updates id fields) s h =
        inr (rw (cache-update crypto pepper redis codec id fields s) at h)
    apply_call-cache key text later now (rotates id hex) s h =
        inr (rw (cache-rotate crypto pepper redis codec id hex s) at h)
    apply_call-cache key text later now (revokes id) s h = unfold revoke in inr h
    apply_call-cache key text later now (deletes id) s h = unfold delete in inr h

    after_calls-cache :
        (p text : String) (c : Client) (later : ℕ) (calls : Calls) (s : ClientService S)
        → codec.parse text ≡ some c
        → redis.get (cache_key codec p) later (after_calls crypto pepper redis codec calls s).cache
          ≡ some (some text)
        → WasVerified crypto pepper redis codec p c later calls s
          ⊎ (redis.get (cache_key codec p) later s.cache ≡ some (some text))
    unfolding after_calls
    after_calls-cache p text c later [] s e h = inr h
    after_calls-cache p text c later ((now, call) ∷ calls) s e h =
        elim (after_calls-cache p text c later calls
          (apply_call crypto pepper redis codec now call s) e h) [
            | inl (q, f, at, before, after, split, key, d, held, again, t) ↦ inl (
              q,
              f,
              at,
              (now, call) ∷ before,
              after,
              ap (λ l. (now, call) ∷ l) split,
              key,
              d,
              held,
              again,
              t,
            )
            | inr old ↦ elim (apply_call-cache (cache_key codec p) text later now call s old) [
              | inl (q, f, d, same, key, json_text, held, t) ↦
                  let again = ap codec.parse json_text ∙ e in
                  inl
                    (q, f, now, [], calls, ap (λ k. (now, k) ∷ calls) same, key, d, held, again, t)
              | inr older ↦ inr older
            ]
          ]

    -- Starting from an empty cache, over any history of calls at any times, whatever throws: a client
    -- that a key is verified as has at that moment a row that is not revoked, with a hash that the key
    -- passes against; or the cache remembers it, and then a call of the history, less than 300 seconds
    -- before, verified a key with the same cache key against such a row at its moment, of a client that
    -- the JSON of the cache gives back as this one.
    pub verify_api_key-IsGranted :
        (p : String) (now : ℕ) (fails : Bool) (calls : Calls) (s : ClientService S) (c : Client)
        → ((key text : String) (later : ℕ) → redis.get key later s.cache ≢ some (some text))
        → (verify p now fails (after_calls crypto pepper redis codec calls s)).1 ≡ some c
        → HoldsKey crypto pepper redis codec p c
            (after_calls crypto pepper redis codec calls s).repo
          ⊎ WasVerified crypto pepper redis codec p c now calls s
    verify_api_key-IsGranted p now fails calls s c empty h =
        let after = after_calls crypto pepper redis codec calls s in
        elim (verify_lem p now fails after) [
          | inl (inl (e, k)) ↦ cc
          | inl (inr (d, e, held, k)) ↦
              let same : d ≡ c = cc in inl (subst (λ y. Holds p y after) same held)
          | inr (d, hit, e, k) ↦
              let (text, stored, parsed) =
                cached-text crypto pepper redis codec p now after.cache d hit in
              let same : d ≡ c = cc in
              elim (after_calls-cache p text c now calls s (parsed ∙ ap some same) stored) [
                | inl was ↦ inr was
                | inr old ↦ absurd (empty (cache_key codec p) text now old)
              ]
        ]
