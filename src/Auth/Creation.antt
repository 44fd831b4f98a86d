-- ===== src/Auth/Creation.antt =====
-- A new client's key, from src/auth/client.service.ts through its verification.
use ms_gatgeway_llm.Base.{
  ℕ, ◌≡◌, ◌≢◌, inl, inr, refl, sym, ap, ◌∙◌, String, Bool, true, none, some, [], ◌∷◌, get, put,
  string_key, ◌==◌, Option-cases, Bool-cases, ne→==, arith, ==_refl, ◌/◌, get-put_self, subst,
}
use ms_gatgeway_llm.Auth.Keys.{
  Crypto, IsCrypto, hash_api_key, generate_api_key, is_key_of, extract_prefix,
}
use ms_gatgeway_llm.Auth.Hashes.{is_key_of-hash_api_key}
use ms_gatgeway_llm.Auth.Repository.{
  Client, ClientRow, Clients, NewClient, to_client, find_active_by_prefix, is_active_with,
  insert_client, new_row, find_by_id,
}
use ms_gatgeway_llm.Auth.Cache.{RedisTexts, Codec, get_cached}
use ms_gatgeway_llm.Auth.Service.{
  ClientService, CreatedClient, create, insert, insert_hashed, find_client, verify_api_key,
  verify_cold, shown, Outcome,
}

-- A row that is new in the table, and the only active one with its prefix, is found by it.
find_active-put :
    (prefix id : String) (row : ClientRow) (db : Clients)
    → get id db ≡ none
    → find_active_by_prefix prefix db ≡ none
    → is_active_with prefix row ≡ true
    → find_active_by_prefix prefix (put id row db) ≡ some (to_client id row)
unfolding find_active_by_prefix get put
find_active-put prefix id row [] g f a = ground arith
find_active-put prefix id row ((j, other) ∷ db) g f a = elim (Bool-cases (j == id)) [
  | inl e ↦ ground arith
  | inr e ↦ let ih = find_active-put prefix id row db in ground arith
]

==_self : (s : String) → (s == s) ≡ true
==_self s = ==_refl s

module _ {S : Type 0} (crypto : Crypto) (laws : IsCrypto crypto) (pepper : String)
    (redis : RedisTexts S) (codec : Codec) where
  abbrev Inserted : NewClient → String → ℕ → ClientService S → ClientService S → Client → Type 0
  Inserted input plaintext now s after c =
      (hash : String) × (hash_api_key crypto pepper plaintext ≡ some hash)
      × (get input.id s.repo ≡ none)
      × (after.cache ≡ s.cache)
      × (after.repo
          ≡ put input.id (new_row input hash (extract_prefix plaintext) (now / 1000)) s.repo)
      × (c ≡ to_client input.id (new_row input hash (extract_prefix plaintext) (now / 1000)))

  insert_client-some :
      (input : NewClient) (hash prefix : String) (now : ℕ) (db after : Clients)
      → insert_client input hash prefix now db ≡ some after
      → (get input.id db ≡ none) × (after ≡ put input.id (new_row input hash prefix now) db)
  unfolding insert_client
  insert_client-some input hash prefix now db after h = elim (Option-cases (get input.id db)) [
    | inl e ↦ ground arith
    | inr (row, e) ↦ ground arith
  ]

  insert-Inserted :
      (input : NewClient) (plaintext : String) (now : ℕ) (s after : ClientService S) (c : Client)
      → insert crypto pepper input plaintext now s ≡ (after, inr c)
      → Inserted input plaintext now s after c
  unfolding insert insert_hashed find_client find_by_id
  insert-Inserted input plaintext now s after c h =
      elim (Option-cases (hash_api_key crypto pepper plaintext)) [
        | inl e ↦ ground arith
        | inr (hash, e) ↦
            let prefix = extract_prefix plaintext in
            let row = new_row input hash prefix (now / 1000) in
            elim (Option-cases (insert_client input hash prefix (now / 1000) s.repo)) [
              | inl i ↦ ground arith
              | inr (db, i) ↦
                  let (fresh, same) =
                    insert_client-some input hash prefix (now / 1000) s.repo db i in
                  let found : get input.id db ≡ some row =
                    rw same (get-put_self input.id row s.repo) in
                  (hash, e, fresh, ground arith, ground arith, ground arith)
            ]
      ]

  create-Inserted :
      (input : NewClient) (plaintext : String) (now : ℕ) (s after : ClientService S)
      (created : CreatedClient)
      → shown crypto pepper plaintext (insert crypto pepper input plaintext now s)
        ≡ (after, inr created)
      → Inserted input plaintext now s after created.client
        × (created.plaintext_api_key ≡ plaintext)
  create-Inserted input plaintext now s after created =
      go (insert crypto pepper input plaintext now s) refl
    where
      go :
          (r : Outcome S Client)
          → insert crypto pepper input plaintext now s ≡ r
          → shown crypto pepper plaintext r ≡ (after, inr created)
          → Inserted input plaintext now s after created.client
            × (created.plaintext_api_key ≡ plaintext)
      go (t, inl e) k h = ground arith
      go (t, inr c) k h =
          let same : t ≡ after = ap (λ z. z.0) h in
          let shown_client : c ≡ created.client = ground arith in
          let shown_key : plaintext ≡ created.plaintext_api_key = ground arith in
          let i = insert-Inserted input plaintext now s t c k in
          (
            subst (λ z. Inserted input plaintext now s z created.client) same
                (subst (λ z. Inserted input plaintext now s t z) shown_client i),
            sym shown_key,
          )

  hash_api_key-present : (k hash : String) → hash_api_key crypto pepper k ≡ some hash → k ≢ ""
  unfolding hash_api_key
  hash_api_key-present k hash e b = let z = rw b at e in cc

  verify_api_key-cold :
      (p : String) (later : ℕ) (fails : Bool) (t : ClientService S) (c : Client)
      → p ≢ ""
      → get_cached codec redis p later t.cache ≡ none
      → find_active_by_prefix (extract_prefix p) t.repo ≡ some c
      → is_key_of crypto pepper p c.api_key_hash ≡ true
      → (verify_api_key crypto pepper redis codec p later fails t).1 ≡ some c
  unfolding verify_api_key verify_cold
  verify_api_key-cold p later fails t c h m f k = rw (ne→== p "" h, m, f, verify_cold, k) refl

  -- A client that is created, no other active one having its key's first eight characters, is let in
  -- by the key that is shown, as the client that is shown; unless the cache answers for it.
  pub create-IsAccepted :
      (input : NewClient) (random_hex : String) (now later : ℕ) (fails : Bool)
      (s after : ClientService S) (created : CreatedClient)
      → create crypto pepper input random_hex now s ≡ (after, inr created)
      → find_active_by_prefix (extract_prefix created.plaintext_api_key) s.repo ≡ none
      → get_cached codec redis created.plaintext_api_key later s.cache ≡ none
      → (verify_api_key crypto pepper redis codec created.plaintext_api_key later fails after).1
        ≡ some created.client
  unfolding create to_client
  create-IsAccepted input random_hex now later fails s after created h unused missed =
      let p = generate_api_key random_hex in
      let (i, key) = create-Inserted input p now s after created h in
      let (hash, e, fresh, cache, repo, client) = i in
      let row = new_row input hash (extract_prefix p) (now / 1000) in
      let prefix = extract_prefix p in
      let active : is_active_with prefix row ≡ true = rw (==_self prefix) refl in
      let unused' : find_active_by_prefix prefix s.repo ≡ none =
        subst (λ k. find_active_by_prefix (extract_prefix k) s.repo ≡ none) key unused in
      let found = find_active-put prefix input.id row s.repo fresh unused' active in
      let passes =
        (is_key_of-hash_api_key crypto laws pepper p p hash e).1
          (hash_api_key-present p hash e, refl) in
      let missed' : get_cached codec redis p later after.cache ≡ none =
        ap (get_cached codec redis p later) cache
        ∙ subst (λ k. get_cached codec redis k later s.cache ≡ none) key missed in
      subst
        (λ k.
          (verify_api_key crypto pepper redis codec k later fails after).1 ≡ some created.client)
        (sym key)
        (verify_api_key-cold p later fails after (to_client input.id row)
            (hash_api_key-present p hash e) missed' (ap (find_active_by_prefix prefix) repo ∙ found)
            passes
          ∙ ap some (sym client))
