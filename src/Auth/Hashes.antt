-- ===== src/Auth/Hashes.antt =====
-- Keys against the hashes that are stored, src/auth/api-key-hash.util.ts.
use Prim.Native.String
use Prim.Native.String.append
use native.Mathlib.Decide.{ℕ_discrete}
use ms_gatgeway_llm.Base.{
  ℕ, ◌≡◌, ◌≢◌, ◌↔◌, inl, inr, refl, sym, ap, ◌∙◌, String, true, false, some, List, [], ◌∷◌, length,
  ◌==◌, ne→==, ==→eq, string_key, join, split, split-append, split-whole, includes, eq_iff,
  Bool-cases, arith,
}
use ms_gatgeway_llm.Auth.Keys.{
  Crypto, IsCrypto, dollar, is_short, hash_api_key, is_equal, is_key_of,
}

module _ (c : Crypto) (laws : IsCrypto c) (pepper : String) where
  open laws use {hmac_law, hex_law, hex_digits, hex_present, equal_law}

  abbrev stored : String → String
  stored k = String.◌++◌ "hmac" (String.◌++◌ "$" (c.to_hex (c.hmac pepper k)))

  parts : (k : String) → split dollar (stored k) ≡ "hmac" ∷ c.to_hex (c.hmac pepper k) ∷ []
  parts k =
      let digest = c.to_hex (c.hmac pepper k) in
      ap (λ t. split dollar (String.◌++◌ "hmac" t))
        (append.cons dollar String.[] digest ∙ ap (String.◌∷◌ dollar) (append.nil digest))
      ∙ (split-append dollar "hmac" digest
          ∙ rw (
            split-whole dollar "hmac" (unfold includes in refl),
            split-whole dollar digest (hex_digits (c.hmac pepper k)),
          ))

  is_equal_iff : (a b : List ℕ) → b ≢ [] → (is_equal c pepper a b ≡ true) ↔ (a ≡ b)
  is_equal_iff a [] h = absurd (h refl)
  is_equal_iff a (x ∷ b) h = elim (ℕ_discrete (length a) (length (x ∷ b))) [
    | yes e ↦ let (f, g) = equal_law a (x ∷ b) e in ground arith
    | no n ↦ (λ t. ground arith, λ e. absurd (n (ap length e)))
  ]

  true≢false : true ≢ false
  true≢false e = cc

  stored-ne-blank : (k : String) → stored k ≢ ""
  unfolding split
  stored-ne-blank k e = let s = sym (parts k) ∙ ap (split dollar) e in cc

  is_key_of-stored :
      (q k : String)
      → q ≢ ""
      → is_short pepper ≡ false
      → is_key_of c pepper q (stored k) ≡ is_equal c pepper (c.hmac pepper q) (c.hmac pepper k)
  unfolding is_key_of
  is_key_of-stored q k h l =
      let present = ne→== (c.to_hex (c.hmac pepper k)) "" (hex_present _ (hmac_law pepper k)) in
      rw (
        ne→== q "" h,
        l,
        parts k,
        present,
        hex_law (c.hmac pepper k),
        ne→== (stored k) "" (stored-ne-blank k),
      )

  hashed :
      (k hash : String)
      → hash_api_key c pepper k ≡ some hash
      → (is_short pepper ≡ false) × (hash ≡ stored k)
  unfolding hash_api_key join
  hashed k hash h = ground arith

  is_key_of-blank : (hash : String) → is_key_of c pepper "" hash ≡ false
  unfolding is_key_of
  is_key_of-blank hash = refl

  -- A key passes against the hash that is stored of another one exactly when it is not empty and both
  -- have the same HMAC under the pepper: an own key always passes.
  pub is_key_of-hash_api_key :
      (q k hash : String)
      → hash_api_key c pepper k ≡ some hash
      → (is_key_of c pepper q hash ≡ true) ↔ ((q ≢ "") × (c.hmac pepper q ≡ c.hmac pepper k))
  is_key_of-hash_api_key q k hash h =
      let (l, e) = hashed k hash h in
      let (f, g) = is_equal_iff (c.hmac pepper q) (c.hmac pepper k) (hmac_law pepper k) in
      rw e (elim (Bool-cases (q == "")) [
        | inl t ↦
            let b = ==→eq q "" t in
            (
              λ p. absurd (
                  true≢false (
                    sym p
                    ∙ ap (λ x. is_key_of c pepper x (stored k)) b
                    ∙ is_key_of-blank (stored k))),
              λ p. absurd (p.0 b),
            )
        | inr t ↦
            let n : q ≢ "" = λ b. true≢false (sym ((eq_iff q "").1 b) ∙ t) in
            rw (is_key_of-stored q k n l) (λ t. (n, f t), λ t. g t.1)
      ])
