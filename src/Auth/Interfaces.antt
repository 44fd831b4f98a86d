-- ===== src/Auth/Interfaces.antt =====
-- HMAC, Redis and JSON as concrete functions, for the tests: bytes are written in unary digits, an
-- HMAC is a key's length, and Redis is the list of what was set, with the times of expiry.
use Prim.Native.Char.{code}
use ms_gatgeway_llm.Base.{
  ℕ, zero, suc, ◌+◌, ◌*◌, ◌<◌, ◌≡◌, ◌≢◌, ◌⊎◌, refl, sym, ap, ◌∙◌, String, false, ◌&&◌, Option, none,
  some, List, [], ◌∷◌, ltb, nat_eq, list_eq, list_eq_iff, number_key, string_key, ◌==◌, eq_iff,
  text_length, includes, if◌then◌else◌, arith,
}
use ms_gatgeway_llm.Auth.Keys.{Crypto, IsCrypto, dollar}
use ms_gatgeway_llm.Auth.Cache.{RedisTexts, IsRedisTexts}

ones : ℕ → String → String
ones zero s = String.◌∷◌ "0" s
ones (suc n) s = String.◌∷◌ "1" (ones n s)

unfoldable pub unary : List ℕ → String
unfolding ones
unary [] = ""
unary (n ∷ ns) = ones n (unary ns)

abbrev bump : List ℕ → List ℕ
bump [] = []
bump (n ∷ ns) = suc n ∷ ns

unfoldable pub counted : String → List ℕ
counted String.[] = []
counted (String.◌∷◌ c s) =
    let rest = counted s in if nat_eq (code c) b'1' then bump rest else 0 ∷ rest

counted-ones : (n : ℕ) (s : String) → counted (ones n s) ≡ n ∷ counted s
unfolding counted ones
counted-ones zero s = refl
counted-ones (suc n) s = ap bump (counted-ones n s)

counted-unary : (ns : List ℕ) → counted (unary ns) ≡ ns
unfolding unary counted
counted-unary [] = refl
counted-unary (n ∷ ns) = counted-ones n (unary ns) ∙ ap (λ l. n ∷ l) (counted-unary ns)

includes-ones :
    (n : ℕ) (s : String) → includes dollar s ≡ false → includes dollar (ones n s) ≡ false
unfolding includes ones
includes-ones zero s h = h
includes-ones (suc n) s h = includes-ones n s h

includes-unary : (ns : List ℕ) → includes dollar (unary ns) ≡ false
unfolding includes unary
includes-unary [] = refl
includes-unary (n ∷ ns) = includes-ones n (unary ns) (includes-unary ns)

unary-present : (ns : List ℕ) → ns ≢ [] → unary ns ≢ ""
unary-present ns h e = h (sym (counted-unary ns) ∙ ap counted e ∙ unfold counted in refl)

abbrev pub crypto : Crypto
crypto = record {
  hmac = λ pepper plaintext. text_length plaintext ∷ [];
  to_hex = unary;
  from_hex = counted;
  timing_safe_equal = list_eq nat_eq;
}

hmac-ne-nil : (pepper plaintext : String) → crypto.hmac pepper plaintext ≢ []
hmac-ne-nil pepper plaintext e = cc

pub crypto-IsCrypto : IsCrypto crypto
crypto-IsCrypto = record {
  hmac_law = hmac-ne-nil;
  hex_law = counted-unary;
  hex_digits = includes-unary;
  hex_present = unary-present;
  equal_law = λ a b h. list_eq_iff number_key a b;
}

abbrev pub Stored : Type 0
Stored = List (String × String × ℕ)

unfoldable pub find_text : String → ℕ → Stored → Option String
find_text j now [] = none
find_text j now ((k, v, expires) ∷ s) =
    if k == j && ltb now expires then some v else find_text j now s

abbrev pub redis : RedisTexts Stored
redis = record {
  get = λ j now s. some (find_text j now s);
  set_ex = λ k v seconds at s. (k, v, at + seconds * 1000) ∷ s;
}

get-set_ex :
    (k j v w : String) (seconds at now : ℕ) (s : Stored)
    → redis.get j now (redis.set_ex k v seconds at s) ≡ some (some w)
    → ((k ≡ j) × (v ≡ w) × (now < at + seconds * 1000)) ⊎ (redis.get j now s ≡ some (some w))
unfolding find_text
get-set_ex k j v w seconds at now s h = ground (arith, eq_iff k j)

pub redis-IsRedisTexts : IsRedisTexts redis
redis-IsRedisTexts = record { get-set_ex = get-set_ex }

pub empty_cache : (key text : String) (later : ℕ) → redis.get key later [] ≢ some (some text)
unfolding find_text
empty_cache key text later e = cc
