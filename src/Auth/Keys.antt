-- ===== src/Auth/Keys.antt =====
-- API keys, src/auth/api-key-hash.util.ts. HMAC-SHA256, the hexadecimal text of bytes and the
-- comparison in constant time are Node's and an interface here. Texts count their characters, as
-- JavaScript does for all but those outside the basic plane.
use Prim.Native.Char.{Char}
use Prim.Native.String
use ms_gatgeway_llm.Base.{
  ℕ, ◌≡◌, ◌≢◌, ◌↔◌, String, Bool, true, false, not, ◌||◌, Option, none, some, List, [], ◌∷◌, length,
  nat_eq, ltb, ◌==◌, string_key, is_blank, join, split, includes, text_length, text_take,
  if◌then◌else◌,
}

pub record Crypto : Type 0 where
  pub hmac : String → String → List ℕ
  pub to_hex : List ℕ → String
  pub from_hex : String → List ℕ
  pub timing_safe_equal : List ℕ → List ℕ → Bool

abbrev pub dollar : Char
dollar = "$"

pub record IsCrypto (c : Crypto) : Type 0 where
  pub hmac_law : (pepper plaintext : String) → c.hmac pepper plaintext ≢ []
  pub hex_law : (bytes : List ℕ) → c.from_hex (c.to_hex bytes) ≡ bytes
  pub hex_digits : (bytes : List ℕ) → includes dollar (c.to_hex bytes) ≡ false
  pub hex_present : (bytes : List ℕ) → bytes ≢ [] → c.to_hex bytes ≢ ""
  pub equal_law : (a b : List ℕ) → length a ≡ length b → (c.timing_safe_equal a b ≡ true) ↔ (a ≡ b)

abbrev pub prefix_length : ℕ
prefix_length = 8

unfoldable pub extract_prefix : String → String
extract_prefix key =
    if ltb prefix_length (text_length key) then text_take prefix_length key else key

-- 'sk-' and the hexadecimal text of 32 random bytes.
unfoldable pub generate_api_key : String → String
generate_api_key random_hex = String.◌++◌ "sk-" random_hex

abbrev pub is_short : String → Bool
is_short pepper = ltb (text_length pepper) 32

module _ (c : Crypto) (pepper : String) where
  -- `none` is an exception.
  unfoldable pub hash_api_key : String → Option String
  hash_api_key plaintext =
      if is_blank plaintext
      then none
      else if is_short pepper
      then none
      else some (join "$" ("hmac" ∷ c.to_hex (c.hmac pepper plaintext) ∷ []))

  abbrev pub is_equal : List ℕ → List ℕ → Bool
  is_equal derived expected =
      if nat_eq (length expected) 0
      then false
      else if not (nat_eq (length derived) (length expected))
      then false
      else c.timing_safe_equal derived expected

  abbrev pub is_of_parts : String → List String → Bool
  is_of_parts plaintext (algo ∷ hash_hex ∷ []) =
      if not (algo == "hmac")
      then false
      else if is_blank hash_hex
      then false
      else is_equal (c.hmac pepper plaintext) (c.from_hex hash_hex)
  is_of_parts plaintext other = false

  unfoldable pub is_key_of : String → String → Bool
  is_key_of plaintext stored =
      if is_blank plaintext || is_blank stored
      then false
      else if is_short pepper
      then false
      else is_of_parts plaintext (split dollar stored)
