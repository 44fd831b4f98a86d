-- ===== src/Auth/Cache.antt =====
-- The cache of verified keys, src/auth/client-auth-cache.ts, over src/redis.service.ts. Redis, the
-- JSON of a client and SHA-256 are interfaces.
use Prim.Native.String.{◌++◌}
use ms_gatgeway_llm.Base.{
  ℕ, ◌+◌, ◌*◌, ◌<◌, ◌≡◌, ◌⊎◌, String, Option, none, some, is_blank, if◌then◌else◌,
}
use mathlib.Core.Option
use ms_gatgeway_llm.Auth.Keys.{extract_prefix}
use ms_gatgeway_llm.Auth.Repository.{Client}

-- GET at a time in milliseconds: the outer `none` is an exception, the inner one no value. SET with
-- EX seconds: whether it threw, the value may have been written.
pub record RedisTexts (S : Type 0) : Type 0 where
  pub get : String → ℕ → S → Option (Option String)
  pub set_ex : String → String → ℕ → ℕ → S → S

-- A value that is read is the one that was written less than its seconds ago, or was there before.
pub record IsRedisTexts {S : Type 0} (r : RedisTexts S) : Type 0 where
  pub get-set_ex :
      (k j v w : String) (seconds at now : ℕ) (s : S)
      → r.get j now (r.set_ex k v seconds at s) ≡ some (some w)
      → ((k ≡ j) × (v ≡ w) × (now < at + seconds * 1000)) ⊎ (r.get j now s ≡ some (some w))

-- `JSON.parse` answers `none` where it throws.
pub record Codec : Type 0 where
  pub stringify : Client → String
  pub parse : String → Option Client
  pub sha256 : String → String

abbrev pub ttl_seconds : ℕ
ttl_seconds = 300

module _ (codec : Codec) where
  unfoldable pub cache_key : String → String
  cache_key plaintext =
      "ak:v1" ++ (":" ++ (extract_prefix plaintext ++ (":" ++ codec.sha256 plaintext)))

  module _ {S : Type 0} (redis : RedisTexts S) where
    -- `getJson`: no text, or an empty one, is `null`.
    abbrev pub get_json : String → ℕ → S → Option (Option Client)
    get_json key now s = elim (redis.get key now s) [
      | none ↦ none
      | some none ↦ some none
      | some (some text) ↦ if is_blank text then some none else Option.map some (codec.parse text)
    ]

    -- What throws counts as a miss.
    unfoldable pub get_cached : String → ℕ → S → Option Client
    get_cached plaintext now s = elim (get_json (cache_key plaintext) now s) [
      | none ↦ none
      | some cached ↦ cached
    ]

    unfoldable pub set_cached : String → Client → ℕ → S → S
    set_cached plaintext client now s =
        redis.set_ex (cache_key plaintext) (codec.stringify client) ttl_seconds now s
