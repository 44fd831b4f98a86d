-- ===== src/Auth/Guards.antt =====
-- The guards of the routes, src/auth/api-key.guard.ts and src/auth/require-scopes.guard.ts, in the
-- order in which the controllers name them.
use Prim.Native.Char.{Char, code}
use ms_gatgeway_llm.Base.{
  ℕ, ◌+◌, String, Bool, false, not, ◌&&◌, ◌||◌, Option, none, some, List, [], ◌∷◌, filter,
  number_key, string_key, nat_eq, leb, is_blank, truthy, list_key, if◌then◌else◌, contains,
}
use ms_gatgeway_llm.Auth.Keys.{Crypto}
use ms_gatgeway_llm.Auth.Repository.{Client}
use ms_gatgeway_llm.Auth.Cache.{RedisTexts, Codec}
use ms_gatgeway_llm.Auth.Service.{ClientService, verify_api_key}

-- JavaScript's white space.
unfoldable pub is_space : Char → Bool
is_space c =
    let k = code c in
    (leb 9 k && leb k 13)
    || (nat_eq k 32
        || (nat_eq k 160
            || (nat_eq k 5760
                || ((leb 8192 k && leb k 8202)
                    || (nat_eq k 8232
                        || (nat_eq k 8233
                            || (nat_eq k 8239
                                || (nat_eq k 8287 || (nat_eq k 12288 || nat_eq k 65279)))))))))

-- What `.` of a regular expression does not match.
abbrev pub ends_line : Char → Bool
ends_line c = let k = code c in nat_eq k 10 || (nat_eq k 13 || (nat_eq k 8232 || nat_eq k 8233))

unfoldable pub has_line_end : String → Bool
has_line_end String.[] = false
has_line_end (String.◌∷◌ c s) = ends_line c || has_line_end s

unfoldable pub trim_start : String → String
unfolding is_space
trim_start String.[] = ""
trim_start (String.◌∷◌ c s) = let rest = trim_start s in if is_space c then rest else String.◌∷◌ c s

unfoldable pub trim_end : String → String
unfolding is_space
trim_end String.[] = ""
trim_end (String.◌∷◌ c s) =
    let rest = trim_end s in if is_space c && is_blank rest then "" else String.◌∷◌ c rest

unfoldable pub trim : String → String
unfolding trim_start trim_end
trim s = trim_end (trim_start s)

abbrev pub lower_code : Char → ℕ
lower_code c = let k = code c in if leb 65 k && leb k 90 then k + 32 else k

-- A character of the pattern, under the flag `i`.
abbrev pub letter : ℕ → (String → Option String) → String → Option String
letter k next String.[] = none
letter k next (String.◌∷◌ c s) = if nat_eq (lower_code c) k then next s else none

-- `\s+(.+)$`, and the trimmed group. The group is never only white space: where nothing else follows
-- "Bearer", the token is empty, which the guard takes as none.
abbrev pub spaced : String → Option String
spaced String.[] = none
spaced (String.◌∷◌ c s) =
    let rest = trim_start s in
    if not (is_space c) || has_line_end rest then none else truthy (some (trim_end rest))

-- /^Bearer\s+(.+)$/i
unfoldable pub bearer_token : String → Option String
unfolding trim_start trim_end has_line_end is_space
bearer_token =
    letter b'b' (letter b'e' (letter b'a' (letter b'r' (letter b'e' (letter b'r' spaced)))))

pub record Headers : Type 0 where
  pub authorization : Option String
  pub x_api_key : Option String

unfoldable pub extract_bearer_token : Headers → Option String
extract_bearer_token h = elim (truthy h.authorization) [
  | some auth ↦ bearer_token auth
  | none ↦ elim h.x_api_key [ none ↦ none | some key ↦ truthy (some (trim key)) ]
]

-- How the guards answer: 401 and 403, or the handler runs with the request's client.
pub data Admission : Type 0 where
  key_missing : Admission
  key_invalid : Admission
  scopes_missing : (missing : List String) → Admission
  admitted : (client : Client) → Admission

unfoldable pub missing_scopes : List String → Client → List String
unfolding contains
missing_scopes required client = filter (λ s. not (contains client.scopes s)) required

-- Without `@RequireScopes` the list is empty.
unfoldable pub check_scopes : List String → Client → Admission
check_scopes required client = elim (missing_scopes required client) [
  | [] ↦ admitted client
  | s ∷ missing ↦ scopes_missing (s ∷ missing)
]

module _ {S : Type 0} (crypto : Crypto) (pepper : String) (redis : RedisTexts S) (codec : Codec)
    (required : List String) (now : ℕ) (fails : Bool) where
  abbrev pub answer : ClientService S × Option Client → ClientService S × Admission
  answer (s, none) = (s, key_invalid)
  answer (s, some client) = (s, check_scopes required client)

  unfoldable pub admit : Headers → ClientService S → ClientService S × Admission
  admit headers s = elim (extract_bearer_token headers) [
    | none ↦ (s, key_missing)
    | some token ↦ answer (verify_api_key crypto pepper redis codec token now fails s)
  ]
