-- ===== src/Providers/Resolution.antt =====
-- From a model's name to the chain of entries, `resolveChain` of src/providers/provider.service.ts.
use ms_gatgeway_llm.Base.{
  ℕ, suc, String, true, Option, none, some, truthy, or_else, List, [], ◌∷◌, Dict, get, put,
  string_key, number_key, ◌==◌, if◌then◌else◌,
}
use ms_gatgeway_llm.Providers.{ResolvedModel}
use ms_gatgeway_llm.Providers.Paths.{includes_slash, split_slash}
use ms_gatgeway_llm.Providers.Registry.{
  AliasEntryRow, RegistryTables, ModelConfig, ProviderConfig, get_provider, get_model,
  get_alias_entries, alias_chain, find_model,
}

-- The errors that `resolveChain` throws.
pub data ResolveError : Type 0 where
  name_required : ResolveError
  invalid_path : (path : String) → ResolveError
  unknown_provider : (provider_id requested_as : String) → ResolveError
  unknown_model : (model_key provider_id : String) → ResolveError
  missing_api_key : (provider_id api_key_env : String) → ResolveError
  no_match : (model : String) → ResolveError

pub data Result (A : Type 0) : Type 0 where
  throws : ResolveError → Result A
  returns : A → Result A

-- The tables, `process.env`, LLM_PROVIDER_BASE_URL, `routing.requestTimeoutMs` and SQLite's orders.
pub record ProviderService : Type 0 where
  pub tables : RegistryTables
  pub env : String → Option String
  pub default_base_url : Option String
  pub request_timeout_ms : ℕ
  pub by_position : List AliasEntryRow → List AliasEntryRow
  pub by_id : List String → List String

module _ (s : ProviderService) where
  abbrev pub resolved_model :
      String → String → String → ProviderConfig → ModelConfig → ℕ → String → ResolvedModel
  resolved_model requested_as model_key provider_id provider config priority api_key = record {
    requested_as = requested_as;
    provider_id = provider_id;
    model_key = model_key;
    upstream_model = config.real;
    api_key = api_key;
    base_url = or_else provider.base_url (or_else s.default_base_url "https://api.openai.com/v1");
    overrides = record {
      max_tokens = config.max_tokens;
      disable_thinking = config.disable_thinking;
    };
    supports_stream = or_else config.supports_stream true;
    timeout_ms = or_else provider.timeout_ms s.request_timeout_ms;
    priority = priority;
  }

  unfoldable pub build_resolved :
      String → String → String → ProviderConfig → ModelConfig → ℕ → Result ResolvedModel
  build_resolved requested_as model_key provider_id provider config priority =
      elim (truthy (s.env provider.api_key_env)) [
        | none ↦ throws (missing_api_key provider_id provider.api_key_env)
        | some api_key ↦
            returns
              (resolved_model requested_as model_key provider_id provider config priority api_key)
      ]

  -- `const [providerId, modelKey] = path.split('/')`, both of which must be there and not blank.
  abbrev two_pieces : List String → Option (String × String)
  two_pieces [] = none
  two_pieces (p ∷ []) = none
  two_pieces (p ∷ m ∷ pieces) = if p == "" then none else if m == "" then none else some (p, m)

  unfoldable pub resolve_pair : String → String × String → ℕ → Result ResolvedModel
  resolve_pair requested_as (provider_id, model_key) priority =
      elim (get_provider s.tables provider_id) [
        | none ↦ throws (unknown_provider provider_id requested_as)
        | some provider ↦ elim (get_model s.tables provider_id model_key) [
          | none ↦ throws (unknown_model model_key provider_id)
          | some config ↦ build_resolved requested_as model_key provider_id provider config priority
        ]
      ]

  unfoldable pub resolve_path : String → String → ℕ → Result ResolvedModel
  resolve_path p requested_as priority = elim (two_pieces (split_slash p)) [
    | none ↦ throws (invalid_path p)
    | some pair ↦ resolve_pair requested_as pair priority
  ]

  abbrev pub add_priorities : List AliasEntryRow → Dict ℕ ℕ → Dict ℕ ℕ
  add_priorities [] d = d
  add_priorities (e ∷ entries) d = add_priorities entries (put e.position e.priority d)

  unfoldable pub alias_priorities_by_position : String → Dict ℕ ℕ
  alias_priorities_by_position alias =
      add_priorities (get_alias_entries s.tables s.by_position alias) []

  -- One more element of a chain: the first exception ends the `map`.
  abbrev pub also : Result ResolvedModel → Result (List ResolvedModel) → Result (List ResolvedModel)
  also (throws e) rest = throws e
  also (returns m) (throws e) = throws e
  also (returns m) (returns ms) = returns (m ∷ ms)

  -- `paths.map(…)` from position `i` on.
  unfoldable pub chain_from : String → Dict ℕ ℕ → ℕ → List String → Result (List ResolvedModel)
  chain_from model priorities i [] = returns []
  chain_from model priorities i (p ∷ paths) =
      also (resolve_path p model (or_else (get i priorities) 0))
        (chain_from model priorities (suc i) paths)

  abbrev pub chain_for : String → List String → Result (List ResolvedModel)
  chain_for model paths = chain_from model (alias_priorities_by_position model) 0 paths

  abbrev pub single : Result ResolvedModel → Result (List ResolvedModel)
  single r = also r (returns [])

  -- `buildResolved` reads `modelCfg.real`, which is there, as `findModel` has found the model's row.
  abbrev resolve_found : String → String → Result (List ResolvedModel)
  resolve_found model provider_id = single (resolve_pair model (provider_id, model) 0)

  abbrev resolve_default : String → Result (List ResolvedModel)
  resolve_default model = elim (alias_chain s.tables s.by_position "default") [
    | none ↦ throws (no_match model)
    | some paths ↦ chain_for model paths
  ]

  abbrev resolve_key : String → Result (List ResolvedModel)
  resolve_key model = elim (find_model s.tables s.by_id model) [
    | some provider_id ↦ resolve_found model provider_id
    | none ↦ resolve_default model
  ]

  unfoldable pub resolve_named : String → Result (List ResolvedModel)
  resolve_named model = elim (alias_chain s.tables s.by_position model) [
    | some paths ↦ chain_for model paths
    | none ↦ if includes_slash model then single (resolve_path model model 0) else resolve_key model
  ]

  unfoldable pub resolve_chain : String → Result (List ResolvedModel)
  resolve_chain model = if model == "" then throws name_required else resolve_named model
