-- ===== src/Providers/Registry.antt =====
-- The registry's tables and the reads of src/database/repositories/provider-registry.repository.ts
-- that the resolution of models uses: `listProviders`, `getProvider`, `listAliases`,
-- `getAliasEntries` and `findModel`. `order_by` arguments are SQLite's orders.
use ms_gatgeway_llm.Base.{
  ℕ, nat_eq, String, Bool, true, false, Option, none, some, truthy, List, [], ◌∷◌, map, filter,
  Dict, get, ◌==◌, string_key, pair_key, if◌then◌else◌,
}
use ms_gatgeway_llm.Providers.Paths.{path}

pub record ModelRow : Type 0 where
  pub real_name : String
  pub max_tokens : Option ℕ
  pub supports_stream : Bool
  pub disable_thinking : Bool

pub record ProviderRow : Type 0 where
  pub api_key_env : String
  pub base_url : Option String
  pub timeout_ms : Option ℕ
  pub supports_search : Bool

pub record AliasEntryRow : Type 0 where
  pub alias_name : String
  pub position : ℕ
  pub provider_id : String
  pub model_key : String
  pub priority : ℕ

-- Providers by id and models by (provider, key): the primary keys.
pub record RegistryTables : Type 0 where
  pub providers : Dict String ProviderRow
  pub model_configs : Dict (String × String) ModelRow
  pub alias_entries : List AliasEntryRow

-- `ModelConfig`: the fields that the row leaves at their default are absent.
pub record ModelConfig : Type 0 where
  pub real : String
  pub max_tokens : Option ℕ
  pub supports_stream : Option Bool
  pub disable_thinking : Option Bool

abbrev pub model_config : ModelRow → ModelConfig
model_config r = record {
  real = r.real_name;
  max_tokens = r.max_tokens;
  supports_stream = if r.supports_stream then none else some false;
  disable_thinking = if r.disable_thinking then some true else none;
}

-- `if (p.timeout_ms) …`.
abbrev nonzero : Option ℕ → Option ℕ
nonzero none = none
nonzero (some n) = if nat_eq n 0 then none else some n

-- `ProviderConfig`; `models` stays in the tables.
pub record ProviderConfig : Type 0 where
  pub api_key_env : String
  pub base_url : Option String
  pub timeout_ms : Option ℕ
  pub supports_search : Option Bool

abbrev provider_config : ProviderRow → ProviderConfig
provider_config r = record {
  api_key_env = r.api_key_env;
  base_url = truthy r.base_url;
  timeout_ms = nonzero r.timeout_ms;
  supports_search = if r.supports_search then some true else none;
}

module _ (t : RegistryTables) where
  unfoldable pub get_provider : String → Option ProviderConfig
  get_provider id = elim (get id t.providers) [ none ↦ none | some r ↦ some (provider_config r) ]

  -- `provider.models[modelKey]` of the provider `id`.
  unfoldable pub get_model : String → String → Option ModelConfig
  get_model id key = elim (get (id, key) t.model_configs) [
    | none ↦ none
    | some r ↦ some (model_config r)
  ]

  module _ (order_by : List AliasEntryRow → List AliasEntryRow) where
    unfoldable pub get_alias_entries : String → List AliasEntryRow
    get_alias_entries alias = order_by (filter (λ e. e.alias_name == alias) t.alias_entries)

    abbrev pub paths_of : List AliasEntryRow → Option (List String)
    paths_of [] = none
    paths_of (e ∷ entries) = some (map (λ e. path e.provider_id e.model_key) (e ∷ entries))

    -- `listAliases()[alias]`; an alias without entries is left out.
    unfoldable pub alias_chain : String → Option (List String)
    alias_chain alias = paths_of (get_alias_entries alias)

  -- The first provider, in the order of the ids, that has the model, if it is in its table.
  module _ (order_by : List String → List String) where
    abbrev first_of : List String → Option String
    first_of [] = none
    first_of (id ∷ ids) = some id

    unfoldable pub find_model : String → Option String
    find_model key =
        elim (first_of (order_by (map (λ r. r.0.0) (filter (λ r. r.0.1 == key) t.model_configs)))) [
          | none ↦ none
          | some id ↦ elim (get_provider id) [ none ↦ none | some config ↦ some id ]
        ]
