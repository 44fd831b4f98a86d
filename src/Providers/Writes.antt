-- ===== src/Providers/Writes.antt =====
-- The writes to providers and models of src/database/repositories/provider-registry.repository.ts.
-- `none` is an exception, of a primary or a foreign key, and then nothing is written.
use ms_gatgeway_llm.Base.{
  ℕ, String, Bool, not, ◌&&◌, Option, none, some, List, map, Dict, get, put, remove, string_key,
  pair_key, ◌==◌, filter, if◌then◌else◌,
}
use ms_gatgeway_llm.Providers.Registry.{ProviderRow, ModelRow, AliasEntryRow}
use ms_gatgeway_llm.Providers.Aliases.{AliasTables, entries, is_there}

-- The optional fields of an update.
pub record ProviderFields : Type 0 where
  pub api_key_env : Option String
  pub base_url : Option String
  pub timeout_ms : Option ℕ
  pub supports_search : Option Bool

pub record ModelFields : Type 0 where
  pub real_name : Option String
  pub max_tokens : Option ℕ
  pub supports_stream : Option Bool
  pub disable_thinking : Option Bool

abbrev pub given {ℓ} : {A : Type ℓ} → Option A → A → A
given none a = a
given (some b) a = b

-- A field that may be NULL.
abbrev pub given_or_null {ℓ} : {A : Type ℓ} → Option A → Option A → Option A
given_or_null none a = a
given_or_null (some b) a = some b

abbrev pub with_providers : Dict String ProviderRow → AliasTables → AliasTables
with_providers rows s = record s { registry = record s.registry { providers = rows } }

abbrev pub with_models : Dict (String × String) ModelRow → AliasTables → AliasTables
with_models rows s = record s { registry = record s.registry { model_configs = rows } }

abbrev pub merged_provider : ProviderFields → ProviderRow → ProviderRow
merged_provider fields current = record {
  api_key_env = given fields.api_key_env current.api_key_env;
  base_url = given_or_null fields.base_url current.base_url;
  timeout_ms = given_or_null fields.timeout_ms current.timeout_ms;
  supports_search = given fields.supports_search current.supports_search;
}

abbrev pub merged_model : ModelFields → ModelRow → ModelRow
merged_model fields current = record {
  real_name = given fields.real_name current.real_name;
  max_tokens = given_or_null fields.max_tokens current.max_tokens;
  supports_stream = given fields.supports_stream current.supports_stream;
  disable_thinking = given fields.disable_thinking current.disable_thinking;
}

unfoldable pub create_provider : String → ProviderRow → AliasTables → Option AliasTables
create_provider id row s =
    if is_there (get id s.registry.providers)
    then none
    else some (with_providers (put id row s.registry.providers) s)

unfoldable pub update_provider : String → ProviderFields → AliasTables → AliasTables
update_provider id fields s = elim (get id s.registry.providers) [
  | none ↦ s
  | some current ↦ with_providers (put id (merged_provider fields current) s.registry.providers) s
]

-- ON DELETE CASCADE takes the models and the entries of the aliases along.
unfoldable pub delete_provider : String → AliasTables → AliasTables
delete_provider id s = record s {
  registry = record {
    providers = remove id s.registry.providers;
    model_configs = filter (λ r. not (r.0.0 == id)) s.registry.model_configs;
    alias_entries = filter (λ e. not (e.provider_id == id)) s.registry.alias_entries;
  };
}

unfoldable pub create_model : String → String → ModelRow → AliasTables → Option AliasTables
create_model provider_id model_key row s =
    if is_there (get (provider_id, model_key) s.registry.model_configs)
    then none
    else if not (is_there (get provider_id s.registry.providers))
    then none
    else some (with_models (put (provider_id, model_key) row s.registry.model_configs) s)

unfoldable pub update_model : String → String → ModelFields → AliasTables → AliasTables
update_model provider_id model_key fields s =
    elim (get (provider_id, model_key) s.registry.model_configs) [
      | none ↦ s
      | some current ↦
          with_models
            (put (provider_id, model_key) (merged_model fields current) s.registry.model_configs) s
    ]

abbrev pub is_entry_for : String → String → AliasEntryRow → Bool
is_entry_for provider_id model_key e = e.provider_id == provider_id && e.model_key == model_key

unfoldable pub delete_model : String → String → AliasTables → AliasTables
delete_model provider_id model_key s = record s {
  registry = record s.registry {
    model_configs = remove (provider_id, model_key) s.registry.model_configs;
    alias_entries =
        filter (λ e. not (is_entry_for provider_id model_key e)) s.registry.alias_entries;
  };
}

-- The names, before SQLite orders them and drops the repeated ones.
unfoldable pub aliases_using_provider : String → AliasTables → List String
aliases_using_provider provider_id s =
    map (λ e. e.alias_name) (filter (λ e. e.provider_id == provider_id) (entries s))

unfoldable pub aliases_using_model : String → String → AliasTables → List String
aliases_using_model provider_id model_key s =
    map (λ e. e.alias_name) (filter (is_entry_for provider_id model_key) (entries s))
