-- ===== src/Providers/Tests.antt =====
-- The registry on concrete tables, and the theorem at them.
use ms_gatgeway_llm.Base.{
  ◌≡◌, refl, true, false, none, some, List, [], ◌∷◌, All, get, put, if◌then◌else◌, ◌==◌, string_key,
}
use ms_gatgeway_llm.Providers.{ResolvedModel}
use ms_gatgeway_llm.Providers.Paths.{includes_slash, split_slash}
use ms_gatgeway_llm.Providers.Registry.{
  AliasEntryRow, get_provider, get_model, get_alias_entries, alias_chain, find_model,
}
use ms_gatgeway_llm.Providers.Resolution.{
  returns, throws, no_match, missing_api_key, ProviderService, build_resolved, resolve_pair,
  resolve_path, resolve_named, chain_from, alias_priorities_by_position, resolve_chain,
}
use ms_gatgeway_llm.Providers.Chains.{IsUsable, Follows, resolve_chain-Follows}

abbrev first : AliasEntryRow
first = record {
  alias_name = "coder";
  position = 0;
  provider_id = "nan";
  model_key = "big";
  priority = 1;
}

abbrev second : AliasEntryRow
second = record {
  alias_name = "coder";
  position = 1;
  provider_id = "openai";
  model_key = "mini";
  priority = 2;
}

abbrev other : AliasEntryRow
other = record {
  alias_name = "web";
  position = 0;
  provider_id = "broken";
  model_key = "mini";
  priority = 0;
}

abbrev service : ProviderService
service = record {
  tables = record {
    providers =
        (
          "nan",
          record {
            api_key_env = "NAN_KEY";
            base_url = some "https://nan.example";
            timeout_ms = some 0;
            supports_search = true;
          },
        )
        ∷ (
          "openai",
          record {
            api_key_env = "OPENAI_KEY";
            base_url = none;
            timeout_ms = some 900;
            supports_search = false;
          },
        )
        ∷ (
          "broken",
          record {
            api_key_env = "NO_KEY";
            base_url = none;
            timeout_ms = none;
            supports_search = false;
          },
        )
        ∷ [];
    model_configs =
        (
          ("nan", "big"),
          record {
            real_name = "nan-big";
            max_tokens = none;
            supports_stream = true;
            disable_thinking = true;
          },
        )
        ∷ (
          ("openai", "mini"),
          record {
            real_name = "gpt-mini";
            max_tokens = some 4096;
            supports_stream = false;
            disable_thinking = false;
          },
        )
        ∷ (
          ("broken", "mini"),
          record {
            real_name = "m";
            max_tokens = none;
            supports_stream = true;
            disable_thinking = false;
          },
        )
        ∷ [];
    alias_entries = first ∷ other ∷ second ∷ [];
  };
  env = λ name. if name == "NO_KEY" then none else some "secret";
  default_base_url = none;
  request_timeout_ms = 30000;
  by_position = λ entries. entries;
  by_id = λ ids. ids;
}

abbrev big : ResolvedModel
big = record {
  requested_as = "coder";
  provider_id = "nan";
  model_key = "big";
  upstream_model = "nan-big";
  api_key = "secret";
  base_url = "https://nan.example";
  overrides = record { max_tokens = none; disable_thinking = some true };
  supports_stream = true;
  timeout_ms = 30000;
  priority = 1;
}

abbrev mini : ResolvedModel
mini = record {
  requested_as = "coder";
  provider_id = "openai";
  model_key = "mini";
  upstream_model = "gpt-mini";
  api_key = "secret";
  base_url = "https://api.openai.com/v1";
  overrides = record { max_tokens = some 4096; disable_thinking = none };
  supports_stream = false;
  timeout_ms = 900;
  priority = 2;
}

resolution : Unit {0}
unfolding get put get_provider get_model get_alias_entries alias_chain find_model includes_slash
    split_slash build_resolved resolve_pair resolve_path resolve_named chain_from
    alias_priorities_by_position resolve_chain
resolution = tt

-- An alias, a path, a model's key, and names that do not resolve.
resolve_chain_test :
    (resolve_chain service "coder" ≡ returns (big ∷ mini ∷ []))
    × (resolve_chain service "nan/big"
        ≡ returns (record big { requested_as = "nan/big"; priority = 0 } ∷ []))
    × (resolve_chain service "big"
        ≡ returns (record big { requested_as = "big"; priority = 0 } ∷ []))
    × (resolve_chain service "web" ≡ throws (missing_api_key "broken" "NO_KEY"))
    × (resolve_chain service "unknown" ≡ throws (no_match "unknown"))
unfolding resolution
resolve_chain_test = (refl, refl, refl, refl, refl)

entries : get_alias_entries service.tables service.by_position "coder" ≡ first ∷ second ∷ []
unfolding resolution
entries = refl

usable : All (IsUsable service) (first ∷ second ∷ [])
unfolding resolution
usable = (
  (refl, refl, refl, refl, _, _, "secret", refl, refl, refl),
  ((refl, refl, refl, refl, _, _, "secret", refl, refl, refl), tt),
)

resolve_chain-Follows_example :
    (chain : List ResolvedModel) × (resolve_chain service "coder" ≡ returns chain)
    × Follows service "coder" (first ∷ second ∷ []) chain
resolve_chain-Follows_example =
    resolve_chain-Follows service "coder" first (second ∷ []) refl entries (refl, (refl, tt)) usable
