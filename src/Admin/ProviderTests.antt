-- ===== src/Admin/ProviderTests.antt =====
-- Tests and examples of the handlers of src/admin/admin-providers.controller.ts.
use ms_gatgeway_llm.Base.{
  ◌≡◌, ◌≢◌, refl, true, false, none, List, [], ◌∷◌, All, get, put, remove, string_key, pair_key,
}
use ms_gatgeway_llm.Providers.Registry.{ModelRow, ProviderRow, get_provider}
use ms_gatgeway_llm.Providers.Aliases.{AliasTables, entries, model_exists}
use ms_gatgeway_llm.Providers.Writes.{
  create_provider, update_provider, delete_provider, create_model, update_model, delete_model,
  aliases_using_provider, aliases_using_model,
}
use ms_gatgeway_llm.Admin.Providers.{
  ProviderCall, post_provider, remove_provider, post_model, remove_model, done, unknown,
  in_conflict, fails, manage,
}
use ms_gatgeway_llm.Admin.Wholeness.{IsWhole}
use ms_gatgeway_llm.Admin.Integrity.{manage-keeps}

abbrev model : ModelRow
model = record {
  real_name = "big-2";
  max_tokens = none;
  supports_stream = true;
  disable_thinking = false;
}

abbrev provider : ProviderRow
provider = record {
  api_key_env = "NAN_KEY";
  base_url = none;
  timeout_ms = none;
  supports_search = false;
}

abbrev tables : AliasTables
tables = record {
  registry = record {
    providers = ("nan", provider) ∷ [];
    model_configs = (("nan", "big"), model) ∷ [];
    alias_entries =
        record {
          alias_name = "coder";
          position = 0;
          provider_id = "nan";
          model_key = "big";
          priority = 0;
        }
        ∷ [];
  };
  alias_weights = [];
  alias_policy = [];
}

abbrev requests : List ProviderCall
requests =
    post_provider "openai" provider
    ∷ post_provider "openai" provider
    ∷ post_model "openai" "mini" model
    ∷ post_model "none" "mini" model
    ∷ remove_provider "nan"
    ∷ remove_model "nan" "big"
    ∷ remove_model "openai" "mini"
    ∷ remove_provider "openai"
    ∷ []

manage_test :
    manage requests tables
    ≡ (done ∷ in_conflict ∷ done ∷ unknown ∷ in_conflict ∷ in_conflict ∷ done ∷ done ∷ [], tables)
unfolding get put remove get_provider create_provider update_provider delete_provider create_model
    update_model delete_model aliases_using_provider aliases_using_model manage
manage_test = refl

whole : IsWhole tables
unfolding get model_exists
whole = (refl, tt)

manage-keeps_example :
    All (λ answer. answer ≢ fails) (manage requests tables).0
    × ((entries (manage requests tables).1 ≡ entries tables) × IsWhole (manage requests tables).1)
manage-keeps_example = manage-keeps requests tables whole
