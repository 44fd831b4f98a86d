-- ===== src/Admin/Tests.antt =====
-- Tests and examples of the handlers of src/admin/admin-aliases.controller.ts.
use ms_gatgeway_llm.Base.{
  ℕ, ◌≡◌, ◌≢◌, refl, String, true, false, none, some, List, [], ◌∷◌, All, get, put, string_key,
  pair_key, number_key, arith,
}
use ms_gatgeway_llm.Providers.{RoutingStrategy, primary, weighted}
use ms_gatgeway_llm.Providers.Paths.{split_slash}
use ms_gatgeway_llm.Providers.Registry.{ModelRow, get_provider, get_alias_entries, alias_chain}
use ms_gatgeway_llm.Providers.Aliases.{
  AliasTables, append_alias_entry, model_exists, position_taken, pair_of, insert_entry, insert_path,
  insert_chain, delete_chain, delete_weights, upsert_alias_policy, create_alias, count_entries,
  without_entry, without_weight, remove_alias_entry, upsert_weights,
}
use ms_gatgeway_llm.Admin.Views.{get_strategy, to_view}
use ms_gatgeway_llm.Admin.Aliases.{
  AdminCall, put_strategy, put_weights, put_priorities, post_alias, post_entry, delete_entry,
  AdminAnswer, no_content, shows, bad_request, not_found, internal_error, entry_exists, with_alias,
  set_strategy, set_weights, set_priorities, create_entry, remove_alias, append_entry, remove_entry,
  administer,
}
use ms_gatgeway_llm.Admin.Numbering.{IsSound}
use ms_gatgeway_llm.Admin.Soundness.{administer-IsSound}

abbrev model : ModelRow
model = record {
  real_name = "big-2";
  max_tokens = none;
  supports_stream = true;
  disable_thinking = false;
}

abbrev tables : AliasTables
tables = record {
  registry = record {
    providers =
        (
          "nan",
          record {
            api_key_env = "NAN_KEY";
            base_url = none;
            timeout_ms = none;
            supports_search = false;
          },
        )
        ∷ [];
    model_configs = (("nan", "big"), model) ∷ (("nan", "mini"), model) ∷ [];
    alias_entries = [];
  };
  alias_weights = [];
  alias_policy = [];
}

abbrev requests : List AdminCall
requests =
    post_alias "coder" ("nan/big" ∷ []) none
    ∷ post_entry "coder" "nan/mini"
    ∷ put_weights "coder" (3 ∷ 1 ∷ [])
    ∷ put_weights "coder" (3 ∷ [])
    ∷ put_strategy "coder" weighted
    ∷ put_priorities "coder" ((1, 7) ∷ [])
    ∷ delete_entry "coder" (some 0)
    ∷ delete_entry "coder" (some 0)
    ∷ post_entry "coder" "nan/none"
    ∷ []

abbrev view : RoutingStrategy → List String → List ℕ → List ℕ → AdminAnswer
view strategy chain weights priorities = shows (record {
  id = "coder";
  chain = chain;
  strategy = strategy;
  weights = weights;
  priorities = priorities;
})

-- SQLite gives the rows in the order of the positions, in which they are here.
abbrev answers : List AdminCall → List AdminAnswer × AliasTables
answers calls = administer (λ es. es) (λ id. true) (λ path. true) calls tables

administer_test :
    (answers requests).0
    ≡ view primary ("nan/big" ∷ []) (1 ∷ []) (0 ∷ [])
      ∷ view primary ("nan/big" ∷ "nan/mini" ∷ []) (1 ∷ 1 ∷ []) (0 ∷ 0 ∷ [])
      ∷ no_content
      ∷ bad_request
      ∷ no_content
      ∷ no_content
      ∷ view weighted ("nan/mini" ∷ []) (1 ∷ []) (7 ∷ [])
      ∷ bad_request
      ∷ not_found
      ∷ []
unfolding get put model_exists position_taken pair_of split_slash insert_entry insert_path
    insert_chain delete_chain delete_weights upsert_alias_policy create_alias append_alias_entry
    count_entries without_entry without_weight remove_alias_entry upsert_weights get_provider
    get_alias_entries alias_chain get_strategy to_view entry_exists with_alias set_strategy
    set_weights set_priorities create_entry remove_alias append_entry remove_entry administer
administer_test = refl

sound : IsSound tables
sound = (λ b. tt, λ b. ground arith)

administer-IsSound_example :
    All (λ answer. answer ≢ internal_error) (answers requests).0 × IsSound (answers requests).1
administer-IsSound_example =
    administer-IsSound (λ es. es) (λ es. refl) (λ id. true) (λ path. true) requests tables sound
