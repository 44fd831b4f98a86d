-- ===== src/Providers/AliasTests.antt =====
-- Tests and examples of the writes to aliases, of
-- src/database/repositories/provider-registry.repository.ts.
use ms_gatgeway_llm.Base.{
  ◌≡◌, refl, String, true, false, none, some, List, [], ◌∷◌, ◌++◌, get, put, string_key, pair_key,
}
use ms_gatgeway_llm.Providers.{round_robin}
use ms_gatgeway_llm.Providers.Paths.{split_slash}
use ms_gatgeway_llm.Providers.Registry.{ModelRow}
use ms_gatgeway_llm.Providers.Aliases.{
  AliasTables, append_alias_entry, model_exists, position_taken, pair_of, insert_entry, insert_path,
  insert_chain, delete_chain, delete_weights, upsert_alias_policy, create_alias, count_entries,
  without_entry, without_weight, remove_alias_entry,
}
use ms_gatgeway_llm.Providers.AliasChains.{AliasCall, creates, removes, apply_alias_call, chain_of}
use ms_gatgeway_llm.Providers.AliasCalls.{
  Agrees, apply_alias_call-Agrees, run_alias_calls, run_alias_calls-appends,
}

abbrev model : ModelRow
model = record {
  real_name = "big-2";
  max_tokens = none;
  supports_stream = true;
  disable_thinking = false;
}

abbrev empty_tables : AliasTables
empty_tables = record {
  registry = record {
    providers =
        (
          "nan",
          record {
            api_key_env = "NAN_KEY";
            base_url = none;
            timeout_ms = none;
            supports_search = false;
          },
        )
        ∷ [];
    model_configs = (("nan", "big"), model) ∷ (("nan", "mini"), model) ∷ [];
    alias_entries = [];
  };
  alias_weights = [];
  alias_policy = [];
}

-- The second creation throws, as it has a path to no model.
abbrev history : List AliasCall
history =
    creates "coder" ("nan/big" ∷ "nan/mini" ∷ []) round_robin
    ∷ creates "web" ("nan/big" ∷ "nan/none" ∷ []) round_robin
    ∷ removes "coder" 0
    ∷ []

abbrev coder : List (String × String)
coder = ("nan", "mini") ∷ []

writes : Unit {0}
unfolding get put model_exists position_taken pair_of split_slash insert_entry insert_path
    insert_chain delete_chain delete_weights upsert_alias_policy create_alias append_alias_entry
    count_entries without_entry without_weight remove_alias_entry apply_alias_call run_alias_calls
writes = tt

run_alias_calls_test :
    (chain_of "coder" (run_alias_calls history empty_tables) ≡ coder)
    × (chain_of "web" (run_alias_calls history empty_tables) ≡ [])
unfolding writes
run_alias_calls_test = (refl, refl)

there : model_exists ("nan", "big") (run_alias_calls history empty_tables) ≡ true
unfolding writes
there = refl

named : pair_of "nan/big" ≡ some ("nan", "big")
unfolding writes
named = refl

run_alias_calls-appends_example :
    (after : AliasTables) × (append_alias_entry "coder" "nan/big"
        (run_alias_calls history empty_tables)
      ≡ some after)
    × (chain_of "coder" after
        ≡ chain_of "coder" (run_alias_calls history empty_tables) ++ ("nan", "big") ∷ [])
run_alias_calls-appends_example =
    run_alias_calls-appends history empty_tables refl "coder" "nan/big" ("nan", "big") named there

abbrev chosen : AliasCall
chosen = creates "coder" ("nan/big" ∷ "nan/mini" ∷ []) round_robin

abbrev created : AliasTables
created = run_alias_calls (chosen ∷ []) empty_tables

runs : apply_alias_call chosen empty_tables ≡ some created
unfolding writes
runs = refl

apply_alias_call-Agrees_example : Agrees chosen empty_tables created
apply_alias_call-Agrees_example = apply_alias_call-Agrees chosen empty_tables created (λ b. tt) runs
