-- ===== src/Providers/Aliases.antt =====
-- The writes to aliases of src/database/repositories/provider-registry.repository.ts: their chains of
-- entries, weights and strategies. Each is a transaction; `none` is its exception, and then nothing is
-- written.
use ms_gatgeway_llm.Base.{
  ℕ, suc, ◌-◌, String, Bool, true, false, not, ◌&&◌, ◌||◌, Option, none, some, List, [], ◌∷◌, ◌++◌,
  map, Dict, get, put, remove, string_key, pair_key, number_key, ◌==◌, nat_eq, ltb, all, filter,
  length, if◌then◌else◌,
}
use ms_gatgeway_llm.Providers.{RoutingStrategy}
use ms_gatgeway_llm.Providers.Paths.{split_slash}
use ms_gatgeway_llm.Providers.Registry.{RegistryTables, AliasEntryRow}

-- The weights by (alias, position), the strategies by alias.
pub record AliasTables : Type 0 where
  pub registry : RegistryTables
  pub alias_weights : Dict (String × ℕ) ℕ
  pub alias_policy : Dict String RoutingStrategy

abbrev pub is_of : String → AliasEntryRow → Bool
is_of alias e = e.alias_name == alias

abbrev pub with_entries : List AliasEntryRow → AliasTables → AliasTables
with_entries entries s = record s { registry = record s.registry { alias_entries = entries } }

abbrev pub entries : AliasTables → List AliasEntryRow
entries s = s.registry.alias_entries

-- `const [providerId, modelKey] = path.split('/')`: what comes after a second slash is left out.
abbrev pub first_two : List String → Option (String × String)
first_two [] = none
first_two (p ∷ []) = none
first_two (p ∷ m ∷ pieces) = some (p, m)

unfoldable pub pair_of : String → Option (String × String)
pair_of path = first_two (split_slash path)

abbrev pub is_there {ℓ} : {A : Type ℓ} → Option A → Bool
is_there none = false
is_there (some a) = true

-- The two foreign keys of an entry.
unfoldable pub model_exists : String × String → AliasTables → Bool
model_exists (provider_id, model_key) s =
    is_there (get provider_id s.registry.providers)
    && is_there (get (provider_id, model_key) s.registry.model_configs)

unfoldable pub position_taken : String → ℕ → List AliasEntryRow → Bool
position_taken alias position [] = false
position_taken alias position (e ∷ es) =
    (is_of alias e && nat_eq e.position position) || position_taken alias position es

abbrev pub new_entry : String → ℕ → String × String → AliasEntryRow
new_entry alias position (provider_id, model_key) = record {
  alias_name = alias;
  position = position;
  provider_id = provider_id;
  model_key = model_key;
  priority = 0;
}

-- INSERT, with the primary key (alias, position).
unfoldable pub insert_entry : String → ℕ → String × String → AliasTables → Option AliasTables
insert_entry alias position pair s =
    if position_taken alias position (entries s)
    then none
    else if not (model_exists pair s)
    then none
    else some (with_entries (entries s ++ new_entry alias position pair ∷ []) s)

unfoldable pub insert_path : String → ℕ → String → AliasTables → Option AliasTables
insert_path alias position path s = elim (pair_of path) [
  | none ↦ none
  | some pair ↦ insert_entry alias position pair s
]

-- `chain.forEach` from a position on.
unfoldable pub insert_chain : String → ℕ → List String → AliasTables → Option AliasTables
insert_chain alias position [] s = some s
insert_chain alias position (path ∷ chain) s = elim (insert_path alias position path s) [
  | none ↦ none
  | some next ↦ insert_chain alias (suc position) chain next
]

unfoldable pub delete_chain : String → AliasTables → AliasTables
delete_chain alias s = with_entries (filter (λ e. not (is_of alias e)) (entries s)) s

unfoldable pub delete_weights : String → AliasTables → AliasTables
delete_weights alias s = record s {
  alias_weights = filter (λ r. not (r.0.0 == alias)) s.alias_weights;
}

unfoldable pub upsert_alias_policy : String → RoutingStrategy → AliasTables → AliasTables
upsert_alias_policy alias strategy s = record s { alias_policy = put alias strategy s.alias_policy }

unfoldable pub create_alias :
    String → List String → RoutingStrategy → AliasTables → Option AliasTables
create_alias alias chain strategy s =
    elim (insert_chain alias 0 chain (delete_weights alias (delete_chain alias s))) [
      | none ↦ none
      | some next ↦ some (upsert_alias_policy alias strategy next)
    ]

unfoldable pub delete_alias : String → AliasTables → AliasTables
delete_alias alias s =
    let bare = delete_weights alias (delete_chain alias s) in
    record bare { alias_policy = remove alias bare.alias_policy }

-- `!providerId || !modelKey`, of a path that is given to `replaceAliasEntry`.
abbrev pub is_named : Option (String × String) → Bool
is_named none = false
is_named (some (provider_id, model_key)) = not (provider_id == "" || model_key == "")

unfoldable pub replace_alias_entry : String → List String → AliasTables → Option AliasTables
replace_alias_entry alias paths s =
    if all (λ path. is_named (pair_of path)) paths
    then insert_chain alias 0 paths (delete_chain alias s)
    else none

abbrev pub weights_of : String → AliasTables → Dict (String × ℕ) ℕ
weights_of alias s = filter (λ r. r.0.0 == alias) s.alias_weights

unfoldable pub count_entries : String → AliasTables → ℕ
count_entries alias s = length (filter (is_of alias) (entries s))

-- Weight 1 for the new position, if the alias has weights.
abbrev pub weigh_last : String → ℕ → Dict (String × ℕ) ℕ → AliasTables → AliasTables
weigh_last alias position [] s = s
weigh_last alias position (w ∷ ws) s = record s {
  alias_weights = put (alias, position) 1 s.alias_weights;
}

unfoldable pub append_alias_entry : String → String → AliasTables → Option AliasTables
append_alias_entry alias path s =
    let count = count_entries alias s in
    elim (insert_path alias count path s) [
      | none ↦ none
      | some next ↦ some (weigh_last alias count (weights_of alias next) next)
    ]

-- The rows after the position move up.
abbrev pub shift_entry : String → ℕ → AliasEntryRow → AliasEntryRow
shift_entry alias position e =
    if is_of alias e && ltb position e.position then record e { position = e.position - 1 } else e

abbrev pub shift_weight : String → ℕ → (String × ℕ) × ℕ → (String × ℕ) × ℕ
shift_weight alias position ((a, p), w) =
    if a == alias && ltb position p then ((a, p - 1), w) else ((a, p), w)

unfoldable pub without_entry : String → ℕ → List AliasEntryRow → List AliasEntryRow
without_entry alias position es =
    map (shift_entry alias position)
      (filter (λ e. not (is_of alias e && nat_eq e.position position)) es)

unfoldable pub without_weight : String → ℕ → Dict (String × ℕ) ℕ → Dict (String × ℕ) ℕ
without_weight alias position ws =
    map (shift_weight alias position)
      (filter (λ r. not (r.0.0 == alias && nat_eq r.0.1 position)) ws)

unfoldable pub remove_alias_entry : String → ℕ → AliasTables → AliasTables
remove_alias_entry alias position s =
    let kept = with_entries (without_entry alias position (entries s)) s in
    record kept { alias_weights = without_weight alias position kept.alias_weights }

-- The weights by their positions, from one on.
abbrev pub numbered_weights : String → ℕ → List ℕ → Dict (String × ℕ) ℕ → Dict (String × ℕ) ℕ
numbered_weights alias position [] ws = ws
numbered_weights alias position (w ∷ weights) ws =
    numbered_weights alias (suc position) weights (put (alias, position) w ws)

unfoldable pub upsert_weights : String → List ℕ → AliasTables → Option AliasTables
upsert_weights alias weights s =
    let bare = delete_weights alias s in
    if all (λ w. not (nat_eq w 0)) weights
    then some (record bare { alias_weights = numbered_weights alias 0 weights bare.alias_weights })
    else none
