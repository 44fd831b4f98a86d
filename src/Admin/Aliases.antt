-- ===== src/Admin/Aliases.antt =====
-- The handlers of src/admin/admin-aliases.controller.ts that write, with their guards. The expressions
-- of the schemas are arguments, as is the order of the rows of a listing.
use ms_gatgeway_llm.Base.{
  ℕ, String, Bool, false, not, ◌&&◌, Option, none, some, List, [], ◌∷◌, map, Dict, get, string_key,
  number_key, pair_key, nat_eq, ltb, leb, all, length, if◌then◌else◌,
}
use ms_gatgeway_llm.Providers.{RoutingStrategy, primary}
use ms_gatgeway_llm.Providers.Registry.{AliasEntryRow, get_provider, alias_chain}
use ms_gatgeway_llm.Providers.Aliases.{
  AliasTables, entries, with_entries, is_of, is_there, is_named, pair_of, create_alias,
  delete_alias, append_alias_entry, remove_alias_entry, upsert_weights, upsert_alias_policy,
}
use ms_gatgeway_llm.Admin.Views.{AliasView, to_view}

-- The requests; `none` is a position that is no whole number from 0 on.
pub data AdminCall : Type 0 where
  put_strategy : (id : String) → RoutingStrategy → AdminCall
  put_weights : (id : String) → List ℕ → AdminCall
  put_priorities : (id : String) → Dict ℕ ℕ → AdminCall
  post_alias : (id : String) → List String → Option RoutingStrategy → AdminCall
  delete_whole : (id : String) → AdminCall
  post_entry : (id path : String) → AdminCall
  delete_entry : (id : String) → Option ℕ → AdminCall

-- 204, 200 or 201, the exceptions of the handlers, and 500 for an exception of the repository.
pub data AdminAnswer : Type 0 where
  no_content : AdminAnswer
  shows : AliasView → AdminAnswer
  bad_request not_found conflict internal_error : AdminAnswer

-- A path "providerId/modelKey" of a configured model.
unfoldable pub entry_exists : AliasTables → String → Bool
entry_exists s path = elim (pair_of path) [
  | none ↦ false
  | some (provider_id, model_key) ↦
      is_named (some (provider_id, model_key))
      && (is_there (get_provider s.registry provider_id)
          && is_there (get (provider_id, model_key) s.registry.model_configs))
]

abbrev pub primary_unless : Option RoutingStrategy → RoutingStrategy
primary_unless none = primary
primary_unless (some strategy) = strategy

-- The requested priority of an entry, if there is one.
abbrev pub reprioritised : String → Dict ℕ ℕ → AliasEntryRow → AliasEntryRow
reprioritised id priorities e = elim (get e.position priorities) [
  | none ↦ e
  | some p ↦ if is_of id e then record e { priority = p } else e
]

-- From 1 to 64 elements.
abbrev pub is_sized {ℓ} : {A : Type ℓ} → List A → Bool
is_sized xs = leb 1 (length xs) && leb (length xs) 64

module _ (order_by : List AliasEntryRow → List AliasEntryRow) where
  -- `this.registry.aliases[id]`.
  abbrev pub chain_at : String → AliasTables → Option (List String)
  chain_at id s = alias_chain s.registry order_by id

  -- `ensureAlias`, then the rest of a handler with the chain.
  unfoldable pub with_alias :
      String
      → (List String → AliasTables → AdminAnswer × AliasTables)
      → AliasTables
      → AdminAnswer × AliasTables
  with_alias id rest s = elim (chain_at id s) [ none ↦ (not_found, s) | some chain ↦ rest chain s ]

  abbrev pub view_or_error : String → AliasTables → AdminAnswer
  view_or_error id s = elim (chain_at id s) [
    | none ↦ internal_error
    | some chain ↦ shows (to_view order_by id chain s)
  ]

  -- A write of the repository; its exception is a 500, and writes nothing.
  abbrev pub written :
      (AliasTables → AdminAnswer) → Option AliasTables → AliasTables → AdminAnswer × AliasTables
  written answer none s = (internal_error, s)
  written answer (some after) s = (answer after, after)

  unfoldable pub set_strategy : String → RoutingStrategy → AliasTables → AdminAnswer × AliasTables
  set_strategy id strategy =
      with_alias id (λ chain s. (no_content, upsert_alias_policy id strategy s))

  unfoldable pub set_weights : String → List ℕ → AliasTables → AdminAnswer × AliasTables
  set_weights id weights = with_alias id (λ chain s.
      if nat_eq (length weights) (length chain)
      then written (λ after. no_content) (upsert_weights id weights s) s
      else (bad_request, s))

  unfoldable pub set_priorities : String → Dict ℕ ℕ → AliasTables → AdminAnswer × AliasTables
  set_priorities id priorities = with_alias id (λ chain s.
      if all (λ r. ltb r.0 (length chain)) priorities
      then (no_content, with_entries (map (reprioritised id priorities) (entries s)) s)
      else (bad_request, s))

  unfoldable pub create_entry :
      String → List String → Option RoutingStrategy → AliasTables → AdminAnswer × AliasTables
  create_entry id chain strategy s =
      if is_there (chain_at id s)
      then (conflict, s)
      else if all (entry_exists s) chain
      then written (view_or_error id) (create_alias id chain (primary_unless strategy) s) s
      else (bad_request, s)

  unfoldable pub remove_alias : String → AliasTables → AdminAnswer × AliasTables
  remove_alias id = with_alias id (λ chain s. (no_content, delete_alias id s))

  unfoldable pub append_entry : String → String → AliasTables → AdminAnswer × AliasTables
  append_entry id path = with_alias id (λ chain s.
      if not (entry_exists s path)
      then (not_found, s)
      else if leb 64 (length chain)
      then (bad_request, s)
      else written (view_or_error id) (append_alias_entry id path s) s)

  unfoldable pub remove_entry : String → Option ℕ → AliasTables → AdminAnswer × AliasTables
  remove_entry id position = with_alias id (λ chain s. elim position [
    | none ↦ (not_found, s)
    | some index ↦
        if leb (length chain) index
        then (not_found, s)
        else if leb (length chain) 1
        then (bad_request, s)
        else written (view_or_error id) (some (remove_alias_entry id index s)) s
  ])

  -- The body passes its schema first, or the answer is 400; `matches_id` and `matches_entry` are
  -- the expressions of AliasIdSchema and ChainEntrySchema.
  module _ (matches_id matches_entry : String → Bool) where
    abbrev pub handle : AdminCall → AliasTables → AdminAnswer × AliasTables
    handle (put_strategy id strategy) s = set_strategy id strategy s
    handle (put_weights id weights) s =
        if is_sized weights && all (λ w. not (nat_eq w 0)) weights
        then set_weights id weights s
        else (bad_request, s)
    handle (put_priorities id priorities) s = set_priorities id priorities s
    handle (post_alias id chain strategy) s =
        if matches_id id && (is_sized chain && all matches_entry chain)
        then create_entry id chain strategy s
        else (bad_request, s)
    handle (delete_whole id) s = remove_alias id s
    handle (post_entry id path) s =
        if matches_entry path then append_entry id path s else (bad_request, s)
    handle (delete_entry id position) s = remove_entry id position s

    -- Requests one after the other, with their answers.
    unfoldable pub administer : List AdminCall → AliasTables → List AdminAnswer × AliasTables
    administer [] s = ([], s)
    administer (call ∷ calls) s =
        let now = handle call s in let rest = administer calls now.1 in (now.0 ∷ rest.0, rest.1)
