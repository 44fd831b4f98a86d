-- ===== src/Providers/Chains.antt =====
-- The chain of an alias, entry by entry.
use ms_gatgeway_llm.Base.{
  ℕ, suc, ◌<◌, ◌≡◌, refl, ◌∙◌, subst, String, false, some, truthy, List, [], ◌∷◌, map, Dict, get,
  put, get-put, number_key, string_key, ◌==◌, arith, All,
}
use ms_gatgeway_llm.Providers.{ResolvedModel}
use ms_gatgeway_llm.Providers.Paths.{includes_slash, path, split_slash-path}
use ms_gatgeway_llm.Providers.Registry.{
  AliasEntryRow, ModelConfig, ProviderConfig, get_provider, get_model, get_alias_entries,
  alias_chain,
}
use ms_gatgeway_llm.Providers.Resolution.{
  returns, ProviderService, resolved_model, build_resolved, resolve_path, resolve_pair,
  resolve_named, chain_for, add_priorities, alias_priorities_by_position, chain_from, resolve_chain,
}

module _ (s : ProviderService) where
  -- An entry with ids that are names, and whose provider, model and API key are there.
  abbrev pub IsUsable : AliasEntryRow → Type 0
  IsUsable e =
      (includes_slash e.provider_id ≡ false)
      × (includes_slash e.model_key ≡ false)
      × ((e.provider_id == "") ≡ false)
      × ((e.model_key == "") ≡ false)
      × (provider : ProviderConfig) × (model : ModelConfig) × (api_key : String) × (get_provider
            s.tables e.provider_id
          ≡ some provider)
      × (get_model s.tables e.provider_id e.model_key ≡ some model)
      × (truthy (s.env provider.api_key_env) ≡ some api_key)

  -- The positions count up from `i`.
  abbrev pub IsNumbered : ℕ → List AliasEntryRow → Type 0
  IsNumbered i [] = Unit
  IsNumbered i (e ∷ entries) = (e.position ≡ i) × IsNumbered (suc i) entries

  abbrev pub IsEntry : String → AliasEntryRow → ResolvedModel → Type 0
  IsEntry model e m =
      (m.requested_as ≡ model)
      × (m.provider_id ≡ e.provider_id)
      × (m.model_key ≡ e.model_key)
      × (m.priority ≡ e.priority)

  -- The chain has the entries, one for one.
  abbrev pub Follows : String → List AliasEntryRow → List ResolvedModel → Type 0
  Follows model [] [] = Unit
  Follows model (e ∷ entries) (m ∷ chain) = IsEntry model e m × Follows model entries chain
  Follows model entries chain = ⊥

  found :
      (model : String) (e : AliasEntryRow) (provider : ProviderConfig) (config : ModelConfig)
      (key : String)
      → get_provider s.tables e.provider_id ≡ some provider
      → get_model s.tables e.provider_id e.model_key ≡ some config
      → truthy (s.env provider.api_key_env) ≡ some key
      → resolve_pair s model (e.provider_id, e.model_key) e.priority
        ≡ returns (resolved_model s model e.model_key e.provider_id provider config e.priority key)
  unfolding resolve_pair build_resolved
  found model e provider config key f g h = rw (f, g, resolve_pair) (rw (h, build_resolved) refl)

  resolve_path-path :
      (model : String) (e : AliasEntryRow)
      → IsUsable e
      → (m : ResolvedModel) × (resolve_path s (path e.provider_id e.model_key) model e.priority
          ≡ returns m)
        × IsEntry model e m
  unfolding resolve_path
  resolve_path-path model e (a, b, c, d, provider, config, key, f, g, h) = (
    resolved_model s model e.model_key e.provider_id provider config e.priority key,
    rw (split_slash-path e.provider_id e.model_key a b, c, d, resolve_path)
        (found model e provider config key f g h),
    (refl, refl, refl, refl),
  )

  add_priorities-below :
      (i j : ℕ) (entries : List AliasEntryRow) (d : Dict ℕ ℕ)
      → j < i
      → IsNumbered i entries
      → get j (add_priorities s entries d) ≡ get j d
  add_priorities-below i j [] d h n = refl
  add_priorities-below i j (e ∷ entries) d h (k, n) =
      add_priorities-below (suc i) j entries (put e.position e.priority d) (omega arith) n
      ∙ (let l = get-put e.position j e.priority d in ground arith)

  -- The priorities of the entries are found at their positions.
  IsListed : Dict ℕ ℕ → List AliasEntryRow → Type 0
  IsListed d = All (λ e. get e.position d ≡ some e.priority)

  add_priorities-IsListed :
      (i : ℕ) (entries : List AliasEntryRow) (d : Dict ℕ ℕ)
      → IsNumbered i entries
      → IsListed (add_priorities s entries d) entries
  unfolding IsListed
  add_priorities-IsListed i [] d n = tt
  add_priorities-IsListed i (e ∷ entries) d (k, n) = (
    rw k (
        add_priorities-below (suc i) i entries (put i e.priority d) (omega arith) n
        ∙ (let l = get-put i i e.priority d in ground arith)),
    add_priorities-IsListed (suc i) entries (put e.position e.priority d) n,
  )

  chain_from-Follows :
      (model : String) (i : ℕ) (entries : List AliasEntryRow) (d : Dict ℕ ℕ)
      → IsNumbered i entries
      → IsListed d entries
      → All IsUsable entries
      → (chain : List ResolvedModel) × (chain_from s model d i
            (map (λ e. path e.provider_id e.model_key) entries)
          ≡ returns chain)
        × Follows model entries chain
  unfolding chain_from IsListed
  chain_from-Follows model i [] d n l u = ([], refl, tt)
  chain_from-Follows model i (e ∷ entries) d (k, n) (l, ls) (u, us) =
      let (m, f, g) = resolve_path-path model e u in
      let (chain, f', g') = chain_from-Follows model (suc i) entries d n ls us in
      (
        m ∷ chain,
        (let p : get i d ≡ some e.priority = subst (λ j. get j d ≡ some e.priority) k l in
            rw (p, f, f') refl),
        (g, g'),
      )

  chain_of_alias :
      (model : String) (paths : List String)
      → (model == "") ≡ false
      → alias_chain s.tables s.by_position model ≡ some paths
      → resolve_chain s model ≡ chain_for s model paths
  unfolding resolve_chain resolve_named
  chain_of_alias model paths b h = rw b (rw (h, resolve_named) refl)

  alias_chain_of_entries :
      (model : String) (e : AliasEntryRow) (entries : List AliasEntryRow)
      → get_alias_entries s.tables s.by_position model ≡ e ∷ entries
      → alias_chain s.tables s.by_position model
        ≡ some (map (λ e. path e.provider_id e.model_key) (e ∷ entries))
  unfolding alias_chain
  alias_chain_of_entries model e entries h = rw (h, alias_chain) refl

  priorities_of_entries :
      (model : String) (entries : List AliasEntryRow)
      → get_alias_entries s.tables s.by_position model ≡ entries
      → alias_priorities_by_position s model ≡ add_priorities s entries []
  unfolding alias_priorities_by_position
  priorities_of_entries model entries h = rw (h, alias_priorities_by_position) refl

  -- An alias, whose name is not blank, with entries that are numbered from 0 and usable (a provider and a model that are in the
  -- tables, an API key in the environment, and ids that are not blank and have no slash) resolves: to
  -- one model for each entry, in their order, under the name asked for, with the entry's provider,
  -- model and priority.
  pub resolve_chain-Follows :
      (model : String) (e : AliasEntryRow) (entries : List AliasEntryRow)
      → (model == "") ≡ false
      → get_alias_entries s.tables s.by_position model ≡ e ∷ entries
      → IsNumbered 0 (e ∷ entries)
      → All IsUsable (e ∷ entries)
      → (chain : List ResolvedModel) × (resolve_chain s model ≡ returns chain)
        × Follows model (e ∷ entries) chain
  resolve_chain-Follows model e entries b h n u =
      let (chain, f, g) =
        chain_from-Follows model 0 (e ∷ entries) (add_priorities s (e ∷ entries) []) n
          (add_priorities-IsListed 0 (e ∷ entries) [] n) u in
      (
        chain,
        chain_of_alias model _ b (alias_chain_of_entries model e entries h)
            ∙ (rw (priorities_of_entries model (e ∷ entries) h) f),
        g,
      )
