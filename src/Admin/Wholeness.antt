-- ===== src/Admin/Wholeness.antt =====
-- The entries of aliases under the writes to providers and models of
-- src/database/repositories/provider-registry.repository.ts, as
-- src/admin/admin-providers.controller.ts guards them.
use ms_gatgeway_llm.Base.{
  ◌≡◌, ◌≢◌, refl, sym, subst, ◌∙◌, String, Bool, true, false, not, List, [], ◌∷◌, map, Dict, get,
  put, get-put, get-remove, string_key, pair_key, ◌==◌, all, All, filter, filter-of_all,
  Option-cases, eq_iff, inl, inr, arith,
}
use ms_gatgeway_llm.Providers.Registry.{AliasEntryRow, ProviderRow, ModelRow, get_provider}
use ms_gatgeway_llm.Providers.Aliases.{AliasTables, entries, model_exists, is_there}
use ms_gatgeway_llm.Providers.Writes.{
  ProviderFields, ModelFields, create_provider, update_provider, delete_provider, create_model,
  update_model, delete_model, aliases_using_provider, aliases_using_model, is_entry_for,
  with_providers, with_models, merged_provider, merged_model,
}
use ms_gatgeway_llm.Admin.Providers.{
  ProviderAnswer, done, fails, is_empty, written_or_500, has_model, has_provider,
}

-- The provider and the model of an entry exist.
abbrev pub Exists : AliasTables → AliasEntryRow → Type 0
Exists s e = model_exists (e.provider_id, e.model_key) s ≡ true

abbrev pub IsWhole : AliasTables → Type 0
IsWhole s = All (Exists s) (entries s)

abbrev pub Keeps : AliasTables → ProviderAnswer × AliasTables → Type 0
Keeps s r = (r.0 ≢ fails) × ((entries r.1 ≡ entries s) × IsWhole r.1)

all_still :
    (s after : AliasTables) (keep : AliasEntryRow → Bool) (es : List AliasEntryRow)
    → all keep es ≡ true
    → ((e : AliasEntryRow) → keep e ≡ true → Exists s e → Exists after e)
    → All (Exists s) es
    → All (Exists after) es
all_still s after keep [] h f w = tt
all_still s after keep (e ∷ es) h f (x, w) =
    (f e (ground arith) x, all_still s after keep es (ground arith) f w)

everything_kept : (es : List AliasEntryRow) → all (λ e. true) es ≡ true
everything_kept [] = refl
everything_kept (e ∷ es) = everything_kept es

-- A write that leaves the entries, and all models of theirs.
grown :
    (s after : AliasTables)
    → IsWhole s
    → entries after ≡ entries s
    → ((e : AliasEntryRow) → Exists s e → Exists after e)
    → Keeps s (done, after)
grown s after w same f = (
  ground arith,
  (
    same,
    subst (All (Exists after)) (sym same)
        (all_still s after (λ e. true) (entries s) (everything_kept (entries s)) (λ e t. f e) w),
  ),
)

-- A deletion that takes no entry along.
pruned :
    (s after : AliasTables) (keep : AliasEntryRow → Bool)
    → IsWhole s
    → all keep (entries s) ≡ true
    → entries after ≡ filter keep (entries s)
    → ((e : AliasEntryRow) → keep e ≡ true → Exists s e → Exists after e)
    → Keeps s (done, after)
pruned s after keep w h cut f =
    let same = cut ∙ filter-of_all keep (entries s) h in
    (
      ground arith,
      (same, subst (All (Exists after)) (sym same) (all_still s after keep (entries s) h f w)),
    )

no_names :
    (p : AliasEntryRow → Bool) (es : List AliasEntryRow)
    → is_empty (map (λ e. e.alias_name) (filter p es)) ≡ true
    → all (λ e. not (p e)) es ≡ true
no_names p [] h = refl
no_names p (e ∷ es) h = let ih = no_names p es in ground arith

-- Rows of another provider stay.
get-others :
    (id : String) (q : String × String) (d : Dict (String × String) ModelRow)
    → (q.0 == id) ≡ false
    → get q (filter (λ r. not (r.0.0 == id)) d) ≡ get q d
unfolding get
get-others id q [] n = refl
get-others id q (((p, m), row) ∷ d) n =
    let ih = get-others id q d n in ground (arith, eq_iff p id, eq_iff q.0 id, eq_iff p q.0)

no_provider :
    (id : String) (s : AliasTables) → is_there (get id s.registry.providers) ≡ has_provider id s
unfolding get_provider
no_provider id s = elim (Option-cases (get id s.registry.providers)) [
  | inl e ↦ ground arith
  | inr (r, e) ↦ ground arith
]

put_provider :
    (id : String) (row : ProviderRow) (s : AliasTables) (e : AliasEntryRow)
    → Exists s e
    → Exists (with_providers (put id row s.registry.providers) s) e
unfolding model_exists
put_provider id row s e x =
    let t = get-put id e.provider_id row s.registry.providers in ground arith

put_model :
    (q : String × String) (row : ModelRow) (s : AliasTables) (e : AliasEntryRow)
    → Exists s e
    → Exists (with_models (put q row s.registry.model_configs) s) e
unfolding model_exists
put_model q row s e x =
    let t = get-put q (e.provider_id, e.model_key) row s.registry.model_configs in ground arith

pub create_provider-Keeps :
    (id : String) (row : ProviderRow) (s : AliasTables)
    → IsWhole s
    → has_provider id s ≡ false
    → Keeps s (written_or_500 (create_provider id row s) s)
unfolding create_provider
create_provider-Keeps id row s w h =
    rw (no_provider id s, h)
      (grown s (with_providers (put id row s.registry.providers) s) w refl (put_provider id row s))

pub update_provider-Keeps :
    (id : String) (fields : ProviderFields) (s : AliasTables)
    → IsWhole s
    → Keeps s (done, update_provider id fields s)
unfolding update_provider
update_provider-Keeps id fields s w = elim (Option-cases (get id s.registry.providers)) [
  | inl e ↦
      let same : update_provider id fields s ≡ s = ground arith in
      subst (λ after. Keeps s (done, after)) (sym same) (ground arith, (refl, w))
  | inr (r, e) ↦
      let row = merged_provider fields r in
      let after = with_providers (put id row s.registry.providers) s in
      let same : update_provider id fields s ≡ after = ground arith in
      subst (λ x. Keeps s (done, x)) (sym same) (grown s after w refl (put_provider id row s))
]

pub delete_provider-Keeps :
    (id : String) (s : AliasTables)
    → IsWhole s
    → is_empty (aliases_using_provider id s) ≡ true
    → Keeps s (done, delete_provider id s)
unfolding delete_provider aliases_using_provider model_exists
delete_provider-Keeps id s w h =
    pruned s (delete_provider id s) (λ e. not (e.provider_id == id)) w
      (no_names (λ e. e.provider_id == id) (entries s) h) refl
      (λ e keep x.
        let a = get-remove id e.provider_id s.registry.providers in
        let t = eq_iff id e.provider_id in
        let u = eq_iff e.provider_id id in
        let n : (e.provider_id == id) ≡ false = ground arith in
        let b = get-others id (e.provider_id, e.model_key) s.registry.model_configs n in
        ground arith)

pub create_model-Keeps :
    (id model_key : String) (row : ModelRow) (s : AliasTables)
    → IsWhole s
    → has_provider id s ≡ true
    → has_model id model_key s ≡ false
    → Keeps s (written_or_500 (create_model id model_key row s) s)
unfolding create_model
create_model-Keeps id model_key row s w h k =
    let q : String × String = (id, model_key) in
    rw (k, no_provider id s, h)
      (grown s (with_models (put q row s.registry.model_configs) s) w refl (put_model q row s))

pub update_model-Keeps :
    (id model_key : String) (fields : ModelFields) (s : AliasTables)
    → IsWhole s
    → Keeps s (done, update_model id model_key fields s)
unfolding update_model
update_model-Keeps id model_key fields s w =
    let q : String × String = (id, model_key) in
    elim (Option-cases (get q s.registry.model_configs)) [
      | inl e ↦
          let same : update_model id model_key fields s ≡ s = ground arith in
          subst (λ after. Keeps s (done, after)) (sym same) (ground arith, (refl, w))
      | inr (r, e) ↦
          let row = merged_model fields r in
          let after = with_models (put q row s.registry.model_configs) s in
          let same : update_model id model_key fields s ≡ after = ground arith in
          subst (λ x. Keeps s (done, x)) (sym same) (grown s after w refl (put_model q row s))
    ]

pub delete_model-Keeps :
    (id model_key : String) (s : AliasTables)
    → IsWhole s
    → is_empty (aliases_using_model id model_key s) ≡ true
    → Keeps s (done, delete_model id model_key s)
unfolding delete_model aliases_using_model model_exists
delete_model-Keeps id model_key s w h =
    let q : String × String = (id, model_key) in
    pruned s (delete_model id model_key s) (λ e. not (is_entry_for id model_key e)) w
      (no_names (is_entry_for id model_key) (entries s) h) refl
      (λ e keep x.
        let a = get-remove q (e.provider_id, e.model_key) s.registry.model_configs in
        let t = eq_iff id e.provider_id in
        let u = eq_iff e.provider_id id in
        let v = eq_iff model_key e.model_key in
        let z = eq_iff e.model_key model_key in ground arith)
