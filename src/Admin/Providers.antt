-- ===== src/Admin/Providers.antt =====
-- The handlers of src/admin/admin-providers.controller.ts that write, with their guards. A body is here
-- after its schema, which a library checks; what is shown of a provider or a model is left out.
use ms_gatgeway_llm.Base.{
  String, Bool, true, false, not, Option, none, some, List, [], ◌∷◌, get, pair_key, string_key,
  if◌then◌else◌,
}
use ms_gatgeway_llm.Providers.Registry.{ProviderRow, ModelRow, get_provider}
use ms_gatgeway_llm.Providers.Aliases.{AliasTables, is_there}
use ms_gatgeway_llm.Providers.Writes.{
  ProviderFields, ModelFields, create_provider, update_provider, delete_provider, create_model,
  update_model, delete_model, aliases_using_provider, aliases_using_model,
}

pub data ProviderCall : Type 0 where
  post_provider : (id : String) → ProviderRow → ProviderCall
  patch_provider : (id : String) → ProviderFields → ProviderCall
  remove_provider : (id : String) → ProviderCall
  post_model : (id model_key : String) → ModelRow → ProviderCall
  patch_model : (id model_key : String) → ModelFields → ProviderCall
  remove_model : (id model_key : String) → ProviderCall

-- 200, 201 or 204, the exceptions of the handlers, and 500 for an exception of the repository.
pub data ProviderAnswer : Type 0 where
  done unknown in_conflict fails : ProviderAnswer

abbrev pub is_empty {ℓ} : {A : Type ℓ} → List A → Bool
is_empty [] = true
is_empty (x ∷ xs) = false

abbrev pub written_or_500 : Option AliasTables → AliasTables → ProviderAnswer × AliasTables
written_or_500 none s = (fails, s)
written_or_500 (some after) s = (done, after)

-- `this.repo.modelExists`.
abbrev pub has_model : String → String → AliasTables → Bool
has_model id model_key s = is_there (get (id, model_key) s.registry.model_configs)

-- `this.registry.has`.
abbrev pub has_provider : String → AliasTables → Bool
has_provider id s = is_there (get_provider s.registry id)

abbrev pub answer_provider : ProviderCall → AliasTables → ProviderAnswer × AliasTables
answer_provider (post_provider id row) s =
    if has_provider id s then (in_conflict, s) else written_or_500 (create_provider id row s) s
answer_provider (patch_provider id fields) s =
    if has_provider id s then (done, update_provider id fields s) else (unknown, s)
answer_provider (remove_provider id) s =
    if not (has_provider id s)
    then (unknown, s)
    else if is_empty (aliases_using_provider id s)
    then (done, delete_provider id s)
    else (in_conflict, s)
answer_provider (post_model id model_key row) s =
    if not (has_provider id s)
    then (unknown, s)
    else if has_model id model_key s
    then (in_conflict, s)
    else written_or_500 (create_model id model_key row s) s
answer_provider (patch_model id model_key fields) s =
    if not (has_provider id s)
    then (unknown, s)
    else if has_model id model_key s
    then (done, update_model id model_key fields s)
    else (unknown, s)
answer_provider (remove_model id model_key) s =
    if not (has_provider id s)
    then (unknown, s)
    else if not (has_model id model_key s)
    then (unknown, s)
    else if is_empty (aliases_using_model id model_key s)
    then (done, delete_model id model_key s)
    else (in_conflict, s)

-- Requests one after the other, with their answers.
unfoldable pub manage : List ProviderCall → AliasTables → List ProviderAnswer × AliasTables
manage [] s = ([], s)
manage (call ∷ calls) s =
    let now = answer_provider call s in let rest = manage calls now.1 in (now.0 ∷ rest.0, rest.1)
