-- ===== src/Admin/Integrity.antt =====
-- The handlers of src/admin/admin-providers.controller.ts leave the chains of the aliases whole.
use ms_gatgeway_llm.Base.{
  ◌≡◌, ◌≢◌, refl, ◌∙◌, List, [], ◌∷◌, string_key, pair_key, All, Bool-cases, inl, inr, arith,
}
use ms_gatgeway_llm.Providers.Aliases.{AliasTables, entries}
use ms_gatgeway_llm.Providers.Writes.{aliases_using_provider, aliases_using_model}
use ms_gatgeway_llm.Admin.Providers.{
  ProviderCall, post_provider, patch_provider, remove_provider, post_model, patch_model,
  remove_model, ProviderAnswer, unknown, in_conflict, fails, is_empty, has_model, has_provider,
  answer_provider, manage,
}
use ms_gatgeway_llm.Admin.Wholeness.{
  IsWhole, Keeps, create_provider-Keeps, update_provider-Keeps, delete_provider-Keeps,
  create_model-Keeps, update_model-Keeps, delete_model-Keeps,
}

kept :
    (answer : ProviderAnswer) (s : AliasTables) → IsWhole s → answer ≢ fails → Keeps s (answer, s)
kept answer s w h = (h, (refl, w))

answer_provider-Keeps :
    (call : ProviderCall) (s : AliasTables) → IsWhole s → Keeps s (answer_provider call s)
answer_provider-Keeps (post_provider id row) s w = elim (Bool-cases (has_provider id s)) [
  | inl e ↦ rw e (kept in_conflict s w (ground arith))
  | inr e ↦ rw e (create_provider-Keeps id row s w e)
]
answer_provider-Keeps (patch_provider id fields) s w = elim (Bool-cases (has_provider id s)) [
  | inl e ↦ rw e (update_provider-Keeps id fields s w)
  | inr e ↦ rw e (kept unknown s w (ground arith))
]
answer_provider-Keeps (remove_provider id) s w = elim (Bool-cases (has_provider id s)) [
  | inr e ↦ rw e (kept unknown s w (ground arith))
  | inl e ↦ elim (Bool-cases (is_empty (aliases_using_provider id s))) [
    | inl f ↦ rw (e, f) (delete_provider-Keeps id s w f)
    | inr f ↦ rw (e, f) (kept in_conflict s w (ground arith))
  ]
]
answer_provider-Keeps (post_model id model_key row) s w = elim (Bool-cases (has_provider id s)) [
  | inr e ↦ rw e (kept unknown s w (ground arith))
  | inl e ↦ elim (Bool-cases (has_model id model_key s)) [
    | inl f ↦ rw (e, f) (kept in_conflict s w (ground arith))
    | inr f ↦ rw (e, f) (create_model-Keeps id model_key row s w e f)
  ]
]
answer_provider-Keeps (patch_model id model_key fields) s w =
    elim (Bool-cases (has_provider id s)) [
      | inr e ↦ rw e (kept unknown s w (ground arith))
      | inl e ↦ elim (Bool-cases (has_model id model_key s)) [
        | inl f ↦ rw (e, f) (update_model-Keeps id model_key fields s w)
        | inr f ↦ rw (e, f) (kept unknown s w (ground arith))
      ]
    ]
answer_provider-Keeps (remove_model id model_key) s w = elim (Bool-cases (has_provider id s)) [
  | inr e ↦ rw e (kept unknown s w (ground arith))
  | inl e ↦ elim (Bool-cases (has_model id model_key s)) [
    | inr f ↦ rw (e, f) (kept unknown s w (ground arith))
    | inl f ↦ elim (Bool-cases (is_empty (aliases_using_model id model_key s))) [
      | inl g ↦ rw (e, f, g) (delete_model-Keeps id model_key s w g)
      | inr g ↦ rw (e, f, g) (kept in_conflict s w (ground arith))
    ]
  ]
]

-- Requests to the administration of providers and models, one after the other, on tables in which
-- the provider and the model of every alias's entry exist: none is answered with an exception of the
-- repository (500), the cascade of a deletion takes no entry of an alias along, so that the entries
-- are the same ones afterwards, and the provider and the model of each exist still.
pub manage-keeps :
    (calls : List ProviderCall) (s : AliasTables)
    → IsWhole s
    → All (λ answer. answer ≢ fails) (manage calls s).0
      × ((entries (manage calls s).1 ≡ entries s) × IsWhole (manage calls s).1)
unfolding manage
manage-keeps [] s w = (tt, (refl, w))
manage-keeps (call ∷ calls) s w =
    let (fine, (same, w')) = answer_provider-Keeps call s w in
    let (rest, (same', w'')) = manage-keeps calls (answer_provider call s).1 w' in
    ((fine, rest), (same' ∙ same, w''))
