-- ===== src/Admin/Guards.antt =====
-- The handlers of src/admin/admin-aliases.controller.ts that change entries that are there, or no
-- entries.
use ms_gatgeway_llm.Base.{
  ℕ, ◌≤◌, ◌≡◌, ◌≢◌, refl, sym, ap, subst, ◌∙◌, String, true, not, Option, none, some, List, [], ◌∷◌,
  Dict, string_key, number_key, pair_key, nat_eq, ltb, leb, all, length, Bool-cases, Option-cases,
  eq_iff, inl, inr, ◌⊎◌, arith,
}
use ms_gatgeway_llm.Providers.{RoutingStrategy}
use ms_gatgeway_llm.Providers.Registry.{AliasEntryRow, alias_chain, get_alias_entries, paths_of}
use ms_gatgeway_llm.Providers.Positions.{remove_at}
use ms_gatgeway_llm.Providers.Aliases.{
  AliasTables, delete_alias, remove_alias_entry, upsert_weights, upsert_alias_policy,
}
use ms_gatgeway_llm.Providers.AliasChains.{
  deletes, removes, weighs, chooses, apply_alias_call, rows_of, chain_of,
}
use ms_gatgeway_llm.Providers.AliasCalls.{apply_alias_call-Agrees}
use ms_gatgeway_llm.Admin.Views.{to_view}
use ms_gatgeway_llm.Admin.Aliases.{
  AdminAnswer, no_content, shows, not_found, internal_error, chain_at, with_alias, view_or_error,
  written, set_strategy, set_weights, set_priorities, remove_alias, remove_entry,
}
use ms_gatgeway_llm.Admin.Numbering.{
  IsSound, Good, length-pair, length-map-path, length-remove_at, remove_at-length,
  reprioritised-IsSound, from_call,
}

module _ (order_by : List AliasEntryRow → List AliasEntryRow)
    (counts : (es : List AliasEntryRow) → length (order_by es) ≡ length es) where
  -- An alias has a chain in the listing exactly if it has rows.
  pub data Listed (id : String) (s : AliasTables) : Type 0 where
    absent : chain_at order_by id s ≡ none → length (rows_of id s) ≡ 0 → Listed id s
    present :
        (chain : List String)
        → chain_at order_by id s ≡ some chain
        → length chain ≡ length (rows_of id s)
        → Listed id s

  pub paths_of_lem :
      (s : AliasTables) (es : List AliasEntryRow)
      → ((paths_of s.registry order_by es ≡ none) × (length es ≡ 0))
        ⊎ ((chain : List String) × (paths_of s.registry order_by es ≡ some chain)
            × (length chain ≡ length es))
  paths_of_lem s [] = inl (refl, refl)
  paths_of_lem s (e ∷ es) = inr (_, refl, length-map-path (e ∷ es))

  pub listed : (id : String) (s : AliasTables) → Listed id s
  unfolding alias_chain get_alias_entries
  listed id s =
      let count = counts (rows_of id s) in
      elim (paths_of_lem s (order_by (rows_of id s))) [
        | inl (e, l) ↦ absent e (omega arith)
        | inr (chain, e, l) ↦ present chain e (l ∙ count)
      ]

  -- The guard `ensureAlias`.
  pub with_alias_lem :
      (id : String) (rest : List String → AliasTables → AdminAnswer × AliasTables) (s : AliasTables)
      → IsSound s
      → ((chain : List String) → length chain ≡ length (rows_of id s) → Good (rest chain s))
      → Good (with_alias order_by id rest s)
  unfolding with_alias
  with_alias_lem id rest s sound h = elim (listed id s) [
    | absent e l ↦
        let q : with_alias order_by id rest s ≡ (not_found, s) = ground arith in
        subst Good (sym q) (ground arith, sound)
    | present chain e l ↦
        let q : with_alias order_by id rest s ≡ rest chain s = ground arith in
        subst Good (sym q) (h chain l)
  ]

  pub view_or_error_lem :
      (id : String) (s : AliasTables)
      → 1 ≤ length (rows_of id s)
      → view_or_error order_by id s ≢ internal_error
  view_or_error_lem id s h = elim (listed id s) [
    | absent e l ↦ absurd (omega arith)
    | present chain e l ↦
        let q : view_or_error order_by id s ≡ shows (to_view order_by id chain s) = ground arith in
        subst (λ x. x ≢ internal_error) (sym q) (ground arith)
  ]

  pub set_strategy-Good :
      (id : String) (strategy : RoutingStrategy) (s : AliasTables)
      → IsSound s
      → Good (set_strategy order_by id strategy s)
  unfolding set_strategy apply_alias_call
  set_strategy-Good id strategy s sound = with_alias_lem id _ s sound (λ chain l. (
    ground arith,
    from_call (chooses id strategy) s (upsert_alias_policy id strategy s) sound refl
        (λ b. omega (arith, length-pair (rows_of b s), sound.1 b)),
  ))

  pub written_lem :
      (answer : AliasTables → AdminAnswer) (o : Option AliasTables) (s after : AliasTables)
      → o ≡ some after
      → Good (answer after, after)
      → Good (written order_by answer o s)
  written_lem answer o s after h good = subst (λ x. Good (written order_by answer x s)) (sym h) good

  pub set_weights-Good :
      (id : String) (weights : List ℕ) (s : AliasTables)
      → IsSound s
      → all (λ w. not (nat_eq w 0)) weights ≡ true
      → Good (set_weights order_by id weights s)
  unfolding set_weights upsert_weights apply_alias_call
  set_weights-Good id weights s sound positive = with_alias_lem id _ s sound (λ chain l.
      elim (Bool-cases (nat_eq (length weights) (length chain))) [
        | inl e ↦ elim (Option-cases (upsert_weights id weights s)) [
          | inl f ↦ absurd (ground arith)
          | inr (after, f) ↦ rw e (
              written_lem (λ x. no_content) (upsert_weights id weights s) s after f
                (
                  ground arith,
                  from_call (weighs id weights) s after sound f
                      (λ b. omega (arith, length-pair (rows_of b s), sound.1 b)),
                ))
        ]
        | inr e ↦ rw e (ground arith, sound)
      ])

  pub remove_alias-Good :
      (id : String) (s : AliasTables) → IsSound s → Good (remove_alias order_by id s)
  unfolding remove_alias apply_alias_call
  remove_alias-Good id s sound = with_alias_lem id _ s sound (λ chain l. (
    ground arith,
    from_call (deletes id) s (delete_alias id s) sound refl
        (λ b. let k = length-pair (rows_of b s) in let m = sound.1 b in ground arith),
  ))

  pub remove_entry-Good :
      (id : String) (position : Option ℕ) (s : AliasTables)
      → IsSound s
      → Good (remove_entry order_by id position s)
  unfolding remove_entry apply_alias_call
  remove_entry-Good id none s sound = with_alias_lem id _ s sound (λ chain l. (ground arith, sound))
  remove_entry-Good id (some index) s sound = with_alias_lem id _ s sound (λ chain l.
      elim (Bool-cases (leb (length chain) index)) [
        | inl e ↦ rw e (ground arith, sound)
        | inr e ↦ elim (Bool-cases (leb (length chain) 1)) [
          | inl f ↦ rw (e, f) (ground arith, sound)
          | inr f ↦
              let after = remove_alias_entry id index s in
              rw (e, f)
                (
                  view_or_error_lem id after (
                      let k = length-pair (rows_of id s) in
                      let m = length-pair (rows_of id after) in
                      let r = remove_at-length index (chain_of id s) in
                      let c =
                        (apply_alias_call-Agrees (removes id index) s after sound.0 refl).1 id in
                      let d : chain_of id after ≡ remove_at index (chain_of id s) =
                        let t = eq_iff id id in ground arith in
                      let n = ap length d in ground arith),
                  from_call (removes id index) s after sound refl (λ b.
                      let k = length-pair (rows_of b s) in
                      let m = sound.1 b in
                      let r = length-remove_at index (chain_of b s) in ground arith),
                )
        ]
      ])

  pub set_priorities-Good :
      (id : String) (priorities : Dict ℕ ℕ) (s : AliasTables)
      → IsSound s
      → Good (set_priorities order_by id priorities s)
  unfolding set_priorities
  set_priorities-Good id priorities s sound = with_alias_lem id _ s sound (λ chain l.
      elim (Bool-cases (all (λ r. ltb r.0 (length chain)) priorities)) [
        | inl e ↦ rw e (ground arith, reprioritised-IsSound id priorities s sound)
        | inr e ↦ rw e (ground arith, sound)
      ])
