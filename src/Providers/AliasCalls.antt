-- ===== src/Providers/AliasCalls.antt =====
-- Calls that write aliases, of src/database/repositories/provider-registry.repository.ts: what a call
-- does to all aliases, and what may follow a history of such calls.
use ms_gatgeway_llm.Base.{
  ℕ, suc, ◌+◌, ◌≤◌, ◌≡◌, refl, sym, ap, subst, ◌∙◌, String, true, false, none, some, List, [], ◌∷◌,
  ◌++◌, string_key, ◌==◌, filter, length, if◌then◌else◌, Bool-cases, Option-cases, inl, inr, arith,
}
use ms_gatgeway_llm.Providers.Registry.{AliasEntryRow}
use ms_gatgeway_llm.Providers.Positions.{IsNumbered, remove_at}
use ms_gatgeway_llm.Providers.Aliases.{
  AliasTables, entries, position_taken, with_entries, new_entry, model_exists, insert_entry, is_of,
  pair_of, insert_path, upsert_alias_policy, delete_alias, append_alias_entry, count_entries,
  remove_alias_entry, weigh_last, weights_of,
}
use ms_gatgeway_llm.Providers.AliasChains.{
  AliasCall, creates, deletes, replaces, appends, removes, weighs, chooses, apply_alias_call,
  chain_of, pairs, effect,
}
use ms_gatgeway_llm.Providers.AliasWrites.{
  IsOrdered, Writes, Writes-ListResult, unchanged, create_alias-Writes, delete_alias-Writes,
  replace_alias_entry-Writes, append_alias_entry-Writes, remove_alias_entry-Writes,
  upsert_weights-entries, upsert_alias_policy-entries,
}

-- What a call of the registry does to every alias: `IsOrdered` and the lists by `effect`.
abbrev pub Agrees : AliasCall → AliasTables → AliasTables → Type 0
Agrees call s after =
    IsOrdered after × ((b : String) → chain_of b after ≡ effect call b (chain_of b s))

from_Writes :
    (a : String) (f : List (String × String) → List (String × String)) (s after : AliasTables)
    → IsOrdered s
    → Writes a f s after
    → IsOrdered after
      × ((b : String) → chain_of b after ≡ (if a == b then f (chain_of b s) else chain_of b s))
from_Writes a f s after n w =
    (λ b. (Writes-ListResult a f s after n w b).0, λ b. (Writes-ListResult a f s after n w b).1)

from_unchanged :
    (s after : AliasTables)
    → IsOrdered s
    → entries after ≡ entries s
    → IsOrdered after × ((b : String) → chain_of b after ≡ chain_of b s)
from_unchanged s after n same =
    (λ b. (unchanged s after n same b).0, λ b. (unchanged s after n same b).1)

-- A write to the aliases that succeeds, with every alias numbered 0, 1, 2, … before, leaves every alias
-- numbered so, and changes the list of (provider, model) pairs of the alias it names as the call says:
-- the new chain for a creation or a replacement, none for a deletion, one pair more at the end for
-- `appendAliasEntry`, one less at the position for `removeAliasEntry`; the weights' and the strategy's
-- writes change no list, and the lists of the other aliases stay.
pub apply_alias_call-Agrees :
    (call : AliasCall) (s after : AliasTables)
    → IsOrdered s
    → apply_alias_call call s ≡ some after
    → Agrees call s after
unfolding apply_alias_call
apply_alias_call-Agrees (creates a chain strategy) s after n h =
    from_Writes a (λ xs. pairs chain) s after n (create_alias-Writes a chain strategy s after h)
apply_alias_call-Agrees (deletes a) s after n h =
    let same : delete_alias a s ≡ after = ground arith in
    from_Writes a (λ xs. []) s after n
      (subst (Writes a (λ xs. []) s) same (delete_alias-Writes a s))
apply_alias_call-Agrees (replaces a chain) s after n h =
    from_Writes a (λ xs. pairs chain) s after n (replace_alias_entry-Writes a chain s after h)
apply_alias_call-Agrees (appends a path) s after n h =
    from_Writes a (λ xs. xs ++ pairs (path ∷ [])) s after n
      (append_alias_entry-Writes a path s after n h)
apply_alias_call-Agrees (removes a position) s after n h =
    let same : remove_alias_entry a position s ≡ after = ground arith in
    from_Writes a (remove_at position) s after n
      (subst (Writes a (remove_at position) s) same (remove_alias_entry-Writes a position s n))
apply_alias_call-Agrees (weighs a weights) s after n h =
    from_unchanged s after n (upsert_weights-entries a weights s after h)
apply_alias_call-Agrees (chooses a strategy) s after n h =
    let same : upsert_alias_policy a strategy s ≡ after = ground arith in
    from_unchanged s after n (ap entries (sym same) ∙ upsert_alias_policy-entries a strategy s)

-- Calls one after the other; one that throws leaves the tables.
unfoldable pub run_alias_calls : List AliasCall → AliasTables → AliasTables
run_alias_calls [] s = s
run_alias_calls (call ∷ calls) s = elim (apply_alias_call call s) [
  | none ↦ run_alias_calls calls s
  | some next ↦ run_alias_calls calls next
]

run_alias_calls-IsOrdered :
    (calls : List AliasCall) (s : AliasTables) → IsOrdered s → IsOrdered (run_alias_calls calls s)
unfolding run_alias_calls
run_alias_calls-IsOrdered [] s n = n
run_alias_calls-IsOrdered (call ∷ calls) s n = elim (Option-cases (apply_alias_call call s)) [
  | inl e ↦
      let rest : run_alias_calls (call ∷ calls) s ≡ run_alias_calls calls s = ground arith in
      subst IsOrdered (sym rest) (run_alias_calls-IsOrdered calls s n)
  | inr (next, e) ↦
      let rest : run_alias_calls (call ∷ calls) s ≡ run_alias_calls calls next = ground arith in
      subst IsOrdered (sym rest)
        (run_alias_calls-IsOrdered calls next (apply_alias_call-Agrees call s next n e).0)
]

pub not_taken :
    (a : String) (i position : ℕ) (es : List AliasEntryRow)
    → IsNumbered i (filter (is_of a) es)
    → i + length (filter (is_of a) es) ≤ position
    → position_taken a position es ≡ false
unfolding position_taken
not_taken a i position [] n l = refl
not_taken a i position (e ∷ es) n l = elim (Bool-cases (is_of a e)) [
  | inl t ↦
      let rows : filter (is_of a) (e ∷ es) ≡ e ∷ filter (is_of a) es = ground arith in
      let (at, n') = subst (IsNumbered i) rows n in
      let bound : i + suc (length (filter (is_of a) es)) ≤ position =
        subst (λ xs. i + length xs ≤ position) rows l in
      let ih = not_taken a (suc i) position es n' (omega arith) in ground arith
  | inr t ↦
      let rows : filter (is_of a) (e ∷ es) ≡ filter (is_of a) es = ground arith in
      let ih =
        not_taken a i position es (subst (IsNumbered i) rows n)
          (subst (λ xs. i + length xs ≤ position) rows l) in
      ground arith
]

-- An entry for a model that exists can be appended: its position is free.
pub append_alias_entry-succeeds :
    (s : AliasTables)
    → IsOrdered s
    → (a path : String) (q : String × String) → pair_of path ≡ some q
    → model_exists q s ≡ true
    → (after : AliasTables) × (append_alias_entry a path s ≡ some after)
      × (chain_of a after ≡ chain_of a s ++ q ∷ [])
unfolding append_alias_entry count_entries insert_path insert_entry
append_alias_entry-succeeds s n a path q e there =
    let count = count_entries a s in
    let free = not_taken a 0 count (entries s) (n a) (omega arith) in
    let next = with_entries (entries s ++ new_entry a count q ∷ []) s in
    let step : insert_path a count path s ≡ some next = ground arith in
    let after = weigh_last a count (weights_of a next) next in
    let done : append_alias_entry a path s ≡ some after = ground arith in
    let ps : pairs (path ∷ []) ≡ q ∷ [] = ground arith in
    (
      after,
      done,
      (append_alias_entry-Writes a path s after n done).0.1 ∙ ap (λ l. chain_of a s ++ l) ps,
    )

-- On tables whose aliases have no entries, after any of the calls that write aliases, also those that
-- threw, and no other writes of the repository (a deletion of a provider or a model takes entries
-- along), an entry for a model that exists can be appended to every alias: its position is free, and
-- the entry is the last of the alias's list.
pub run_alias_calls-appends :
    (calls : List AliasCall) (s : AliasTables)
    → entries s ≡ []
    → (a path : String) (q : String × String) → pair_of path ≡ some q
    → model_exists q (run_alias_calls calls s) ≡ true
    → (after : AliasTables) × (append_alias_entry a path (run_alias_calls calls s) ≡ some after)
      × (chain_of a after ≡ chain_of a (run_alias_calls calls s) ++ q ∷ [])
run_alias_calls-appends calls s empty a path q e there =
    append_alias_entry-succeeds (run_alias_calls calls s)
      (run_alias_calls-IsOrdered calls s
        (λ b. subst (λ es. IsNumbered 0 (filter (is_of b) es)) (sym empty) tt))
      a path q e there
