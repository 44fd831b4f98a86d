-- ===== src/Providers/AliasWrites.antt =====
-- The writes to aliases of src/database/repositories/provider-registry.repository.ts, against what they
-- do to the lists of the aliases.
use ms_gatgeway_llm.Base.{
  ℕ, ◌≡◌, refl, sym, ap, subst, ◌∙◌, String, false, not, some, List, [], ◌∷◌, ◌++◌, map, all,
  string_key, ◌==◌, nat_eq, filter, length, Dict, if◌then◌else◌, Bool-cases, Option-cases, ==→eq,
  eq_iff, inl, inr, arith,
}
use ms_gatgeway_llm.Providers.{RoutingStrategy}
use ms_gatgeway_llm.Providers.Registry.{AliasEntryRow}
use ms_gatgeway_llm.Providers.Positions.{
  IsNumbered, pair, remove_at, dropped, dropped_lem, without_entry_self, without_entry_other,
}
use ms_gatgeway_llm.Providers.Aliases.{
  AliasTables, entries, is_of, pair_of, is_named, insert_path, insert_chain, delete_chain,
  delete_weights, upsert_alias_policy, create_alias, delete_alias, replace_alias_entry,
  append_alias_entry, count_entries, remove_alias_entry, upsert_weights, weigh_last, weights_of,
}
use ms_gatgeway_llm.Providers.AliasChains.{
  rows_of, chain_of, pairs, insert_path-own, insert_path-other, insert_chain-own,
  insert_chain-other,
}

-- The positions of every alias are 0, 1, 2, and so on.
abbrev pub IsOrdered : AliasTables → Type 0
IsOrdered s = (b : String) → IsNumbered 0 (rows_of b s)

-- What a write does to the list of `a`, and that it leaves the others.
abbrev pub Writes :
    String → (List (String × String) → List (String × String)) → AliasTables → AliasTables → Type 0
Writes a f s after =
    (IsNumbered 0 (rows_of a after) × (chain_of a after ≡ f (chain_of a s)))
    × ((b : String) → (a == b) ≡ false → rows_of b after ≡ rows_of b s)

abbrev pub ListResult :
    String
    → (List (String × String) → List (String × String))
    → AliasTables
    → AliasTables
    → String
    → Type 0
ListResult a f s after b =
    IsNumbered 0 (rows_of b after)
    × (chain_of b after ≡ (if a == b then f (chain_of b s) else chain_of b s))

pub Writes-ListResult :
    (a : String) (f : List (String × String) → List (String × String)) (s after : AliasTables)
    → IsOrdered s
    → Writes a f s after
    → (b : String) → ListResult a f s after b
Writes-ListResult a f s after n ((m, c), other) b = elim (Bool-cases (a == b)) [
  | inl e ↦
      subst (ListResult a f s after) (==→eq a b e) (m, (let t = eq_iff a a in c ∙ ground arith))
  | inr e ↦
      let same = other b e in
      (subst (IsNumbered 0) (sym same) (n b), ap (map pair) same ∙ rw e refl)
]

dropped_own :
    (a : String) (es : List AliasEntryRow)
    → filter (is_of a) (filter (λ e. not (is_of a e)) es) ≡ []
dropped_own a [] = refl
dropped_own a (e ∷ es) = let ih = dropped_own a es in ground arith

kept_others :
    (a b : String) (es : List AliasEntryRow)
    → (a == b) ≡ false
    → filter (is_of b) (filter (λ e. not (is_of a e)) es) ≡ filter (is_of b) es
kept_others a b [] n = refl
kept_others a b (e ∷ es) n =
    let ih = kept_others a b es n in
    ground (arith, eq_iff e.alias_name a, eq_iff e.alias_name b, eq_iff a b)

pub delete_chain_self : (a : String) (s : AliasTables) → rows_of a (delete_chain a s) ≡ []
unfolding delete_chain
delete_chain_self a s = dropped_own a (entries s)

delete_chain_other :
    (a b : String) (s : AliasTables) → (a == b) ≡ false → rows_of b (delete_chain a s) ≡ rows_of b s
unfolding delete_chain
delete_chain_other a b s n = kept_others a b (entries s) n

-- A chain that takes the place of the alias's.
replaced :
    (a : String) (paths : List String) (s bare after : AliasTables)
    → entries bare ≡ entries (delete_chain a s)
    → insert_chain a 0 paths bare ≡ some after
    → Writes a (λ xs. pairs paths) s after
replaced a paths s bare after same h =
    let empty : rows_of a bare ≡ [] = ap (filter (is_of a)) same ∙ delete_chain_self a s in
    let (m, c) =
      insert_chain-own a 0 paths bare after h (sym (ap length empty))
        (subst (IsNumbered 0) (sym empty) tt) in
    (
      (m, c ∙ ap (λ l. map pair l ++ pairs paths) empty),
      λ b n.
          insert_chain-other a b 0 paths bare after h n
          ∙ ap (filter (is_of b)) same
          ∙ delete_chain_other a b s n,
    )

weigh_last_entries :
    (a : String) (position : ℕ) (ws : Dict (String × ℕ) ℕ) (s : AliasTables)
    → entries (weigh_last a position ws s) ≡ entries s
weigh_last_entries a position [] s = refl
weigh_last_entries a position (w ∷ ws) s = refl

-- A write that changes no entries.
pub unchanged :
    (s after : AliasTables)
    → IsOrdered s
    → entries after ≡ entries s
    → (b : String) → IsNumbered 0 (rows_of b after) × (chain_of b after ≡ chain_of b s)
unchanged s after n same b =
    let rows : rows_of b after ≡ rows_of b s = ap (filter (is_of b)) same in
    (subst (IsNumbered 0) (sym rows) (n b), ap (map pair) rows)

pub create_alias-Writes :
    (a : String) (chain : List String) (strategy : RoutingStrategy) (s after : AliasTables)
    → create_alias a chain strategy s ≡ some after
    → Writes a (λ xs. pairs chain) s after
unfolding create_alias delete_weights upsert_alias_policy
create_alias-Writes a chain strategy s after h =
    let bare = delete_weights a (delete_chain a s) in
    elim (Option-cases (insert_chain a 0 chain bare)) [
      | inl e ↦ absurd (ground arith)
      | inr (next, e) ↦
          let last : upsert_alias_policy a strategy next ≡ after = ground arith in
          subst (Writes a (λ xs. pairs chain) s) last (replaced a chain s bare next refl e)
    ]

pub delete_alias-Writes : (a : String) (s : AliasTables) → Writes a (λ xs. []) s (delete_alias a s)
unfolding delete_alias delete_weights
delete_alias-Writes a s =
    let empty = delete_chain_self a s in
    ((subst (IsNumbered 0) (sym empty) tt, ap (map pair) empty), λ b n. delete_chain_other a b s n)

pub replace_alias_entry-Writes :
    (a : String) (paths : List String) (s after : AliasTables)
    → replace_alias_entry a paths s ≡ some after
    → Writes a (λ xs. pairs paths) s after
unfolding replace_alias_entry
replace_alias_entry-Writes a paths s after h =
    elim (Bool-cases (all (λ path. is_named (pair_of path)) paths)) [
      | inl e ↦ replaced a paths s (delete_chain a s) after refl (ground arith)
      | inr e ↦ absurd (ground arith)
    ]

pub append_alias_entry-Writes :
    (a path : String) (s after : AliasTables)
    → IsOrdered s
    → append_alias_entry a path s ≡ some after
    → Writes a (λ xs. xs ++ pairs (path ∷ [])) s after
unfolding append_alias_entry count_entries
append_alias_entry-Writes a path s after n h =
    let count = count_entries a s in
    elim (Option-cases (insert_path a count path s)) [
      | inl e ↦ absurd (ground arith)
      | inr (next, e) ↦
          let last : weigh_last a count (weights_of a next) next ≡ after = ground arith in
          let same : entries after ≡ entries next =
            ap entries (sym last) ∙ weigh_last_entries a count (weights_of a next) next in
          let ((m, c), k) = insert_path-own a path count s next e refl (n a) in
          let own : rows_of a after ≡ rows_of a next = ap (filter (is_of a)) same in
          (
            (subst (IsNumbered 0) (sym own) m, ap (map pair) own ∙ c),
            λ b d. ap (filter (is_of b)) same ∙ insert_path-other a b path count s next e d,
          )
    ]

pub remove_alias_entry-Writes :
    (a : String) (position : ℕ) (s : AliasTables)
    → IsOrdered s
    → Writes a (remove_at position) s (remove_alias_entry a position s)
unfolding remove_alias_entry
remove_alias_entry-Writes a position s n =
    let after = remove_alias_entry a position s in
    let own : rows_of a after ≡ dropped position (rows_of a s) =
      without_entry_self a position (entries s) in
    let (m, c) = dropped_lem position 0 position (rows_of a s) (omega arith) (n a) in
    (
      (subst (IsNumbered 0) (sym own) m, ap (map pair) own ∙ c),
      λ b d. without_entry_other a b position (entries s) (λ e. let t = eq_iff a b in ground arith),
    )

pub upsert_weights-entries :
    (a : String) (weights : List ℕ) (s after : AliasTables)
    → upsert_weights a weights s ≡ some after
    → entries after ≡ entries s
unfolding upsert_weights delete_weights
upsert_weights-entries a weights s after h =
    elim (Bool-cases (all (λ w. not (nat_eq w 0)) weights)) [
      | inl e ↦ ground arith
      | inr e ↦ absurd (ground arith)
    ]

pub upsert_alias_policy-entries :
    (a : String) (strategy : RoutingStrategy) (s : AliasTables)
    → entries (upsert_alias_policy a strategy s) ≡ entries s
unfolding upsert_alias_policy
upsert_alias_policy-entries a strategy s = refl
