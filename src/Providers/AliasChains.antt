-- ===== src/Providers/AliasChains.antt =====
-- The tables of aliases against lists: each alias has a list of pairs (provider, model), which the
-- writes of src/database/repositories/provider-registry.repository.ts change.
use ms_gatgeway_llm.Base.{
  ℕ, suc, ◌≡◌, refl, sym, ap, subst, ◌∙◌, String, false, Option, none, some, List, [], ◌∷◌, ◌++◌,
  map, string_key, ◌==◌, filter, filter-append, length, length-append, append_assoc, append-nil,
  if◌then◌else◌, Option-cases, eq_iff, inl, inr, arith,
}
use ms_gatgeway_llm.Providers.{RoutingStrategy}
use ms_gatgeway_llm.Providers.Registry.{AliasEntryRow}
use ms_gatgeway_llm.Providers.Positions.{IsNumbered, IsNumbered-append, pair, remove_at}
use ms_gatgeway_llm.Providers.Aliases.{
  AliasTables, entries, is_of, pair_of, new_entry, insert_entry, insert_path, insert_chain,
  upsert_alias_policy, create_alias, delete_alias, replace_alias_entry, append_alias_entry,
  remove_alias_entry, upsert_weights,
}

-- What callers ask of the registry's aliases.
pub data AliasCall : Type 0 where
  creates : (alias : String) → (chain : List String) → RoutingStrategy → AliasCall
  deletes : (alias : String) → AliasCall
  replaces : (alias : String) → (chain : List String) → AliasCall
  appends : (alias path : String) → AliasCall
  removes : (alias : String) → (position : ℕ) → AliasCall
  weighs : (alias : String) → (weights : List ℕ) → AliasCall
  chooses : (alias : String) → RoutingStrategy → AliasCall

unfoldable pub apply_alias_call : AliasCall → AliasTables → Option AliasTables
apply_alias_call (creates a chain strategy) s = create_alias a chain strategy s
apply_alias_call (deletes a) s = some (delete_alias a s)
apply_alias_call (replaces a chain) s = replace_alias_entry a chain s
apply_alias_call (appends a path) s = append_alias_entry a path s
apply_alias_call (removes a position) s = some (remove_alias_entry a position s)
apply_alias_call (weighs a weights) s = upsert_weights a weights s
apply_alias_call (chooses a strategy) s = some (upsert_alias_policy a strategy s)

abbrev pub rows_of : String → AliasTables → List AliasEntryRow
rows_of alias s = filter (is_of alias) (entries s)

-- The list of an alias.
abbrev pub chain_of : String → AliasTables → List (String × String)
chain_of alias s = map pair (rows_of alias s)

abbrev pub pairs : List String → List (String × String)
pairs [] = []
pairs (path ∷ paths) = elim (pair_of path) [ none ↦ pairs paths | some q ↦ q ∷ pairs paths ]

-- What a call does to the list of an alias.
abbrev pub effect : AliasCall → String → List (String × String) → List (String × String)
effect (creates a chain strategy) b xs = if a == b then pairs chain else xs
effect (deletes a) b xs = if a == b then [] else xs
effect (replaces a chain) b xs = if a == b then pairs chain else xs
effect (appends a path) b xs = if a == b then xs ++ pairs (path ∷ []) else xs
effect (removes a position) b xs = if a == b then remove_at position xs else xs
effect (weighs a weights) b xs = xs
effect (chooses a strategy) b xs = xs

map-append : (xs ys : List AliasEntryRow) → map pair (xs ++ ys) ≡ map pair xs ++ map pair ys
map-append [] ys = refl
map-append (x ∷ xs) ys = ap (λ l. pair x ∷ l) (map-append xs ys)

-- An entry of `a` that is inserted at the end.
insert_path_lem :
    (a : String) (position : ℕ) (path : String) (s after : AliasTables)
    → insert_path a position path s ≡ some after
    → (q : String × String) × (pair_of path ≡ some q)
      × (entries after ≡ entries s ++ new_entry a position q ∷ [])
unfolding insert_path insert_entry
insert_path_lem a position path s after h = elim (Option-cases (pair_of path)) [
  | inl e ↦ ground arith
  | inr (q, e) ↦ (q, e, ground arith)
]

-- What insertions of a chain do to the rows of their alias, `a`, and of another.
abbrev pub Extended : String → List String → AliasTables → AliasTables → Type 0
Extended a paths s after =
    IsNumbered 0 (rows_of a after) × (chain_of a after ≡ chain_of a s ++ pairs paths)

pub insert_path-own :
    (a path : String) (position : ℕ) (s after : AliasTables)
    → insert_path a position path s ≡ some after
    → position ≡ length (rows_of a s)
    → IsNumbered 0 (rows_of a s)
    → Extended a (path ∷ []) s after × (length (rows_of a after) ≡ suc position)
insert_path-own a path position s after h l n =
    let (q, e, same) = insert_path_lem a position path s after h in
    let e' = new_entry a position q in
    let rows : rows_of a after ≡ rows_of a s ++ e' ∷ [] =
      ap (filter (is_of a)) same
      ∙ filter-append (is_of a) (entries s) (e' ∷ [])
      ∙ (let t = eq_iff a a in ground arith) in
    let ps : pairs (path ∷ []) ≡ q ∷ [] = ground arith in
    let len = length-append (rows_of a s) (e' ∷ []) in
    (
      (
        subst (IsNumbered 0) (sym rows) (IsNumbered-append 0 (rows_of a s) e' n (omega arith)),
        ap (map pair) rows
            ∙ map-append (rows_of a s) (e' ∷ [])
            ∙ ap (λ l. chain_of a s ++ l) (sym ps),
      ),
      ap length rows ∙ len ∙ omega (arith, l),
    )

pub insert_path-other :
    (a b path : String) (position : ℕ) (s after : AliasTables)
    → insert_path a position path s ≡ some after
    → (a == b) ≡ false
    → rows_of b after ≡ rows_of b s
insert_path-other a b path position s after h n =
    let (q, e, same) = insert_path_lem a position path s after h in
    ap (filter (is_of b)) same
    ∙ filter-append (is_of b) (entries s) (new_entry a position q ∷ [])
    ∙ rw n (append-nil (rows_of b s))

pairs-cons :
    (path : String) (paths : List String) → pairs (path ∷ []) ++ pairs paths ≡ pairs (path ∷ paths)
pairs-cons path paths = elim (Option-cases (pair_of path)) [
  | inl e ↦ ground arith
  | inr (q, e) ↦ ground arith
]

pub insert_chain-own :
    (a : String) (position : ℕ) (paths : List String) (s after : AliasTables)
    → insert_chain a position paths s ≡ some after
    → position ≡ length (rows_of a s)
    → IsNumbered 0 (rows_of a s)
    → Extended a paths s after
unfolding insert_chain
insert_chain-own a position [] s after h l n =
    let same : s ≡ after = ground arith in
    subst (Extended a [] s) same (n, sym (append-nil (chain_of a s)))
insert_chain-own a position (path ∷ paths) s after h l n =
    elim (Option-cases (insert_path a position path s)) [
      | inl e ↦ absurd (ground arith)
      | inr (next, e) ↦
          let ((m, c), k) = insert_path-own a path position s next e l n in
          let rest : insert_chain a (suc position) paths next ≡ some after = ground arith in
          let (m', c') = insert_chain-own a (suc position) paths next after rest (sym k) m in
          (
            m',
            c'
                ∙ ap (λ l. l ++ pairs paths) c
                ∙ append_assoc (chain_of a s) (pairs (path ∷ [])) (pairs paths)
                ∙ ap (λ l. chain_of a s ++ l) (pairs-cons path paths),
          )
    ]

pub insert_chain-other :
    (a b : String) (position : ℕ) (paths : List String) (s after : AliasTables)
    → insert_chain a position paths s ≡ some after
    → (a == b) ≡ false
    → rows_of b after ≡ rows_of b s
unfolding insert_chain
insert_chain-other a b position [] s after h n =
    let same : after ≡ s = ground arith in ap (rows_of b) same
insert_chain-other a b position (path ∷ paths) s after h n =
    elim (Option-cases (insert_path a position path s)) [
      | inl e ↦ absurd (ground arith)
      | inr (next, e) ↦
          let rest : insert_chain a (suc position) paths next ≡ some after = ground arith in
          insert_chain-other a b (suc position) paths next after rest n
          ∙ insert_path-other a b path position s next e n
    ]
