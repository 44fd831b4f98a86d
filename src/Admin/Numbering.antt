-- ===== src/Admin/Numbering.antt =====
-- Tables of aliases that are in order and within 64 entries an alias, for the handlers of
-- src/admin/admin-aliases.controller.ts.
use ms_gatgeway_llm.Base.{
  ℕ, suc, zero, ◌≤◌, ◌≡◌, ◌≢◌, refl, sym, ap, subst, ◌∙◌, String, some, List, [], ◌∷◌, map, Dict,
  get, string_key, number_key, pair_key, filter, length, Option-cases, inl, inr, arith,
}
use ms_gatgeway_llm.Providers.Registry.{AliasEntryRow}
use ms_gatgeway_llm.Providers.Paths.{path}
use ms_gatgeway_llm.Providers.Positions.{IsNumbered, pair, remove_at}
use ms_gatgeway_llm.Providers.Aliases.{AliasTables, entries, with_entries, is_of, pair_of}
use ms_gatgeway_llm.Providers.AliasChains.{
  AliasCall, apply_alias_call, rows_of, chain_of, pairs, effect,
}
use ms_gatgeway_llm.Providers.AliasWrites.{IsOrdered}
use ms_gatgeway_llm.Providers.AliasCalls.{apply_alias_call-Agrees}
use ms_gatgeway_llm.Admin.Aliases.{AdminAnswer, internal_error, reprioritised}

-- Every alias is numbered 0, 1, 2, … and has at most 64 entries.
abbrev pub IsSound : AliasTables → Type 0
IsSound s = IsOrdered s × ((b : String) → length (rows_of b s) ≤ 64)

-- An answer that is no 500, and sound tables.
abbrev pub Good : AdminAnswer × AliasTables → Type 0
Good r = (r.0 ≢ internal_error) × IsSound r.1

pub length-pair : (es : List AliasEntryRow) → length (map pair es) ≡ length es
length-pair [] = refl
length-pair (e ∷ es) = ap suc (length-pair es)

pub length-map-path :
    (es : List AliasEntryRow) → length (map (λ e. path e.provider_id e.model_key) es) ≡ length es
length-map-path [] = refl
length-map-path (e ∷ es) = ap suc (length-map-path es)

pub length-pairs : (paths : List String) → length (pairs paths) ≤ length paths
length-pairs [] = omega arith
length-pairs (p ∷ paths) =
    let ih = length-pairs paths in
    elim (Option-cases (pair_of p)) [ inl e ↦ ground arith | inr (q, e) ↦ ground arith ]

pub length-remove_at {ℓ} : {A : Type ℓ} (n : ℕ) (xs : List A) → length (remove_at n xs) ≤ length xs
length-remove_at n [] = ground arith
length-remove_at zero (x ∷ xs) = omega arith
length-remove_at (suc n) (x ∷ xs) = let ih = length-remove_at n xs in omega arith

pub remove_at-length {ℓ} :
    {A : Type ℓ} (n : ℕ) (xs : List A) → length xs ≤ suc (length (remove_at n xs))
remove_at-length n [] = omega arith
remove_at-length zero (x ∷ xs) = omega arith
remove_at-length (suc n) (x ∷ xs) = let ih = remove_at-length n xs in omega arith

-- New priorities change neither the aliases nor the positions nor the numbers of the entries.
pub filter-reprioritised :
    (id b : String) (priorities : Dict ℕ ℕ) (es : List AliasEntryRow)
    → filter (is_of b) (map (reprioritised id priorities) es)
      ≡ map (reprioritised id priorities) (filter (is_of b) es)
filter-reprioritised id b priorities [] = refl
filter-reprioritised id b priorities (e ∷ es) =
    let ih = filter-reprioritised id b priorities es in
    elim (Option-cases (get e.position priorities)) [
      | inl h ↦ ground arith
      | inr (p, h) ↦ ground arith
    ]

pub reprioritised_position :
    (id : String) (priorities : Dict ℕ ℕ) (e : AliasEntryRow)
    → (reprioritised id priorities e).position ≡ e.position
reprioritised_position id priorities e = elim (Option-cases (get e.position priorities)) [
  | inl h ↦ ground arith
  | inr (p, h) ↦ ground arith
]

IsNumbered-reprioritised :
    (id : String) (priorities : Dict ℕ ℕ) (i : ℕ) (es : List AliasEntryRow)
    → IsNumbered i es
    → IsNumbered i (map (reprioritised id priorities) es)
IsNumbered-reprioritised id priorities i [] n = tt
IsNumbered-reprioritised id priorities i (e ∷ es) (p, n) = (
  reprioritised_position id priorities e ∙ p,
  IsNumbered-reprioritised id priorities (suc i) es n,
)

pub length-reprioritised :
    (id : String) (priorities : Dict ℕ ℕ) (es : List AliasEntryRow)
    → length (map (reprioritised id priorities) es) ≡ length es
length-reprioritised id priorities [] = refl
length-reprioritised id priorities (e ∷ es) = ap suc (length-reprioritised id priorities es)

pub reprioritised-IsSound :
    (id : String) (priorities : Dict ℕ ℕ) (s : AliasTables)
    → IsSound s
    → IsSound (with_entries (map (reprioritised id priorities) (entries s)) s)
reprioritised-IsSound id priorities s (n, l) = (
  λ b.
      subst (IsNumbered 0) (sym (filter-reprioritised id b priorities (entries s)))
        (IsNumbered-reprioritised id priorities 0 (rows_of b s) (n b)),
  λ b. omega (
    arith,
    ap length (filter-reprioritised id b priorities (entries s)),
    length-reprioritised id priorities (rows_of b s),
    l b,
  ),
)

-- A call of the repository whose effect is within the limit.
pub from_call :
    (call : AliasCall) (s after : AliasTables)
    → IsSound s
    → apply_alias_call call s ≡ some after
    → ((b : String) → length (effect call b (chain_of b s)) ≤ 64)
    → IsSound after
from_call call s after (n, l) h within =
    let (n', c) = apply_alias_call-Agrees call s after n h in
    (n', λ b. omega (arith, length-pair (rows_of b after), ap length (c b), within b))
