-- ===== src/Admin/Views.antt =====
-- What src/admin/admin-aliases.controller.ts shows of an alias: `toView`.
use ms_gatgeway_llm.Base.{ℕ, suc, zero, String, none, some, List, [], ◌∷◌, map, get, string_key}
use ms_gatgeway_llm.Providers.{RoutingStrategy, primary}
use ms_gatgeway_llm.Providers.Registry.{AliasEntryRow, get_alias_entries}
use ms_gatgeway_llm.Providers.Aliases.{AliasTables, weights_of}

pub record AliasView : Type 0 where
  pub id : String
  pub chain : List String
  pub strategy : RoutingStrategy
  pub weights : List ℕ
  pub priorities : List ℕ

-- `xs[position] = x`, where the position is in range.
abbrev pub set_at : ℕ → ℕ → List ℕ → List ℕ
set_at position x [] = []
set_at zero x (y ∷ ys) = x ∷ ys
set_at (suc position) x (y ∷ ys) = y ∷ set_at position x ys

abbrev pub set_all : List (ℕ × ℕ) → List ℕ → List ℕ
set_all [] xs = xs
set_all ((position, x) ∷ rows) xs = set_all rows (set_at position x xs)

unfoldable pub get_strategy : String → AliasTables → RoutingStrategy
get_strategy alias s = elim (get alias s.alias_policy) [ none ↦ primary | some kind ↦ kind ]

unfoldable pub to_view :
    (List AliasEntryRow → List AliasEntryRow) → String → List String → AliasTables → AliasView
to_view order_by alias chain s = record {
  id = alias;
  chain = chain;
  strategy = get_strategy alias s;
  weights = set_all (map (λ r. (r.0.1, r.1)) (weights_of alias s)) (map (λ path. 1) chain);
  priorities =
      set_all (map (λ e. (e.position, e.priority)) (get_alias_entries s.registry order_by alias))
        (map (λ path. 0) chain);
}
