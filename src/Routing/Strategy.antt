-- ===== src/Routing/Strategy.antt =====
-- The order in which the positions of a chain are tried, src/routing/strategy.ts.
use ms_gatgeway_llm.Base.{
  ℕ, zero, suc, ◌+◌, ◌-◌, ◌*◌, ◌/◌, ◌%◌, Bool, List, [], ◌∷◌, map, Option, none, some, leb, ltb,
  nat_eq, if◌then◌else◌, length, range, sum,
}
use ms_gatgeway_llm.Providers.{
  ResolvedModel, RoutingStrategy, primary, round_robin, fallback, weighted, priority_grouped,
}

-- `Math.random()`: num / den, with num < den.
pub record Random : Type 0 where
  pub num : ℕ
  pub den : ℕ

unfoldable pub walk_forward_from : ℕ → ℕ → List ℕ
walk_forward_from start n = map (λ i. (start + i) % n) (range n)

-- The first loop of `sampleWeightedIndex`, from position `i` on: a missing weight and a weight 0
-- count as 1.
unfoldable pub effective_at : Option ℕ → ℕ
effective_at none = 1
effective_at (some w) = if ltb 0 w then w else 1

-- `weights?.[i]` for i = 0, 1, …, n - 1.
unfoldable pub effective : List ℕ → ℕ → List ℕ
unfolding effective_at
effective ws zero = []
effective [] (suc n) = effective_at none ∷ effective [] n
effective (w ∷ ws) (suc n) = effective_at (some w) ∷ effective ws n

-- The second loop: the first position whose running total passes `target`; `target < acc` is
-- compared with the denominator multiplied out, and `last` is `n - 1`.
unfoldable pub first_above : Random → ℕ → ℕ → ℕ → ℕ → List ℕ → ℕ
first_above r total last i acc [] = last
first_above r total last i acc (w ∷ ws) =
    if ltb (r.num * total) ((acc + w) * r.den)
    then i
    else first_above r total last (suc i) (acc + w) ws

-- `weights` is an empty list where the source has `undefined`.
unfoldable pub sample_weighted_index : Random → List ℕ → ℕ → ℕ
sample_weighted_index r weights n =
    let ws = effective weights n in
    let total = sum ws in
    if nat_eq total 0 then r.num * n / r.den else first_above r total (n - 1) 0 0 ws

-- `{ idx, priority }`.
pub record Ranked : Type 0 where
  pub idx : ℕ
  pub priority : ℕ

unfoldable pub ranked_from : ℕ → List ResolvedModel → List Ranked
ranked_from i [] = []
ranked_from i (m ∷ chain) = record { idx = i; priority = m.priority } ∷ ranked_from (suc i) chain

-- The comparator gives a number `<= 0`.
unfoldable pub not_after : Ranked → Ranked → Bool
not_after a b = if nat_eq a.priority b.priority then leb a.idx b.idx else ltb a.priority b.priority

-- `Array.prototype.sort` by the comparator.
unfoldable pub insert_ranked : Ranked → List Ranked → List Ranked
insert_ranked a [] = a ∷ []
insert_ranked a (b ∷ bs) = if not_after a b then a ∷ b ∷ bs else b ∷ insert_ranked a bs

unfoldable pub sort_ranked : List Ranked → List Ranked
sort_ranked [] = []
sort_ranked (a ∷ bs) = insert_ranked a (sort_ranked bs)

-- The order for a chain of two entries or more.  `cursor_next` is called for `round-robin` only.
unfoldable pub order_of {ℓ} :
    {S : Type ℓ}
    → RoutingStrategy
    → List ResolvedModel
    → (S → ℕ × S)
    → List ℕ
    → Random
    → S
    → List ℕ × S
order_of round_robin chain cursor_next weights r s =
    let (start, s') = cursor_next s in (walk_forward_from start (length chain), s')
order_of weighted chain cursor_next weights r s =
    (walk_forward_from (sample_weighted_index r weights (length chain)) (length chain), s)
order_of priority_grouped chain cursor_next weights r s =
    (map (λ p. p.idx) (sort_ranked (ranked_from 0 chain)), s)
order_of primary chain cursor_next weights r s = (range (length chain), s)
order_of fallback chain cursor_next weights r s = (range (length chain), s)

-- `pickOrder`.  `S` is the state behind the closure `cursorNext`.
unfoldable pub pick_order {ℓ} :
    {S : Type ℓ}
    → RoutingStrategy
    → List ResolvedModel
    → (S → ℕ × S)
    → List ℕ
    → Random
    → S
    → List ℕ × S
pick_order strategy [] cursor_next weights r s = ([], s)
pick_order strategy (m ∷ []) cursor_next weights r s = (0 ∷ [], s)
pick_order strategy (m ∷ m' ∷ ms) cursor_next weights r s =
    order_of strategy (m ∷ m' ∷ ms) cursor_next weights r s
