-- ===== src/Routing/Order.antt =====
-- Each strategy tries every position of the chain exactly once.
use mathlib.Core.List.{perm_append_comm, map-append}
use mathlib.Core.List.Perm
use native.Mathlib.Nat.{mod-eq_of_lt, mod-eq-sub-mod}
use ms_gatgeway_llm.Base.{
  ℕ, zero, suc, ◌+◌, ◌-◌, ◌%◌, ◌≤◌, ◌<◌, ◌≡◌, refl, ap, ◌∙◌, ◌⊎◌, inl, inr, true, false, List, [],
  ◌∷◌, ◌++◌, map, Perm, nat_eq, length, range_from, range, Bool-cases, range_from-append, arith,
}
use ms_gatgeway_llm.Providers.{
  ResolvedModel, RoutingStrategy, primary, round_robin, fallback, weighted, priority_grouped,
}
use ms_gatgeway_llm.Routing.Sampling.{sample_weighted_index_lem}
use ms_gatgeway_llm.Routing.Strategy.{
  Random, walk_forward_from, Ranked, ranked_from, not_after, insert_ranked, sort_ranked, order_of,
  pick_order,
}

-- A stretch of the walk before the end of the chain, and one after it has wrapped.
walk_low :
    (s n a k : ℕ) → s + a + k ≤ n → map (λ i. (s + i) % n) (range_from a k) ≡ range_from (s + a) k
walk_low s n a zero h = refl
walk_low s n a (suc k) h =
    let e : (s + a) % n ≡ s + a = mod-eq_of_lt (omega arith) in
    let f : s + suc a ≡ suc (s + a) = omega arith in rw (e, walk_low s n (suc a) k (omega arith), f)

walk_high :
    (s n a k : ℕ)
    → n ≤ s + a
    → s + a + k ≤ n + n
    → map (λ i. (s + i) % n) (range_from a k) ≡ range_from (s + a - n) k
walk_high s n a zero h l = refl
walk_high s n a (suc k) h l =
    let e : (s + a) % n ≡ s + a - n = mod-eq-sub-mod h ∙ mod-eq_of_lt (omega arith) in
    let f : s + suc a - n ≡ suc (s + a - n) = omega arith in
    rw (e, walk_high s n (suc a) k (omega arith) (omega arith), f)

walk_split : (s n : ℕ) → s < n → walk_forward_from s n ≡ range_from s (n - s) ++ range s
unfolding walk_forward_from
walk_split s n h =
    let e : n ≡ (n - s) + s = omega arith in
    let f : range n ≡ range (n - s) ++ range_from (0 + (n - s)) s =
      ap range e ∙ range_from-append 0 (n - s) s in
    let g : s + 0 ≡ s = omega arith in
    let g' : s + (0 + (n - s)) - n ≡ 0 = omega arith in
    rw (
      f,
      map-append,
      walk_low s n 0 (n - s) (omega arith),
      walk_high s n (0 + (n - s)) s (omega arith) (omega arith),
      g,
      g',
    )

-- A walk from a position of the chain visits every position once.
pub walk_forward_from-perm : (s n : ℕ) → s < n → Perm (walk_forward_from s n) (range n)
walk_forward_from-perm s n h =
    let e : n ≡ s + (n - s) = omega arith in
    let f : range n ≡ range s ++ range_from (0 + s) (n - s) =
      ap range e ∙ range_from-append 0 s (n - s) in
    let g : 0 + s ≡ s = omega arith in
    rw (walk_split s n h, f, g) (perm_append_comm (range_from s (n - s)) (range s))

insert_ranked-perm : (a : Ranked) (bs : List Ranked) → Perm (insert_ranked a bs) (a ∷ bs)
unfolding insert_ranked
insert_ranked-perm a [] = Perm.refl (a ∷ [])
insert_ranked-perm a (b ∷ bs) = elim (Bool-cases (not_after a b)) [
  | inl yes' ↦ rw yes' (Perm.refl (a ∷ b ∷ bs))
  | inr no' ↦ rw no' (Perm.trans (Perm.cons b (insert_ranked-perm a bs)) (Perm.swap a b bs))
]

sort_ranked-perm : (bs : List Ranked) → Perm (sort_ranked bs) bs
unfolding sort_ranked
sort_ranked-perm [] = Perm.nil
sort_ranked-perm (a ∷ bs) =
    Perm.trans (insert_ranked-perm a (sort_ranked bs)) (Perm.cons a (sort_ranked-perm bs))

map_idx-ranked_from :
    (i : ℕ) (chain : List ResolvedModel)
    → map (λ p. p.idx) (ranked_from i chain) ≡ range_from i (length chain)
unfolding ranked_from
map_idx-ranked_from i [] = refl
map_idx-ranked_from i (m ∷ chain) = rw (map_idx-ranked_from (suc i) chain)

-- The strategies on a chain of two entries or more.
order_of-perm :
    {S : Type 0} (strategy : RoutingStrategy) (chain : List ResolvedModel) (cursor_next : S → ℕ × S)
    (weights : List ℕ) (r : Random) (s : S)
    → 0 < length chain
    → r.num < r.den
    → (cursor_next s).0 < length chain
    → Perm (order_of strategy chain cursor_next weights r s).0 (range (length chain))
unfolding order_of
order_of-perm round_robin chain cursor_next weights r s h random start =
    walk_forward_from-perm (cursor_next s).0 (length chain) start
order_of-perm weighted chain cursor_next weights r s h random start =
    walk_forward_from-perm _ (length chain)
      (sample_weighted_index_lem r weights (length chain) random h).0
order_of-perm priority_grouped chain cursor_next weights r s h random start =
    rw (← map_idx-ranked_from 0 chain)
      (Perm.map (λ p. p.idx) (sort_ranked-perm (ranked_from 0 chain)))
order_of-perm primary chain cursor_next weights r s h random start = Perm.refl _
order_of-perm fallback chain cursor_next weights r s h random start = Perm.refl _

-- Whatever the strategy, if the cursor and the random number are in range, the order is a
-- permutation of all positions of the chain: each entry is tried exactly once.
pub pick_order-perm :
    {S : Type 0} (strategy : RoutingStrategy) (chain : List ResolvedModel) (cursor_next : S → ℕ × S)
    (weights : List ℕ) (r : Random) (s : S)
    → r.num < r.den
    → (0 < length chain → (cursor_next s).0 < length chain)
    → Perm (pick_order strategy chain cursor_next weights r s).0 (range (length chain))
unfolding pick_order
pick_order-perm strategy [] cursor_next weights r s random start = Perm.nil
pick_order-perm strategy (m ∷ []) cursor_next weights r s random start = Perm.refl _
pick_order-perm strategy (m ∷ m' ∷ ms) cursor_next weights r s random start =
    order_of-perm strategy (m ∷ m' ∷ ms) cursor_next weights r s (omega arith) random
      (start (omega arith))

-- (priority, position), lexicographically.
abbrev pub Before : Ranked → Ranked → Type 0
Before a b = (a.priority < b.priority) ⊎ ((a.priority ≡ b.priority) × (a.idx ≤ b.idx))

-- `a` comes before the first of the list, if there is one.
abbrev pub Leads : Ranked → List Ranked → Type 0
Leads a [] = Unit
Leads a (b ∷ bs) = Before a b

abbrev pub IsGrouped : List Ranked → Type 0
IsGrouped [] = Unit
IsGrouped (a ∷ bs) = Leads a bs × IsGrouped bs

not_after-Before : (a b : Ranked) → not_after a b ≡ true → Before a b
unfolding not_after
not_after-Before a b h = elim (Bool-cases (nat_eq a.priority b.priority)) [
  | inl same ↦ inr (ground arith, ground arith)
  | inr other ↦ inl (ground arith)
]

after-Before : (a b : Ranked) → not_after a b ≡ false → Before b a
unfolding not_after
after-Before a b h = elim (Bool-cases (nat_eq a.priority b.priority)) [
  | inl same ↦ inr (ground arith, ground arith)
  | inr other ↦ inl (ground arith)
]

Leads-insert_ranked :
    (a b : Ranked) (bs : List Ranked) → Before b a → Leads b bs → Leads b (insert_ranked a bs)
unfolding insert_ranked
Leads-insert_ranked a b [] h k = h
Leads-insert_ranked a b (c ∷ bs) h k = elim (Bool-cases (not_after a c)) [
  | inl first ↦ rw first h
  | inr later ↦ rw later k
]

insert_ranked-IsGrouped :
    (a : Ranked) (bs : List Ranked) → IsGrouped bs → IsGrouped (insert_ranked a bs)
unfolding insert_ranked
insert_ranked-IsGrouped a [] g = (tt, tt)
insert_ranked-IsGrouped a (b ∷ bs) (k, g) = elim (Bool-cases (not_after a b)) [
  | inl first ↦ rw first (not_after-Before a b first, (k, g))
  | inr later ↦
      rw later
        (Leads-insert_ranked a b bs (after-Before a b later) k, insert_ranked-IsGrouped a bs g)
]

sort_ranked-IsGrouped : (bs : List Ranked) → IsGrouped (sort_ranked bs)
unfolding sort_ranked
sort_ranked-IsGrouped [] = tt
sort_ranked-IsGrouped (a ∷ bs) =
    insert_ranked-IsGrouped a (sort_ranked bs) (sort_ranked-IsGrouped bs)

-- With `priority-grouped`, the order lists the positions with their priorities so that a lower
-- priority number comes first and equal priorities keep the chain's order, and it lists all of
-- them; the cursor does not move.
pub pick_order-IsGrouped :
    {S : Type 0} (chain : List ResolvedModel) (cursor_next : S → ℕ × S) (weights : List ℕ)
    (r : Random) (s : S)
    → (l : List Ranked) × ((pick_order priority_grouped chain cursor_next weights r s)
        ≡ (map (λ p. p.idx) l, s))
      × IsGrouped l
      × Perm l (ranked_from 0 chain)
unfolding pick_order order_of ranked_from
pick_order-IsGrouped [] cursor_next weights r s = ([], refl, tt, Perm.nil)
pick_order-IsGrouped (m ∷ []) cursor_next weights r s =
    (record { idx = 0; priority = m.priority } ∷ [], refl, (tt, tt), Perm.refl _)
pick_order-IsGrouped (m ∷ m' ∷ ms) cursor_next weights r s =
    (sort_ranked (ranked_from 0 (m ∷ m' ∷ ms)), refl, sort_ranked-IsGrouped _, sort_ranked-perm _)
