-- ===== src/Routing/Sampling.antt =====
-- The weighted draw picks the position whose share of the total the random number falls in.
use ms_gatgeway_llm.Base.{
  ℕ, zero, suc, ◌+◌, ◌-◌, ◌*◌, ◌≤◌, ◌<◌, ◌≡◌, ap, inl, inr, List, [], ◌∷◌, ltb, Bool-cases, ltb→lt,
  length, sum, take, arith,
}
use ms_gatgeway_llm.Routing.Strategy.{Random, effective, first_above, sample_weighted_index}

pub length-effective : (ws : List ℕ) (n : ℕ) → length (effective ws n) ≡ n
unfolding effective
length-effective ws zero = omega arith
length-effective [] (suc n) = omega (arith, length-effective [] n)
length-effective (w ∷ ws) (suc n) = omega (arith, length-effective ws n)

le-sum-effective : (ws : List ℕ) (n : ℕ) → n ≤ sum (effective ws n)
unfolding effective
le-sum-effective ws zero = omega arith
le-sum-effective [] (suc n) = ground (arith, le-sum-effective [] n)
le-sum-effective (w ∷ ws) (suc n) = ground (arith, le-sum-effective ws n)

-- `acc` plus the first `k` weights of `ws`, scaled, against the target.
record FallsIn (r : Random) (total i acc k : ℕ) (ws : List ℕ) (j : ℕ) : Type 0 where
  place : j ≡ i + k
  inside : k < length ws
  low : (acc + sum (take k ws)) * r.den ≤ r.num * total
  high : r.num * total < (acc + sum (take (suc k) ws)) * r.den

first_above-FallsIn :
    (r : Random) (total last i acc : ℕ) (ws : List ℕ)
    → acc * r.den ≤ r.num * total
    → r.num * total < (acc + sum ws) * r.den
    → (k : ℕ) × FallsIn r total i acc k ws (first_above r total last i acc ws)
unfolding first_above
first_above-FallsIn r total last i acc [] lo hi =
    let e : acc + 0 ≡ acc = omega arith in absurd (omega (arith, ap (λ t. t * r.den) e))
first_above-FallsIn r total last i acc (w ∷ ws) lo hi =
    elim (Bool-cases (ltb (r.num * total) ((acc + w) * r.den))) [
      | inl passed ↦ rw passed (
        0,
        record {
          place = omega arith;
          inside = omega arith;
          low = omega arith;
          high = let h = ltb→lt _ _ passed in omega arith;
        },
      )
      | inr below ↦
          let up : (acc + w) * r.den ≤ r.num * total = ground arith in
          let (k, f) = first_above-FallsIn r total last (suc i) (acc + w) ws up (omega arith) in
          rw below (
            suc k,
            record {
              place = let e = f.place in omega arith;
              inside = let e = f.inside in omega arith;
              low = let e = f.low in omega arith;
              high = let e = f.high in omega arith;
            },
          )
    ]

-- For a chain of at least one entry and a random number below 1, the draw gives a position `i` of
-- the chain such that the random number falls in the share of `i`: at or above the weights
-- before `i`, and below those up to `i`, as fractions of the total (a missing weight counts as 1).
pub sample_weighted_index_lem :
    (r : Random) (weights : List ℕ) (n : ℕ)
    → r.num < r.den
    → 0 < n
    → let i = sample_weighted_index r weights n in
      let ws = effective weights n in
      (i < n)
      × (sum (take i ws) * r.den ≤ r.num * sum ws)
      × (r.num * sum ws < sum (take (suc i) ws) * r.den)
unfolding sample_weighted_index
sample_weighted_index_lem r weights n random h =
    let ws = effective weights n in
    let some_weight = le-sum-effective weights n in
    let hi : r.num * sum ws < (0 + sum ws) * r.den = grind arith in
    let (k, f) = first_above-FallsIn r (sum ws) (n - 1) 0 0 ws (omega arith) hi in
    let place = f.place in
    let inside = f.inside in
    let low = f.low in
    let high = f.high in
    let e : sample_weighted_index r weights n ≡ k = ground arith in
    rw e (omega (arith, length-effective weights n), omega arith, omega arith)
