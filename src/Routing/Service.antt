-- ===== src/Routing/Service.antt =====
-- One routed request, src/routing/routing.service.ts: the chain is walked in the strategy's order
-- under the breaker. The executor is not modelled: what it does at each attempt, the times at
-- which the loop reads the clock, and what other requests do to the breaker while the executor
-- runs are given by a `Turn` for each attempt, and theorems range over all of them.
use ms_gatgeway_llm.Base.{
  ℕ, suc, ◌-◌, String, Bool, true, false, List, [], ◌∷◌, ◌++◌, Option, none, some, if◌then◌else◌,
  length, get_elem?, replicate, set,
}
use ms_gatgeway_llm.Providers.{ResolvedModel, RoutingStrategy}
use ms_gatgeway_llm.Resilience.Circuit.{Policy}
use ms_gatgeway_llm.Resilience.{
  Breaker, Event, can_request, execute_start, execute_ok, execute_error, run,
}
use ms_gatgeway_llm.Routing.Strategy.{Random, pick_order}
use ms_gatgeway_llm.Routing.Cursor.{RoundRobinCursor, next}

-- How the executor's promise ends.
pub data Outcome (R E : Type 0) : Type 0 where
  resolved : R → Outcome R E
  threw : E → Outcome R E

pub data RouteAttempt (E : Type 0) : Type 0 where
  attempt_ok : (provider_id upstream_model : String) (duration_ms : ℕ) → RouteAttempt E
  attempt_failed :
      (provider_id upstream_model : String) (circuit_open : Bool) (error : Option E)
      (duration_ms : ℕ)
      → RouteAttempt E

-- How `route` ends: it returns, it throws `RoutingFailedError`, or a position of the order is not
-- in the chain and reading the entry's fields throws.
pub data RouteEnd (R E : Type 0) : Type 0 where
  routed : R → (provider_id : String) → List (RouteAttempt E) → RouteEnd R E
  routing_failed : (requested_model : String) → List (RouteAttempt E) → RouteEnd R E
  index_error : RouteEnd R E

-- The surroundings of one attempt: the clock at the top of the loop, at `canRequest`, at
-- `execute`, at the end of the call and at the end of the round; the calls that other requests
-- make of the breaker while this one waits; and how the executor ends.
pub record Turn (R E : Type 0) : Type 0 where
  pub start : ℕ
  pub check_at : ℕ
  pub execute_at : ℕ
  pub meanwhile : List (ℕ × Event)
  pub done_at : ℕ
  pub end_at : ℕ
  pub outcome : Outcome R E

-- `Date.now() - start`.
abbrev pub duration : {R E : Type 0} → Turn R E → ℕ
duration t = t.end_at - t.start

-- The rows of `getWeights` over `new Array(chainLength).fill(1)`; a position out of range is
-- skipped. An empty list stands for `undefined`.
fill_weights : List (ℕ × ℕ) → List ℕ → List ℕ
fill_weights [] out = out
fill_weights ((position, weight) ∷ rows) out = fill_weights rows (set out position weight)

unfoldable pub alias_weights_for : List (ℕ × ℕ) → ℕ → List ℕ
unfolding fill_weights
alias_weights_for [] chain_length = []
alias_weights_for (row ∷ rows) chain_length = fill_weights (row ∷ rows) (replicate chain_length 1)

-- `is_circuit_open e` is `e instanceof CircuitOpenError`.
module _ {R E : Type 0} (is_circuit_open : E → Bool) (p : Policy) where
  -- After the call: what is pushed on `attempts`, the result if there is one, and the breaker.
  unfoldable pub settle :
      Turn R E → ResolvedModel → Bool → Outcome R E → Breaker → Option R × RouteAttempt E × Breaker
  settle t m probing (resolved r) b = (
    some r,
    attempt_ok m.provider_id m.upstream_model (duration t),
    execute_ok m.provider_id probing b,
  )
  settle t m probing (threw e) b = (
    none,
    attempt_failed m.provider_id m.upstream_model (is_circuit_open e)
        (if is_circuit_open e then none else some e) (duration t),
    execute_error p t.done_at m.provider_id probing b,
  )

  abbrev pub skipped : Turn R E → ResolvedModel → Breaker → Option R × RouteAttempt E × Breaker
  skipped t m b = (none, attempt_failed m.provider_id m.upstream_model true none (duration t), b)

  -- `execute`: the breaker refuses, or the executor runs and the call is settled.
  unfoldable pub executed :
      Turn R E → ResolvedModel → Option Bool × Breaker → Option R × RouteAttempt E × Breaker
  executed t m (none, b) = skipped t m b
  executed t m (some probing, b) = settle t m probing t.outcome (run p t.meanwhile b)

  unfoldable pub checked :
      Turn R E → ResolvedModel → Bool × Breaker → Option R × RouteAttempt E × Breaker
  checked t m (false, b) = skipped t m b
  checked t m (true, b) = executed t m (execute_start p t.execute_at m.provider_id b)

  -- The body of the loop: `canRequest`, then `execute` around the executor.
  unfoldable pub attempt : Turn R E → ResolvedModel → Breaker → Option R × RouteAttempt E × Breaker
  attempt t m b = checked t m (can_request p t.check_at m.provider_id b)

  -- The end of the body: return, or go on with the loop, `rest`.
  unfoldable pub proceed :
      (List (RouteAttempt E) → Breaker → RouteEnd R E × Breaker)
      → ResolvedModel
      → List (RouteAttempt E)
      → Option R × RouteAttempt E × Breaker
      → RouteEnd R E × Breaker
  proceed rest m attempts (some r, a, b) = (routed r m.provider_id (attempts ++ a ∷ []), b)
  proceed rest m attempts (none, a, b) = rest (attempts ++ a ∷ []) b

  -- The loop; `k` counts the attempts.
  unfoldable pub walk :
      (ℕ → ResolvedModel → Turn R E)
      → String
      → List ResolvedModel
      → ℕ
      → List ℕ
      → List (RouteAttempt E)
      → Breaker
      → RouteEnd R E × Breaker
  walk turns model chain k [] attempts b = (routing_failed model attempts, b)
  walk turns model chain k (idx ∷ order) attempts b = elim (get_elem? chain idx) [
    | none ↦ (index_error, b)
    | some m ↦ proceed (walk turns model chain (suc k) order) m attempts (attempt (turns k m) m b)
  ]

  -- `route`, from the chain that `resolveChain(model)` gave.
  unfoldable pub route :
      (ℕ → ResolvedModel → Turn R E)
      → String
      → List ResolvedModel
      → RoutingStrategy
      → List (ℕ × ℕ)
      → Random
      → RoundRobinCursor
      → Breaker
      → RouteEnd R E × RoundRobinCursor × Breaker
  route turns model [] strategy weights random c b = (routing_failed model [], c, b)
  route turns model (m ∷ ms) strategy weights random c b =
      let n = length (m ∷ ms) in
      let (order, c') =
        pick_order strategy (m ∷ ms) (next model n) (alias_weights_for weights n) random c in
      let (end, b') = walk turns model (m ∷ ms) 0 order [] b in (end, c', b')
