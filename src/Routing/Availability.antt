-- ===== src/Routing/Availability.antt =====
-- The breaker's part in routing: an open provider is never called, a healthy one never missed.
use ms_gatgeway_llm.Base.{
  ℕ, suc, ◌+◌, ◌<◌, ◌≡◌, ◌≢◌, inl, inr, String, Bool, true, false, List, [], ◌∷◌, ◌++◌, Option,
  none, some, string_key, get_elem?, All, Option-cases, arith,
}
use ms_gatgeway_llm.Providers.{ResolvedModel, RoutingStrategy}
use ms_gatgeway_llm.Resilience.Circuit.{Policy, opened, maybe_transition_from_open, admits}
use ms_gatgeway_llm.Resilience.{
  Breaker, asks, starts, resolves, throws, circuit_of, can_request, execute_start, apply, run,
}
use ms_gatgeway_llm.Resilience.Lookup.{can_request_lem}
use ms_gatgeway_llm.Resilience.Transitions.{IsOpenSince, apply-IsOpenSince, run-IsOpenSince}
use ms_gatgeway_llm.Routing.Strategy.{Random}
use ms_gatgeway_llm.Routing.Cursor.{RoundRobinCursor}
use ms_gatgeway_llm.Routing.Service.{
  Outcome, resolved, threw, RouteAttempt, RouteEnd, routed, routing_failed, index_error, Turn,
  settle, executed, checked, attempt, proceed, walk, route,
}

-- A property of the breaker that an attempt keeps, from its events.
module _ {R E : Type 0} (is_circuit_open : E → Bool) (p : Policy) (Q : Breaker → Type 0)
    (t : Turn R E) (m : ResolvedModel)
    (ask : (b : Breaker) → Q b → Q (apply p (t.check_at, asks m.provider_id) b))
    (start : (b : Breaker) → Q b → Q (apply p (t.execute_at, starts m.provider_id) b))
    (wait : (b : Breaker) → Q b → Q (run p t.meanwhile b))
    (settled : (probing : Bool) (b : Breaker)
      → Q b
      → Q (settle is_circuit_open p t m probing t.outcome b).2) where
  pub attempt_keeps : (b : Breaker) → Q b → Q (attempt is_circuit_open p t m b).2
  unfolding attempt
  attempt_keeps b q =
      after_check (can_request p t.check_at m.provider_id b) (unfold apply in ask b q)
    where
      after_start : (x : Option Bool × Breaker) → Q x.1 → Q (executed is_circuit_open p t m x).2
      after_start (none, b') q' = unfold executed in q'
      after_start (some probing, b') q' =
          unfold executed in settled probing (run p t.meanwhile b') (wait b' q')

      after_check : (x : Bool × Breaker) → Q x.1 → Q (checked is_circuit_open p t m x).2
      after_check (false, b') q' = unfold checked in q'
      after_check (true, b') q' =
          unfold checked in
          after_start (execute_start p t.execute_at m.provider_id b') (unfold apply in start b' q')

-- All that happens during the turn happens before `deadline`.
abbrev pub EndsBefore : {R E : Type 0} → ℕ → Turn R E → Type 0
EndsBefore deadline t =
    (t.check_at < deadline)
    × (t.execute_at < deadline)
    × (t.done_at < deadline)
    × All (λ e. e.0 < deadline) t.meanwhile

abbrev pub IsNotFrom : {R E : Type 0} → String → RouteEnd R E → Type 0
IsNotFrom id (routed r provider_id attempts) = provider_id ≢ id
IsNotFrom id (routing_failed model attempts) = Unit
IsNotFrom id index_error = Unit

abbrev Open : ℕ → String → Breaker → Type 0
Open since id b = IsOpenSince since (circuit_of id b)

module _ {R E : Type 0} (is_circuit_open : E → Bool) (p : Policy) (since : ℕ) (id : String) where
  settle-Open :
      (t : Turn R E) (m : ResolvedModel)
      → EndsBefore (since + p.cooldown_ms) t
      → (probing : Bool) (o : Outcome R E) (b : Breaker) → Open since id b
      → Open since id (settle is_circuit_open p t m probing o b).2
  unfolding settle
  settle-Open t m early probing (resolved r) b o =
      unfold apply in
      apply-IsOpenSince p since t.execute_at id (resolves m.provider_id probing) b early.1 o
  settle-Open t m early probing (threw e) b o =
      unfold apply in
      apply-IsOpenSince p since t.done_at id (throws m.provider_id probing) b early.2 o

  attempt-Open :
      (t : Turn R E) (m : ResolvedModel) (b : Breaker)
      → EndsBefore (since + p.cooldown_ms) t
      → Open since id b
      → Open since id (attempt is_circuit_open p t m b).2
  attempt-Open t m b early o =
      attempt_keeps is_circuit_open p (Open since id) t m
        (λ b' o'. apply-IsOpenSince p since t.check_at id (asks m.provider_id) b' early.0 o')
        (λ b' o'. apply-IsOpenSince p since t.execute_at id (starts m.provider_id) b' early.1 o')
        (λ b' o'. run-IsOpenSince p since id t.meanwhile b' early.3 o')
        (λ probing b' o'. settle-Open t m early probing t.outcome b' o') b o

  attempt_refused :
      (t : Turn R E) (m : ResolvedModel) (b : Breaker)
      → EndsBefore (since + p.cooldown_ms) t
      → Open since id b
      → m.provider_id ≡ id
      → (attempt is_circuit_open p t m b).0 ≡ none
  unfolding maybe_transition_from_open admits
  attempt_refused t m b early o same =
      let shut : admits p (maybe_transition_from_open p t.check_at (circuit_of m.provider_id b))
          ≡ false =
        rw same (ground arith) in
      unfold attempt checked in rw (can_request_lem p t.check_at m.provider_id b, shut)

  walk-IsNotFrom :
      (turns : ℕ → ResolvedModel → Turn R E) (model : String) (chain : List ResolvedModel) (k : ℕ)
      (order : List ℕ) (attempts : List (RouteAttempt E)) (b : Breaker)
      → ((k : ℕ) (m : ResolvedModel) → EndsBefore (since + p.cooldown_ms) (turns k m))
      → Open since id b
      → IsNotFrom id (walk is_circuit_open p turns model chain k order attempts b).0
  unfolding walk
  walk-IsNotFrom turns model chain k [] attempts b early o = tt
  walk-IsNotFrom turns model chain k (i ∷ order) attempts b early o =
      elim (Option-cases (get_elem? chain i)) [
        | inl e ↦ rw (e, walk) tt
        | inr (m, e) ↦
            rw (e, walk)
              (go m (attempt is_circuit_open p (turns k m) m b)
                (attempt-Open (turns k m) m b (early k m) o)
                (attempt_refused (turns k m) m b (early k m) o)
                (λ attempts' b' o'.
                  walk-IsNotFrom turns model chain (suc k) order attempts' b' early o'))
      ]
    where
      go :
          (m : ResolvedModel) (x : Option R × RouteAttempt E × Breaker)
          → Open since id x.2
          → (m.provider_id ≡ id → x.0 ≡ none)
          → ((attempts' : List (RouteAttempt E)) (b' : Breaker)
              → Open since id b'
              → IsNotFrom id
                  (walk is_circuit_open p turns model chain (suc k) order attempts' b').0)
          → IsNotFrom id
              (proceed is_circuit_open p
                (walk is_circuit_open p turns model chain (suc k) order)
                m
                attempts
                x).0
      go m (some r, a, b') o' refused rest = unfold proceed in λ same. cc (refused same)
      go m (none, a, b') o' refused rest = unfold proceed in rest (attempts ++ a ∷ []) b' o'

-- While a provider's circuit is open, no request is answered by that provider: if it opened at
-- `since`, and everything that happens during the request (the attempts and the other requests'
-- calls of the breaker) happens before `since + cooldownMs`, then a result comes from another one.
pub route-IsNotFrom :
    {R E : Type 0} (is_circuit_open : E → Bool) (p : Policy) (since : ℕ) (id : String)
    (turns : ℕ → ResolvedModel → Turn R E) (model : String) (chain : List ResolvedModel)
    (strategy : RoutingStrategy) (weights : List (ℕ × ℕ)) (r : Random) (c : RoundRobinCursor)
    (b : Breaker)
    → (circuit_of id b).state ≡ opened
    → (circuit_of id b).opened_at ≡ some since
    → ((k : ℕ) (m : ResolvedModel) → EndsBefore (since + p.cooldown_ms) (turns k m))
    → IsNotFrom id (route is_circuit_open p turns model chain strategy weights r c b).0
unfolding route
route-IsNotFrom is_circuit_open p since id turns model [] strategy weights r c b o at early = tt
route-IsNotFrom is_circuit_open p since id turns model (m ∷ ms) strategy weights r c b o at early =
    walk-IsNotFrom is_circuit_open p since id turns model (m ∷ ms) 0 _ [] b early (o, at)
