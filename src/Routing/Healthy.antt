-- ===== src/Routing/Healthy.antt =====
-- A request whose chain has a healthy provider is answered.
use mathlib.Core.List.{Mem, Memᴰ, mem-map_of_mem}
use mathlib.Core.Logic.{∥∥₁_elim}
use mathlib.Core.List.Perm
use ms_gatgeway_llm.Base.{
  ℕ, suc, ◌<◌, ◌≡◌, refl, sym, ap, ◌∙◌, subst, ◌≢◌, inl, inr, String, Bool, true, false, List, [],
  ◌∷◌, ◌++◌, map, Option, none, some, string_key, get_elem?, All, All-append, Option-cases, arith,
}
use ms_gatgeway_llm.Providers.{ResolvedModel, RoutingStrategy}
use ms_gatgeway_llm.Resilience.Circuit.{Policy, closed, maybe_transition_from_open, admits}
use ms_gatgeway_llm.Resilience.{
  Breaker, asks, starts, resolves, throws, circuit_of, can_request, execute_start, provider_of,
  apply, run,
}
use ms_gatgeway_llm.Resilience.Lookup.{can_request_lem}
use ms_gatgeway_llm.Resilience.Transitions.{ReportsFailure, apply-closed, run-closed}
use ms_gatgeway_llm.Routing.Strategy.{Random}
use ms_gatgeway_llm.Routing.Cursor.{RoundRobinCursor}
use ms_gatgeway_llm.Routing.Service.{
  Outcome, resolved, threw, RouteAttempt, RouteEnd, routed, routing_failed, index_error, Turn,
  settle, executed, checked, attempt, proceed, walk, route,
}
use ms_gatgeway_llm.Routing.Outcome.{
  key_of, tried, RouteSpec, AttemptSpec, attempt-AttemptSpec, All-permᴰ, route-RouteSpec,
}
use ms_gatgeway_llm.Routing.Availability.{attempt_keeps}

-- During this turn no other request reports a failure of the provider, and a call of the provider
-- itself resolves.
abbrev pub IsGoodFor : {R E : Type 0} → String → ResolvedModel → Turn R E → Type 0
IsGoodFor {R} id m t =
    All (λ e. ¬ (ReportsFailure e.1 × (provider_of e.1 ≡ id))) t.meanwhile
    × (m.provider_id ≡ id → (r : R) × (t.outcome ≡ resolved r))

abbrev Closed : String → Breaker → Type 0
Closed id b = (circuit_of id b).state ≡ closed

-- The provider's own attempts did not fail.
abbrev Missed : {E : Type 0} → String → List (RouteAttempt E) → Type 0
Missed id attempts = All (λ a. (tried a).0 ≢ id) attempts

abbrev FailsWithout : {R E : Type 0} → String → RouteEnd R E → Type 0
FailsWithout id (routing_failed model attempts) = Missed id attempts
FailsWithout id _ = Unit

can_request-Closed :
    (p : Policy) (now : ℕ) (id : String) (b : Breaker)
    → Closed id b
    → (can_request p now id b).0 ≡ true
unfolding maybe_transition_from_open admits
can_request-Closed p now id b k = ground (arith, can_request_lem p now id b)

execute_start-Closed :
    (p : Policy) (now : ℕ) (id : String) (b : Breaker)
    → Closed id b
    → (execute_start p now id b).0 ≢ none
unfolding execute_start
execute_start-Closed p now id b k = rw (can_request-Closed p now id b k, execute_start) (λ h. cc)

module _ {R E : Type 0} (is_circuit_open : E → Bool) (p : Policy) (id : String) where
  settle-Closed :
      (t : Turn R E) (m : ResolvedModel)
      → IsGoodFor id m t
      → (probing : Bool) (b : Breaker) → Closed id b
      → Closed id (settle is_circuit_open p t m probing t.outcome b).2
  unfolding settle
  settle-Closed t m (harmless, good) probing b k = go t.outcome refl
    where
      go :
          (o : Outcome R E) → t.outcome ≡ o → Closed id (settle is_circuit_open p t m probing o b).2
      go (resolved r) e =
          unfold apply in apply-closed p 0 id (resolves m.provider_id probing) b (λ f. f.0) k
      go (threw x) e =
          unfold apply in
          apply-closed p t.done_at id (throws m.provider_id probing) b
            (λ f. let (r, g) = good f.1 in cc) k

  attempt-Closed :
      (t : Turn R E) (m : ResolvedModel) (b : Breaker)
      → IsGoodFor id m t
      → Closed id b
      → Closed id (attempt is_circuit_open p t m b).2
  attempt-Closed t m b good k =
      attempt_keeps is_circuit_open p (Closed id) t m
        (λ b' k'. apply-closed p t.check_at id (asks m.provider_id) b' (λ f. f.0) k')
        (λ b' k'. apply-closed p t.execute_at id (starts m.provider_id) b' (λ f. f.0) k')
        (λ b' k'. run-closed p id t.meanwhile b' good.0 k')
        (λ probing b' k'. settle-Closed t m good probing b' k') b k

  -- The call of a healthy provider is made, and gives a result.
  attempt_answers :
      (t : Turn R E) (m : ResolvedModel) (b : Breaker)
      → IsGoodFor id m t
      → Closed id b
      → m.provider_id ≡ id
      → (attempt is_circuit_open p t m b).0 ≢ none
  unfolding attempt
  attempt_answers t m b (harmless, good) k same =
      after_check (can_request p t.check_at m.provider_id b)
        (rw same (can_request-Closed p t.check_at id b k))
        (unfold apply in apply-closed p t.check_at id (asks m.provider_id) b (λ f. f.0) k)
    where
      settled :
          (probing : Bool) (b' : Breaker)
          → (settle is_circuit_open p t m probing t.outcome b').0 ≢ none
      settled probing b' = let (r, e) = good same in rw e (unfold settle in λ h. cc)

      after_start :
          (x : Option Bool × Breaker) → x.0 ≢ none → (executed is_circuit_open p t m x).0 ≢ none
      after_start (none, b') h = absurd (h refl)
      after_start (some probing, b') h = unfold executed in settled probing (run p t.meanwhile b')

      after_check :
          (x : Bool × Breaker)
          → x.0 ≡ true
          → Closed id x.1
          → (checked is_circuit_open p t m x).0 ≢ none
      after_check (false, b') h k' = cc
      after_check (true, b') h k' =
          unfold checked in
          after_start (execute_start p t.execute_at m.provider_id b')
            (rw same (execute_start-Closed p t.execute_at id b' k'))

  walk-FailsWithout :
      (turns : ℕ → ResolvedModel → Turn R E) (model : String) (chain : List ResolvedModel) (k : ℕ)
      (order : List ℕ) (attempts : List (RouteAttempt E)) (b : Breaker)
      → ((k : ℕ) (m : ResolvedModel) → IsGoodFor id m (turns k m))
      → Closed id b
      → Missed id attempts
      → FailsWithout id (walk is_circuit_open p turns model chain k order attempts b).0
  unfolding walk
  walk-FailsWithout turns model chain k [] attempts b good c missed = missed
  walk-FailsWithout turns model chain k (i ∷ order) attempts b good c missed =
      elim (Option-cases (get_elem? chain i)) [
        | inl e ↦ rw (e, walk) tt
        | inr (m, e) ↦
            rw (e, walk)
              (go m (attempt is_circuit_open p (turns k m) m b)
                (attempt-Closed (turns k m) m b (good k m) c)
                (attempt_answers (turns k m) m b (good k m) c)
                (attempt-AttemptSpec is_circuit_open p (turns k m) m b)
                (λ attempts' b' c' missed'.
                  walk-FailsWithout turns model chain (suc k) order attempts' b' good c' missed'))
      ]
    where
      go :
          (m : ResolvedModel) (x : Option R × RouteAttempt E × Breaker)
          → Closed id x.2
          → (m.provider_id ≡ id → x.0 ≢ none)
          → AttemptSpec m x.0 x.1
          → ((attempts' : List (RouteAttempt E)) (b' : Breaker)
              → Closed id b'
              → Missed id attempts'
              → FailsWithout id
                  (walk is_circuit_open p turns model chain (suc k) order attempts' b').0)
          → FailsWithout id
              (proceed is_circuit_open p
                (walk is_circuit_open p turns model chain (suc k) order)
                m
                attempts
                x).0
      go m (some r, a, b') c' answers spec rest = unfold proceed in tt
      go m (none, a, b') c' answers spec rest =
          unfold proceed in
          rest (attempts ++ a ∷ []) b' c' (
            All-append (λ a'. (tried a').0 ≢ id) attempts (a ∷ []) missed
              ((λ same. answers (sym (ap (λ s. s.0) spec.0) ∙ same) refl), tt))

All_of_memᴰ : {A : Type 0} (P : A → Type 0) {a : A} {xs : List A} → Memᴰ a xs → All P xs → P a
All_of_memᴰ P (Memᴰ.head e) h = subst P (sym e) h.0
All_of_memᴰ P (Memᴰ.tail i) h = All_of_memᴰ P i h.1

answered :
    {R E : Type 0} (id : String) (chain : List ResolvedModel) (m : ResolvedModel)
    (end : RouteEnd R E)
    → Mem m chain
    → m.provider_id ≡ id
    → RouteSpec chain end
    → FailsWithout id end
    → (r : R) × (provider_id : String) × (attempts : List (RouteAttempt E)) × (end
        ≡ routed r provider_id attempts)
answered id chain m (routed r provider_id attempts) mem same spec f =
    (r, provider_id, attempts, refl)
answered id chain m index_error mem same spec f = absurd spec
answered {E} id chain m (routing_failed model attempts) mem same spec f = absurd (
    ∥∥₁_elim (Perm.symm spec.1) (hlevel) (λ q. ∥∥₁_elim (mem-map_of_mem key_of mem) (hlevel) (λ i.
      All_of_memᴰ (λ k. k.0 ≢ id) i (All-permᴰ (λ k. k.0 ≢ id) q (missed_keys attempts f)) same)))
  where
    missed_keys :
        (as' : List (RouteAttempt E)) → Missed id as' → All (λ k. k.0 ≢ id) (map tried as')
    missed_keys [] h = tt
    missed_keys (a ∷ as') (h, hs) = (h, missed_keys as' hs)

-- If the circuit of a provider of the chain is closed, its calls would resolve at every attempt,
-- and no other request reports a failure of it meanwhile, then the request returns a result,
-- whatever the strategy, and whatever the other providers and their circuits do.
pub route_answers :
    {R E : Type 0} (is_circuit_open : E → Bool) (p : Policy) (id : String)
    (turns : ℕ → ResolvedModel → Turn R E) (model : String) (chain : List ResolvedModel)
    (m : ResolvedModel) (strategy : RoutingStrategy) (weights : List (ℕ × ℕ)) (random : Random)
    (c : RoundRobinCursor) (b : Breaker)
    → random.num < random.den
    → Mem m chain
    → m.provider_id ≡ id
    → (circuit_of id b).state ≡ closed
    → ((k : ℕ) (m : ResolvedModel) → IsGoodFor id m (turns k m))
    → (r : R) × (provider_id : String) × (attempts : List (RouteAttempt E)) × ((route
          is_circuit_open p turns model chain strategy weights random c b).0
        ≡ routed r provider_id attempts)
route_answers is_circuit_open p id turns model chain m strategy weights random c b h mem same k
      good =
    answered id chain m _ mem same
      (route-RouteSpec is_circuit_open p turns model chain strategy weights random c b h)
      (fails chain)
  where
    fails :
        (chain : List ResolvedModel)
        → FailsWithout id (route is_circuit_open p turns model chain strategy weights random c b).0
    fails [] = unfold route in tt
    fails (m' ∷ ms) =
        unfold route in
        walk-FailsWithout is_circuit_open p id turns model (m' ∷ ms) 0 _ [] b good k tt
