-- ===== src/Chat/Guards.antt =====
-- The ends of a completion: which guards were passed, and what was charged.
use ms_gatgeway_llm.Base.{
  ◌*◌, ◌/◌, ◌<◌, ◌≡◌, refl, String, Bool, true, false, none, List, Perm, map, All, if◌then◌else◌,
}
use ms_gatgeway_llm.Providers.{ResolvedModel}
use ms_gatgeway_llm.Providers.Resolution.{Result, throws, returns}
use ms_gatgeway_llm.Resilience.{Breaker}
use ms_gatgeway_llm.Resilience.Circuit.{Policy}
use ms_gatgeway_llm.Routing.Cursor.{RoundRobinCursor}
use ms_gatgeway_llm.Routing.Service.{RouteEnd, routed, routing_failed, index_error, route}
use ms_gatgeway_llm.Routing.Outcome.{HasFailed, tried, key_of, RouteSpec, route-RouteSpec}
use ms_gatgeway_llm.RequestLog.{Thrown, RequestLogRow}
use ms_gatgeway_llm.Access.Service.{get_access, is_permitted}
use ms_gatgeway_llm.Quota.Service.{Target, serve, exhausted, resolve_target, record_usage}
use ms_gatgeway_llm.Chat.Service.{
  Request, Answer, completion, stream, Surroundings, Completion, answered, streaming,
  alias_not_permitted, quota_exhausted, all_failed, Gateway, Registry, whole, total_of, on_routed,
  fail, after_route, after_gate, after_chain, unresolved, completions,
}

module _ (order_by : List String → List String) (registry : Registry) (r : Request)
    (s : Surroundings) (g : Gateway) where
  abbrev pub allowed : Bool
  allowed = is_permitted (get_access order_by r.client_id g.client_alias_access) r.model

  abbrev pub gate : Target
  gate = resolve_target r.client_id r.model s.gate_at g.quotas

  -- No provider was asked.
  abbrev pub IsUntouched : Gateway → Type 0
  IsUntouched after =
      (after.quotas ≡ g.quotas) × (after.breaker ≡ g.breaker) × (after.cursor ≡ g.cursor)

  -- What follows the gate, by the end.
  abbrev pub AfterGate : Target → Gateway → Completion → Type 0
  AfterGate (exhausted e) after (quota_exhausted d) = (d ≡ e) × IsUntouched after
  AfterGate (serve target) after (answered tokens) =
      after.quotas
      ≡ record_usage r.client_id target (whole (total_of tokens)) (s.starts_at / 1000 * 1000)
          g.quotas
  AfterGate (serve target) after (streaming x) =
      (x.target ≡ target)
      × (x.request ≡ r)
      × (x.requested_at ≡ s.starts_at / 1000)
      × (after.quotas ≡ g.quotas)
  AfterGate (serve target) after (all_failed model attempts) =
      (chain : List ResolvedModel) × (registry.resolve_chain target ≡ returns chain)
      × All HasFailed attempts
      × Perm (map tried attempts) (map key_of chain)
      × (after.quotas ≡ g.quotas)
  AfterGate (serve target) after (unresolved e) =
      (registry.resolve_chain target ≡ throws e) × IsUntouched after
  AfterGate t after end = ⊥

  -- What a completion's end says of its way.
  abbrev pub IsGuarded : Gateway → Completion → Type 0
  IsGuarded after end =
      (after.client_alias_access ≡ g.client_alias_access)
      × (if allowed
          then AfterGate gate after end
          else (end ≡ alias_not_permitted r.client_id r.model) × IsUntouched after)

module _ (is_accepted : RequestLogRow → Bool) (message_of : Completion → String)
    (order_by : List String → List String) (is_circuit_open : Thrown → Bool) (p : Policy)
    (registry : Registry) (r : Request) (s : Surroundings) (g : Gateway) where
  routed-AfterGate :
      (target : String) (chain : List ResolvedModel) (end : RouteEnd Answer Thrown)
      (cursor : RoundRobinCursor) (breaker : Breaker)
      → registry.resolve_chain target ≡ returns chain
      → RouteSpec chain end
      → let (after, e) =
          after_route is_accepted message_of r s target end
            (record g { cursor = cursor; breaker = breaker }) in
        AfterGate order_by registry r s g (serve target) after e
        × (after.client_alias_access ≡ g.client_alias_access)
  unfolding after_route on_routed
  routed-AfterGate target chain (routed stream provider_id attempts) cursor breaker c h =
      ((refl, refl, refl, refl), refl)
  routed-AfterGate target chain (routed (completion tokens) provider_id attempts) cursor breaker c
        h =
      (refl, refl)
  routed-AfterGate target chain (routing_failed model attempts) cursor breaker c (h, k) =
      ((chain, c, h, k, refl), refl)
  routed-AfterGate target chain index_error cursor breaker c h = elim h [ ]

  after_chain-AfterGate :
      (target : String) (found : Result (List ResolvedModel))
      → registry.resolve_chain target ≡ found
      → s.random.num < s.random.den
      → let (after, e) =
          after_chain is_accepted message_of order_by is_circuit_open p registry r s target found
            g in
        AfterGate order_by registry r s g (serve target) after e
        × (after.client_alias_access ≡ g.client_alias_access)
  unfolding after_chain
  after_chain-AfterGate target (throws e) c h = ((c, (refl, refl, refl)), refl)
  after_chain-AfterGate target (returns chain) c h =
      let x =
        route is_circuit_open p s.turns target chain (registry.strategy_for target)
          (registry.get_weights target) s.random g.cursor g.breaker in
      routed-AfterGate target chain x.0 x.1 x.2 c (
        route-RouteSpec is_circuit_open p s.turns target chain (registry.strategy_for target)
          (registry.get_weights target) s.random g.cursor g.breaker h)

  after_gate-AfterGate :
      (t : Target)
      → s.random.num < s.random.den
      → let (after, e) =
          after_gate is_accepted message_of order_by is_circuit_open p registry r s t g in
        AfterGate order_by registry r s g t after e
        × (after.client_alias_access ≡ g.client_alias_access)
  unfolding after_gate
  after_gate-AfterGate (exhausted e) h = ((refl, (refl, refl, refl)), refl)
  after_gate-AfterGate (serve target) h =
      after_chain-AfterGate target (registry.resolve_chain target) refl h

  -- A completion ends in one of six ways, and a `TypeError` is not among them. If the client may not
  -- use the alias it asks for, the quota is exhausted without a diversion, or the alias that the gate
  -- serves does not resolve, it ends with that error: no provider is asked and nothing is charged.
  -- Otherwise that alias's chain is routed. A completion is charged to the alias with its tokens, in
  -- the month of the second in which the request started; a stream is not charged yet; and if every
  -- entry of the chain failed, each tried once, nothing is charged. The allowlist stays as it is. The random
  -- number is below 1.
  pub completions-IsGuarded :
      s.random.num < s.random.den
      → let (after, end) =
          completions is_accepted message_of order_by is_circuit_open p registry r s g in
        IsGuarded order_by registry r s g after end
  unfolding completions
  completions-IsGuarded h = go (allowed order_by registry r s g) refl
    where
      result : Bool → Gateway × Completion
      result b =
          if b
          then after_gate is_accepted message_of order_by is_circuit_open p registry r s
              (gate order_by registry r s g) g
          else fail is_accepted message_of r s "AliasNotPermittedError" none
              (alias_not_permitted r.client_id r.model) g

      go :
          (b : Bool)
          → allowed order_by registry r s g ≡ b
          → ((result b).0.client_alias_access ≡ g.client_alias_access)
            × (if b
                then AfterGate order_by registry r s g
                    (gate order_by registry r s g)
                    (result b).0
                    (result b).1
                else ((result b).1 ≡ alias_not_permitted r.client_id r.model)
                  × IsUntouched order_by registry r s g (result b).0)
      go true e = let (a, k) = after_gate-AfterGate (gate order_by registry r s g) h in (k, a)
      go false e = (refl, (refl, (refl, refl, refl)))
