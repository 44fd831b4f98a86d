-- ===== src/Chat/Passage.antt =====
-- A completion moves the counters as the request log, whichever way it takes.
use ms_gatgeway_llm.Base.{
  ◌-◌, ◌/◌, ◌≤◌, ◌≡◌, ◌≢◌, refl, String, Bool, true, false, Option, none, some, List, if◌then◌else◌,
  arith, length,
}
use ms_gatgeway_llm.Providers.{ResolvedModel}
use ms_gatgeway_llm.Providers.Resolution.{Result, throws, returns}
use ms_gatgeway_llm.Resilience.Circuit.{Policy}
use ms_gatgeway_llm.Routing.Service.{RouteEnd, routed, routing_failed, index_error, route}
use ms_gatgeway_llm.Access.Service.{get_access, is_permitted}
use ms_gatgeway_llm.RequestLog
use ms_gatgeway_llm.RequestLog.{
  Thrown, RequestLogRow, Origin, success_row, failure_row, attempt_row, error_object, AttemptDetail,
}
use ms_gatgeway_llm.Quota.Calendar.{Period}
use ms_gatgeway_llm.Quota.Repository.{ClientAliasQuota, get_quota}
use ms_gatgeway_llm.Quota.Service.{Target, serve, exhausted, resolve_target}
use ms_gatgeway_llm.Quota.Reconcile.{is_period_key}
use ms_gatgeway_llm.Chat.Record.{
  QuotaOutcome, record_routing_failure, record_other_failure, record_failed_attempts,
  serialize_attempts, served_of,
}
use ms_gatgeway_llm.Chat.Service.{
  Request, Answer, Surroundings, Completion, Gateway, Registry, origin, fail, after_route,
  after_gate, after_chain, unresolved, completions, all_failed, outcome_of, type_error,
  quota_exhausted, alias_not_permitted,
}
use ms_gatgeway_llm.Chat.Accounting.{
  all_accepted, Moves, logged-of_none, on_routed_lem, record_failed_attempts-logged,
}

module _ (c a : String) (p : Period) (recent : 1970 ≤ p.0) (valid : is_period_key p ≡ true)
    (named : c ≢ "") (q : ClientAliasQuota) where
  module _ (message_of : Completion → String) where
    fail_lem :
        (r : Request) (s : Surroundings) (name : String) (quota : Option QuotaOutcome)
        (e : Completion) (g : Gateway)
        → Moves c a p 0 g (fail all_accepted message_of r s name quota e g).0
    unfolding record_other_failure RequestLog.record_failure
    fail_lem r s name quota e g =
        let row =
          failure_row (origin r (s.starts_at / 1000)) r.model (served_of quota) 0
            (s.ends_at - s.starts_at / 1000) (error_object name (message_of e)) none in
        let l = logged-of_none c a p g.logs.request_logs row refl in (omega (arith, l), refl)

    after_route_lem :
        (r : Request) (s : Surroundings) (target : String) (end : RouteEnd Answer Thrown)
        (g : Gateway)
        → get_quota c a g.quotas ≡ some q
        → Moves c a p 0 g (after_route all_accepted message_of r s target end g).0
    unfolding after_route record_routing_failure RequestLog.record_failure
    after_route_lem r s target (routed answer provider_id attempts) g e =
        let o = origin r (s.starts_at / 1000) in
        let l =
          record_failed_attempts-logged c a p recent valid named q o r.model (length attempts)
            attempts g.logs.request_logs in
        let (m, k) =
          on_routed_lem c a p recent valid named q _ answer s.ends_at
            (record g {
              logs = record g.logs {
                request_logs =
                    record_failed_attempts all_accepted o r.model (length attempts) attempts
                      g.logs.request_logs;
              };
            })
            e in
        (omega (arith, l, m), k)
    after_route_lem r s target (routing_failed model attempts) g e =
        let row =
          failure_row (origin r (s.starts_at / 1000)) model (some target) (length attempts)
            (s.ends_at - s.starts_at / 1000)
            (error_object "RoutingFailedError" (message_of (all_failed model attempts)))
            (serialize_attempts attempts) in
        let l = logged-of_none c a p g.logs.request_logs row refl in (omega (arith, l), refl)
    after_route_lem r s target index_error g e =
        fail_lem r s "TypeError" (some (outcome_of target r.model)) type_error g

    module _ (order_by : List String → List String) (is_circuit_open : Thrown → Bool)
        (policy : Policy) (registry : Registry) where
      after_chain_lem :
          (r : Request) (s : Surroundings) (target : String) (chain : Result (List ResolvedModel))
          (g : Gateway)
          → get_quota c a g.quotas ≡ some q
          → Moves c a p 0 g
              (after_chain all_accepted message_of order_by is_circuit_open policy registry r s
                target chain g).0
      unfolding after_chain
      after_chain_lem r s target (throws x) g e =
          fail_lem r s "Error" (some (outcome_of target r.model)) (unresolved x) g
      after_chain_lem r s target (returns chain) g e =
          let (end, cursor, breaker) =
            route is_circuit_open policy s.turns target chain (registry.strategy_for target)
              (registry.get_weights target) s.random g.cursor g.breaker in
          after_route_lem r s target end (record g { cursor = cursor; breaker = breaker }) e

      after_gate_lem :
          (r : Request) (s : Surroundings) (target : Target) (g : Gateway)
          → get_quota c a g.quotas ≡ some q
          → Moves c a p 0 g
              (after_gate all_accepted message_of order_by is_circuit_open policy registry r s
                target g).0
      unfolding after_gate
      after_gate_lem r s (exhausted d) g e =
          fail_lem r s "QuotaExhaustedError" none (quota_exhausted d) g
      after_gate_lem r s (serve target) g e =
          after_chain_lem r s target (registry.resolve_chain target) g e

      pub completions_lem :
          (r : Request) (s : Surroundings) (g : Gateway)
          → get_quota c a g.quotas ≡ some q
          → Moves c a p 0 g
              (completions all_accepted message_of order_by is_circuit_open policy registry r s g).0
      unfolding completions
      completions_lem r s g e =
          go (is_permitted (get_access order_by r.client_id g.client_alias_access) r.model)
        where
          go :
              (b : Bool)
              → Moves c a p 0 g
                  (if b
                    then after_gate all_accepted message_of order_by is_circuit_open policy registry
                        r s
                        (resolve_target r.client_id r.model s.gate_at g.quotas)
                        g
                    else fail all_accepted message_of r s "AliasNotPermittedError" none
                        (alias_not_permitted r.client_id r.model)
                        g).0
          go true = after_gate_lem r s (resolve_target r.client_id r.model s.gate_at g.quotas) g e
          go false =
              fail_lem r s "AliasNotPermittedError" none (alias_not_permitted r.client_id r.model) g
