-- ===== src/Chat/Service.antt =====
-- A completion from the allowlist to the accounting, `completions` of src/chat/chat.service.ts, and
-- what follows when the tapped stream ends. The database that the gates read and the counters' one
-- do not fail; the one of the request log may (`is_accepted`), and is then ignored.
use ms_gatgeway_llm.Base.{
  ℕ, ◌*◌, ◌/◌, String, Bool, false, Option, none, some, List, length, ◌==◌, string_key,
  if◌then◌else◌,
}
use ms_gatgeway_llm.Providers.{ResolvedModel, RoutingStrategy}
use ms_gatgeway_llm.Providers.Resolution.{ResolveError, Result, throws, returns}
use ms_gatgeway_llm.Resilience.Circuit.{Policy}
use ms_gatgeway_llm.Resilience.{Breaker}
use ms_gatgeway_llm.Routing.Strategy.{Random}
use ms_gatgeway_llm.Routing.Cursor.{RoundRobinCursor}
use ms_gatgeway_llm.Routing.Service.{
  RouteAttempt, attempt_ok, attempt_failed, RouteEnd, routed, routing_failed, index_error, Turn,
  route,
}
use ms_gatgeway_llm.Access.Repository.{Rows}
use ms_gatgeway_llm.Access.Service.{get_access, is_permitted}
use ms_gatgeway_llm.Quota.Repository.{QuotaRepository}
use ms_gatgeway_llm.Quota.Service.{
  Target, serve, exhausted, Exhausted, Number, finite, resolve_target, record_usage,
}
use ms_gatgeway_llm.RequestLog.{Thrown, RequestLogRow, Origin}
use ms_gatgeway_llm.Chat.Tokens.{TokenUsage, TapChunk, quarter, extract_stream_tokens}
use ms_gatgeway_llm.Chat.Record.{
  QuotaOutcome, Logs, last, record_success, record_routing_failure, record_other_failure,
  record_failed_attempts,
}

-- A request as `completions` gets it, with the texts that it makes of the body: `params` is
-- `serializeRequestParams(body)` and `prompt_chars` the length of the messages in JSON.
pub record Request : Type 0 where
  pub client_id : Option String
  pub model : String
  pub prompt_hash : String
  pub params : Option String
  pub prompt_chars : ℕ

-- What the upstream resolves with: a completion, with its `usage`, or a stream.
pub data Answer : Type 0 where
  completion : Option TokenUsage → Answer
  stream : Answer

-- The surroundings of a request: the clock at its start and at the quota gate (in milliseconds) and
-- at the end (in seconds), the random number, and the attempts.
pub record Surroundings : Type 0 where
  pub starts_at : ℕ
  pub gate_at : ℕ
  pub ends_at : ℕ
  pub random : Random
  pub turns : ℕ → ResolvedModel → Turn Answer Thrown

-- What the handlers of `logged` close over.
pub record Pending : Type 0 where
  pub request : Request
  pub requested_at : ℕ
  pub provider_id : String
  pub resolved_model : String
  pub attempts : ℕ
  pub target : String
  pub diverted_from : Option String

-- How `logged` is settled.
pub data StreamEnd : Type 0 where
  finished : List TapChunk → StreamEnd
  aborted : StreamEnd

-- How `completions` ends: all but the first two are exceptions.
pub data Completion : Type 0 where
  answered : Option TokenUsage → Completion
  streaming : Pending → Completion
  alias_not_permitted : (client_id : Option String) → (alias_key : String) → Completion
  quota_exhausted : Exhausted → Completion
  unresolved : ResolveError → Completion
  all_failed : (model : String) → List (RouteAttempt Thrown) → Completion
  type_error : Completion

-- The state of the gateway that a completion reads and changes.
pub record Gateway : Type 0 where
  pub client_alias_access : Rows
  pub quotas : QuotaRepository
  pub breaker : Breaker
  pub cursor : RoundRobinCursor
  pub logs : Logs

-- The provider registry: the chain of an alias, its strategy and its weights.
pub record Registry : Type 0 where
  pub resolve_chain : String → Result (List ResolvedModel)
  pub strategy_for : String → RoutingStrategy
  pub get_weights : String → List (ℕ × ℕ)

abbrev pub origin : Request → ℕ → Origin
origin r requested_at = record {
  requested_at = requested_at;
  client_key = r.client_id;
  prompt_hash = r.prompt_hash;
  request_params = r.params;
}

abbrev pub whole : ℕ → Number
whole n = finite false n 1

abbrev pub total_of : Option TokenUsage → ℕ
total_of none = 0
total_of (some u) = u.total_tokens

abbrev pub outcome_of : String → String → QuotaOutcome
outcome_of target model = record {
  served_alias = target;
  diverted_from = if target == model then none else some model;
}

-- `accountUsage`; `requested_at` are seconds.
abbrev pub account_usage : Option String → String → ℕ → ℕ → Gateway → Gateway
account_usage client_id target tokens requested_at g = record g {
  quotas = record_usage client_id target (whole tokens) (requested_at * 1000) g.quotas;
}

abbrev model_of : RouteAttempt Thrown → String
model_of (attempt_ok provider_id upstream_model d) = upstream_model
model_of (attempt_failed provider_id upstream_model o e d) = upstream_model

-- `r.attempts.at(-1)?.upstreamModel ?? 'unknown'`.
abbrev pub resolved_model_of : List (RouteAttempt Thrown) → String
resolved_model_of attempts = elim (last attempts) [ none ↦ "unknown" | some a ↦ model_of a ]

module _ (is_accepted : RequestLogRow → Bool) where
  -- `recordSuccess` with the values of a request that was served.
  abbrev pub log_success : Pending → Option TokenUsage → ℕ → Gateway → Gateway
  log_success q tokens now g = record g {
    logs =
        record_success is_accepted (origin q.request q.requested_at) q.request.model q.provider_id
          q.resolved_model q.attempts tokens
          (some (record { served_alias = q.target; diverted_from = q.diverted_from })) now g.logs;
  }

  -- The two handlers of `logged.then(…)`; `length_of` is a text's length.
  unfoldable pub on_logged : (String → ℕ) → Pending → StreamEnd → ℕ → Gateway → Gateway
  on_logged length_of q (finished chunks) now g =
      let tokens = extract_stream_tokens length_of q.request.prompt_chars chunks in
      account_usage q.request.client_id q.target tokens.total_tokens q.requested_at
        (log_success q (some tokens) now g)
  on_logged length_of q aborted now g =
      account_usage q.request.client_id q.target (quarter q.request.prompt_chars) q.requested_at
        (log_success q none now g)

  -- The end of the `try` block, once the route has resolved.
  unfoldable pub on_routed : Pending → Answer → ℕ → Gateway → Gateway × Completion
  on_routed q stream now g = (g, streaming q)
  on_routed q (completion tokens) now g = (
    account_usage q.request.client_id q.target (total_of tokens) q.requested_at
        (log_success q tokens now g),
    answered tokens,
  )

-- `message_of` gives the message of an exception.
module _ (is_accepted : RequestLogRow → Bool) (message_of : Completion → String) where
  -- `recordFailure` of an exception that is no `RoutingFailedError`.
  abbrev pub fail :
      Request
      → Surroundings
      → String
      → Option QuotaOutcome
      → Completion
      → Gateway
      → Gateway × Completion
  fail r s name quota e g = (
    record g {
      logs =
          record_other_failure is_accepted (origin r (s.starts_at / 1000)) r.model name
            (message_of e) quota s.ends_at g.logs;
    },
    e,
  )

  -- After `route`: the failed attempts and the success are logged, or the failure is.
  unfoldable pub after_route :
      Request → Surroundings → String → RouteEnd Answer Thrown → Gateway → Gateway × Completion
  after_route r s target (routed answer provider_id attempts) g =
      let at = s.starts_at / 1000 in
      on_routed is_accepted
        (record {
          request = r;
          requested_at = at;
          provider_id = provider_id;
          resolved_model = resolved_model_of attempts;
          attempts = length attempts;
          target = target;
          diverted_from = (outcome_of target r.model).diverted_from;
        })
        answer s.ends_at
        (record g {
          logs = record g.logs {
            request_logs =
                record_failed_attempts is_accepted (origin r at) r.model (length attempts) attempts
                  g.logs.request_logs;
          };
        })
  after_route r s target (routing_failed model attempts) g = (
    record g {
      logs =
          record_routing_failure is_accepted (origin r (s.starts_at / 1000)) model attempts
            (message_of (all_failed model attempts)) (some (outcome_of target r.model)) s.ends_at
            g.logs;
    },
    all_failed model attempts,
  )
  after_route r s target index_error g =
      fail r s "TypeError" (some (outcome_of target r.model)) type_error g

-- `order_by` is SQLite's, and `is_circuit_open` is `instanceof CircuitOpenError`.
module _ (is_accepted : RequestLogRow → Bool) (message_of : Completion → String)
    (order_by : List String → List String) (is_circuit_open : Thrown → Bool) (p : Policy)
    (registry : Registry) where
  -- `route`, from the chain that `resolveChain` returns or the `Error` that it throws.
  unfoldable pub after_chain :
      Request → Surroundings → String → Result (List ResolvedModel) → Gateway → Gateway × Completion
  after_chain r s target (throws e) g =
      fail is_accepted message_of r s "Error" (some (outcome_of target r.model)) (unresolved e) g
  after_chain r s target (returns chain) g =
      let (end, cursor, breaker) =
        route is_circuit_open p s.turns target chain (registry.strategy_for target)
          (registry.get_weights target) s.random g.cursor g.breaker in
      after_route is_accepted message_of r s target end
        (record g { cursor = cursor; breaker = breaker })

  -- The body of the `try` block from the quota gate on.
  unfoldable pub after_gate : Request → Surroundings → Target → Gateway → Gateway × Completion
  after_gate r s (exhausted e) g =
      fail is_accepted message_of r s "QuotaExhaustedError" none (quota_exhausted e) g
  after_gate r s (serve target) g = after_chain r s target (registry.resolve_chain target) g

  -- `assertAliasPermitted` in front of the rest.
  unfoldable pub completions : Request → Surroundings → Gateway → Gateway × Completion
  completions r s g =
      if is_permitted (get_access order_by r.client_id g.client_alias_access) r.model
      then after_gate r s (resolve_target r.client_id r.model s.gate_at g.quotas) g
      else fail is_accepted message_of r s "AliasNotPermittedError" none
          (alias_not_permitted r.client_id r.model) g
