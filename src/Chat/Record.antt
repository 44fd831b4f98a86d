-- ===== src/Chat/Record.antt =====
-- What ChatService logs of a request: `recordSuccess`, `recordFailure` and `recordFailedAttempts` of
-- src/chat/chat.service.ts, with the rows of the request log and the structured events.
use Prim.Native.String.{◌++◌ as append}
use ms_gatgeway_llm.Base.{
  ℕ, ◌-◌, String, Bool, true, false, Option, none, some, List, [], ◌∷◌, ◌++◌, map, all, length,
  truthy, if◌then◌else◌,
}
use ms_gatgeway_llm.Routing.Service.{RouteAttempt, attempt_ok, attempt_failed}
use ms_gatgeway_llm.RequestLog
use ms_gatgeway_llm.RequestLog.{
  RequestLogStatus, circuit_open, Thrown, error_object, thrown_text, thrown_other, AttemptDetail,
  RequestLogRow, Origin,
}
use ms_gatgeway_llm.Chat.Tokens.{TokenUsage}

-- `RequestLogEvent`; its constant `event` and the `promptHash` that the row has too are left out.
pub record RequestLogEvent : Type 0 where
  pub ts : ℕ
  pub model : String
  pub served_alias : Option String
  pub quota_diverted_from : Option String
  pub resolved_provider : Option String
  pub resolved_model : Option String
  pub latency_ms : ℕ
  pub attempts : ℕ
  pub tokens : Option TokenUsage
  pub status : RequestLogStatus
  pub error_text : Option String
  pub attempt_details : Option (List AttemptDetail)
  pub client_key : Option String

-- `quotaOutcome`.
pub record QuotaOutcome : Type 0 where
  pub served_alias : String
  pub diverted_from : Option String

-- The two logs.
pub record Logs : Type 0 where
  pub request_logs : List RequestLogRow
  pub events : List RequestLogEvent

-- The text of an attempt's error: of an `Error` its name and message, of what else is true its
-- `String()`.
abbrev pub attempt_error : Option Thrown → Option String
attempt_error none = none
attempt_error (some (error_object name message)) = some (append name (append ": " message))
attempt_error (some (thrown_text s)) = truthy (some s)
attempt_error (some (thrown_other t s)) = if t then some s else none

abbrev detail : RouteAttempt Thrown → AttemptDetail
detail (attempt_ok provider model duration) = record {
  provider_id = provider;
  upstream_model = model;
  is_ok = true;
  is_circuit_open = false;
  duration_ms = duration;
  error_text = none;
}
detail (attempt_failed provider model is_open e duration) = record {
  provider_id = provider;
  upstream_model = model;
  is_ok = false;
  is_circuit_open = is_open;
  duration_ms = duration;
  error_text = truthy (attempt_error e);
}

abbrev pub serialize_attempts : List (RouteAttempt Thrown) → Option (List AttemptDetail)
serialize_attempts [] = none
serialize_attempts (a ∷ attempts) = some (map detail (a ∷ attempts))

abbrev pub was_refused : RouteAttempt Thrown → Bool
was_refused (attempt_ok provider model duration) = false
was_refused (attempt_failed provider model is_open e duration) = is_open

abbrev pub choose_status_for_failure : List (RouteAttempt Thrown) → RequestLogStatus
choose_status_for_failure [] = circuit_open
choose_status_for_failure (a ∷ attempts) =
    if all was_refused (a ∷ attempts) then circuit_open else RequestLogStatus.error

-- `err.attempts.find(…)`, and `at(-1)`.
abbrev find_hit : List (RouteAttempt Thrown) → Option (RouteAttempt Thrown)
find_hit [] = none
find_hit (attempt_ok provider model duration ∷ attempts) = find_hit attempts
find_hit (attempt_failed provider model is_open e duration ∷ attempts) =
    if is_open then find_hit attempts else some (attempt_failed provider model is_open e duration)

abbrev pub last : {A : Type 0} → List A → Option A
last [] = none
last (a ∷ []) = some a
last (a ∷ b ∷ l) = last (b ∷ l)

unfoldable pub hit_wire : List (RouteAttempt Thrown) → Option (RouteAttempt Thrown)
hit_wire attempts = elim (find_hit attempts) [ some a ↦ some a | none ↦ last attempts ]

abbrev provider_of : Option (RouteAttempt Thrown) → Option String
provider_of none = none
provider_of (some (attempt_ok provider model duration)) = some provider
provider_of (some (attempt_failed provider model is_open e duration)) = some provider

abbrev model_of : Option (RouteAttempt Thrown) → Option String
model_of none = none
model_of (some (attempt_ok provider model duration)) = some model
model_of (some (attempt_failed provider model is_open e duration)) = some model

-- The error of the attempt, if it is an `Error` or a text; or else the message of the whole failure.
abbrev hit_message : Option (RouteAttempt Thrown) → String → String
hit_message (some (attempt_failed provider model is_open (some (error_object name s)) duration)) m =
    append name (append ": " s)
hit_message (some (attempt_failed provider model is_open (some (thrown_text s)) duration)) m = s
hit_message a m = m

abbrev pub served_of : Option QuotaOutcome → Option String
served_of none = none
served_of (some q) = some q.served_alias

abbrev diverted_of : Option QuotaOutcome → Option String
diverted_of none = none
diverted_of (some q) = truthy q.diverted_from

module _ (is_accepted : RequestLogRow → Bool) where
  -- `now` is the clock's second.
  unfoldable pub record_success :
      Origin
      → String
      → String
      → String
      → ℕ
      → Option TokenUsage
      → Option QuotaOutcome
      → ℕ
      → Logs
      → Logs
  record_success o model provider resolved attempts tokens quota now logs = record {
    request_logs =
        RequestLog.record_success is_accepted o model (served_of quota) provider resolved attempts
          (now - o.requested_at) tokens logs.request_logs;
    events =
        logs.events
        ++ record {
          ts = o.requested_at;
          model = model;
          served_alias = truthy (served_of quota);
          quota_diverted_from = diverted_of quota;
          resolved_provider = some provider;
          resolved_model = some resolved;
          latency_ms = now - o.requested_at;
          attempts = attempts;
          tokens = tokens;
          status = RequestLogStatus.ok;
          error_text = none;
          attempt_details = none;
          client_key = truthy o.client_key;
        }
          ∷ [];
  }

  -- The first half of `recordFailure`: `err` is a `RoutingFailedError`.
  unfoldable pub record_routing_failure :
      Origin → String → List (RouteAttempt Thrown) → String → Option QuotaOutcome → ℕ → Logs → Logs
  record_routing_failure o model attempts message quota now logs = record {
    request_logs =
        RequestLog.record_failure is_accepted o model (served_of quota) (length attempts)
          (now - o.requested_at) (error_object "RoutingFailedError" message)
          (serialize_attempts attempts) logs.request_logs;
    events =
        logs.events
        ++ record {
          ts = o.requested_at;
          model = model;
          served_alias = truthy (served_of quota);
          quota_diverted_from = diverted_of quota;
          resolved_provider = provider_of (hit_wire attempts);
          resolved_model = model_of (hit_wire attempts);
          latency_ms = now - o.requested_at;
          attempts = length attempts;
          tokens = none;
          status = choose_status_for_failure attempts;
          error_text = truthy (some (hit_message (hit_wire attempts) message));
          attempt_details = serialize_attempts attempts;
          client_key = truthy o.client_key;
        }
          ∷ [];
  }

  -- The second half: `err` is another `Error`.
  unfoldable pub record_other_failure :
      Origin → String → (name message : String) → Option QuotaOutcome → ℕ → Logs → Logs
  record_other_failure o model name message quota now logs = record {
    request_logs =
        RequestLog.record_failure is_accepted o model (served_of quota) 0 (now - o.requested_at)
          (error_object name message) none logs.request_logs;
    events =
        logs.events
        ++ record {
          ts = o.requested_at;
          model = model;
          served_alias = truthy (served_of quota);
          quota_diverted_from = diverted_of quota;
          resolved_provider = none;
          resolved_model = none;
          latency_ms = now - o.requested_at;
          attempts = 0;
          tokens = none;
          status = RequestLogStatus.error;
          error_text = truthy (some message);
          attempt_details = none;
          client_key = truthy o.client_key;
        }
          ∷ [];
  }

  -- The loop of `recordFailedAttempts`; `total` is the number of all attempts.
  unfoldable pub record_failed_attempts :
      Origin → String → ℕ → List (RouteAttempt Thrown) → List RequestLogRow → List RequestLogRow
  record_failed_attempts o model total [] logs = logs
  record_failed_attempts o model total (attempt_ok provider resolved duration ∷ attempts) logs =
      record_failed_attempts o model total attempts logs
  record_failed_attempts o model total
        (attempt_failed provider resolved is_open e duration ∷ attempts) logs =
      record_failed_attempts o model total attempts (
        RequestLog.record_attempt_failure is_accepted o model provider resolved total duration
          (attempt_error e) is_open logs)
