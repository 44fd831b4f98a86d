-- ===== src/RequestLog.antt =====
-- The request log: src/observability/request-log.service.ts, which builds the rows, over the table
-- of src/database/repositories/request-log.repository.ts, whose rows are in the order of insertion.
-- A text that stays a JSON document in the table is kept as the value that it renders.
use ms_gatgeway_llm.Base.{ℕ, String, Bool, Option, none, some, List, [], ◌∷◌, ◌++◌, if◌then◌else◌}
use Prim.Native.String.{◌++◌ as append}
use ms_gatgeway_llm.Chat.Tokens.{TokenUsage}

pub data RequestLogStatus : Type 0 where
  ok error circuit_open : RequestLogStatus

-- What JavaScript code throws: an `Error`, a text, or another value, with what `String()` makes of it
-- and whether it counts as true.
pub data Thrown : Type 0 where
  error_object : (name message : String) → Thrown
  thrown_text : String → Thrown
  thrown_other : (is_true : Bool) → (rendered : String) → Thrown

-- An element of `attempt_details`.
pub record AttemptDetail : Type 0 where
  pub provider_id : String
  pub upstream_model : String
  pub is_ok : Bool
  pub is_circuit_open : Bool
  pub duration_ms : ℕ
  pub error_text : Option String

pub record RequestLogRow : Type 0 where
  pub requested_at : ℕ
  pub model_requested : String
  pub served_alias : Option String
  pub resolved_provider : Option String
  pub resolved_model : Option String
  pub attempts : ℕ
  pub latency_ms : ℕ
  pub status : RequestLogStatus
  pub error_text : Option String
  pub client_key : Option String
  pub prompt_hash : Option String
  pub tokens : Option TokenUsage
  pub attempt_details : Option (List AttemptDetail)
  pub request_params : Option String

-- The columns that all three kinds of rows are given alike.
pub record Origin : Type 0 where
  pub requested_at : ℕ
  pub client_key : Option String
  pub prompt_hash : String
  pub request_params : Option String

-- `error instanceof Error`, `typeof error === 'string'`, or neither.
abbrev pub error_message : Thrown → Option String
error_message (error_object name message) = some (append name (append ": " message))
error_message (thrown_text s) = some s
error_message (thrown_other t s) = none

abbrev pub success_row :
    Origin → String → Option String → String → String → ℕ → ℕ → Option TokenUsage → RequestLogRow
success_row o model served provider resolved attempts latency tokens = record {
  requested_at = o.requested_at;
  model_requested = model;
  served_alias = served;
  resolved_provider = some provider;
  resolved_model = some resolved;
  attempts = attempts;
  latency_ms = latency;
  status = RequestLogStatus.ok;
  error_text = none;
  client_key = o.client_key;
  prompt_hash = some o.prompt_hash;
  tokens = tokens;
  attempt_details = none;
  request_params = none;
}

abbrev failure_status : Option String → RequestLogStatus
failure_status none = circuit_open
failure_status (some s) = RequestLogStatus.error

abbrev pub failure_row :
    Origin → String → Option String → ℕ → ℕ → Thrown → Option (List AttemptDetail) → RequestLogRow
failure_row o model served attempts latency e details = record {
  requested_at = o.requested_at;
  model_requested = model;
  served_alias = served;
  resolved_provider = none;
  resolved_model = none;
  attempts = attempts;
  latency_ms = latency;
  status = failure_status (error_message e);
  error_text = error_message e;
  client_key = o.client_key;
  prompt_hash = some o.prompt_hash;
  tokens = none;
  attempt_details = details;
  request_params = o.request_params;
}

-- The error that ChatService hands over is a text or absent.
abbrev attempt_error : Option String → Bool → Option String
attempt_error (some s) is_open = some s
attempt_error none is_open = if is_open then some "Circuit breaker open" else none

abbrev pub attempt_row :
    Origin → String → String → String → ℕ → ℕ → Option String → Bool → RequestLogRow
attempt_row o model provider resolved total duration e is_open = record {
  requested_at = o.requested_at;
  model_requested = model;
  served_alias = none;
  resolved_provider = some provider;
  resolved_model = some resolved;
  attempts = total;
  latency_ms = duration;
  status = RequestLogStatus.error;
  error_text = attempt_error e is_open;
  client_key = o.client_key;
  prompt_hash = some o.prompt_hash;
  tokens = none;
  attempt_details = none;
  request_params = o.request_params;
}

-- `is_accepted row` is whether the database takes the row; what it throws is swallowed.
module _ (is_accepted : RequestLogRow → Bool) where
  abbrev pub try_append : RequestLogRow → List RequestLogRow → List RequestLogRow
  try_append row logs = if is_accepted row then logs ++ row ∷ [] else logs

  unfoldable pub record_success :
      Origin
      → String
      → Option String
      → String
      → String
      → ℕ
      → ℕ
      → Option TokenUsage
      → List RequestLogRow
      → List RequestLogRow
  record_success o model served provider resolved attempts latency tokens logs =
      try_append (success_row o model served provider resolved attempts latency tokens) logs

  unfoldable pub record_failure :
      Origin
      → String
      → Option String
      → ℕ
      → ℕ
      → Thrown
      → Option (List AttemptDetail)
      → List RequestLogRow
      → List RequestLogRow
  record_failure o model served attempts latency e details logs =
      try_append (failure_row o model served attempts latency e details) logs

  unfoldable pub record_attempt_failure :
      Origin
      → String
      → String
      → String
      → ℕ
      → ℕ
      → Option String
      → Bool
      → List RequestLogRow
      → List RequestLogRow
  record_attempt_failure o model provider resolved total duration e is_open logs =
      try_append (attempt_row o model provider resolved total duration e is_open) logs
