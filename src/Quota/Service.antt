-- ===== src/Quota/Service.antt =====
-- The quota gate, src/quota/quota.service.ts. An injected clock is the argument `now`.
use ms_gatgeway_llm.Base.{
  ℕ, ◌-◌, ◌/◌, String, Bool, true, false, Option, none, some, truthy, ltb, leb, if◌then◌else◌,
}
use ms_gatgeway_llm.Quota.Calendar.{Period, period_key, next_utc_month_start, retry_after_seconds}
use ms_gatgeway_llm.Quota.Repository.{
  ClientAliasQuota, ClientAliasUsage, QuotaRepository, get_quota, get_usage, add_usage,
  upsert_quota as write_quota, delete_quota,
}

-- The detail of `QuotaExhaustedError`.
pub record Exhausted : Type 0 where
  pub client_id : String
  pub alias_key : String
  pub period : Period
  pub limit : ℕ
  pub used : ℕ
  pub resets_at : ℕ

-- `resolveTarget` returns an alias or throws.
pub data Target : Type 0 where
  serve : String → Target
  exhausted : Exhausted → Target

abbrev pub tokens_of : Option ClientAliasUsage → ℕ
tokens_of none = 0
tokens_of (some u) = u.tokens

abbrev pub requests_of : Option ClientAliasUsage → ℕ
requests_of none = 0
requests_of (some u) = u.requests

abbrev pub used_in : String → String → Period → QuotaRepository → ℕ
used_in client alias period db = tokens_of (get_usage client alias period db)

-- The end of `resolveTarget`, for an exhausted quota.
abbrev pub divert : String → String → ClientAliasQuota → ℕ → QuotaRepository → Target
divert client alias q now db = elim (truthy q.divert_alias_key) [
  | some other ↦ serve other
  | none ↦ exhausted (record {
    client_id = client;
    alias_key = alias;
    period = period_key now;
    limit = q.monthly_token_limit;
    used = used_in client alias (period_key now) db;
    resets_at = next_utc_month_start now / 1000;
  })
]

unfoldable pub resolve_target : Option String → String → ℕ → QuotaRepository → Target
resolve_target client_id alias now db = elim (truthy client_id) [
  | none ↦ serve alias
  | some client ↦ elim (get_quota client alias db) [
    | none ↦ serve alias
    | some q ↦
        if ltb (used_in client alias (period_key now) db) q.monthly_token_limit
        then serve alias
        else divert client alias q now db
  ]
]

-- A JavaScript number as the caller may report it: NaN and the infinities, or a fraction with its
-- sign.
pub data Number : Type 0 where
  not_finite : Number
  finite : (negative : Bool) (numerator denominator : ℕ) → Number

-- `Math.max(0, Math.trunc(…))`; a denominator is positive.
abbrev pub normalise_tokens : Number → ℕ
normalise_tokens not_finite = 0
normalise_tokens (finite true n d) = 0
normalise_tokens (finite false n d) = n / d

unfoldable pub record_usage :
    Option String → String → Number → ℕ → QuotaRepository → QuotaRepository
record_usage client_id served tokens at db = elim (truthy client_id) [
  | none ↦ db
  | some client ↦ elim (get_quota client served db) [
    | none ↦ db
    | some q ↦ add_usage client served (period_key at) (normalise_tokens tokens) db
  ]
]

pub record ClientQuotaView : Type 0 where
  pub alias_key : String
  pub monthly_token_limit : ℕ
  pub divert_alias_key : Option String
  pub period : Period
  pub tokens : ℕ
  pub requests : ℕ
  pub remaining : ℕ
  pub is_exhausted : Bool
  pub resets_at : ℕ
  pub retry_after : ℕ

unfoldable pub to_view : String → ClientAliasQuota → Option ClientAliasUsage → ℕ → ClientQuotaView
to_view alias q usage now = record {
  alias_key = alias;
  monthly_token_limit = q.monthly_token_limit;
  divert_alias_key = q.divert_alias_key;
  period = period_key now;
  tokens = tokens_of usage;
  requests = requests_of usage;
  remaining = q.monthly_token_limit - tokens_of usage;
  is_exhausted = leb q.monthly_token_limit (tokens_of usage);
  resets_at = next_utc_month_start now / 1000;
  retry_after = retry_after_seconds now;
}

unfoldable pub upsert_quota :
    String
    → String
    → ClientAliasQuota
    → ℕ
    → QuotaRepository
    → Option (QuotaRepository × ClientQuotaView)
upsert_quota client alias q now db = elim (write_quota client alias q db) [
  | none ↦ none
  | some after ↦ some (after, to_view alias q (get_usage client alias (period_key now) after) now)
]

abbrev pub remove_quota : String → String → QuotaRepository → QuotaRepository × Bool
remove_quota = delete_quota
