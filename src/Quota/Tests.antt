-- ===== src/Quota/Tests.antt =====
-- The quota on concrete tables and dates, and the theorems at them.
use ms_gatgeway_llm.Base.{
  ℕ, ◌+◌, ◌<◌, ◌≡◌, ◌↔◌, refl, false, some, [], ◌∷◌, get, put, arith, string_key,
}
use ms_gatgeway_llm.Quota.Calendar.{
  period_key, month_of, find_month, month_len, month_start, next_utc_month_start,
  retry_after_seconds, seconds_until_instant,
}
use ms_gatgeway_llm.Quota.Months.{period_key_iff}
use ms_gatgeway_llm.Quota.Repository.{
  quota_is_key, ClientAliasQuota, QuotaRepository, upsert_quota as write_quota, add_usage,
}
use ms_gatgeway_llm.Quota.Service.{
  resolve_target, ClientQuotaView, upsert_quota, to_view, record_usage,
}

calendar : Unit {0}
unfolding period_key month_of find_month month_len month_start next_utc_month_start
    retry_after_seconds seconds_until_instant
calendar = tt

-- 14 November 2023, 22:13:20.
abbrev november : ℕ
november = 1700000000000

abbrev december : ℕ
december = 1701388800000

period_key-november : period_key november ≡ (2023, 11)
unfolding calendar
period_key-november = refl

next_utc_month_start-november : next_utc_month_start november ≡ december
unfolding calendar
next_utc_month_start-november = refl

-- A leap day.
period_key-leap : period_key 951782400000 ≡ (2000, 2)
unfolding calendar
period_key-leap = refl

period_key_iff_example :
    (period_key (november + 1) ≡ period_key november)
    ↔ (november + 1 < next_utc_month_start november)
period_key_iff_example = period_key_iff november (november + 1) (omega arith)

abbrev allowance : ClientAliasQuota
allowance = record { monthly_token_limit = 100; divert_alias_key = some "slave" }

running : Unit {0}
unfolding calendar get put resolve_target record_usage add_usage
running = tt

-- The tables after the first two requests.
abbrev spent : QuotaRepository
spent = record {
  client_alias_quotas = (("alice", "codex"), allowance) ∷ [];
  client_alias_usage =
      ((("alice", "codex"), (2023, 11)), record { tokens = 120; requests = 2 }) ∷ [];
}

-- The limit is raised in the middle of the month.
abbrev raised : ClientAliasQuota
raised = record { monthly_token_limit = 500; divert_alias_key = some "slave" }

abbrev after_raise : QuotaRepository
after_raise = record spent { client_alias_quotas = (("alice", "codex"), raised) ∷ [] }

abbrev raised_view : ClientQuotaView
raised_view = record {
  alias_key = "codex";
  monthly_token_limit = 500;
  divert_alias_key = some "slave";
  period = (2023, 11);
  tokens = 120;
  requests = 2;
  remaining = 380;
  is_exhausted = false;
  resets_at = 1701388800;
  retry_after = 1388800;
}

raise : upsert_quota "alice" "codex" raised november spent ≡ some (after_raise, raised_view)
unfolding running upsert_quota write_quota to_view
raise = refl
