-- ===== src/Quota/RepairTests.antt =====
-- The reconciliation on a concrete log, and the theorems at it.
use ms_gatgeway_llm.Base.{
  ◌*◌, ◌≡◌, ◌↔◌, refl, true, false, none, some, List, [], ◌∷◌, length, arith, get, put,
}
use ms_gatgeway_llm.RequestLog.{RequestLogRow, Origin, success_row, attempt_row}
use ms_gatgeway_llm.Chat.Tokens.{TokenUsage}
use ms_gatgeway_llm.Quota.Calendar.{Period, period_key, month_start, month_len}
use ms_gatgeway_llm.Quota.Repository.{QuotaKey, QuotaRepository, set_usage}
use ms_gatgeway_llm.Quota.Aggregate.{utc_month_window, in_range, aggregate_request_log_usage}
use ms_gatgeway_llm.Quota.Reconcile.{
  digits, period_of, reconcile_period, reconcile, reconcile_pairs,
}
use ms_gatgeway_llm.Quota.Recount.{Orders, IsRestored, reconcile_lem}
use ms_gatgeway_llm.Quota.Window.{utc_month_window_lem}

abbrev pub as_is : List QuotaKey → List QuotaKey
as_is l = l

pub as_is-Orders : Orders as_is
as_is-Orders l k = refl

-- In November 2023.
abbrev origin : Origin
origin = record {
  requested_at = 1700000000;
  client_key = some "acme";
  prompt_hash = "h";
  request_params = none;
}

abbrev pub thirty : TokenUsage
thirty = record { prompt_tokens = 10; completion_tokens = 20; total_tokens = 30 }

-- A request for "codex" that "slave" served, and its failed attempt.
abbrev rows : List RequestLogRow
rows =
    attempt_row origin "codex" "nan" "m" 2 5 (some "timeout") false
    ∷ success_row origin "codex" (some "slave") "openai" "m" 2 1 (some thirty)
    ∷ []

abbrev pub before : QuotaRepository
before = record {
  client_alias_quotas =
      (("acme", "slave"), record { monthly_token_limit = 100; divert_alias_key = none })
      ∷ (("acme", "codex"), record { monthly_token_limit = 7; divert_alias_key = some "slave" })
      ∷ [];
  client_alias_usage =
      ((("acme", "slave"), (2023, 11)), record { tokens = 12; requests = 1 })
      ∷ ((("acme", "codex"), (2023, 11)), record { tokens = 7; requests = 1 })
      ∷ [];
}

abbrev pub november : Period
november = (2023, 11)

repairs : Unit {0}
unfolding reconcile reconcile_pairs aggregate_request_log_usage utc_month_window set_usage get put
    month_start month_len period_of
repairs = tt

-- The failed attempt counts as a request for "codex".
reconcile_test :
    let (after, report) = reconcile_period as_is november false rows before in
    (after.client_alias_usage
      ≡ ((("acme", "slave"), november), record { tokens = 30; requests = 1 })
        ∷ ((("acme", "codex"), november), record { tokens = 0; requests = 1 })
        ∷ [])
    × (report.rows_scanned ≡ 2)
    × (report.repaired ≡ 2)
unfolding repairs
reconcile_test = (refl, refl, refl)

pub valid : period_of (digits november) 0 ≡ some november
unfolding period_of
valid = refl

reconcile_lem_example :
    let (after, report) = reconcile_period as_is november false rows before in
    (reconcile as_is (digits november) false 0 rows before ≡ some (after, report))
    × (after.client_alias_quotas ≡ before.client_alias_quotas)
    × (report.repaired ≡ length report.drift)
    × IsRestored as_is as_is-Orders "acme" "slave" november november rows before after
reconcile_lem_example =
    reconcile_lem as_is as_is-Orders (digits november) november 0 rows before "acme" "slave"
      november valid

utc_month_window_lem_example :
    let row = success_row origin "codex" (some "slave") "openai" "m" 2 1 (some thirty) in
    (in_range (utc_month_window (2023, 11)) row ≡ true)
    ↔ (period_key (1700000000 * 1000) ≡ (2023, 11))
utc_month_window_lem_example =
    utc_month_window_lem 2023 11
      (success_row origin "codex" (some "slave") "openai" "m" 2 1 (some thirty)) (omega arith) refl
