-- ===== src/Quota/Reconcile.antt =====
-- The repair of the usage counters from the request log, src/quota/quota-reconcile.service.ts.
use ms_gatgeway_llm.Base.{
  ℕ, suc, String, Bool, ◌&&◌, Option, none, some, List, [], ◌∷◌, map, length, sum, get, nat_eq, ltb,
  leb, if◌then◌else◌,
}
use ms_gatgeway_llm.RequestLog.{RequestLogRow}
use ms_gatgeway_llm.Quota.Calendar.{Period, period_key}
use ms_gatgeway_llm.Quota.Repository.{
  ClientAliasUsage, QuotaKey, QuotaRepository, quota_is_key, get_usage, set_usage,
}
use ms_gatgeway_llm.Quota.Service.{tokens_of, requests_of}
use ms_gatgeway_llm.Quota.Aggregate.{utc_month_window, aggregate_request_log_usage}

pub record ReconcileDriftRow : Type 0 where
  pub client_id : String
  pub alias_key : String
  pub stored_tokens : ℕ
  pub computed_tokens : ℕ
  pub stored_requests : ℕ
  pub computed_requests : ℕ

pub record ReconcileReport : Type 0 where
  pub period : Period
  pub dry_run : Bool
  pub rows_scanned : ℕ
  pub pairs_considered : ℕ
  pub drift : List ReconcileDriftRow
  pub repaired : ℕ

-- The option `periodKey`: absent, digits as in `YYYY-MM` (the year's number of digits apart), or
-- another text.
pub data PeriodOption : Type 0 where
  in_progress other_text : PeriodOption
  digits : Period → PeriodOption

-- `PERIOD_KEY_PATTERN`.
abbrev pub is_period_key : Period → Bool
is_period_key (year, month) = ltb year 10000 && leb 1 month && leb month 12

unfoldable pub period_of : PeriodOption → ℕ → Option Period
period_of in_progress now = if is_period_key (period_key now) then some (period_key now) else none
period_of other_text now = none
period_of (digits p) now = if is_period_key p then some p else none

abbrev pub compare_counters :
    QuotaKey → Option ClientAliasUsage → Option ClientAliasUsage → ReconcileDriftRow
compare_counters (client, alias) stored computed = record {
  client_id = client;
  alias_key = alias;
  stored_tokens = tokens_of stored;
  computed_tokens = tokens_of computed;
  stored_requests = requests_of stored;
  computed_requests = requests_of computed;
}

abbrev pub in_sync : ReconcileDriftRow → Bool
in_sync d = nat_eq d.stored_tokens d.computed_tokens && nat_eq d.stored_requests d.computed_requests

abbrev computed_usage : ReconcileDriftRow → ClientAliasUsage
computed_usage d = record { tokens = d.computed_tokens; requests = d.computed_requests }

-- The write of one repair.
abbrev pub repair : Period → ReconcileDriftRow → QuotaRepository → QuotaRepository
repair p d db = set_usage d.client_id d.alias_key p (computed_usage d) db

-- The loop over the pairs, with the comparison of each: the database, the drift and the number of
-- repairs.
unfoldable pub reconcile_pairs :
    (QuotaKey → ReconcileDriftRow)
    → Period
    → Bool
    → List QuotaKey
    → QuotaRepository
    → QuotaRepository × List ReconcileDriftRow × ℕ
reconcile_pairs compared p dry_run [] db = (db, [], 0)
reconcile_pairs compared p dry_run (k ∷ pairs) db =
    let d = compared k in
    let (after, drift, repaired) =
      reconcile_pairs compared p dry_run pairs
        (if in_sync d then db else if dry_run then db else repair p d db) in
    if in_sync d
    then (after, drift, repaired)
    else if dry_run
    then (after, d ∷ drift, repaired)
    else (after, d ∷ drift, suc repaired)

-- `order_by` is the order of `listAllQuotas`.
module _ (order_by : List QuotaKey → List QuotaKey) where
  abbrev pub list_all_quotas : QuotaRepository → List QuotaKey
  list_all_quotas db = order_by (map (λ r. r.0) db.client_alias_quotas)

  abbrev pub compared_in :
      Period → List RequestLogRow → QuotaRepository → QuotaKey → ReconcileDriftRow
  compared_in p rows db k =
      compare_counters k (get_usage k.0 k.1 p db)
        (get k (aggregate_request_log_usage (utc_month_window p) rows))

  abbrev pub reconcile_period :
      Period → Bool → List RequestLogRow → QuotaRepository → QuotaRepository × ReconcileReport
  reconcile_period p dry_run rows db =
      let aggregates = aggregate_request_log_usage (utc_month_window p) rows in
      let (after, drift, repaired) =
        reconcile_pairs (compared_in p rows db) p dry_run (list_all_quotas db) db in
      (
        after,
        record {
          period = p;
          dry_run = dry_run;
          rows_scanned = sum (map (λ r. r.1.requests) aggregates);
          pairs_considered = length (list_all_quotas db);
          drift = drift;
          repaired = repaired;
        },
      )

  -- `none` is the BadRequestException.
  unfoldable pub reconcile :
      PeriodOption
      → Bool
      → ℕ
      → List RequestLogRow
      → QuotaRepository
      → Option (QuotaRepository × ReconcileReport)
  reconcile period dry_run now rows db = elim (period_of period now) [
    | none ↦ none
    | some p ↦ some (reconcile_period p dry_run rows db)
  ]
