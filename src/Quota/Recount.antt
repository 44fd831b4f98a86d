-- ===== src/Quota/Recount.antt =====
-- A reconciliation restores the counters, once and for all.
use ms_gatgeway_llm.Base.{
  ℕ, ◌≡◌, refl, sym, ap, ◌∙◌, subst, String, Bool, true, false, ◌&&◌, Option, some, List, [], map,
  length, get, nat_eq, if◌then◌else◌, ◌==◌, ==→eq, Bool-cases, inl, inr, arith,
}
use ms_gatgeway_llm.RequestLog.{RequestLogRow}
use ms_gatgeway_llm.Quota.Calendar.{Period}
use ms_gatgeway_llm.Quota.Repository.{
  ClientAliasUsage, QuotaKey, QuotaRepository, quota_is_key, period_is_key, get_usage, get_quota,
}
use ms_gatgeway_llm.Quota.Aggregate.{
  utc_month_window, aggregate_request_log_usage, IsTotal, rows_for, aggregate-IsTotal,
}
use ms_gatgeway_llm.Quota.Reconcile.{
  PeriodOption, period_of, in_sync, reconcile_pairs, list_all_quotas, compared_in, reconcile_period,
  reconcile,
}
use ms_gatgeway_llm.Quota.Repair.{
  contains, has_quota, contains-keys, compared, IsComputed, current, passed-IsComputed,
  passed-other, passed-quotas, reconcile_pairs-drift, reconcile_pairs-dry, reconcile_pairs-repaired,
  reconcile_pairs-in_sync,
}

-- Ordering a listing keeps its entries.
abbrev pub Orders : (List QuotaKey → List QuotaKey) → Type 0
Orders order_by = (l : List QuotaKey) (k : QuotaKey) → contains (order_by l) k ≡ contains l k

module _ (order_by : List QuotaKey → List QuotaKey) (o : Orders order_by) where
  list_all_quotas-has :
      (db : QuotaRepository) (k : QuotaKey)
      → contains (list_all_quotas order_by db) k ≡ has_quota (get k db.client_alias_quotas)
  list_all_quotas-has db k =
      o (map (λ r. r.0) db.client_alias_quotas) k ∙ contains-keys db.client_alias_quotas k

  -- What a counter is after the repair.
  abbrev pub IsRestored :
      String
      → String
      → Period
      → Period
      → List RequestLogRow
      → QuotaRepository
      → QuotaRepository
      → Type 0
  IsRestored client alias q p rows db after =
      if (q == p) && has_quota (get_quota client alias db)
      then IsTotal (rows_for (client, alias) (utc_month_window p) rows)
          (get_usage client alias q after)
      else get_usage client alias q after ≡ get_usage client alias q db

  abbrev stored : Period → QuotaRepository → QuotaKey → Option ClientAliasUsage
  stored p db k = get_usage k.0 k.1 p db

  abbrev computed : Period → List RequestLogRow → QuotaKey → Option ClientAliasUsage
  computed p rows k = get k (aggregate_request_log_usage (utc_month_window p) rows)

  abbrev repaired : Period → List RequestLogRow → QuotaRepository → QuotaRepository
  repaired p rows db = (reconcile_period order_by p false rows db).0

  repaired-IsComputed :
      (p : Period) (rows : List RequestLogRow) (db : QuotaRepository) (k : QuotaKey)
      → has_quota (get k db.client_alias_quotas) ≡ true
      → IsComputed
          (stored p db)
          (computed p rows)
          p
          k
          (current (stored p db) (computed p rows) p k (repaired p rows db))
  repaired-IsComputed p rows db k h =
      passed-IsComputed (stored p db) (computed p rows) p k (list_all_quotas order_by db) db synced
        (inl (list_all_quotas-has db k ∙ h))
    where
      synced :
          in_sync (compared (stored p db) (computed p rows) p k) ≡ true
          → IsComputed
              (stored p db)
              (computed p rows)
              p
              k
              (current (stored p db) (computed p rows) p k db)
      synced s = ground arith

  equal_counters : (a b c d : ℕ) → a ≡ b → c ≡ d → (nat_eq a b && nat_eq c d) ≡ true
  equal_counters a b c d h k = ground arith

  both : (a b : Bool) → (a && b) ≡ true → (a ≡ true) × (b ≡ true)
  both a b h = ground arith

  reconcile_period-IsRestored :
      (p : Period) (rows : List RequestLogRow) (db : QuotaRepository) (client alias : String)
      (q : Period)
      → IsRestored client alias q p rows db (repaired p rows db)
  reconcile_period-IsRestored p rows db client alias q =
      elim (Bool-cases ((q == p) && has_quota (get pair db.client_alias_quotas))) [
        | inl e ↦ let (a, b) = both _ _ e in rw e (subst Total (sym (==→eq q p a)) (total b))
        | inr e ↦ rw e (
            passed-other (stored p db) (computed p rows) p (pair, q) (list_all_quotas order_by db)
              db (rw (list_all_quotas-has db pair) e))
      ]
    where
      pair : QuotaKey
      pair = (client, alias)

      Total : Period → Type 0
      Total q =
          IsTotal (rows_for pair (utc_month_window p) rows)
            (get_usage client alias q (repaired p rows db))

      total : has_quota (get pair db.client_alias_quotas) ≡ true → Total p
      total h =
          let (a, b) = repaired-IsComputed p rows db pair h in
          let (c, d) = aggregate-IsTotal pair (utc_month_window p) rows in (a ∙ c, b ∙ d)

  period_of-reconcile :
      (period : PeriodOption) (p : Period) (dry_run : Bool) (now : ℕ) (rows : List RequestLogRow)
      (db : QuotaRepository)
      → period_of period now ≡ some p
      → reconcile order_by period dry_run now rows db
        ≡ some (reconcile_period order_by p dry_run rows db)
  unfolding reconcile
  period_of-reconcile period p dry_run now rows db e = rw (e, reconcile) refl

  -- A pass over a valid month that is no dry run sets the counters of that month, of every client and
  -- alias with a quota, to the tokens and the number of the log's rows in the month that name the
  -- client and the alias that served (or else the one asked for). The counters without a quota, those
  -- of other months and the quotas stay as they are, and every drift reported is repaired. The order
  -- of the listing keeps its entries.
  pub reconcile_lem :
      (period : PeriodOption) (p : Period) (now : ℕ) (rows : List RequestLogRow)
      (db : QuotaRepository) (client alias : String) (q : Period)
      → period_of period now ≡ some p
      → let (after, report) = reconcile_period order_by p false rows db in
        (reconcile order_by period false now rows db ≡ some (after, report))
        × (after.client_alias_quotas ≡ db.client_alias_quotas)
        × (report.repaired ≡ length report.drift)
        × IsRestored client alias q p rows db after
  reconcile_lem period p now rows db client alias q e = (
    period_of-reconcile period p false now rows db e,
    passed-quotas (stored p db) (computed p rows) p false (list_all_quotas order_by db) db,
    reconcile_pairs-repaired (stored p db) (computed p rows) p (list_all_quotas order_by db) db,
    reconcile_period-IsRestored p rows db client alias q,
  )

  -- A dry run over a valid month writes nothing, and reports the drift that the repair reports.
  reconcile-dry_run :
      (period : PeriodOption) (p : Period) (now : ℕ) (rows : List RequestLogRow)
      (db : QuotaRepository)
      → period_of period now ≡ some p
      → let (after, report) = reconcile_period order_by p true rows db in
        (reconcile order_by period true now rows db ≡ some (after, report))
        × (after ≡ db)
        × (report.repaired ≡ 0)
        × (report.drift ≡ (reconcile_period order_by p false rows db).1.drift)
  reconcile-dry_run period p now rows db e =
      let (a, b) =
        reconcile_pairs-dry (stored p db) (computed p rows) p (list_all_quotas order_by db) db in
      (
        period_of-reconcile period p true now rows db e,
        a,
        b,
        reconcile_pairs-drift (stored p db) (computed p rows) p true (list_all_quotas order_by db)
              db
            ∙ sym (
                reconcile_pairs-drift (stored p db) (computed p rows) p false
                  (list_all_quotas order_by db) db),
      )

  in_sync_after :
      (p : Period) (rows : List RequestLogRow) (db : QuotaRepository) (k : QuotaKey)
      → let after = repaired p rows db in
        contains (list_all_quotas order_by after) k ≡ true
        → in_sync (compared_in order_by p rows after k) ≡ true
  in_sync_after p rows db k e =
      let q : (repaired p rows db).client_alias_quotas ≡ db.client_alias_quotas =
        passed-quotas (stored p db) (computed p rows) p false (list_all_quotas order_by db) db in
      let h = sym (list_all_quotas-has (repaired p rows db) k) ∙ e in
      let (a, b) = repaired-IsComputed p rows db k (subst (λ d. has_quota (get k d) ≡ true) q h) in
      equal_counters _ _ _ _ a b

  -- A second pass over the same valid month and the same log, after a pass that was no dry run, finds
  -- no drift and writes nothing. The order of the listing keeps its entries.
  reconcile-idempotent :
      (period : PeriodOption) (p : Period) (now : ℕ) (rows : List RequestLogRow)
      (db : QuotaRepository) (dry_run : Bool)
      → period_of period now ≡ some p
      → let after = (reconcile_period order_by p false rows db).0 in
        let again = reconcile_period order_by p dry_run rows after in
        (reconcile order_by period dry_run now rows after ≡ some again)
        × (again.0 ≡ after)
        × (again.1.drift ≡ [])
        × (again.1.repaired ≡ 0)
  reconcile-idempotent period p now rows db dry_run e = (
    period_of-reconcile period p dry_run now rows after e,
    ap (λ r. r.0) none_left,
    ap (λ r. r.1) none_left,
    ap (λ r. r.2) none_left,
  )
    where
      after : QuotaRepository
      after = (reconcile_period order_by p false rows db).0

      none_left :
          reconcile_pairs
            (compared_in order_by p rows after)
            p
            dry_run
            (list_all_quotas order_by after)
            after
          ≡ (after, [], 0)
      none_left =
          reconcile_pairs-in_sync (stored p after) (computed p rows) p dry_run
            (list_all_quotas order_by after) after (in_sync_after p rows db)
