-- ===== src/Quota/Aggregate.antt =====
-- The totals that the request log gives, `aggregateRequestLogUsage` of
-- src/database/repositories/quota.repository.ts, and the window of a month, `utcMonthWindow` of
-- src/quota/quota-reconcile.service.ts.
use ms_gatgeway_llm.Base.{
  ℕ, suc, ◌+◌, ◌-◌, ◌*◌, ◌≡◌, refl, ap, String, Bool, true, false, ◌&&◌, Option, none, some, List,
  [], ◌∷◌, map, filter, length, sum, Dict, get, put, ltb, leb, if◌then◌else◌, or_else, ◌==◌,
  string_key, get-put, ==→eq, Bool-cases, inl, inr, pair_key,
}
use ms_gatgeway_llm.RequestLog.{RequestLogRow}
use ms_gatgeway_llm.Quota.Calendar.{Period, month_start}
use ms_gatgeway_llm.Quota.Repository.{ClientAliasUsage, QuotaKey, quota_is_key}
use ms_gatgeway_llm.Quota.Service.{tokens_of, requests_of}

-- `[fromTs, toTs)`, in seconds.
pub record RequestLogUsageRange : Type 0 where
  pub from_ts : ℕ
  pub to_ts : ℕ

-- `Date.UTC(year, month, 1) / 1000`, for a month that counts from 0 and may be 12. The years 0 to 99
-- are those of the twentieth century. An instant before 1970, which is negative, is 0 here.
abbrev pub utc : ℕ → ℕ → ℕ
utc year month =
    let y = if leb year 99 then 1900 + year else year in
    if ltb y 1970 then 0 else 86400 * month_start (12 * (y - 1970) + month)

-- No row is older than 1970, so a window that ends before it has none, as here.
unfoldable pub utc_month_window : Period → RequestLogUsageRange
utc_month_window (year, month) = record { from_ts = utc year (month - 1); to_ts = utc year month }

abbrev pub in_range : RequestLogUsageRange → RequestLogRow → Bool
in_range w row = leb w.from_ts row.requested_at && ltb row.requested_at w.to_ts

-- `COALESCE(served_alias, model_requested)`.
abbrev pub routed_alias : RequestLogRow → String
routed_alias row = or_else row.served_alias row.model_requested

abbrev pub total_tokens : RequestLogRow → ℕ
total_tokens row = elim row.tokens as (λ _. ℕ) [ none ↦ 0 | some u ↦ u.total_tokens ]

-- One more row of a group.
abbrev count_in : Option ClientAliasUsage → ℕ → ClientAliasUsage
count_in o n = record { tokens = n + tokens_of o; requests = suc (requests_of o) }

abbrev pub add_row :
    RequestLogRow → String → Dict QuotaKey ClientAliasUsage → Dict QuotaKey ClientAliasUsage
add_row row client d =
    put (client, routed_alias row) (count_in (get (client, routed_alias row) d) (total_tokens row))
      d

unfoldable pub aggregate_request_log_usage :
    RequestLogUsageRange → List RequestLogRow → Dict QuotaKey ClientAliasUsage
aggregate_request_log_usage w [] = []
aggregate_request_log_usage w (row ∷ rows) =
    let rest = aggregate_request_log_usage w rows in
    elim row.client_key [
      | none ↦ rest
      | some client ↦ if in_range w row then add_row row client rest else rest
    ]

-- The row counts for this client and alias.
abbrev pub counts_for : QuotaKey → RequestLogUsageRange → RequestLogRow → Bool
counts_for k w row = elim row.client_key as (λ _. Bool) [
  | none ↦ false
  | some client ↦ in_range w row && ((client, routed_alias row) == k)
]

abbrev pub rows_for : QuotaKey → RequestLogUsageRange → List RequestLogRow → List RequestLogRow
rows_for k w = filter (counts_for k w)

-- A group is the rows that count for its client and alias.
abbrev pub IsTotal : List RequestLogRow → Option ClientAliasUsage → Type 0
IsTotal rows o = (tokens_of o ≡ sum (map total_tokens rows)) × (requests_of o ≡ length rows)

add_row-IsTotal :
    (k : QuotaKey) (row : RequestLogRow) (client : String) (rows : List RequestLogRow)
    (d : Dict QuotaKey ClientAliasUsage)
    → IsTotal rows (get k d)
    → IsTotal
        (if (client, routed_alias row) == k then row ∷ rows else rows)
        (get k (add_row row client d))
add_row-IsTotal k row client rows d (h, i) =
    let j : QuotaKey = (client, routed_alias row) in
    rw (get-put j k (count_in (get j d) (total_tokens row)) d) (elim (Bool-cases (j == k)) [
      | inl e ↦ rw (e, ==→eq j k e) (ap (λ n. total_tokens row + n) h, ap suc i)
      | inr e ↦ rw e (h, i)
    ])

pub aggregate-IsTotal :
    (k : QuotaKey) (w : RequestLogUsageRange) (rows : List RequestLogRow)
    → IsTotal (rows_for k w rows) (get k (aggregate_request_log_usage w rows))
unfolding aggregate_request_log_usage get
aggregate-IsTotal k w [] = (refl, refl)
aggregate-IsTotal k w (row ∷ rows) = go row.client_key (in_range w row) (aggregate-IsTotal k w rows)
  where
    rest : Dict QuotaKey ClientAliasUsage
    rest = aggregate_request_log_usage w rows

    go :
        (o : Option String) (b : Bool)
        → IsTotal (rows_for k w rows) (get k rest)
        → IsTotal
            (if elim o as (λ _. Bool) [
              | none ↦ false
              | some client ↦ b && ((client, routed_alias row) == k)
            ]
              then row ∷ rows_for k w rows
              else rows_for k w rows)
            (get k (elim o as (λ _. Dict QuotaKey ClientAliasUsage) [
              | none ↦ rest
              | some client ↦ if b then add_row row client rest else rest
            ]))
    go none b h = h
    go (some client) false h = h
    go (some client) true h = add_row-IsTotal k row client (rows_for k w rows) rest h
