-- ===== src/Quota/Window.antt =====
-- The window of a month and the periods of the live accounting.
use ms_gatgeway_llm.Base.{
  ℕ, suc, ◌+◌, ◌-◌, ◌*◌, ◌/◌, ◌%◌, ◌≤◌, ◌<◌, ◌≡◌, ◌↔◌, ap, ◌∙◌, subst, true, ◌&&◌, ltb, leb, arith,
}
use ms_gatgeway_llm.RequestLog.{RequestLogRow}
use ms_gatgeway_llm.Quota.Calendar.{month_start, month_of, period_key}
use ms_gatgeway_llm.Quota.Months.{month_of_lem, month_start_le}
use ms_gatgeway_llm.Quota.Aggregate.{utc, utc_month_window, in_range}
use ms_gatgeway_llm.Quota.Reconcile.{is_period_key}

-- Month `i` has the seconds from its start to the next one's.
month_of_iff :
    (i s : ℕ)
    → ((86400 * month_start i ≤ s) × (s < 86400 * month_start (suc i))) ↔ (month_of (s * 1000) ≡ i)
month_of_iff i s =
    let (a, b) = month_of_lem (s * 1000) in
    (
      λ h.
          let j = month_start_le (month_of (s * 1000)) i (omega (arith, a, h.1)) in
          let k = month_start_le i (month_of (s * 1000)) (omega (arith, b, h.0)) in
          omega (arith, j, k),
      λ e.
          subst (λ i. (86400 * month_start i ≤ s) × (s < 86400 * month_start (suc i))) e
            (omega (arith, a), omega (arith, b)),
    )

in_range_iff : (a b s : ℕ) → ((leb a s && ltb s b) ≡ true) ↔ ((a ≤ s) × (s < b))
in_range_iff a b s = ground arith

-- A year and a month against the number of months since 1970.
months_since_iff :
    (year month i : ℕ)
    → 1970 ≤ year
    → is_period_key (year, month) ≡ true
    → (i ≡ 12 * (year - 1970) + (month - 1)) ↔ ((1970 + i / 12 ≡ year) × (i % 12 + 1 ≡ month))
months_since_iff year month i h v = ground arith

utc_lem :
    (year month : ℕ)
    → 1970 ≤ year
    → utc year month ≡ 86400 * month_start (12 * (year - 1970) + month)
utc_lem year month h = ground arith

next_month :
    (year month : ℕ)
    → is_period_key (year, month) ≡ true
    → 12 * (year - 1970) + month ≡ suc (12 * (year - 1970) + (month - 1))
next_month year month v = ground arith

-- For a valid month from 1970 on, the rows in its window are exactly those whose request started in
-- that month by the live accounting's clock.
pub utc_month_window_lem :
    (year month : ℕ) (row : RequestLogRow)
    → 1970 ≤ year
    → is_period_key (year, month) ≡ true
    → (in_range (utc_month_window (year, month)) row ≡ true)
      ↔ (period_key (row.requested_at * 1000) ≡ (year, month))
unfolding utc_month_window period_key
utc_month_window_lem year month row h v =
    let i : ℕ = 12 * (year - 1970) + (month - 1) in
    let s : ℕ = row.requested_at in
    let a = in_range_iff (utc year (month - 1)) (utc year month) s in
    let from = utc_lem year (month - 1) h in
    let to : utc year month ≡ 86400 * month_start (suc i) =
      utc_lem year month h ∙ ap (λ i. 86400 * month_start i) (next_month year month v) in
    let b = month_of_iff i s in
    let c = months_since_iff year month (month_of (s * 1000)) h v in
    (
      λ r.
          let (l, u) = a.0 r in
          let (y, m) = c.0 (b.0 (rw from at l, rw to at u)) in
          ap (λ y. (y, month_of (s * 1000) % 12 + 1)) y ∙ ap (λ m. (year, m)) m,
      λ e. let (l, u) = b.1 (c.1 (ap (λ p. p.0) e, ap (λ p. p.1) e)) in a.1 (rw from l, rw to u),
    )
