-- ===== src/Quota/Calendar.antt =====
-- The UTC calendar that src/quota/quota.service.ts reads through `Date`, in months since 1970, and
-- the instants that it computes. Times are milliseconds since 1970.
use ms_gatgeway_llm.Base.{
  true, false, ℕ, zero, suc, ◌+◌, ◌-◌, ◌*◌, ◌/◌, ◌%◌, max, Bool, ◌&&◌, ◌||◌, not, nat_eq, ltb,
  if◌then◌else◌,
}

abbrev is_leap : ℕ → Bool
is_leap y = nat_eq (y % 4) 0 && (not (nat_eq (y % 100) 0) || nat_eq (y % 400) 0)

-- The days of month `m` (January is 0) of the year `y`.
abbrev days_in_month : ℕ → ℕ → ℕ
days_in_month y m =
    if nat_eq m 1
    then (if is_leap y then 29 else 28)
    else if nat_eq m 3 || nat_eq m 5 || nat_eq m 8 || nat_eq m 10
    then 30
    else 31

-- The days of month `i` since January 1970.
unfoldable pub month_len : ℕ → ℕ
month_len i = days_in_month (1970 + i / 12) (i % 12)

-- The days from 1970 to the first day of month `i`.
unfoldable pub month_start : ℕ → ℕ
month_start zero = 0
month_start (suc i) = month_start i + month_len i

-- The month that has day `d`, counted from the first day of month `i`. A month has a day, so `d`
-- is fuel enough.
unfoldable pub find_month : ℕ → ℕ → ℕ → ℕ
find_month zero i d = i
find_month (suc fuel) i d = elim (ltb d (month_len i)) [
  | true ↦ i
  | false ↦ find_month fuel (suc i) (d - month_len i)
]

abbrev pub ms_per_day : ℕ
ms_per_day = 86400000

unfoldable pub month_of : ℕ → ℕ
month_of ms = find_month (ms / ms_per_day) 0 (ms / ms_per_day)

-- `periodKey`; the text `YYYY-MM` is kept as its year and its month, which it determines and which
-- determine it.
abbrev pub Period : Type 0
Period = ℕ × ℕ

unfoldable pub period_key : ℕ → Period
period_key now = (1970 + month_of now / 12, month_of now % 12 + 1)

unfoldable pub next_utc_month_start : ℕ → ℕ
next_utc_month_start now = ms_per_day * month_start (suc (month_of now))

unfoldable pub seconds_until_instant : ℕ → ℕ → ℕ
seconds_until_instant instant now = max 1 (instant - now / 1000)

unfoldable pub retry_after_seconds : ℕ → ℕ
retry_after_seconds now = seconds_until_instant (next_utc_month_start now / 1000) now
