-- ===== src/Quota/Months.antt =====
-- The instant at which a quota resets, against the period that the gate reads.
use ms_gatgeway_llm.Base.{
  ℕ, zero, suc, ◌+◌, ◌-◌, ◌*◌, ◌/◌, ◌%◌, ◌≤◌, ◌<◌, ◌≡◌, ◌≢◌, ◌↔◌, sym, ap, subst, Bool-cases, inl,
  inr, ltb, ltb→lt, arith,
}
use ms_gatgeway_llm.Quota.Calendar.{
  Period, month_len, month_start, find_month, ms_per_day, month_of, period_key,
  next_utc_month_start, seconds_until_instant, retry_after_seconds,
}

month_len-pos : (i : ℕ) → 0 < month_len i
unfolding month_len
month_len-pos i = ground arith

-- The month found has the day.
find_month_lem :
    (fuel i d : ℕ)
    → d ≤ fuel
    → (month_start (find_month fuel i d) ≤ month_start i + d)
      × (month_start i + d < month_start (suc (find_month fuel i d)))
unfolding find_month month_start
find_month_lem zero i d h = let p = month_len-pos i in (omega arith, omega arith)
find_month_lem (suc fuel) i d h =
    let p = month_len-pos i in
    let ih : (month_start (find_month fuel (suc i) (d - month_len i))
          ≤ month_start (suc i) + (d - month_len i))
        × (month_start (suc i) + (d - month_len i)
            < month_start (suc (find_month fuel (suc i) (d - month_len i)))) =
      find_month_lem fuel (suc i) (d - month_len i) (omega arith) in
    ground arith

month_start_mono : (i k : ℕ) → month_start i ≤ month_start (i + k)
unfolding month_start
month_start_mono i zero = let e : i + 0 ≡ i = omega arith in rw e (omega arith)
month_start_mono i (suc k) =
    let e : i + suc k ≡ suc (i + k) = omega arith in
    let h = month_start_mono i k in rw e (omega (arith, h))

pub month_start-le : (i j : ℕ) → i ≤ j → month_start i ≤ month_start j
month_start-le i j h =
    let e : i + (j - i) ≡ j = omega arith in
    subst (λ k. month_start i ≤ month_start k) e (month_start_mono i (j - i))

-- A month has the milliseconds from its start to the next one's.
pub month_of_lem :
    (t : ℕ)
    → (ms_per_day * month_start (month_of t) ≤ t)
      × (t < ms_per_day * month_start (suc (month_of t)))
unfolding month_of find_month month_start
month_of_lem t =
    let h = find_month_lem (t / ms_per_day) 0 (t / ms_per_day) (omega arith) in
    let a = h.0 in let b = h.1 in (omega arith, omega arith)

pub month_start_le : (i j : ℕ) → month_start i < month_start (suc j) → i ≤ j
month_start_le i j h = elim (Bool-cases (ltb j i)) [
  | inl e ↦ let m = month_start-le (suc j) i (ltb→lt j i e) in omega (arith, m)
  | inr e ↦ ground arith
]

-- A later instant is in the same month exactly before the next one starts.
month_of_iff : (t u : ℕ) → t ≤ u → (month_of u ≡ month_of t) ↔ (u < next_utc_month_start t)
unfolding next_utc_month_start
month_of_iff t u h =
    let (a, b) = month_of_lem t in
    let (c, d) = month_of_lem u in
    (
      λ e. subst (λ m. u < ms_per_day * month_start (suc m)) e d,
      λ k.
          let i = month_start_le (month_of u) (month_of t) (omega arith) in
          let j = month_start_le (month_of t) (month_of u) (omega arith) in omega (arith, i, j),
    )

abbrev period_of_month : ℕ → Period
period_of_month i = (1970 + i / 12, i % 12 + 1)

period_key_inj : (i j : ℕ) → period_of_month i ≡ period_of_month j → i ≡ j
period_key_inj i j e =
    let a : 1970 + i / 12 ≡ 1970 + j / 12 = ap (λ p. p.0) e in
    let b : i % 12 + 1 ≡ j % 12 + 1 = ap (λ p. p.1) e in omega arith

-- The period of an instant lasts until `nextUtcMonthStart` and ends there: a later instant has the
-- same period key if and only if it comes before the next month's start.
pub period_key_iff :
    (t u : ℕ) → t ≤ u → (period_key u ≡ period_key t) ↔ (u < next_utc_month_start t)
unfolding period_key
period_key_iff t u h =
    let k = month_of_iff t u h in
    (λ e. k.0 (period_key_inj (month_of u) (month_of t) e), λ l. ap period_of_month (k.1 l))

-- The next month starts on a second, and later than now.
next_utc_month_start_lem :
    (t : ℕ)
    → (t < next_utc_month_start t)
      × (1000 * (next_utc_month_start t / 1000) ≡ next_utc_month_start t)
unfolding next_utc_month_start
next_utc_month_start_lem t =
    let (a, b) = month_of_lem t in let m : ℕ = month_start (suc (month_of t)) in (b, omega arith)

-- A client that waits for the seconds of `Retry-After` counted from the instant `t`, or longer,
-- finds a new period, and the seconds are the fewest that reach it: they end less than a second
-- after the next month's start.
retry_after_seconds_lem :
    (t u : ℕ)
    → t + 1000 * retry_after_seconds t ≤ u
    → (period_key u ≢ period_key t)
      × (t + 1000 * retry_after_seconds t < next_utc_month_start t + 1000)
unfolding retry_after_seconds seconds_until_instant
retry_after_seconds_lem t u h =
    let (a, b) = next_utc_month_start_lem t in
    (λ e. let k = (period_key_iff t u (omega arith)).0 e in ground arith, ground arith)

next_utc_month_start_mono : (t u : ℕ) → t ≤ u → next_utc_month_start t ≤ next_utc_month_start u
unfolding next_utc_month_start
next_utc_month_start_mono t u h =
    let (a, b) = next_utc_month_start_lem u in
    elim (Bool-cases (ltb u (next_utc_month_start t))) [
      | inl e ↦
          let m = (month_of_iff t u h).1 (ltb→lt u (next_utc_month_start t) e) in
          subst (λ i. next_utc_month_start t ≤ ms_per_day * month_start (suc i)) (sym m)
            (omega arith)
      | inr e ↦ ground arith
    ]

-- All instants up to `t` are in other periods than those after the wait that starts at `t`.
later_period :
    (s t u : ℕ) → s ≤ t → t + 1000 * retry_after_seconds t ≤ u → period_key s ≢ period_key u
later_period s t u h k e =
    let (a, b) = retry_after_seconds_lem t (t + 1000 * retry_after_seconds t) (omega arith) in
    let m = next_utc_month_start_mono s t h in
    let l = (period_key_iff s u (omega arith)).0 (sym e) in
    let w = (period_key_iff t (t + 1000 * retry_after_seconds t) (omega arith)).1 in
    a (w (omega (arith, m, l)))
