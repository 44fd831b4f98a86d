-- ===== src/Chat/Balance.antt =====
-- The live token counters against the request log: both move alike, but for aborted streams.
use ms_gatgeway_llm.Base.{
  ℕ, ◌+◌, ◌*◌, ◌≤◌, ◌≡◌, ◌≢◌, refl, sym, ap, ◌∙◌, subst, String, Bool, true, false, ◌&&◌, Option,
  none, some, List, [], ◌∷◌, ◌++◌, map, sum, if◌then◌else◌, ◌==◌, string_key, ==→eq, ne→==,
  Bool-cases, Option-cases, inl, inr, arith,
}
use ms_gatgeway_llm.RequestLog.{RequestLogRow}
use ms_gatgeway_llm.Quota.Calendar.{Period, period_key}
use ms_gatgeway_llm.Quota.Repository.{
  ClientAliasQuota, QuotaKey, QuotaRepository, UsageKey, quota_is_key, usage_is_key, period_is_key,
  get_quota, add_usage,
}
use ms_gatgeway_llm.Quota.Service.{used_in, record_usage, Number, normalise_tokens}
use ms_gatgeway_llm.Quota.Gate.{used_in-add_usage, used_in-add_usage_ne}
use ms_gatgeway_llm.Quota.Aggregate.{utc_month_window, in_range, total_tokens, counts_for, rows_for}
use ms_gatgeway_llm.Quota.Reconcile.{is_period_key}
use ms_gatgeway_llm.Quota.Window.{utc_month_window_lem}

abbrev pub share : Bool → ℕ → ℕ
share b n = if b then n else 0

and_comm : (a b : Bool) → (a && b) ≡ (b && a)
and_comm a b = ground arith

used_in-share :
    (k j : UsageKey) (n : ℕ) (db : QuotaRepository)
    → used_in j.0.0 j.0.1 j.1 (add_usage k.0.0 k.0.1 k.1 n db)
      ≡ used_in j.0.0 j.0.1 j.1 db + share (usage_is_key.same k j) n
used_in-share k j n db = elim (Bool-cases (usage_is_key.same k j)) [
  | inl e ↦ rw e (
      subst
        (λ j.
          used_in j.0.0 j.0.1 j.1 (add_usage k.0.0 k.0.1 k.1 n db) ≡ used_in j.0.0 j.0.1 j.1 db + n)
        (==→eq k j e) (used_in-add_usage k.0.0 k.0.1 k.1 n db))
  | inr e ↦ rw e (
      used_in-add_usage_ne k j n db (λ h. let t = (usage_is_key.same_iff k j).1 h in ground arith)
      ∙ omega arith)
]

module _ (client target : String) (n : Number) (at : ℕ) (db : QuotaRepository) where
  charges_no_one : (client == "") ≡ true → record_usage (some client) target n at db ≡ db
  unfolding record_usage
  charges_no_one e = ground arith

  charges :
      (q : ClientAliasQuota)
      → (client == "") ≡ false
      → get_quota client target db ≡ some q
      → record_usage (some client) target n at db
        ≡ add_usage client target (period_key at) (normalise_tokens n) db
  unfolding record_usage
  charges q e g = ground arith

  charges_nothing :
      get_quota client target db ≡ none → record_usage (some client) target n at db ≡ db
  unfolding record_usage
  charges_nothing g = ground arith

-- The counter of client `c`, alias `a` and period `p`.
module _ (c a : String) (p : Period) where
  -- A request of `client_id` served by `target` at `at` belongs to the counter.
  abbrev pub belongs : Option String → String → ℕ → Bool
  belongs none target at = false
  belongs (some client) target at = usage_is_key.same ((client, target), period_key at) ((c, a), p)

  anonymous :
      (target : String) (n : Number) (at : ℕ) (db : QuotaRepository)
      → used_in c a p (record_usage none target n at db) ≡ used_in c a p db
  unfolding record_usage
  anonymous target n at db = refl

  pub used_in-record_usage :
      (q : ClientAliasQuota) (client_id : Option String) (target : String) (n : Number) (at : ℕ)
      (db : QuotaRepository)
      → c ≢ ""
      → get_quota c a db ≡ some q
      → used_in c a p (record_usage client_id target n at db)
        ≡ used_in c a p db + share (belongs client_id target at) (normalise_tokens n)
  used_in-record_usage q none target n at db h e = omega (arith, anonymous target n at db)
  used_in-record_usage q (some client) target n at db h e = elim (Bool-cases (client == "")) [
    | inl b ↦
        rw
          (
            charges_no_one client target n at db b,
            other (λ k. h (sym (ap (λ i. i.0.0) k) ∙ ==→eq client "" b)),
          )
          (omega arith)
    | inr b ↦ elim (Option-cases (get_quota client target db)) [
      | inl g ↦
          rw
            (
              charges_nothing client target n at db g,
              other (λ k.
                  let x : get_quota c a db ≡ none =
                    subst (λ j. get_quota j.0.0 j.0.1 db ≡ none) k g in
                  ground arith),
            )
            (omega arith)
      | inr (q', g) ↦
          rw (charges client target n at db q' b g)
            (used_in-share ((client, target), period_key at) ((c, a), p) (normalise_tokens n) db)
    ]
  ]
    where
      theirs : UsageKey
      theirs = ((client, target), period_key at)

      ours : UsageKey
      ours = ((c, a), p)

      other : theirs ≢ ours → usage_is_key.same theirs ours ≡ false
      other h = ne→== theirs ours h

-- The tokens that the rows of the counter log.
abbrev pub logged : QuotaKey → Period → List RequestLogRow → ℕ
logged k p rows = sum (map total_tokens (rows_for k (utc_month_window p) rows))

logged-cons :
    (k : QuotaKey) (p : Period) (row : RequestLogRow) (rows : List RequestLogRow)
    → logged k p (row ∷ rows)
      ≡ share (counts_for k (utc_month_window p) row) (total_tokens row) + logged k p rows
logged-cons k p row rows = go (counts_for k (utc_month_window p) row)
  where
    go :
        (b : Bool)
        → sum (
            map total_tokens (
              if b
              then row ∷ rows_for k (utc_month_window p) rows
              else rows_for k (utc_month_window p) rows))
          ≡ share b (total_tokens row) + logged k p rows
    go true = refl
    go false = omega arith

pub logged-append :
    (k : QuotaKey) (p : Period) (rows : List RequestLogRow) (row : RequestLogRow)
    → logged k p (rows ++ row ∷ [])
      ≡ logged k p rows + share (counts_for k (utc_month_window p) row) (total_tokens row)
logged-append k p [] row = logged-cons k p row [] ∙ omega arith
logged-append k p (r ∷ rows) row =
    let h = logged-append k p rows row in
    let a = logged-cons k p r (rows ++ row ∷ []) in
    let b = logged-cons k p r rows in omega (arith, h, a, b)

-- A row of a request that `target` served belongs to the log's group as the request to the counter.
pub counts_for-belongs :
    (c a : String) (p : Period) (row : RequestLogRow) (target : String)
    → 1970 ≤ p.0
    → is_period_key p ≡ true
    → row.served_alias ≡ some target
    → counts_for (c, a) (utc_month_window p) row
      ≡ belongs c a p row.client_key target (row.requested_at * 1000)
counts_for-belongs c a (y, m) row target h v e = rw e (go row.client_key)
  where
    equal :
        in_range (utc_month_window (y, m)) row
        ≡ period_is_key.same (period_key (row.requested_at * 1000)) (y, m)
    equal =
        let (a, b) = utc_month_window_lem y m row h v in
        let k = period_is_key.same_iff (period_key (row.requested_at * 1000)) (y, m) in ground arith

    go :
        (o : Option String)
        → (elim o as (λ _. Bool) [
          | none ↦ false
          | some client ↦
              in_range (utc_month_window (y, m)) row && quota_is_key.same (client, target) (c, a)
        ])
          ≡ belongs c a (y, m) o target (row.requested_at * 1000)
    go none = refl
    go (some client) = rw equal (
        and_comm (period_is_key.same (period_key (row.requested_at * 1000)) (y, m))
          (quota_is_key.same (client, target) (c, a)))
