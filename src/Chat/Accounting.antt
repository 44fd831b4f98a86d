-- ===== src/Chat/Accounting.antt =====
-- What the accounting of an answer and the end of a stream add to the counters and to the request log.
use ms_gatgeway_llm.Base.{
  ℕ, ◌+◌, ◌-◌, ◌*◌, ◌≤◌, ◌≡◌, ◌≢◌, refl, ap, ◌∙◌, String, Bool, true, false, Option, none, some,
  List, [], ◌∷◌, ◌++◌, arith,
}
use ms_gatgeway_llm.Routing.Service.{RouteAttempt, attempt_ok, attempt_failed}
use ms_gatgeway_llm.RequestLog
use ms_gatgeway_llm.RequestLog.{
  Thrown, RequestLogRow, Origin, success_row, failure_row, attempt_row, error_object, AttemptDetail,
}
use ms_gatgeway_llm.Quota.Calendar.{Period}
use ms_gatgeway_llm.Quota.Repository.{ClientAliasQuota, get_quota}
use ms_gatgeway_llm.Quota.Service.{used_in}
use ms_gatgeway_llm.Quota.Gate.{record_usage-quotas}
use ms_gatgeway_llm.Quota.Aggregate.{total_tokens}
use ms_gatgeway_llm.Quota.Reconcile.{is_period_key}
use ms_gatgeway_llm.Chat.Tokens.{TokenUsage, quarter, extract_stream_tokens}
use ms_gatgeway_llm.Chat.Record.{record_success, record_failed_attempts, attempt_error}
use ms_gatgeway_llm.Chat.Service.{
  Request, Answer, completion, stream, Surroundings, Pending, StreamEnd, finished, aborted, Gateway,
  origin, whole, total_of, account_usage, log_success, on_logged, on_routed,
}
use ms_gatgeway_llm.Chat.Balance.{
  share, belongs, logged, logged-append, used_in-record_usage, counts_for-belongs,
}

-- A request comes in, or a tapped stream ends.
pub data GatewayEvent : Type 0 where
  asked : Request → Surroundings → GatewayEvent
  stream_ended : Pending → StreamEnd → ℕ → GatewayEvent

abbrev pub all_accepted : RequestLogRow → Bool
all_accepted row = true

module _ (c a : String) (p : Period) where
  -- The tokens that an aborted stream is charged, of which its row says nothing.
  abbrev pub unlogged : List GatewayEvent → ℕ
  unlogged [] = 0
  unlogged (asked r s ∷ events) = unlogged events
  unlogged (stream_ended q (finished chunks) now ∷ events) = unlogged events
  unlogged (stream_ended q aborted now ∷ events) =
      share (belongs c a p q.request.client_id q.target (q.requested_at * 1000))
        (quarter q.request.prompt_chars)
      + unlogged events

  abbrev pub used : Gateway → ℕ
  used g = used_in c a p g.quotas

  abbrev pub in_logs : Gateway → ℕ
  in_logs g = logged (c, a) p g.logs.request_logs

  -- The counter moves as the log, and `n` tokens further; the quotas stay.
  abbrev pub Moves : ℕ → Gateway → Gateway → Type 0
  Moves n g g' =
      (used g' + in_logs g ≡ used g + in_logs g' + n)
      × (g'.quotas.client_alias_quotas ≡ g.quotas.client_alias_quotas)

  share_nothing : (b : Bool) (n : ℕ) → n + share b 0 ≡ n
  share_nothing true n = omega arith
  share_nothing false n = omega arith

  -- A row without tokens adds nothing.
  pub logged-of_none :
      (rows : List RequestLogRow) (row : RequestLogRow)
      → row.tokens ≡ none
      → logged (c, a) p (rows ++ row ∷ []) ≡ logged (c, a) p rows
  logged-of_none rows row e =
      logged-append (c, a) p rows row ∙ (rw e (share_nothing _ (logged (c, a) p rows)))

  module _ (recent : 1970 ≤ p.0) (valid : is_period_key p ≡ true) (named : c ≢ "")
      (q : ClientAliasQuota) where
    -- A success row, with the accounting of `n` tokens.
    settled :
        (x : Pending) (tokens : Option TokenUsage) (n now : ℕ) (g : Gateway)
        → get_quota c a g.quotas ≡ some q
        → let g' =
            account_usage x.request.client_id x.target n x.requested_at
              (log_success all_accepted x tokens now g) in
          let b = belongs c a p x.request.client_id x.target (x.requested_at * 1000) in
          (used g' ≡ used g + share b n)
          × (in_logs g' ≡ in_logs g + share b (total_of tokens))
          × (g'.quotas.client_alias_quotas ≡ g.quotas.client_alias_quotas)
    unfolding record_success RequestLog.record_success
    settled x tokens n now g e =
        let row =
          success_row (origin x.request x.requested_at) x.request.model (some x.target)
            x.provider_id x.resolved_model x.attempts (now - x.requested_at) tokens in
        (
          used_in-record_usage c a p q x.request.client_id x.target (whole n)
                (x.requested_at * 1000) g.quotas named e
              ∙ ap
                  (λ n.
                    used g
                    + share (belongs c a p x.request.client_id x.target (x.requested_at * 1000)) n)
                  (omega arith),
          logged-append (c, a) p g.logs.request_logs row
              ∙ (ap (λ b. in_logs g + share b (total_tokens row))
                    (counts_for-belongs c a p row x.target recent valid refl)
                  ∙ ap
                      (λ n.
                        in_logs g
                        + share (belongs c a p x.request.client_id x.target (x.requested_at * 1000))
                            n)
                      (total tokens)),
          record_usage-quotas x.request.client_id x.target (whole n) (x.requested_at * 1000)
              g.quotas,
        )
      where
        total :
            (o : Option TokenUsage)
            → (elim o as (λ _. ℕ) [ none ↦ 0 | some u ↦ u.total_tokens ]) ≡ total_of o
        total none = refl
        total (some u) = refl

    pub on_logged_lem :
        (length_of : String → ℕ) (x : Pending) (end : StreamEnd) (now : ℕ) (g : Gateway)
        → get_quota c a g.quotas ≡ some q
        → Moves
            (unlogged (stream_ended x end now ∷ []))
            g
            (on_logged all_accepted length_of x end now g)
    unfolding on_logged
    on_logged_lem length_of x (finished chunks) now g e =
        let tokens = extract_stream_tokens length_of x.request.prompt_chars chunks in
        let (u, l, k) = settled x (some tokens) tokens.total_tokens now g e in
        (omega (arith, u, l), k)
    on_logged_lem length_of x aborted now g e =
        let (u, l, k) = settled x none (quarter x.request.prompt_chars) now g e in
        let z =
          share_nothing (belongs c a p x.request.client_id x.target (x.requested_at * 1000))
            (in_logs g) in
        (omega (arith, u, l, z), k)

    pub on_routed_lem :
        (x : Pending) (answer : Answer) (now : ℕ) (g : Gateway)
        → get_quota c a g.quotas ≡ some q
        → Moves 0 g (on_routed all_accepted x answer now g).0
    unfolding on_routed
    on_routed_lem x stream now g e = (omega arith, refl)
    on_routed_lem x (completion tokens) now g e =
        let (u, l, k) = settled x tokens (total_of tokens) now g e in (omega (arith, u, l), k)

    pub record_failed_attempts-logged :
        (o : Origin) (model : String) (total : ℕ) (attempts : List (RouteAttempt Thrown))
        (rows : List RequestLogRow)
        → logged (c, a) p (record_failed_attempts all_accepted o model total attempts rows)
          ≡ logged (c, a) p rows
    unfolding record_failed_attempts RequestLog.record_attempt_failure
    record_failed_attempts-logged o model total [] rows = refl
    record_failed_attempts-logged o model total (attempt_ok provider resolved d ∷ attempts) rows =
        record_failed_attempts-logged o model total attempts rows
    record_failed_attempts-logged o model total
          (attempt_failed provider resolved is_open e d ∷ attempts) rows =
        let row = attempt_row o model provider resolved total d (attempt_error e) is_open in
        record_failed_attempts-logged o model total attempts (rows ++ row ∷ [])
        ∙ logged-of_none rows row refl
