-- ===== src/Chat/Charges.antt =====
-- What a completion and the end of a stream add to a counter of the quota, in
-- src/chat/chat.service.ts.
use ms_gatgeway_llm.Base.{
  ℕ, ◌+◌, ◌*◌, ◌/◌, ◌≡◌, ◌≢◌, refl, String, Bool, true, false, Option, none, some, List,
  if◌then◌else◌, arith, ◌∙◌, ap,
}
use ms_gatgeway_llm.Providers.{ResolvedModel}
use ms_gatgeway_llm.Providers.Resolution.{Result, throws, returns}
use ms_gatgeway_llm.Routing.Service.{RouteEnd, routed, routing_failed, index_error, route}
use ms_gatgeway_llm.Access.Service.{get_access, is_permitted}
use ms_gatgeway_llm.RequestLog.{Thrown, RequestLogRow}
use ms_gatgeway_llm.Quota.Calendar.{Period}
use ms_gatgeway_llm.Quota.Repository.{ClientAliasQuota, get_quota}
use ms_gatgeway_llm.Quota.Service.{Target, serve, exhausted, resolve_target}
use ms_gatgeway_llm.Quota.Gate.{record_usage-quotas}
use ms_gatgeway_llm.Chat.Tokens.{quarter, extract_stream_tokens}
use ms_gatgeway_llm.Chat.Service.{
  Request, Answer, completion, stream, Surroundings, Pending, StreamEnd, finished, aborted,
  Completion, answered, streaming, alias_not_permitted, quota_exhausted, unresolved, all_failed,
  type_error, Gateway, whole, total_of, account_usage, on_logged, on_routed, after_route,
  after_gate, after_chain, completions, fail,
}
use ms_gatgeway_llm.Chat.Balance.{share, belongs, used_in-record_usage}
use ms_gatgeway_llm.Chat.Accounting.{used}
use ms_gatgeway_llm.Chat.History.{Wiring}

-- The tokens that the answer of a completion reports.
abbrev pub reported : Completion → ℕ
reported (answered tokens) = total_of tokens
reported (streaming x) = 0
reported (alias_not_permitted client_id alias_key) = 0
reported (quota_exhausted e) = 0
reported (unresolved e) = 0
reported (all_failed model attempts) = 0
reported type_error = 0

-- The tokens that a stream's end is charged.
abbrev pub streamed : (String → ℕ) → Pending → StreamEnd → ℕ
streamed length_of x (finished chunks) =
    (extract_stream_tokens length_of x.request.prompt_chars chunks).total_tokens
streamed length_of x aborted = quarter x.request.prompt_chars

-- The second in which the request started, in milliseconds.
abbrev pub started_at : Surroundings → ℕ
started_at s = s.starts_at / 1000 * 1000

module _ (c a : String) (p : Period) where
  -- The gate serves the counter's alias to its client, and the request started in its month.
  abbrev pub is_charged : Request → Surroundings → Target → Bool
  is_charged r s (serve target) = belongs c a p r.client_id target (started_at s)
  is_charged r s (exhausted e) = false

  -- The counter grows by what is charged to it; the quotas stay.
  abbrev pub Charges : Bool → ℕ → Gateway → Gateway → Type 0
  Charges b n g after =
      (used c a p after ≡ used c a p g + share b n)
      × (after.quotas.client_alias_quotas ≡ g.quotas.client_alias_quotas)

  share_zero : (b : Bool) (n : ℕ) → n ≡ n + share b 0
  share_zero true n = omega arith
  share_zero false n = omega arith

  module _ (named : c ≢ "") (q : ClientAliasQuota) where
    account_usage-Charges :
        (client_id : Option String) (target : String) (n at : ℕ) (g : Gateway)
        → get_quota c a g.quotas ≡ some q
        → Charges
            (belongs c a p client_id target (at * 1000))
            n
            g
            (account_usage client_id target n at g)
    account_usage-Charges client_id target n at g h = (
      used_in-record_usage c a p q client_id target (whole n) (at * 1000) g.quotas named h
          ∙ ap (λ n. used c a p g + share (belongs c a p client_id target (at * 1000)) n)
              (omega arith),
      record_usage-quotas client_id target (whole n) (at * 1000) g.quotas,
    )

    pub on_logged-Charges :
        (is_accepted : RequestLogRow → Bool) (length_of : String → ℕ) (x : Pending)
        (end : StreamEnd) (now : ℕ) (g : Gateway)
        → get_quota c a g.quotas ≡ some q
        → Charges
            (belongs c a p x.request.client_id x.target (x.requested_at * 1000))
            (streamed length_of x end)
            g
            (on_logged is_accepted length_of x end now g)
    unfolding on_logged
    on_logged-Charges is_accepted length_of x (finished chunks) now g h =
        account_usage-Charges x.request.client_id x.target (streamed length_of x (finished chunks))
          x.requested_at g h
    on_logged-Charges is_accepted length_of x aborted now g h =
        account_usage-Charges x.request.client_id x.target (streamed length_of x aborted)
          x.requested_at g h

    module _ (is_accepted : RequestLogRow → Bool) (w : Wiring) where
      after_route-Charges :
          (r : Request) (s : Surroundings) (target : String) (end : RouteEnd Answer Thrown)
          (g : Gateway)
          → get_quota c a g.quotas ≡ some q
          → let (after, e) = after_route is_accepted w.message_of r s target end g in
            Charges (is_charged r s (serve target)) (reported e) g after
      unfolding after_route on_routed
      after_route-Charges r s target (routed stream provider_id attempts) g h =
          (share_zero (is_charged r s (serve target)) (used c a p g), refl)
      after_route-Charges r s target (routed (completion tokens) provider_id attempts) g h =
          account_usage-Charges r.client_id target (total_of tokens) (s.starts_at / 1000) g h
      after_route-Charges r s target (routing_failed model attempts) g h =
          (share_zero (is_charged r s (serve target)) (used c a p g), refl)
      after_route-Charges r s target index_error g h =
          (share_zero (is_charged r s (serve target)) (used c a p g), refl)

      after_chain-Charges :
          (r : Request) (s : Surroundings) (target : String) (found : Result (List ResolvedModel))
          (g : Gateway)
          → get_quota c a g.quotas ≡ some q
          → let (after, e) =
              after_chain is_accepted w.message_of w.order_by w.is_circuit_open w.policy w.registry
                r s target found g in
            Charges (is_charged r s (serve target)) (reported e) g after
      unfolding after_chain
      after_chain-Charges r s target (throws x) g h =
          (share_zero (is_charged r s (serve target)) (used c a p g), refl)
      after_chain-Charges r s target (returns chain) g h =
          let (end, cursor, breaker) =
            route w.is_circuit_open w.policy s.turns target chain (w.registry.strategy_for target)
              (w.registry.get_weights target) s.random g.cursor g.breaker in
          after_route-Charges r s target end (record g { cursor = cursor; breaker = breaker }) h

      after_gate-Charges :
          (r : Request) (s : Surroundings) (t : Target) (g : Gateway)
          → get_quota c a g.quotas ≡ some q
          → let (after, e) =
              after_gate is_accepted w.message_of w.order_by w.is_circuit_open w.policy w.registry r
                s t g in
            Charges (is_charged r s t) (reported e) g after
      unfolding after_gate
      after_gate-Charges r s (exhausted e) g h = (omega arith, refl)
      after_gate-Charges r s (serve target) g h =
          after_chain-Charges r s target (w.registry.resolve_chain target) g h

      -- A completion adds the tokens that its answer reports to the counter of its client, of the
      -- alias that the gate serves at the gate's own time, and of the month of the second in which
      -- the request started. To every other counter of an alias with a quota it adds nothing, and
      -- to none if it is refused, fails or answers with a stream. The quotas stay. The counter's
      -- client is not blank.
      pub completions-Charges :
          (r : Request) (s : Surroundings) (g : Gateway)
          → get_quota c a g.quotas ≡ some q
          → let (after, end) =
              completions is_accepted w.message_of w.order_by w.is_circuit_open w.policy w.registry
                r s g in
            Charges
              (is_charged r s (resolve_target r.client_id r.model s.gate_at g.quotas))
              (reported end)
              g
              after
      unfolding completions
      completions-Charges r s g h =
          go (is_permitted (get_access w.order_by r.client_id g.client_alias_access) r.model)
        where
          t : Target
          t = resolve_target r.client_id r.model s.gate_at g.quotas

          go :
              (b : Bool)
              → let (after, end) =
                  (if b
                    then after_gate is_accepted w.message_of w.order_by w.is_circuit_open w.policy
                        w.registry r s t g
                    else fail is_accepted w.message_of r s "AliasNotPermittedError" none
                        (alias_not_permitted r.client_id r.model)
                        g) in
                Charges (is_charged r s t) (reported end) g after
          go true = after_gate-Charges r s t g h
          go false = (share_zero (is_charged r s t) (used c a p g), refl)
