-- ===== src/Chat/Ceiling.antt =====
-- How far a counter of the quota may pass its limit over a history of requests and streams, in
-- src/chat/chat.service.ts with the gate of src/quota/quota.service.ts.
use ms_gatgeway_llm.Base.{ℕ, ◌+◌, ◌*◌, ◌≤◌, String, Bool, not, ◌&&◌, List, [], ◌∷◌, string_key}
use ms_gatgeway_llm.RequestLog.{RequestLogRow}
use ms_gatgeway_llm.Quota.Calendar.{Period, period_key}
use ms_gatgeway_llm.Quota.Repository.{period_is_key, usage_is_key, quota_is_key}
use ms_gatgeway_llm.Quota.Service.{resolve_target}
use ms_gatgeway_llm.Chat.Service.{Request, Surroundings, Gateway, completions}
use ms_gatgeway_llm.Chat.Balance.{share, belongs}
use ms_gatgeway_llm.Chat.Accounting.{GatewayEvent, asked, stream_ended}
use ms_gatgeway_llm.Chat.History.{Wiring, after_event}
use ms_gatgeway_llm.Chat.Charges.{reported, streamed, started_at, is_charged}

-- The gate's clock and the start of the request are in one month.
abbrev pub in_one_month : Surroundings → Bool
in_one_month s = period_is_key.same (period_key s.gate_at) (period_key (started_at s))

module _ (is_accepted : RequestLogRow → Bool) (w : Wiring) where
  -- The tokens that a request's answer reports.
  abbrev pub answer_tokens : Request → Surroundings → Gateway → ℕ
  answer_tokens r s g =
      reported
        (completions is_accepted w.message_of w.order_by w.is_circuit_open w.policy w.registry r s
          g).1

  -- Each completion of a history reports at most `most` tokens.
  abbrev pub ReportsAtMost : ℕ → List GatewayEvent → Gateway → Type 0
  ReportsAtMost most [] g = Unit
  ReportsAtMost most (asked r s ∷ events) g =
      (answer_tokens r s g ≤ most)
      × ReportsAtMost most events (after_event is_accepted w (asked r s) g)
  ReportsAtMost most (stream_ended x end now ∷ events) g =
      ReportsAtMost most events (after_event is_accepted w (stream_ended x end now) g)

  module _ (c a : String) (p : Period) where
    -- The tokens charged to the counter that the gate has not seen it hold back: those of the
    -- streams, which are charged when they end, and of the completions whose gate was in another
    -- month than their start.
    abbrev pub unguarded : GatewayEvent → Gateway → ℕ
    unguarded (asked r s) g =
        share
          (not (in_one_month s)
            && is_charged c a p r s (resolve_target r.client_id r.model s.gate_at g.quotas))
          (answer_tokens r s g)
    unguarded (stream_ended x end now) g =
        share (belongs c a p x.request.client_id x.target (x.requested_at * 1000))
          (streamed w.length_of x end)

    abbrev pub all_unguarded : List GatewayEvent → Gateway → ℕ
    all_unguarded [] g = 0
    all_unguarded (e ∷ events) g =
        unguarded e g + all_unguarded events (after_event is_accepted w e g)
