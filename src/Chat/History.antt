-- ===== src/Chat/History.antt =====
-- Histories of requests and ended streams, against the request log and the reconciliation.
use ms_gatgeway_llm.Base.{
  ℕ, ◌+◌, ◌&&◌, ◌≤◌, ◌≡◌, ◌≢◌, refl, ◌∙◌, String, Bool, true, false, some, List, [], ◌∷◌, arith,
}
use ms_gatgeway_llm.Resilience.Circuit.{Policy}
use ms_gatgeway_llm.RequestLog.{Thrown, RequestLogRow}
use ms_gatgeway_llm.Quota.Calendar.{Period}
use ms_gatgeway_llm.Quota.Repository.{
  ClientAliasQuota, QuotaKey, QuotaRepository, get_quota, period_is_key,
}
use ms_gatgeway_llm.Quota.Service.{used_in}
use ms_gatgeway_llm.Quota.Reconcile.{
  is_period_key, PeriodOption, period_of, reconcile_period, reconcile,
}
use ms_gatgeway_llm.Quota.Recount.{Orders, IsRestored, reconcile_lem}
use ms_gatgeway_llm.Quota.Repair.{then_of, has_quota}
use ms_gatgeway_llm.Chat.Service.{
  Completion, Gateway, Registry, finished, aborted, on_logged, completions,
}
use ms_gatgeway_llm.Chat.Balance.{logged}
use ms_gatgeway_llm.Chat.Passage.{completions_lem}
use ms_gatgeway_llm.Chat.Accounting.{
  GatewayEvent, asked, stream_ended, all_accepted, unlogged, used, in_logs, Moves, on_logged_lem,
}

-- The gateway's surroundings that stay the same: the texts of exceptions, SQLite's order, what a
-- `CircuitOpenError` is, the breaker's policy, the registry and the length of texts.
pub record Wiring : Type 0 where
  pub message_of : Completion → String
  pub order_by : List String → List String
  pub is_circuit_open : Thrown → Bool
  pub policy : Policy
  pub registry : Registry
  pub length_of : String → ℕ

module _ (is_accepted : RequestLogRow → Bool) (w : Wiring) where
  abbrev pub after_event : GatewayEvent → Gateway → Gateway
  after_event (asked r s) g =
      (completions is_accepted w.message_of w.order_by w.is_circuit_open w.policy w.registry r s
        g).0
  after_event (stream_ended q end now) g = on_logged is_accepted w.length_of q end now g

  unfoldable pub after_events : List GatewayEvent → Gateway → Gateway
  after_events [] g = g
  after_events (e ∷ events) g = after_events events (after_event e g)

module _ (w : Wiring) (c a : String) (p : Period) (q : ClientAliasQuota) where
  unlogged-cons :
      (e : GatewayEvent) (events : List GatewayEvent)
      → unlogged c a p (e ∷ events) ≡ unlogged c a p (e ∷ []) + unlogged c a p events
  unlogged-cons (asked r s) events = omega arith
  unlogged-cons (stream_ended x (finished chunks) now) events = omega arith
  unlogged-cons (stream_ended x aborted now) events = omega arith

  after_event-Moves :
      (e : GatewayEvent) (g : Gateway)
      → 1970 ≤ p.0
      → is_period_key p ≡ true
      → c ≢ ""
      → get_quota c a g.quotas ≡ some q
      → Moves c a p (unlogged c a p (e ∷ [])) g (after_event all_accepted w e g)
  after_event-Moves (asked r s) g recent valid named h =
      completions_lem c a p recent valid named q w.message_of w.order_by w.is_circuit_open w.policy
        w.registry r s g h
  after_event-Moves (stream_ended x end now) g recent valid named h =
      on_logged_lem c a p recent valid named q w.length_of x end now g h

  kept :
      (g g' : Gateway)
      → g'.quotas.client_alias_quotas ≡ g.quotas.client_alias_quotas
      → get_quota c a g.quotas ≡ some q
      → get_quota c a g'.quotas ≡ some q
  kept g g' e h = rw e h

  -- The request log explains the live counter. Over any history of requests and of streams that end,
  -- in any order, whatever the upstreams do: the counter of a client, an alias with a quota and a
  -- month grows by exactly the tokens of the log's rows for them in that month, and beyond these by
  -- the prompt estimates of the streams that were aborted. The client's name is not blank, the month
  -- is one from 1970 to 9999, and the log's database takes every row.
  pub after_events_lem :
      (events : List GatewayEvent) (g : Gateway)
      → 1970 ≤ p.0
      → is_period_key p ≡ true
      → c ≢ ""
      → get_quota c a g.quotas ≡ some q
      → let after = after_events all_accepted w events g in
        (used c a p after + in_logs c a p g
          ≡ used c a p g + in_logs c a p after + unlogged c a p events)
        × (after.quotas.client_alias_quotas ≡ g.quotas.client_alias_quotas)
  unfolding after_events
  after_events_lem [] g recent valid named h = (omega arith, refl)
  after_events_lem (e ∷ events) g recent valid named h =
      let (m, k) = after_event-Moves e g recent valid named h in
      let (m', k') =
        after_events_lem events (after_event all_accepted w e g) recent valid named
          (kept g (after_event all_accepted w e g) k h) in
      let u = unlogged-cons e events in (omega (arith, m, m', u), k' ∙ k)

  restored_total :
      (order_by : List QuotaKey → List QuotaKey) (o : Orders order_by) (rows : List RequestLogRow)
      (db repaired : QuotaRepository)
      → get_quota c a db ≡ some q
      → IsRestored order_by o c a p p rows db repaired
      → used_in c a p repaired ≡ logged (c, a) p rows
  restored_total order_by o rows db repaired h r =
      let s : period_is_key.same p p ≡ true = (period_is_key.same_iff p p).1 refl in
      let e : (period_is_key.same p p && has_quota (get_quota c a db)) ≡ true = rw (s, h) refl in
      (then_of _ _ _ e r).0

  -- A reconciliation of the month after any history of requests and of streams that end, for a client
  -- whose name is not blank, an alias with a quota and a month from 1970 to 9999 whose counter agreed
  -- with the log before, takes away the prompt estimates of the aborted streams and leaves the tokens
  -- otherwise as they were. The order of the listing keeps its entries, and the log's database takes
  -- every row.
  pub after_events-reconcile :
      (order_by : List QuotaKey → List QuotaKey) (period : PeriodOption) (now : ℕ)
      (events : List GatewayEvent) (g : Gateway)
      → Orders order_by
      → 1970 ≤ p.0
      → is_period_key p ≡ true
      → c ≢ ""
      → get_quota c a g.quotas ≡ some q
      → used c a p g ≡ in_logs c a p g
      → period_of period now ≡ some p
      → let after = after_events all_accepted w events g in
        let (repaired, report) =
          reconcile_period order_by p false after.logs.request_logs after.quotas in
        (reconcile order_by period false now after.logs.request_logs after.quotas
          ≡ some (repaired, report))
        × (used_in c a p repaired + unlogged c a p events ≡ used c a p after)
  after_events-reconcile order_by period now events g o recent valid named h b e =
      let after = after_events all_accepted w events g in
      let (m, k) = after_events_lem events g recent valid named h in
      let (r, quotas, n, restored) =
        reconcile_lem order_by o period p now after.logs.request_logs after.quotas c a p e in
      let t =
        restored_total order_by o after.logs.request_logs after.quotas
          (reconcile_period order_by p false after.logs.request_logs after.quotas).0
          (kept g after k h) restored in
      (r, omega (arith, m, b, t))
