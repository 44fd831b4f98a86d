-- ===== src/Chat/GatewayTests.antt =====
-- Requests to a concrete gateway, and the theorems at them.
use ms_gatgeway_llm.Base.{
  ◌+◌, truthy, ◌≡◌, ◌≢◌, refl, String, Option, true, false, none, some, List, [], ◌∷◌, arith,
  eq_iff, get, ◌==◌, string_key, if◌then◌else◌,
}
use ms_gatgeway_llm.Providers.{ResolvedModel, primary}
use ms_gatgeway_llm.Providers.Resolution.{returns}
use ms_gatgeway_llm.Resilience.{new_breaker}
use ms_gatgeway_llm.Routing.Service.{resolved, threw}
use ms_gatgeway_llm.RequestLog.{error_object}
use ms_gatgeway_llm.Quota.Repository.{ClientAliasQuota, get_quota}
use ms_gatgeway_llm.Quota.Service.{used_in, resolve_target}
use ms_gatgeway_llm.Quota.Reconcile.{digits, reconcile_period, reconcile}
use ms_gatgeway_llm.Quota.RepairTests.{as_is, as_is-Orders, thirty, november, before, valid}
use ms_gatgeway_llm.Chat.Service.{
  Request, Surroundings, Pending, completion, aborted, Gateway, completions,
}
use ms_gatgeway_llm.Chat.Accounting.{
  GatewayEvent, asked, stream_ended, all_accepted, unlogged, used, in_logs,
}
use ms_gatgeway_llm.Chat.History.{Wiring, after_events, after_events_lem, after_events-reconcile}
use ms_gatgeway_llm.Chat.Charges.{reported, is_charged, Charges, completions-Charges}
use ms_gatgeway_llm.Chat.Guards.{IsGuarded, completions-IsGuarded}

abbrev entry : String → ResolvedModel
entry provider_id = record {
  requested_as = "slave";
  provider_id = provider_id;
  model_key = "m";
  upstream_model = "m";
  api_key = "key";
  base_url = "https://example.org/v1";
  overrides = record { max_tokens = none; disable_thinking = none };
  supports_stream = true;
  timeout_ms = 1000;
  priority = 0;
}

abbrev wiring : Wiring
wiring = record {
  message_of = λ e. "failed";
  order_by = λ l. l;
  is_circuit_open = λ e. false;
  policy = record { failure_threshold = 3; cooldown_ms = 1000; half_open_probes = 1 };
  registry = record {
    resolve_chain = λ a. returns (entry "nan" ∷ entry "openai" ∷ []);
    strategy_for = λ a. primary;
    get_weights = λ a. [];
  };
  length_of = λ s. 5;
}

-- "codex" is exhausted and diverts to "slave".
abbrev gateway : Gateway
gateway = record {
  client_alias_access = ("acme", "codex") ∷ [];
  quotas = record before {
    client_alias_usage =
        (((("acme", "codex"), (2023, 11))), record { tokens = 7; requests = 1 }) ∷ [];
  };
  breaker = new_breaker;
  cursor = record { cursors = [] };
  logs = record { request_logs = []; events = [] };
}

abbrev request : Request
request = record {
  client_id = some "acme";
  model = "codex";
  prompt_hash = "h";
  params = none;
  prompt_chars = 40;
}

abbrev surroundings : Surroundings
surroundings = record {
  starts_at = 1700000000000;
  gate_at = 1700000000001;
  ends_at = 1700000002;
  random = record { num = 1; den = 2 };
  turns = λ k m. record {
    start = 50;
    check_at = 50;
    execute_at = 50;
    meanwhile = [];
    done_at = 52;
    end_at = 53;
    outcome =
        if m.provider_id == "nan"
        then threw (error_object "Error" "timeout")
        else resolved (completion (some thirty));
  };
}

abbrev dying_stream : Pending
dying_stream = record {
  request = request;
  requested_at = 1700000000;
  provider_id = "openai";
  resolved_model = "m";
  attempts = 1;
  target = "slave";
  diverted_from = some "codex";
}

abbrev events : List GatewayEvent
events = asked request surroundings ∷ stream_ended dying_stream aborted 1700000005 ∷ []

abbrev slave_quota : ClientAliasQuota
slave_quota = record { monthly_token_limit = 100; divert_alias_key = none }

completions-IsGuarded_example :
    let (after, end) =
      completions all_accepted wiring.message_of wiring.order_by wiring.is_circuit_open
        wiring.policy wiring.registry request surroundings gateway in
    IsGuarded wiring.order_by wiring.registry request surroundings gateway after end
completions-IsGuarded_example =
    completions-IsGuarded all_accepted wiring.message_of wiring.order_by wiring.is_circuit_open
      wiring.policy wiring.registry request surroundings gateway (omega arith)

abbrev client : String
client = "acme"

named : client ≢ ""
named = λ e. let k = eq_iff "acme" "" in ground arith

has_slave_quota : get_quota "acme" "slave" gateway.quotas ≡ some slave_quota
unfolding get
has_slave_quota = refl

after_events_lem_example :
    let after = after_events all_accepted wiring events gateway in
    (used "acme" "slave" november after + in_logs "acme" "slave" november gateway
      ≡ used "acme" "slave" november gateway
        + in_logs "acme" "slave" november after
        + unlogged "acme" "slave" november events)
    × (after.quotas.client_alias_quotas ≡ gateway.quotas.client_alias_quotas)
after_events_lem_example =
    after_events_lem wiring "acme" "slave" november slave_quota events gateway (omega arith) refl
      named has_slave_quota

balanced : used "acme" "slave" november gateway ≡ in_logs "acme" "slave" november gateway
unfolding get
balanced = refl

after_events-reconcile_example :
    let after = after_events all_accepted wiring events gateway in
    let (repaired, report) =
      reconcile_period as_is november false after.logs.request_logs after.quotas in
    (reconcile as_is (digits november) false 0 after.logs.request_logs after.quotas
      ≡ some (repaired, report))
    × (used_in "acme" "slave" november repaired + unlogged "acme" "slave" november events
        ≡ used "acme" "slave" november after)
after_events-reconcile_example =
    after_events-reconcile wiring "acme" "slave" november slave_quota as_is (digits november) 0
      events gateway as_is-Orders (omega arith) refl named has_slave_quota balanced valid

-- No tokens are used yet: "codex" is served, and passes its limit of 7 by one completion.
abbrev fresh : Gateway
fresh = record gateway { quotas = record before { client_alias_usage = [] } }

abbrev codex_quota : ClientAliasQuota
codex_quota = record { monthly_token_limit = 7; divert_alias_key = some "slave" }

has_codex_quota : get_quota "acme" "codex" fresh.quotas ≡ some codex_quota
unfolding get
has_codex_quota = refl

completions-Charges_example :
    let (after, end) =
      completions all_accepted wiring.message_of wiring.order_by wiring.is_circuit_open
        wiring.policy wiring.registry request surroundings fresh in
    Charges "acme" "codex" november
      (is_charged "acme" "codex" november request surroundings
        (resolve_target (some "acme") "codex" 1700000000001 fresh.quotas))
      (reported end)
      fresh
      after
completions-Charges_example =
    completions-Charges "acme" "codex" november named codex_quota all_accepted wiring request
      surroundings fresh has_codex_quota

abbrev two_events : List GatewayEvent
two_events = asked request surroundings ∷ stream_ended dying_stream aborted 1700000005 ∷ []

abbrev divert_of : Option ClientAliasQuota → Option String
divert_of none = none
divert_of (some q) = truthy q.divert_alias_key
