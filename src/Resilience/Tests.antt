-- ===== src/Resilience/Tests.antt =====
-- Concrete runs of the breaker, and the theorems at concrete inputs.
use ms_gatgeway_llm.Base.{
  ℕ, eq_iff, All, List, ◌≡◌, refl, ◌≢◌, String, true, false, [], ◌∷◌, none, some, arith, get, put,
  length,
}
use ms_gatgeway_llm.Resilience.Circuit.{
  Policy, closed, opened, maybe_transition_from_open, admits, on_success, on_failure, is_probing,
  begin_probe, end_probe,
}
use ms_gatgeway_llm.Resilience.{
  Breaker, new_breaker, add_known, circuit_of, update, refresh, get_state, can_request,
  record_success, record_failure, execute_start, execute_ok, execute_error, snapshot, snapshots,
  add_all, sort_snapshots, list_providers, Event, starts, records_failure, throws, apply, run,
}
use ms_gatgeway_llm.Resilience.Invariant.{IsSound, run-IsSound}
use ms_gatgeway_llm.Resilience.Transitions.{Edge, apply-Edge}
use ms_gatgeway_llm.Resilience.Recovery.{IsQuiet, failures_at, probe_outcome}

-- Unfolds all that a run of the service computes with.
unfoldable pub runs : Unit {0}
unfolding run apply get_state can_request record_success record_failure execute_start execute_ok
    execute_error update refresh circuit_of add_known get put maybe_transition_from_open admits
    on_success on_failure is_probing begin_probe end_probe new_breaker snapshot snapshots add_all
    sort_snapshots list_providers
runs = tt

abbrev pub policy : Policy
policy = record { failure_threshold = 2; cooldown_ms = 100; half_open_probes = 1 }

-- Two failures trip the breaker of "nan"; "openai" is not touched.
abbrev pub tripped : Breaker
tripped = record {
  circuits =
      (
        "nan",
        record {
          state = opened;
          failures = 2;
          last_failure_at = some 20;
          opened_at = some 20;
          in_flight_probes = 0;
        },
      )
      ∷ [];
  known = "nan" ∷ [];
}

tripping : run policy (failures_at "nan" (10 ∷ 20 ∷ [])) new_breaker ≡ tripped
unfolding runs
tripping = refl

cooldown_test : (can_request policy 119 "nan" tripped).0 ≡ false
unfolding runs
cooldown_test = refl

probe_test : (can_request policy 120 "nan" tripped).0 ≡ true
unfolding runs
probe_test = refl

one_probe_test :
    (execute_start policy 121 "nan" (execute_start policy 120 "nan" tripped).1).0 ≡ none
unfolding runs
one_probe_test = refl

list_test :
    length (list_providers (λ a b. true) policy (λ k. 50) ("openai" ∷ "nan" ∷ []) tripped).0 ≡ 2
unfolding runs
list_test = refl

run-IsSound_example :
    IsSound policy (run policy ((1, starts "nan") ∷ (2, throws "nan" false) ∷ []) new_breaker)
run-IsSound_example =
    run-IsSound policy ((1, starts "nan") ∷ (2, throws "nan" false) ∷ []) (omega arith)

apply-Edge_example :
    Edge policy 130
      (starts "nan")
      (circuit_of "nan" tripped)
      (circuit_of "nan" (apply policy (130, starts "nan") tripped))
    × ((id : String)
        → "nan" ≢ id
        → circuit_of id (apply policy (130, starts "nan") tripped) ≡ circuit_of id tripped)
apply-Edge_example = apply-Edge policy 130 (starts "nan") tripped

-- Another call of "nan" is refused and "openai" fails before the probe ends.
abbrev meanwhile : List (ℕ × Event)
meanwhile = (125, starts "nan") ∷ (130, records_failure "openai") ∷ []

quiet : All (λ e. IsQuiet "nan" e.1) meanwhile
quiet = (tt, ((λ e. let t = eq_iff "openai" "nan" in ground arith), tt))

probe_outcome_example :
    let (probing, started) = execute_start policy 120 "nan" tripped in
    let later = run policy meanwhile started in
    (probing ≡ some true)
    × ((circuit_of "nan" (execute_ok "nan" true later)).state ≡ closed)
    × ((circuit_of "nan" (execute_ok "nan" true later)).failures ≡ 0)
    × ((circuit_of "nan" (execute_error policy 150 "nan" true later)).state ≡ opened)
    × ((circuit_of "nan" (execute_error policy 150 "nan" true later)).opened_at ≡ some 150)
unfolding circuit_of get
probe_outcome_example =
    probe_outcome policy 20 120 150 "nan" meanwhile tripped refl refl (omega arith) (omega arith)
      quiet
