-- ===== src/Resilience/Invariant.antt =====
-- The well-formedness of every circuit, kept by any interleaving of calls.
use ms_gatgeway_llm.Base.{
  ℕ, ◌≤◌, ◌<◌, ◌≡◌, ◌≢◌, String, Bool, true, false, List, [], ◌∷◌, none, arith, ◌==◌, string_key,
  Bool-cases, inl, inr, get,
}
use ms_gatgeway_llm.Resilience.Circuit.{
  Policy, closed, opened, half_open, ProviderCircuit, maybe_transition_from_open, admits,
  on_success, on_failure, is_probing, begin_probe, end_probe,
}
use ms_gatgeway_llm.Resilience.{
  Breaker, new_breaker, circuit_of, Event, gets_state, asks, starts, records_success,
  records_failure, resolves, throws, provider_of, apply, run,
}
use ms_gatgeway_llm.Resilience.Lookup.{effect, circuit_of-apply}

-- What each state promises: an open circuit knows when it opened; a closed one is below the
-- threshold; probes are counted in `half_open` alone, and never exceed the policy's bound.
pub record WellFormed (p : Policy) (c : ProviderCircuit) : Type 0 where
  pub stamped : c.state ≡ opened → c.opened_at ≢ none
  pub below : c.state ≡ closed → c.failures < p.failure_threshold
  pub bounded : c.in_flight_probes ≤ p.half_open_probes
  pub idle : c.state ≢ half_open → c.in_flight_probes ≡ 0

-- Every provider's circuit is well formed, those never seen included.
abbrev pub IsSound : Policy → Breaker → Type 0
IsSound p b = (id : String) → WellFormed p (circuit_of id b)

module _ (p : Policy) (c : ProviderCircuit) (v : WellFormed p c) where
  maybe_transition_from_open-WellFormed :
      (now : ℕ) → WellFormed p (maybe_transition_from_open p now c)
  unfolding maybe_transition_from_open
  maybe_transition_from_open-WellFormed now = ground arith

  begin_probe-WellFormed : admits p c ≡ true → WellFormed p (begin_probe (is_probing c) c)
  unfolding admits begin_probe is_probing
  begin_probe-WellFormed h = ground arith

  on_success-WellFormed : 0 < p.failure_threshold → WellFormed p (on_success c)
  unfolding on_success
  on_success-WellFormed h = ground arith

  on_failure-WellFormed : (now : ℕ) → WellFormed p (on_failure p now c)
  unfolding on_failure
  on_failure-WellFormed now = ground arith

  end_probe-WellFormed : (probing : Bool) → WellFormed p (end_probe probing c)
  unfolding end_probe
  end_probe-WellFormed true = ground arith
  end_probe-WellFormed false = v

effect-WellFormed :
    (p : Policy) (now : ℕ) (e : Event) (c : ProviderCircuit)
    → 0 < p.failure_threshold
    → WellFormed p c
    → WellFormed p (effect p (now, e) c)
unfolding effect
effect-WellFormed p now (gets_state id) c h v = maybe_transition_from_open-WellFormed p c v now
effect-WellFormed p now (asks id) c h v = maybe_transition_from_open-WellFormed p c v now
effect-WellFormed p now (starts id) c h v =
    let w = maybe_transition_from_open-WellFormed p c v now in
    elim (Bool-cases (admits p (maybe_transition_from_open p now c))) [
      | inl a ↦ rw a (begin_probe-WellFormed p (maybe_transition_from_open p now c) w a)
      | inr r ↦ rw r w
    ]
effect-WellFormed p now (records_success id) c h v = on_success-WellFormed p c v h
effect-WellFormed p now (records_failure id) c h v = on_failure-WellFormed p c v now
effect-WellFormed p now (resolves id probing) c h v =
    on_success-WellFormed p (end_probe probing c) (end_probe-WellFormed p c v probing) h
effect-WellFormed p now (throws id probing) c h v =
    on_failure-WellFormed p (end_probe probing c) (end_probe-WellFormed p c v probing) now

apply-IsSound :
    (p : Policy) (now : ℕ) (e : Event) (b : Breaker)
    → 0 < p.failure_threshold
    → IsSound p b
    → IsSound p (apply p (now, e) b)
apply-IsSound p now e b h s id =
    rw (circuit_of-apply p now e b id) (elim (Bool-cases (provider_of e == id)) [
      | inl own ↦ rw own (effect-WellFormed p now e (circuit_of id b) h (s id))
      | inr other ↦ rw other (s id)
    ])

run-IsSound_from :
    (p : Policy) (es : List (ℕ × Event)) (b : Breaker)
    → 0 < p.failure_threshold
    → IsSound p b
    → IsSound p (run p es b)
unfolding run
run-IsSound_from p [] b h s = s
run-IsSound_from p ((now, e) ∷ es) b h s =
    run-IsSound_from p es (apply p (now, e) b) h (apply-IsSound p now e b h s)

-- With a positive failure threshold, after any sequence of calls and completions (at any times,
-- for any providers, matched or not) on a new breaker, every provider's circuit is well formed: an
-- open circuit has the time at which it opened, a closed one has fewer failures than the threshold,
-- the probes in flight are at most `halfOpenProbes`, and they are 0 outside `half-open`.
pub run-IsSound :
    (p : Policy) (es : List (ℕ × Event))
    → 0 < p.failure_threshold
    → IsSound p (run p es new_breaker)
run-IsSound p es h = run-IsSound_from p es new_breaker h (λ id. fresh id)
  where
    fresh : (id : String) → WellFormed p (circuit_of id new_breaker)
    fresh id = unfold circuit_of new_breaker get in ground arith
