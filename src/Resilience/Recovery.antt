-- ===== src/Resilience/Recovery.antt =====
-- Tripping by consecutive failures, and the way back through a probe.
use ms_gatgeway_llm.Base.{
  ℕ, ◌+◌, ◌≤◌, ◌<◌, ◌≡◌, ◌≢◌, All, ne→==, refl, ◌∙◌, leb, inl, inr, String, true, List, [], ◌∷◌,
  some, arith, if◌then◌else◌, string_key, ltb, Bool-cases, ==_refl, length,
}
use ms_gatgeway_llm.Resilience.Circuit.{
  Policy, closed, opened, half_open, maybe_transition_from_open, admits, on_success, on_failure,
  is_probing, begin_probe, end_probe,
}
use ms_gatgeway_llm.Resilience.{
  Breaker, circuit_of, execute_start, execute_ok, execute_error, Event, starts, records_success,
  records_failure, gets_state, asks, resolves, throws, provider_of, apply, run,
}
use ms_gatgeway_llm.Resilience.Lookup.{
  effect, circuit_of-apply, can_request_lem, circuit_of-refresh,
}

circuit_of-apply_own :
    (p : Policy) (now : ℕ) (e : Event) (b : Breaker)
    → circuit_of (provider_of e) (apply p (now, e) b)
      ≡ effect p (now, e) (circuit_of (provider_of e) b)
circuit_of-apply_own p now e b =
    rw (circuit_of-apply p now e b (provider_of e), ==_refl (provider_of e))

abbrev pub failures_at : String → List ℕ → List (ℕ × Event)
failures_at id [] = []
failures_at id (t ∷ ts) = (t, records_failure id) ∷ failures_at id ts

more_failures :
    (p : Policy) (id : String) (ts : List ℕ) (b : Breaker)
    → (circuit_of id b).state ≡ opened
    → (circuit_of id (run p (failures_at id ts) b)).state ≡ opened
unfolding run
more_failures p id [] b o = o
more_failures p id (t ∷ ts) b o = more_failures p id ts (apply p (t, records_failure id) b) (
    rw (circuit_of-apply_own p t (records_failure id) b) (unfold effect on_failure in ground arith))

-- A closed circuit with `m` consecutive failures, below the threshold: after a row of further
-- failures, at any times, it is still closed exactly if their total is below the threshold, and
-- open otherwise.
run-failures_at :
    (p : Policy) (id : String) (ts : List ℕ) (b : Breaker)
    → (circuit_of id b).state ≡ closed
    → (circuit_of id b).failures < p.failure_threshold
    → (circuit_of id (run p (failures_at id ts) b)).state ≡ (
        if ltb ((circuit_of id b).failures + length ts) p.failure_threshold then closed else opened)
unfolding run on_failure
run-failures_at p id [] b o h = ground arith
run-failures_at p id (t ∷ ts) b o h =
    elim (Bool-cases (leb p.failure_threshold ((circuit_of id b).failures + 1))) [
      | inl full ↦
          let e =
            more_failures p id ts (apply p (t, records_failure id) b) (ground (arith, next)) in
          ground arith
      | inr room ↦
          let e =
            run-failures_at p id ts (apply p (t, records_failure id) b) (ground (arith, next))
              (ground (arith, next)) in
          ground (arith, next)
    ]
  where
    next : circuit_of id (apply p (t, records_failure id) b) ≡ on_failure p t (circuit_of id b)
    next = circuit_of-apply_own p t (records_failure id) b ∙ unfold effect in refl

-- The circuit of a provider whose cooldown is over, once a call has been let through.
probing_circuit :
    (p : Policy) (t now : ℕ) (id : String) (b : Breaker)
    → (circuit_of id b).state ≡ opened
    → (circuit_of id b).opened_at ≡ some t
    → t + p.cooldown_ms ≤ now
    → 0 < p.half_open_probes
    → ((circuit_of id (apply p (now, starts id) b)).state ≡ half_open)
      × ((circuit_of id (apply p (now, starts id) b)).in_flight_probes ≡ 1)
unfolding maybe_transition_from_open admits is_probing begin_probe
probing_circuit p t now id b o at past room =
    let e : circuit_of id (apply p (now, starts id) b)
        ≡ effect p (now, starts id) (circuit_of id b) =
      circuit_of-apply_own p now (starts id) b in
    unfold effect in ground arith

-- No call of the provider ends with the event, and no result of it is recorded.
abbrev pub IsQuiet : String → Event → Type 0
IsQuiet id (gets_state j) = Unit
IsQuiet id (asks j) = Unit
IsQuiet id (starts j) = Unit
IsQuiet id (records_success j) = j ≢ id
IsQuiet id (records_failure j) = j ≢ id
IsQuiet id (resolves j probing) = j ≢ id
IsQuiet id (throws j probing) = j ≢ id

half_open-apply :
    (p : Policy) (now : ℕ) (id : String) (e : Event) (b : Breaker)
    → IsQuiet id e
    → (circuit_of id b).state ≡ half_open
    → (circuit_of id (apply p (now, e) b)).state ≡ half_open
unfolding effect maybe_transition_from_open admits is_probing begin_probe
half_open-apply p now id (gets_state j) b quiet h =
    let t = circuit_of-apply p now (gets_state j) b id in ground arith
half_open-apply p now id (asks j) b quiet h =
    let t = circuit_of-apply p now (asks j) b id in ground arith
half_open-apply p now id (starts j) b quiet h =
    let t = circuit_of-apply p now (starts j) b id in ground arith
half_open-apply p now id (records_success j) b quiet h =
    let t = circuit_of-apply p now (records_success j) b id in
    let n = ne→== j id quiet in ground arith
half_open-apply p now id (records_failure j) b quiet h =
    let t = circuit_of-apply p now (records_failure j) b id in
    let n = ne→== j id quiet in ground arith
half_open-apply p now id (resolves j probing) b quiet h =
    let t = circuit_of-apply p now (resolves j probing) b id in
    let n = ne→== j id quiet in ground arith
half_open-apply p now id (throws j probing) b quiet h =
    let t = circuit_of-apply p now (throws j probing) b id in
    let n = ne→== j id quiet in ground arith

half_open-run :
    (p : Policy) (id : String) (es : List (ℕ × Event)) (b : Breaker)
    → All (λ e. IsQuiet id e.1) es
    → (circuit_of id b).state ≡ half_open
    → (circuit_of id (run p es b)).state ≡ half_open
unfolding run
half_open-run p id [] b quiet h = h
half_open-run p id ((now, e) ∷ es) b (quiet, rest) h =
    half_open-run p id es (apply p (now, e) b) rest (half_open-apply p now id e b quiet h)

-- The way back: a circuit that opened at `t` lets a call through once the cooldown is over, if the
-- policy allows a probe, and marks it as a probe. Until that call ends other providers' circuits may
-- change in any way, and further calls of the provider start, but none of its calls ends and no
-- result of it is recorded. If the call then resolves, the circuit is closed and its failures are 0;
-- if it throws at time `u`, the circuit is open again, since `u`.
pub probe_outcome :
    (p : Policy) (t now u : ℕ) (id : String) (es : List (ℕ × Event)) (b : Breaker)
    → (circuit_of id b).state ≡ opened
    → (circuit_of id b).opened_at ≡ some t
    → t + p.cooldown_ms ≤ now
    → 0 < p.half_open_probes
    → All (λ e. IsQuiet id e.1) es
    → let (probing, started) = execute_start p now id b in
      let later = run p es started in
      (probing ≡ some true)
      × ((circuit_of id (execute_ok id true later)).state ≡ closed)
      × ((circuit_of id (execute_ok id true later)).failures ≡ 0)
      × ((circuit_of id (execute_error p u id true later)).state ≡ opened)
      × ((circuit_of id (execute_error p u id true later)).opened_at ≡ some u)
unfolding execute_start maybe_transition_from_open admits is_probing on_success on_failure end_probe
probe_outcome p t now u id es b o at past room quiet = (
  ground (arith, can_request_lem p now id b, circuit_of-refresh p now id id b, ==_refl id),
  ground (arith, half, resolved),
  ground (arith, half, resolved),
  ground (arith, half, thrown),
  ground (arith, half, thrown),
)
  where
    later : Breaker
    later = run p es (execute_start p now id b).1

    half : (circuit_of id later).state ≡ half_open
    half =
        half_open-run p id es (execute_start p now id b).1 quiet
          (unfold apply in (probing_circuit p t now id b o at past room).0)

    resolved :
        circuit_of id (execute_ok id true later) ≡ on_success (end_probe true (circuit_of id later))
    resolved = unfold apply effect in circuit_of-apply_own p now (resolves id true) later

    thrown :
        circuit_of id (execute_error p u id true later)
        ≡ on_failure p u (end_probe true (circuit_of id later))
    thrown = unfold apply effect in circuit_of-apply_own p u (throws id true) later
