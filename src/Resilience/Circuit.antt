-- ===== src/Resilience/Circuit.antt =====
-- One provider's circuit: the fields of `ProviderCircuit`, and what each method of the service does
-- to them once the object has been found.
use ms_gatgeway_llm.Base.{
  ℕ, ◌+◌, ◌-◌, Bool, true, false, Option, none, some, leb, ltb, if◌then◌else◌,
}

pub record Policy : Type 0 where
  pub failure_threshold : ℕ
  pub cooldown_ms : ℕ
  pub half_open_probes : ℕ

pub data CircuitState : Type 0 where
  closed opened half_open : CircuitState

pub record ProviderCircuit : Type 0 where
  pub state : CircuitState
  pub failures : ℕ
  pub last_failure_at : Option ℕ
  pub opened_at : Option ℕ
  pub in_flight_probes : ℕ

-- The object that `ensure` creates.
abbrev pub fresh_circuit : ProviderCircuit
fresh_circuit = record {
  state = closed;
  failures = 0;
  last_failure_at = none;
  opened_at = none;
  in_flight_probes = 0;
}

half_opened : ProviderCircuit → ProviderCircuit
half_opened c = record c { state = half_open; in_flight_probes = 0 }

-- `now - openedAt >= cooldownMs`, written without a subtraction that could pass below zero.
cool : Policy → ℕ → Option ℕ → ProviderCircuit → ProviderCircuit
unfolding half_opened
cool p now none c = c
cool p now (some t) c = if leb (t + p.cooldown_ms) now then half_opened c else c

unfoldable pub maybe_transition_from_open : Policy → ℕ → ProviderCircuit → ProviderCircuit
unfolding cool
maybe_transition_from_open p now c = elim c.state [ opened ↦ cool p now c.opened_at c | _ ↦ c ]

-- The answer of `canRequest` after the transition.
unfoldable pub admits : Policy → ProviderCircuit → Bool
admits p c = elim c.state [
  | closed ↦ true
  | opened ↦ false
  | half_open ↦ ltb c.in_flight_probes p.half_open_probes
]

-- `recordSuccess` on the object.
unfoldable pub on_success : ProviderCircuit → ProviderCircuit
on_success c = elim c.state [
  | half_open ↦ record c { state = closed; failures = 0; opened_at = none; in_flight_probes = 0 }
  | _ ↦ record c { failures = 0 }
]

tripped : ℕ → ProviderCircuit → ProviderCircuit
tripped now c = record c { state = opened; opened_at = some now }

-- `recordFailure` on the object, at time `now`.
unfoldable pub on_failure : Policy → ℕ → ProviderCircuit → ProviderCircuit
unfolding tripped
on_failure p now c = elim c.state [
  | half_open ↦ record c {
    state = opened;
    last_failure_at = some now;
    opened_at = some now;
    in_flight_probes = 0;
  }
  | closed ↦
      let counted : ProviderCircuit = record c {
        failures = c.failures + 1;
        last_failure_at = some now;
      } in
      if leb p.failure_threshold (c.failures + 1) then tripped now counted else counted
  | opened ↦ record c { failures = c.failures + 1; last_failure_at = some now }
]

-- `const probing = c.state === 'half-open'`.
unfoldable pub is_probing : ProviderCircuit → Bool
is_probing c = elim c.state [ half_open ↦ true | _ ↦ false ]

-- `if (probing) c.inFlightProbes += 1`, before the call.
unfoldable pub begin_probe : Bool → ProviderCircuit → ProviderCircuit
begin_probe true c = record c { in_flight_probes = c.in_flight_probes + 1 }
begin_probe false c = c

-- `if (probing) c.inFlightProbes = Math.max(0, c.inFlightProbes - 1)`, after it: subtraction on
-- the naturals stops at 0.
unfoldable pub end_probe : Bool → ProviderCircuit → ProviderCircuit
end_probe true c = record c { in_flight_probes = c.in_flight_probes - 1 }
end_probe false c = c

-- The count that a snapshot shows.
unfoldable pub reported_failures : ProviderCircuit → ℕ
reported_failures c = elim c.state [ half_open ↦ 0 | _ ↦ c.failures ]
