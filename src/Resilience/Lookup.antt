-- ===== src/Resilience/Lookup.antt =====
-- What an event does to the circuit of a provider, its own and the others'.
use ms_gatgeway_llm.Base.{
  ℕ, ◌≡◌, refl, ◌∙◌, String, arith, if◌then◌else◌, ◌==◌, string_key, get, get-put, eq_iff,
  Option-cases, inl, inr,
}
use ms_gatgeway_llm.Resilience.Circuit.{
  Policy, ProviderCircuit, maybe_transition_from_open, admits, on_success, on_failure, is_probing,
  begin_probe, end_probe,
}
use ms_gatgeway_llm.Resilience.{
  Breaker, or_fresh, circuit_of, update, add_known, refresh, get_state, can_request, record_success,
  record_failure, execute_start, execute_ok, execute_error, Event, gets_state, asks, starts,
  records_success, records_failure, resolves, throws, provider_of, apply,
}

-- What an event does to the object of its own provider.
unfoldable pub effect : Policy → ℕ × Event → ProviderCircuit → ProviderCircuit
effect p (now, gets_state id) c = maybe_transition_from_open p now c
effect p (now, asks id) c = maybe_transition_from_open p now c
effect p (now, starts id) c =
    let c' = maybe_transition_from_open p now c in
    if admits p c' then begin_probe (is_probing c') c' else c'
effect p (now, records_success id) c = on_success c
effect p (now, records_failure id) c = on_failure p now c
effect p (now, resolves id probing) c = on_success (end_probe probing c)
effect p (now, throws id probing) c = on_failure p now (end_probe probing c)

pub circuit_of-update :
    (id j : String) (f : ProviderCircuit → ProviderCircuit) (b : Breaker)
    → circuit_of j (update id f b) ≡ (if id == j then f (circuit_of j b) else circuit_of j b)
unfolding update circuit_of
circuit_of-update id j f b =
    rw (get-put id j (f (or_fresh (get id b.circuits))) b.circuits) (ground (arith, eq_iff id j))

pub circuit_of-refresh :
    (p : Policy) (now : ℕ) (id j : String) (b : Breaker)
    → circuit_of j (refresh p now id b)
      ≡ (if id == j then maybe_transition_from_open p now (circuit_of j b) else circuit_of j b)
unfolding refresh circuit_of maybe_transition_from_open
circuit_of-refresh p now id j b = elim (Option-cases (get id b.circuits)) [
  | inl e ↦ rw (e, refresh) (ground (arith, eq_iff id j))
  | inr (c, e) ↦ rw (e, refresh) (rw (get-put id j _ b.circuits) (ground (arith, eq_iff id j)))
]

module _ (p : Policy) (now : ℕ) (id : String) (b : Breaker) where
  pub get_state_lem :
      get_state p now id b
      ≡ ((maybe_transition_from_open p now (circuit_of id b)).state, refresh p now id b)
  unfolding get_state circuit_of refresh maybe_transition_from_open
  get_state_lem = ground arith

  pub can_request_lem :
      can_request p now id b
      ≡ (admits p (maybe_transition_from_open p now (circuit_of id b)), refresh p now id b)
  unfolding can_request circuit_of refresh maybe_transition_from_open admits
  can_request_lem = ground arith

circuit_of-record_success :
    (id j : String) (b : Breaker)
    → circuit_of j (record_success id b)
      ≡ (if id == j then on_success (circuit_of j b) else circuit_of j b)
unfolding record_success
circuit_of-record_success id j b =
    circuit_of-update id j on_success (record b { known = add_known id b.known })
    ∙ unfold circuit_of in refl

circuit_of-record_failure :
    (p : Policy) (now : ℕ) (id j : String) (b : Breaker)
    → circuit_of j (record_failure p now id b)
      ≡ (if id == j then on_failure p now (circuit_of j b) else circuit_of j b)
unfolding record_failure
circuit_of-record_failure p now id j b =
    circuit_of-update id j (on_failure p now) (record b { known = add_known id b.known })
    ∙ unfold circuit_of in refl

circuit_of-execute_start :
    (p : Policy) (now : ℕ) (id j : String) (b : Breaker)
    → circuit_of j (execute_start p now id b).1
      ≡ (if id == j then effect p (now, starts id) (circuit_of j b) else circuit_of j b)
unfolding execute_start effect
circuit_of-execute_start p now id j b = rw (can_request_lem p now id b) (
    ground (
      arith,
      eq_iff id j,
      circuit_of-refresh p now id id b,
      circuit_of-refresh p now id j b,
      circuit_of-update id j (begin_probe (is_probing (circuit_of id (refresh p now id b))))
          (refresh p now id b),
    ))

-- The object of an event's own provider afterwards, and the others'.
pub circuit_of-apply :
    (p : Policy) (now : ℕ) (e : Event) (b : Breaker) (j : String)
    → circuit_of j (apply p (now, e) b)
      ≡ (if provider_of e == j then effect p (now, e) (circuit_of j b) else circuit_of j b)
unfolding apply effect execute_ok execute_error
circuit_of-apply p now (gets_state id) b j =
    ground (arith, get_state_lem p now id b, circuit_of-refresh p now id j b)
circuit_of-apply p now (asks id) b j =
    ground (arith, can_request_lem p now id b, circuit_of-refresh p now id j b)
circuit_of-apply p now (starts id) b j = circuit_of-execute_start p now id j b
circuit_of-apply p now (records_success id) b j = circuit_of-record_success id j b
circuit_of-apply p now (records_failure id) b j = circuit_of-record_failure p now id j b
circuit_of-apply p now (resolves id probing) b j = ground (
  arith,
  circuit_of-record_success id j (update id (end_probe probing) b),
  circuit_of-update id j (end_probe probing) b,
)
circuit_of-apply p now (throws id probing) b j = ground (
  arith,
  circuit_of-record_failure p now id j (update id (end_probe probing) b),
  circuit_of-update id j (end_probe probing) b,
)
