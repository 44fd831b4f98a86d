-- ===== src/Resilience/Transitions.antt =====
-- The moves of the state machine: which events change a circuit's state, and when.
use ms_gatgeway_llm.Base.{
  ℕ, ◌+◌, ◌≤◌, ◌<◌, ◌≡◌, refl, ◌≢◌, ◌∙◌, ◌⊎◌, inl, inr, String, Bool, true, false, List, [], ◌∷◌,
  Option, some, arith, ◌==◌, string_key, Bool-cases, ne→==, ==→eq, leb, ==_refl, All,
}
use ms_gatgeway_llm.Resilience.Circuit.{
  Policy, CircuitState, closed, opened, half_open, ProviderCircuit, maybe_transition_from_open,
  admits, on_success, on_failure, is_probing, begin_probe, end_probe,
}
use ms_gatgeway_llm.Resilience.{
  Breaker, circuit_of, can_request, Event, gets_state, asks, starts, records_success,
  records_failure, resolves, throws, provider_of, apply, run,
}
use ms_gatgeway_llm.Resilience.Lookup.{effect, circuit_of-apply, can_request_lem}

abbrev pub ReportsSuccess : Event → Type 0
ReportsSuccess (records_success id) = Unit
ReportsSuccess (resolves id probing) = Unit
ReportsSuccess _ = ⊥

abbrev pub ReportsFailure : Event → Type 0
ReportsFailure (records_failure id) = Unit
ReportsFailure (throws id probing) = Unit
ReportsFailure _ = ⊥

abbrev pub Consults : Event → Type 0
Consults (gets_state id) = Unit
Consults (asks id) = Unit
Consults (starts id) = Unit
Consults _ = ⊥

-- The state graph: closed → open by the failure that reaches the threshold, open → half-open when
-- the breaker is consulted after the cooldown, half-open → closed by a success, half-open → open
-- by a failure; every other event leaves the state.
pub data Edge (p : Policy) (now : ℕ) (e : Event) (c d : ProviderCircuit) : Type 0 where
  stay : d.state ≡ c.state → Edge p now e c d
  trip :
      ReportsFailure e
      → c.state ≡ closed
      → p.failure_threshold ≤ c.failures + 1
      → d.state ≡ opened
      → d.opened_at ≡ some now
      → Edge p now e c d
  cool :
      Consults e
      → c.state ≡ opened
      → (t : ℕ) → c.opened_at ≡ some t
      → t + p.cooldown_ms ≤ now
      → d.state ≡ half_open
      → Edge p now e c d
  heal :
      ReportsSuccess e → c.state ≡ half_open → d.state ≡ closed → d.failures ≡ 0 → Edge p now e c d
  reopen :
      ReportsFailure e
      → c.state ≡ half_open
      → d.state ≡ opened
      → d.opened_at ≡ some now
      → Edge p now e c d

-- The result of a consultation: the state stays, or an open circuit past its cooldown is half open.
transition_cases :
    (p : Policy) (now : ℕ) (c : ProviderCircuit)
    → ((maybe_transition_from_open p now c).state ≡ c.state)
      ⊎ ((t : ℕ) × (c.state ≡ opened)
          × (c.opened_at ≡ some t)
          × (t + p.cooldown_ms ≤ now)
          × ((maybe_transition_from_open p now c).state ≡ half_open))
unfolding maybe_transition_from_open
transition_cases p now c = go c.state c.opened_at refl refl
  where
    go :
        (s : CircuitState) (o : Option ℕ)
        → c.state ≡ s
        → c.opened_at ≡ o
        → ((maybe_transition_from_open p now c).state ≡ c.state)
          ⊎ ((t : ℕ) × (c.state ≡ opened)
              × (c.opened_at ≡ some t)
              × (t + p.cooldown_ms ≤ now)
              × ((maybe_transition_from_open p now c).state ≡ half_open))
    go opened (some t) h k = elim (Bool-cases (leb (t + p.cooldown_ms) now)) [
      | inl past ↦ inr (t, h, k, ground arith, ground arith)
      | inr early ↦ inl (ground arith)
    ]
    go s o h k = inl (ground arith)

begin_probe_state : (probing : Bool) (c : ProviderCircuit) → (begin_probe probing c).state ≡ c.state
unfolding begin_probe
begin_probe_state true c = refl
begin_probe_state false c = refl

module _ (p : Policy) (now : ℕ) (e : Event) (c : ProviderCircuit) where
  consult-Edge :
      Consults e
      → (d : ProviderCircuit) → d.state ≡ (maybe_transition_from_open p now c).state
      → Edge p now e c d
  consult-Edge h d same = elim (transition_cases p now c) [
    | inl k ↦ stay (cc)
    | inr (t, o, at, past, half) ↦ cool h o t at past (cc)
  ]

  success-Edge :
      ReportsSuccess e → (probing : Bool) → Edge p now e c (on_success (end_probe probing c))
  unfolding on_success end_probe
  success-Edge h probing = go c.state refl
    where
      go : (s : CircuitState) → c.state ≡ s → Edge p now e c (on_success (end_probe probing c))
      go half_open k = heal h k (ground arith) (ground arith)
      go s k = stay (ground arith)

  failure-Edge :
      ReportsFailure e → (probing : Bool) → Edge p now e c (on_failure p now (end_probe probing c))
  unfolding on_failure end_probe
  failure-Edge h probing = go c.state refl
    where
      go :
          (s : CircuitState) → c.state ≡ s → Edge p now e c (on_failure p now (end_probe probing c))
      go half_open k = reopen h k (ground arith) (ground arith)
      go opened k = stay (ground arith)
      go closed k = elim (Bool-cases (leb p.failure_threshold (c.failures + 1))) [
        | inl full ↦ trip h k (ground arith) (ground arith) (ground arith)
        | inr more ↦ stay (ground arith)
      ]

effect-Edge :
    (p : Policy) (now : ℕ) (e : Event) (c : ProviderCircuit) → Edge p now e c (effect p (now, e) c)
unfolding effect
effect-Edge p now (gets_state id) c = consult-Edge p now (gets_state id) c tt _ refl
effect-Edge p now (asks id) c = consult-Edge p now (asks id) c tt _ refl
effect-Edge p now (starts id) c = consult-Edge p now (starts id) c tt _ (
    ground (
      arith,
      begin_probe_state (is_probing (maybe_transition_from_open p now c))
          (maybe_transition_from_open p now c),
    ))
effect-Edge p now (records_success id) c =
    unfold end_probe in success-Edge p now (records_success id) c tt false
effect-Edge p now (records_failure id) c =
    unfold end_probe in failure-Edge p now (records_failure id) c tt false
effect-Edge p now (resolves id probing) c = success-Edge p now (resolves id probing) c tt probing
effect-Edge p now (throws id probing) c = failure-Edge p now (throws id probing) c tt probing

-- Every event moves its own provider's circuit along an edge of the state graph (`Edge`: a trip
-- needs a failure that reaches the threshold, a half-opening the end of the cooldown, a healing a
-- success, a re-opening a failure), and leaves the circuit of every other provider as it was.
pub apply-Edge :
    (p : Policy) (now : ℕ) (e : Event) (b : Breaker)
    → Edge p now e (circuit_of (provider_of e) b) (circuit_of (provider_of e) (apply p (now, e) b))
      × ((id : String) → provider_of e ≢ id → circuit_of id (apply p (now, e) b) ≡ circuit_of id b)
apply-Edge p now e b = (
  rw (circuit_of-apply p now e b (provider_of e), ==_refl (provider_of e))
      (effect-Edge p now e (circuit_of (provider_of e) b)),
  λ id h. circuit_of-apply p now e b id ∙ rw (ne→== (provider_of e) id h),
)

-- Opened at time `t`, and not consulted, or not to be consulted, past its cooldown.
abbrev pub IsOpenSince : ℕ → ProviderCircuit → Type 0
IsOpenSince t c = (c.state ≡ opened) × (c.opened_at ≡ some t)

effect-IsOpenSince :
    (p : Policy) (t now : ℕ) (e : Event) (c : ProviderCircuit)
    → now < t + p.cooldown_ms
    → IsOpenSince t c
    → IsOpenSince t (effect p (now, e) c)
unfolding effect maybe_transition_from_open on_success on_failure end_probe admits
effect-IsOpenSince p t now (gets_state id) c h o = ground arith
effect-IsOpenSince p t now (asks id) c h o = ground arith
effect-IsOpenSince p t now (starts id) c h o = ground arith
effect-IsOpenSince p t now (records_success id) c h o = ground arith
effect-IsOpenSince p t now (records_failure id) c h o = ground arith
effect-IsOpenSince p t now (resolves id probing) c h o = ground arith
effect-IsOpenSince p t now (throws id probing) c h o = ground arith

pub apply-IsOpenSince :
    (p : Policy) (t now : ℕ) (id : String) (e : Event) (b : Breaker)
    → now < t + p.cooldown_ms
    → IsOpenSince t (circuit_of id b)
    → IsOpenSince t (circuit_of id (apply p (now, e) b))
apply-IsOpenSince p t now id e b h o =
    rw (circuit_of-apply p now e b id) (elim (Bool-cases (provider_of e == id)) [
      | inl own ↦ rw own (effect-IsOpenSince p t now e (circuit_of id b) h o)
      | inr other ↦ rw other o
    ])

pub run-IsOpenSince :
    (p : Policy) (t : ℕ) (id : String) (es : List (ℕ × Event)) (b : Breaker)
    → All (λ e. e.0 < t + p.cooldown_ms) es
    → IsOpenSince t (circuit_of id b)
    → IsOpenSince t (circuit_of id (run p es b))
unfolding run
run-IsOpenSince p t id [] b h o = o
run-IsOpenSince p t id ((now, e) ∷ es) b (h, hs) o =
    run-IsOpenSince p t id es (apply p (now, e) b) hs (apply-IsOpenSince p t now id e b h o)

-- A circuit that opened at time `t` refuses every request before `t + cooldownMs`: whatever calls
-- and completions come before that time, late successes included, `canRequest` answers false.
can_request_while_open :
    (p : Policy) (t : ℕ) (id : String) (es : List (ℕ × Event)) (b : Breaker) (now : ℕ)
    → (circuit_of id b).state ≡ opened
    → (circuit_of id b).opened_at ≡ some t
    → All (λ e. e.0 < t + p.cooldown_ms) es
    → now < t + p.cooldown_ms
    → (can_request p now id (run p es b)).0 ≡ false
unfolding maybe_transition_from_open admits
can_request_while_open p t id es b now o at hs h =
    ground (arith, can_request_lem p now id (run p es b), run-IsOpenSince p t id es b hs (o, at))

-- An event that is no failure of the provider keeps its circuit closed.
pub apply-closed :
    (p : Policy) (now : ℕ) (id : String) (e : Event) (b : Breaker)
    → ¬ (ReportsFailure e × (provider_of e ≡ id))
    → (circuit_of id b).state ≡ closed
    → (circuit_of id (apply p (now, e) b)).state ≡ closed
apply-closed p now id e b harmless k = elim (Bool-cases (provider_of e == id)) [
  | inl own ↦
      rw (circuit_of-apply p now e b id, own)
        (closed_after e (λ f. harmless (f, ==→eq (provider_of e) id own)))
  | inr other ↦ rw (circuit_of-apply p now e b id, other) k
]
  where
    closed_after :
        (e : Event) → ¬ ReportsFailure e → (effect p (now, e) (circuit_of id b)).state ≡ closed
    closed_after (gets_state j) h = unfold effect maybe_transition_from_open in ground arith
    closed_after (asks j) h = unfold effect maybe_transition_from_open in ground arith
    closed_after (starts j) h =
        unfold effect maybe_transition_from_open admits is_probing begin_probe in ground arith
    closed_after (records_success j) h = unfold effect on_success in ground arith
    closed_after (resolves j probing) h = unfold effect on_success end_probe in ground arith
    closed_after (records_failure j) h = absurd (h tt)
    closed_after (throws j probing) h = absurd (h tt)

pub run-closed :
    (p : Policy) (id : String) (es : List (ℕ × Event)) (b : Breaker)
    → All (λ e. ¬ (ReportsFailure e.1 × (provider_of e.1 ≡ id))) es
    → (circuit_of id b).state ≡ closed
    → (circuit_of id (run p es b)).state ≡ closed
unfolding run
run-closed p id [] b h k = k
run-closed p id ((now, e) ∷ es) b (h, hs) k =
    run-closed p id es (apply p (now, e) b) hs (apply-closed p now id e b h k)
