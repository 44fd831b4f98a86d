-- ===== src/Resilience.antt =====
-- The per-provider circuit breaker, src/resilience/circuit-breaker.service.ts.
-- `ProviderCircuit` objects are never removed from the map, so a shared object is the entry of its
-- provider id. The clock `now` is an argument of each operation; `execute` is two steps, before
-- and after the awaited call, and any other step may come between them.
pub mod Circuit
pub mod Lookup
pub mod Invariant
pub mod Transitions
pub mod Recovery
pub mod Tests
use ms_gatgeway_llm.Base.{
  ℕ, ◌+◌, String, Bool, true, false, List, [], ◌∷◌, Option, none, some, if◌then◌else◌, ◌==◌,
  string_key, Dict, get, put,
}
use Circuit.{
  Policy, CircuitState, closed, ProviderCircuit, fresh_circuit, maybe_transition_from_open, admits,
  on_success, on_failure, is_probing, begin_probe, end_probe, reported_failures,
}

-- The service's two fields.
pub record Breaker : Type 0 where
  pub circuits : Dict String ProviderCircuit
  pub known : List String

-- `Set.add`.
unfoldable pub add_known : String → List String → List String
add_known id [] = id ∷ []
add_known id (j ∷ ids) = if j == id then j ∷ ids else j ∷ add_known id ids

unfoldable pub new_breaker : Breaker
new_breaker = record { circuits = []; known = [] }

-- The object that `ensure` returns, which is in the map from then on.
abbrev or_fresh : Option ProviderCircuit → ProviderCircuit
or_fresh none = fresh_circuit
or_fresh (some c) = c

unfoldable pub circuit_of : String → Breaker → ProviderCircuit
circuit_of id b = or_fresh (get id b.circuits)

-- A change of a provider's object, which `ensure` has put into the map.
unfoldable pub update : String → (ProviderCircuit → ProviderCircuit) → Breaker → Breaker
update id f b = record b { circuits = put id (f (circuit_of id b)) b.circuits }

-- `maybeTransitionFromOpen` on the object of a provider, if there is one.
unfoldable pub refresh : Policy → ℕ → String → Breaker → Breaker
refresh p now id b = elim (get id b.circuits) [
  | none ↦ b
  | some c ↦ record b { circuits = put id (maybe_transition_from_open p now c) b.circuits }
]

unfoldable pub get_state : Policy → ℕ → String → Breaker → CircuitState × Breaker
get_state p now id b = elim (get id b.circuits) [
  | none ↦ (closed, b)
  | some c ↦ ((maybe_transition_from_open p now c).state, refresh p now id b)
]

unfoldable pub can_request : Policy → ℕ → String → Breaker → Bool × Breaker
can_request p now id b = elim (get id b.circuits) [
  | none ↦ (true, b)
  | some c ↦ (admits p (maybe_transition_from_open p now c), refresh p now id b)
]

unfoldable pub record_success : String → Breaker → Breaker
record_success id b = update id on_success (record b { known = add_known id b.known })

unfoldable pub record_failure : Policy → ℕ → String → Breaker → Breaker
record_failure p now id b = update id (on_failure p now) (record b { known = add_known id b.known })

-- `execute` up to the call of `fn`: `none` is the `CircuitOpenError`, and `some probing` the call
-- made, with the local variable that the continuation reads.
unfoldable pub execute_start : Policy → ℕ → String → Breaker → Option Bool × Breaker
execute_start p now id b =
    let (allowed, b') = can_request p now id b in
    let probing = is_probing (circuit_of id b') in
    if allowed then (some probing, update id (begin_probe probing) b') else (none, b')

-- The two continuations of `execute`: the call resolved, or it threw.
unfoldable pub execute_ok : String → Bool → Breaker → Breaker
execute_ok id probing b = record_success id (update id (end_probe probing) b)

unfoldable pub execute_error : Policy → ℕ → String → Bool → Breaker → Breaker
execute_error p now id probing b = record_failure p now id (update id (end_probe probing) b)

pub record CircuitSnapshot : Type 0 where
  pub provider_id : String
  pub state : CircuitState
  pub failures : ℕ
  pub last_failure_at : Option ℕ
  pub opened_at : Option ℕ
  pub can_serve : Bool

-- One round of the loop of `listProviders`: the object was fetched first, and `getState` and
-- `canRequest`, which read the clock as `t` and as `u`, change that object in place.
unfoldable pub snapshot : Policy → ℕ → ℕ → String → Breaker → CircuitSnapshot × Breaker
snapshot p t u id b =
    let (state, b1) = get_state p t id b in
    let c = circuit_of id b1 in
    let (serve, b2) = can_request p u id b1 in
    (
      record {
        provider_id = id;
        state = state;
        failures = reported_failures c;
        last_failure_at = c.last_failure_at;
        opened_at = c.opened_at;
        can_serve = serve;
      },
      b2,
    )

-- The loop; `clock k` is the time at the k-th reading.
unfoldable pub snapshots :
    Policy → (ℕ → ℕ) → ℕ → List String → Breaker → List CircuitSnapshot × Breaker
snapshots p clock k [] b = ([], b)
snapshots p clock k (id ∷ ids) b =
    let (s, b1) = snapshot p (clock k) (clock (k + 1)) id b in
    let (ss, b2) = snapshots p clock (k + 2) ids b1 in (s ∷ ss, b2)

-- `for (const id of Object.keys(registry.providers)) ids.add(id)`.
unfoldable pub add_all : List String → List String → List String
add_all [] ids = ids
add_all (id ∷ more) ids = add_all more (add_known id ids)

-- `Array.prototype.sort` is stable: an insertion sort by the comparison. `le a b` stands for
-- `a.localeCompare(b) <= 0`, which the platform's collation decides.
insert_snapshot :
    (String → String → Bool) → CircuitSnapshot → List CircuitSnapshot → List CircuitSnapshot
insert_snapshot le s [] = s ∷ []
insert_snapshot le s (t ∷ ts) =
    if le s.provider_id t.provider_id then s ∷ t ∷ ts else t ∷ insert_snapshot le s ts

unfoldable pub sort_snapshots :
    (String → String → Bool) → List CircuitSnapshot → List CircuitSnapshot
unfolding insert_snapshot
sort_snapshots le [] = []
sort_snapshots le (s ∷ ss) = insert_snapshot le s (sort_snapshots le ss)

-- `registry` holds the ids of the registry's providers.
unfoldable pub list_providers :
    (String → String → Bool)
    → Policy
    → (ℕ → ℕ)
    → List String
    → Breaker
    → List CircuitSnapshot × Breaker
list_providers le p clock registry b =
    let (ss, b') = snapshots p clock 0 (add_all registry b.known) b in (sort_snapshots le ss, b')

-- A call of the service from outside, or the end of a call that `execute` awaits.
pub data Event : Type 0 where
  gets_state asks starts records_success records_failure : String → Event
  resolves throws : String → Bool → Event

abbrev pub provider_of : Event → String
provider_of (gets_state id) = id
provider_of (asks id) = id
provider_of (starts id) = id
provider_of (records_success id) = id
provider_of (records_failure id) = id
provider_of (resolves id probing) = id
provider_of (throws id probing) = id

unfoldable pub apply : Policy → ℕ × Event → Breaker → Breaker
apply p (now, gets_state id) b = (get_state p now id b).1
apply p (now, asks id) b = (can_request p now id b).1
apply p (now, starts id) b = (execute_start p now id b).1
apply p (now, records_success id) b = record_success id b
apply p (now, records_failure id) b = record_failure p now id b
apply p (now, resolves id probing) b = execute_ok id probing b
apply p (now, throws id probing) b = execute_error p now id probing b

-- Any interleaving of requests is a sequence of events.
unfoldable pub run : Policy → List (ℕ × Event) → Breaker → Breaker
run p [] b = b
run p (e ∷ es) b = run p es (apply p e b)
