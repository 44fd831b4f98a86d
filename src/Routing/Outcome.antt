-- ===== src/Routing/Outcome.antt =====
-- What a routed request promises: every entry of the chain is tried once at most, and all of them
-- before the request fails.
use mathlib.Core.List.{
  filter_map, filter_map-cons-some, map-append, append_assoc, append-nil, Permᴰ,
}
use mathlib.Core.List.Perm
use mathlib.Core.Logic.{∥∥₁_elim}
use native.Mathlib.Bridge.{le_prop}
use native.Mathlib.Nat.{mod-lt}
use ms_gatgeway_llm.Base.{
  ℕ, zero, suc, ◌+◌, ◌<◌, ◌≡◌, refl, sym, ap, ◌∙◌, String, Bool, true, false, List, [], ◌∷◌, ◌++◌,
  map, Perm, Option, none, some, length, get_elem?, range, range_from, All, All-append, subst, ◌≤◌,
  ◌%◌, length-append, arith,
}
use ms_gatgeway_llm.Providers.{ResolvedModel, RoutingStrategy}
use ms_gatgeway_llm.Resilience.Circuit.{Policy}
use ms_gatgeway_llm.Resilience.{Breaker, can_request, execute_start, run}
use ms_gatgeway_llm.Routing.Strategy.{Random, pick_order}
use ms_gatgeway_llm.Routing.Cursor.{RoundRobinCursor, current, next}
use ms_gatgeway_llm.Routing.Order.{pick_order-perm}
use ms_gatgeway_llm.Routing.Service.{
  Outcome, resolved, threw, RouteAttempt, attempt_ok, attempt_failed, RouteEnd, routed,
  routing_failed, index_error, Turn, alias_weights_for, settle, executed, checked, attempt, proceed,
  walk, route,
}

-- Provider and upstream model: of an entry, and of an attempt.
abbrev pub key_of : ResolvedModel → String × String
key_of m = (m.provider_id, m.upstream_model)

abbrev pub tried : {E : Type 0} → RouteAttempt E → String × String
tried (attempt_ok provider_id upstream_model d) = (provider_id, upstream_model)
tried (attempt_failed provider_id upstream_model o e d) = (provider_id, upstream_model)

abbrev pub HasFailed : {E : Type 0} → RouteAttempt E → Type 0
HasFailed (attempt_ok provider_id upstream_model d) = ⊥
HasFailed (attempt_failed provider_id upstream_model o e d) = Unit

-- What the end of a request says of the chain.
abbrev pub RouteSpec : {R E : Type 0} → List ResolvedModel → RouteEnd R E → Type 0
RouteSpec {E} chain (routed r provider_id attempts) =
    (before : List (RouteAttempt E)) × (upstream_model : String) × (d : ℕ) × (untried : List
      ResolvedModel)
    × (attempts ≡ before ++ attempt_ok provider_id upstream_model d ∷ [])
    × All HasFailed before
    × Perm (map tried attempts ++ map key_of untried) (map key_of chain)
RouteSpec chain (routing_failed model attempts) =
    All HasFailed attempts × Perm (map tried attempts) (map key_of chain)
RouteSpec chain index_error = ⊥

picked : List ResolvedModel → List ℕ → List ResolvedModel
picked chain = filter_map (get_elem? chain)

-- An attempt is of its entry, and it is a success exactly if there is a result.
abbrev pub AttemptSpec : {R E : Type 0} → ResolvedModel → Option R → RouteAttempt E → Type 0
AttemptSpec m none a = (tried a ≡ key_of m) × HasFailed a
AttemptSpec m (some r) a = (d : ℕ) × (a ≡ attempt_ok m.provider_id m.upstream_model d)

get_elem?-some :
    {A : Type 0} (xs : List A) (i : ℕ) → i < length xs → (a : A) × (get_elem? xs i ≡ some a)
get_elem?-some [] i h = elim h [ ]
get_elem?-some (x ∷ xs) zero h = (x, refl)
get_elem?-some (x ∷ xs) (suc i) h = get_elem?-some xs i (omega arith)

tried_more :
    {E : Type 0} (attempts : List (RouteAttempt E)) (a : RouteAttempt E)
    (l : List (String × String))
    → map tried (attempts ++ a ∷ []) ++ l ≡ map tried attempts ++ tried a ∷ l
tried_more attempts a l = simp (map-append, append_assoc)

module _ {R E : Type 0} (is_circuit_open : E → Bool) (p : Policy) where
  settle-AttemptSpec :
      (t : Turn R E) (m : ResolvedModel) (probing : Bool) (o : Outcome R E) (b : Breaker)
      → AttemptSpec m
          (settle is_circuit_open p t m probing o b).0
          (settle is_circuit_open p t m probing o b).1
  unfolding settle
  settle-AttemptSpec t m probing (resolved r) b = (_, refl)
  settle-AttemptSpec t m probing (threw e) b = (refl, tt)

  executed-AttemptSpec :
      (t : Turn R E) (m : ResolvedModel) (x : Option Bool × Breaker)
      → AttemptSpec m (executed is_circuit_open p t m x).0 (executed is_circuit_open p t m x).1
  unfolding executed
  executed-AttemptSpec t m (none, b) = (refl, tt)
  executed-AttemptSpec t m (some probing, b) =
      settle-AttemptSpec t m probing t.outcome (run p t.meanwhile b)

  checked-AttemptSpec :
      (t : Turn R E) (m : ResolvedModel) (x : Bool × Breaker)
      → AttemptSpec m (checked is_circuit_open p t m x).0 (checked is_circuit_open p t m x).1
  unfolding checked
  checked-AttemptSpec t m (false, b) = (refl, tt)
  checked-AttemptSpec t m (true, b) =
      executed-AttemptSpec t m (execute_start p t.execute_at m.provider_id b)

  pub attempt-AttemptSpec :
      (t : Turn R E) (m : ResolvedModel) (b : Breaker)
      → AttemptSpec m (attempt is_circuit_open p t m b).0 (attempt is_circuit_open p t m b).1
  unfolding attempt
  attempt-AttemptSpec t m b = checked-AttemptSpec t m (can_request p t.check_at m.provider_id b)

  -- `todo` is what the rest of the loop would try.
  proceed-RouteSpec :
      (chain todo : List ResolvedModel)
      (rest : List (RouteAttempt E) → Breaker → RouteEnd R E × Breaker) (m : ResolvedModel)
      (attempts : List (RouteAttempt E)) (x : Option R × RouteAttempt E × Breaker)
      → AttemptSpec m x.0 x.1
      → All HasFailed attempts
      → Perm (map tried attempts ++ key_of m ∷ map key_of todo) (map key_of chain)
      → ((attempts' : List (RouteAttempt E)) (b : Breaker)
          → All HasFailed attempts'
          → Perm (map tried attempts' ++ map key_of todo) (map key_of chain)
          → RouteSpec chain (rest attempts' b).0)
      → RouteSpec chain (proceed is_circuit_open p rest m attempts x).0
  unfolding proceed
  proceed-RouteSpec chain todo rest m attempts (some r, a, b) (d, e) failed covers go = (
    attempts,
    m.upstream_model,
    d,
    todo,
    rw e,
    failed,
    rw (tried_more attempts a (map key_of todo), e) covers,
  )
  proceed-RouteSpec chain todo rest m attempts (none, a, b) (e, bad) failed covers go =
      go (attempts ++ a ∷ []) b (All-append HasFailed attempts (a ∷ []) failed (bad, tt))
        (rw (tried_more attempts a (map key_of todo), e) covers)

  walk-RouteSpec :
      (turns : ℕ → ResolvedModel → Turn R E) (model : String) (chain : List ResolvedModel) (k : ℕ)
      (order : List ℕ) (attempts : List (RouteAttempt E)) (b : Breaker)
      → All (λ i. i < length chain) order
      → All HasFailed attempts
      → Perm (map tried attempts ++ map key_of (picked chain order)) (map key_of chain)
      → RouteSpec chain (walk is_circuit_open p turns model chain k order attempts b).0
  unfolding walk picked filter_map
  walk-RouteSpec turns model chain k [] attempts b bound failed covers =
      (failed, rw append-nil at covers)
  walk-RouteSpec turns model chain k (i ∷ order) attempts b (bound, bounds) failed covers =
      let (m, e) = get_elem?-some chain i bound in
      rw (e, walk)
        (proceed-RouteSpec chain (picked chain order)
          (walk is_circuit_open p turns model chain (suc k) order) m attempts
          (attempt is_circuit_open p (turns k m) m b) (attempt-AttemptSpec (turns k m) m b) failed
          (rw (filter_map-cons-some (get_elem? chain) i order e) at covers)
          (λ attempts' b' failed' covers'.
            walk-RouteSpec turns model chain (suc k) order attempts' b' bounds failed' covers'))

filter_map-range_from :
    (before chain : List ResolvedModel)
    → filter_map (get_elem? (before ++ chain)) (range_from (length before) (length chain)) ≡ chain
unfolding filter_map
filter_map-range_from before [] = refl
filter_map-range_from before (m ∷ chain) =
    filter_map-cons-some (get_elem? (before ++ m ∷ chain)) (length before)
      (range_from (suc (length before)) (length chain)) (here before)
    ∙ ap (λ l. m ∷ l)
        (let e : suc (length before) ≡ length (before ++ m ∷ []) =
            omega (arith, length-append before (m ∷ [])) in
          let f : before ++ m ∷ chain ≡ (before ++ m ∷ []) ++ chain =
            sym (append_assoc before (m ∷ []) chain) in
          rw (e, f) (filter_map-range_from (before ++ m ∷ []) chain))
  where
    here : (xs : List ResolvedModel) → get_elem? (xs ++ m ∷ chain) (length xs) ≡ some m
    here [] = refl
    here (x ∷ xs) = here xs

-- What holds of all entries holds of all entries of a permutation.
pub All-permᴰ : {A : Type 0} (P : A → Type 0) {xs ys : List A} → Permᴰ xs ys → All P ys → All P xs
All-permᴰ P Permᴰ.nil h = tt
All-permᴰ P (Permᴰ.cons e q) (h, hs) = (subst P (sym e) h, All-permᴰ P q hs)
All-permᴰ P (Permᴰ.swap e f) (h, (k, hs)) = (subst P (sym e) k, (subst P (sym f) h, hs))
All-permᴰ P (Permᴰ.trans q r) h = All-permᴰ P q (All-permᴰ P r h)

All-prop : (n : ℕ) (xs : List ℕ) → IsProp (All (λ i. i < n) xs)
All-prop n [] = hlevel
All-prop n (x ∷ xs) = hlevel (le_prop, All-prop n xs)

All-range_from : (a k n : ℕ) → a + k ≤ n → All (λ i. i < n) (range_from a k)
All-range_from a zero n h = tt
All-range_from a (suc k) n h = (omega arith, All-range_from (suc a) k n (omega arith))

next-lt : (key : String) (n : ℕ) (c : RoundRobinCursor) → 0 < n → (next key n c).0 < n
unfolding next
next-lt key n c h = ground (arith, mod-lt (current key c % n + n) h)

-- Every request ends in one of two ways, and never by a position outside the chain, whatever the
-- strategy, the weights, the breaker, the executor and the other requests do. If it returns, the
-- last attempt is the success of the provider returned, all attempts before it failed, and no entry
-- of the chain was tried twice. If it throws `RoutingFailedError`, every attempt failed and the
-- attempts are the entries of the chain, each tried exactly once.
pub route-RouteSpec :
    {R E : Type 0} (is_circuit_open : E → Bool) (p : Policy) (turns : ℕ → ResolvedModel → Turn R E)
    (model : String) (chain : List ResolvedModel) (strategy : RoutingStrategy)
    (weights : List (ℕ × ℕ)) (r : Random) (c : RoundRobinCursor) (b : Breaker)
    → r.num < r.den
    → RouteSpec chain (route is_circuit_open p turns model chain strategy weights r c b).0
unfolding route picked filter_map
route-RouteSpec is_circuit_open p turns model [] strategy weights r c b random = (tt, Perm.nil)
route-RouteSpec is_circuit_open p turns model (m ∷ ms) strategy weights r c b random =
    walk-RouteSpec is_circuit_open p turns model chain 0 order [] b
      (∥∥₁_elim perm (All-prop (length chain) order) (λ q.
        All-permᴰ (λ i. i < length chain) q
          (All-range_from 0 (length chain) (length chain) (omega arith))))
      tt
      (Perm.map key_of (
        subst (λ l. Perm (picked chain order) l) (filter_map-range_from [] chain)
          (Perm.filter_map (get_elem? chain) perm)))
  where
    chain : List ResolvedModel
    chain = m ∷ ms

    order : List ℕ
    order =
        (pick_order strategy chain (next model (length chain))
          (alias_weights_for weights (length chain)) r c).0

    perm : Perm order (range (length chain))
    perm =
        pick_order-perm strategy chain (next model (length chain))
          (alias_weights_for weights (length chain)) r c random
          (λ h. next-lt model (length chain) c h)
