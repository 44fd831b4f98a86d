-- ===== src/Routing/Tests.antt =====
-- Concrete runs of the routing, and the theorems at concrete inputs.
use mathlib.Core.List.{Memᴰ}
use ms_gatgeway_llm.Base.{
  ℕ, suc, ◌*◌, ◌<◌, ◌≤◌, ◌≡◌, refl, ◌≢◌, String, Bool, true, false, List, [], ◌∷◌, map, Perm, none,
  some, arith, get, range, sum, take, ◌==◌, string_key, if◌then◌else◌, eq_iff,
}
use ms_gatgeway_llm.Providers.{ResolvedModel, primary, round_robin, weighted, priority_grouped}
use ms_gatgeway_llm.Resilience.{new_breaker, circuit_of, records_failure}
use ms_gatgeway_llm.Resilience.Tests.{runs, policy, tripped}
use ms_gatgeway_llm.Routing.Strategy.{
  Random, walk_forward_from, effective_at, effective, first_above, sample_weighted_index, Ranked,
  ranked_from, not_after, insert_ranked, sort_ranked, order_of, pick_order,
}
use ms_gatgeway_llm.Routing.Cursor.{RoundRobinCursor, current, next}
use ms_gatgeway_llm.Routing.Service.{
  resolved, threw, RouteAttempt, attempt_ok, attempt_failed, routed, Turn, alias_weights_for,
  settle, executed, checked, attempt, proceed, walk, route,
}
use ms_gatgeway_llm.Routing.Order.{IsGrouped, pick_order-IsGrouped}
use ms_gatgeway_llm.Routing.Sampling.{sample_weighted_index_lem}
use ms_gatgeway_llm.Routing.Rotation.{served, served-perm}
use ms_gatgeway_llm.Routing.Outcome.{RouteSpec, route-RouteSpec}
use ms_gatgeway_llm.Routing.Availability.{IsNotFrom, route-IsNotFrom}
use ms_gatgeway_llm.Routing.Healthy.{route_answers}

routing : Unit {0}
unfolding runs walk_forward_from effective_at effective first_above sample_weighted_index
    ranked_from not_after insert_ranked sort_ranked order_of pick_order current next
    alias_weights_for settle executed checked attempt proceed walk route
routing = tt

abbrev entry : String → ℕ → ResolvedModel
entry provider_id priority = record {
  requested_as = "coder";
  provider_id = provider_id;
  model_key = "m";
  upstream_model = "m";
  api_key = "key";
  base_url = "https://example.org/v1";
  overrides = record { max_tokens = none; disable_thinking = none };
  supports_stream = true;
  timeout_ms = 1000;
  priority = priority;
}

abbrev chain : List ResolvedModel
chain = entry "nan" 1 ∷ entry "openai" 0 ∷ entry "local" 1 ∷ []

abbrev half : Random
half = record { num = 1; den = 2 }

abbrev start : RoundRobinCursor
start = record { cursors = ("coder", 4) ∷ [] }

-- The call of "nan" throws; the others resolve.  Another request reports a failure meanwhile.
abbrev turns : ℕ → ResolvedModel → Turn ℕ String
turns k m = record {
  start = 50;
  check_at = 50;
  execute_at = 50;
  meanwhile = (51, records_failure "other") ∷ [];
  done_at = 52;
  end_at = 53;
  outcome = if m.provider_id == "nan" then threw "timeout" else resolved k;
}

abbrev never : String → Bool
never e = false

orders :
    ((pick_order round_robin chain (next "coder" 3) [] half start).0 ≡ 1 ∷ 2 ∷ 0 ∷ [])
    × ((pick_order weighted chain (next "coder" 3) (1 ∷ 5 ∷ 1 ∷ []) half start).0 ≡ 1 ∷ 2 ∷ 0 ∷ [])
    × ((pick_order priority_grouped chain (next "coder" 3) [] half start).0 ≡ 1 ∷ 0 ∷ 2 ∷ [])
unfolding routing
orders = (refl, refl, refl)

fallback_test :
    (route never policy turns "coder" chain primary [] half start new_breaker).0
    ≡ routed 1 "openai"
        (attempt_failed "nan" "m" false (some "timeout") 3 ∷ attempt_ok "openai" "m" 3 ∷ [])
unfolding routing
fallback_test = refl

skip_test :
    (route never policy turns "coder" chain primary [] half start tripped).0
    ≡ routed 1 "openai" (attempt_failed "nan" "m" true none 3 ∷ attempt_ok "openai" "m" 3 ∷ [])
unfolding routing
skip_test = refl

sample_weighted_index_lem_example :
    (sample_weighted_index half (1 ∷ 5 ∷ 1 ∷ []) 3 < 3)
    × (sum (take (sample_weighted_index half (1 ∷ 5 ∷ 1 ∷ []) 3) (effective (1 ∷ 5 ∷ 1 ∷ []) 3)) * 2
        ≤ 1 * sum (effective (1 ∷ 5 ∷ 1 ∷ []) 3))
    × (1 * sum (effective (1 ∷ 5 ∷ 1 ∷ []) 3)
        < sum (
            take
              (suc (sample_weighted_index half (1 ∷ 5 ∷ 1 ∷ []) 3))
              (effective (1 ∷ 5 ∷ 1 ∷ []) 3))
          * 2)
sample_weighted_index_lem_example =
    sample_weighted_index_lem half (1 ∷ 5 ∷ 1 ∷ []) 3 (omega arith) (omega arith)

pick_order-IsGrouped_example :
    (l : List Ranked) × (pick_order priority_grouped chain (next "coder" 3) [] half start
      ≡ (map (λ p. p.idx) l, start))
    × IsGrouped l
    × Perm l (ranked_from 0 chain)
pick_order-IsGrouped_example = pick_order-IsGrouped chain (next "coder" 3) [] half start

served-perm_example :
    Perm (served "coder" (("coder", 2) ∷ ("cheap", 3) ∷ ("coder", 2) ∷ []) start) (range 2)
served-perm_example =
    served-perm "coder" 2 (("coder", 2) ∷ ("cheap", 3) ∷ ("coder", 2) ∷ []) start (omega arith)
      ((λ h. refl), ((λ h. cc), ((λ h. refl), tt))) refl

route-RouteSpec_example :
    RouteSpec chain (route never policy turns "coder" chain primary [] half start tripped).0
route-RouteSpec_example =
    route-RouteSpec never policy turns "coder" chain primary [] half start tripped (omega arith)

route-IsNotFrom_example :
    IsNotFrom "nan" (route never policy turns "coder" chain primary [] half start tripped).0
unfolding circuit_of get
route-IsNotFrom_example =
    route-IsNotFrom never policy 20 "nan" turns "coder" chain primary [] half start tripped refl
      refl (λ k m. omega arith)

not_openai : ◌≢◌ {A = String} "other" "openai"
not_openai = ground (arith, eq_iff "other" "openai")

route_answers_example :
    (r : ℕ) × (provider_id : String) × (attempts : List (RouteAttempt String)) × ((route never
        policy turns "coder" chain primary [] half start new_breaker).0
      ≡ routed r provider_id attempts)
unfolding circuit_of get new_breaker
route_answers_example =
    route_answers never policy "openai" turns "coder" chain (entry "openai" 0) primary [] half start
      new_breaker (omega arith) (∣ Memᴰ.tail (Memᴰ.head refl) ∣₁) refl refl
      (λ k m. (((λ f. not_openai f.1), tt), λ same. (k, rw same)))
