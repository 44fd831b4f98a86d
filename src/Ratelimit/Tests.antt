-- ===== src/Ratelimit/Tests.antt =====
-- The limiter over a sorted set in memory, and the theorem at a burst of requests.
use ms_gatgeway_llm.Base.{
  ℕ, ◌≡◌, refl, String, not, some, List, [], ◌∷◌, length, filter, Dict, get, put, string_key, arith,
}
use ms_gatgeway_llm.Ratelimit.Limiter.{
  Redis, IsRedis, within, denied, fail_open, record_hit, decide, allow_request, too_many_requests,
  passes, can_activate,
}
use ms_gatgeway_llm.Ratelimit.Window.{Hit, grants, IsBounded}
use ms_gatgeway_llm.Ratelimit.Refinement.{after_hits, IsHistory, allow_request-grants}

-- One client's set.
abbrev memory : Redis (Dict String ℕ)
memory = record {
  zremrangebyscore = λ key low high s. filter (λ m. not (within low high m)) s;
  zcard = λ key s. length s;
  zadd = λ key score member s. put member score s;
  expire = λ key seconds s. s;
}

abbrev memory-IsRedis : IsRedis memory
memory-IsRedis = record {
  members = λ key s. s;
  zremrangebyscore_law = λ key low high s. refl;
  zcard_law = λ key s. refl;
  zadd_law = λ key score member s. refl;
  expire_law = λ key seconds s. refl;
}

abbrev empty_set : Dict String ℕ
empty_set = []

abbrev burst : List Hit
burst =
    record { at = 1000; member = "a" }
    ∷ record { at = 1000; member = "b" }
    ∷ record { at = 2000; member = "c" }
    ∷ record { at = 61000; member = "d" }
    ∷ record { at = 61001; member = "e" }
    ∷ []

limiter : Unit {0}
unfolding get put record_hit decide allow_request grants after_hits IsHistory can_activate
limiter = tt

-- Two requests in a minute: the third and, on the last millisecond of the window, the fourth wait.
burst_test :
    after_hits memory memory-IsRedis "rl:rpm:acme" 2 burst empty_set [] ≡ 61001 ∷ 1000 ∷ 1000 ∷ []
unfolding limiter
burst_test = refl

-- A failing command lets the request pass, and a denied one waits for the whole window.
failure_test :
    ((allow_request memory "rl:rpm:acme" 2 2000 "c" (some 1) (("a", 1000) ∷ ("b", 1000) ∷ [])).1
      ≡ fail_open 2)
    × (can_activate (fail_open 2) ≡ passes)
    × (can_activate (denied 2 2) ≡ too_many_requests 60)
unfolding limiter
failure_test = (refl, refl, refl)

burst-IsHistory : IsHistory memory memory-IsRedis "rl:rpm:acme" 2 0 empty_set burst
unfolding limiter
burst-IsHistory = (
  omega arith,
  refl,
  (omega arith, refl, (omega arith, refl, (omega arith, refl, (omega arith, refl, tt)))),
)

allow_request-grants_example :
    (after_hits memory memory-IsRedis "rl:rpm:acme" 2 burst empty_set [] ≡ grants 2 burst [])
    × IsBounded 2 (after_hits memory memory-IsRedis "rl:rpm:acme" 2 burst empty_set [])
allow_request-grants_example =
    allow_request-grants memory memory-IsRedis "rl:rpm:acme" 2 burst empty_set refl burst-IsHistory
