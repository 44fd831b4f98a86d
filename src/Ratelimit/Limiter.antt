-- ===== src/Ratelimit/Limiter.antt =====
-- The sliding window, src/ratelimit/redis-rate-limiter.service.ts, and the guard of
-- src/ratelimit/rate-limit.guard.ts. Redis is an interface: the commands that are used, with what its
-- documentation says of them. Its dropping of a key 65 seconds after the last EXPIRE needs no command
-- of its own: all entries are then older than those that the next ZREMRANGEBYSCORE removes.
use ms_gatgeway_llm.Base.{
  ℕ, suc, ◌+◌, ◌-◌, ◌/◌, max, ◌≡◌, String, Bool, true, false, not, ◌&&◌, Option, none, some, length,
  filter, Dict, put, ltb, leb, nat_eq, string_key, if◌then◌else◌, or_else,
}

-- The sorted set of a key, by its members, with their scores.
pub record Redis (S : Type 0) : Type 0 where
  pub zremrangebyscore : String → ℕ → ℕ → S → S
  pub zcard : String → S → ℕ
  pub zadd : String → ℕ → String → S → S
  pub expire : String → ℕ → S → S

abbrev pub within : ℕ → ℕ → String × ℕ → Bool
within low high (member, score) = leb low score && leb score high

pub record IsRedis {S : Type 0} (r : Redis S) : Type 0 where
  pub members : String → S → Dict String ℕ
  pub zremrangebyscore_law :
      (key : String) (low high : ℕ) (s : S)
      → members key (r.zremrangebyscore key low high s)
        ≡ filter (λ m. not (within low high m)) (members key s)
  pub zcard_law : (key : String) (s : S) → r.zcard key s ≡ length (members key s)
  pub zadd_law :
      (key : String) (score : ℕ) (member : String) (s : S)
      → members key (r.zadd key score member s) ≡ put member score (members key s)
  pub expire_law :
      (key : String) (seconds : ℕ) (s : S) → members key (r.expire key seconds s) ≡ members key s

abbrev pub window_ms : ℕ
window_ms = 60000

pub record RateLimitResult : Type 0 where
  pub allowed : Bool
  pub current : ℕ
  pub limit : ℕ
  pub retry_after_ms : Option ℕ

abbrev pub fail_open : ℕ → RateLimitResult
fail_open limit = record { allowed = true; current = 0; limit = limit; retry_after_ms = none }

-- `readOldestScore` answers `undefined`.
abbrev pub denied : ℕ → ℕ → RateLimitResult
denied limit current = record {
  allowed = false;
  current = current;
  limit = limit;
  retry_after_ms = some window_ms;
}

-- Which of a request's commands throws, counted from 0.
abbrev pub throws_at : Option ℕ → ℕ → Bool
throws_at none i = false
throws_at (some j) i = nat_eq j i

module _ {S : Type 0} (r : Redis S) (key : String) (limit now : ℕ) (member : String) where
  -- The range ends at `now - 60001`: before that instant it is empty.
  abbrev pub drop_stale : S → S
  drop_stale s = if ltb now 60001 then s else r.zremrangebyscore key 0 (now - 60001) s

  unfoldable pub record_hit : Option ℕ → ℕ → S → S × RateLimitResult
  record_hit failure current s =
      if throws_at failure 2
      then (s, fail_open limit)
      else let added = r.zadd key now member s in
        if throws_at failure 3 then (added, fail_open limit) else (
          r.expire key 65 added,
          record { allowed = true; current = suc current; limit = limit; retry_after_ms = none },
        )

  unfoldable pub decide : Option ℕ → S → S × RateLimitResult
  decide failure s =
      let current = r.zcard key s in
      if leb limit current then (s, denied limit current) else record_hit failure current s

  unfoldable pub allow_request : Option ℕ → S → S × RateLimitResult
  allow_request failure s =
      if throws_at failure 0
      then (s, fail_open limit)
      else let kept = drop_stale s in
        if throws_at failure 1 then (kept, fail_open limit) else decide failure kept

-- How the guard ends: the request passes, or 429 with `Retry-After` in seconds.
pub data Activation : Type 0 where
  passes : Activation
  too_many_requests : (retry_after : ℕ) → Activation

unfoldable pub can_activate : RateLimitResult → Activation
can_activate result =
    if result.allowed
    then passes
    else too_many_requests (max 1 ((or_else result.retry_after_ms 60000 + 999) / 1000))
