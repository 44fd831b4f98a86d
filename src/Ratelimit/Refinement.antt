-- ===== src/Ratelimit/Refinement.antt =====
-- The limiter against the plain description of a sliding window.
use ms_gatgeway_llm.Base.{
  ℕ, suc, ◌+◌, ◌-◌, ◌≤◌, ◌≡◌, refl, sym, ap, ◌∙◌, subst, String, Bool, true, false, none, List, [],
  ◌∷◌, length, get, ltb, leb, string_key, if◌then◌else◌, arith,
}
use ms_gatgeway_llm.Ratelimit.Limiter.{
  Redis, IsRedis, RateLimitResult, denied, drop_stale, record_hit, decide, allow_request,
}
use ms_gatgeway_llm.Ratelimit.Window.{
  since, Hit, grants, later, later-filter, length-filter, later-zero, later-put, get-filter,
  since-cons, IsBounded, grants-IsBounded,
}

module _ {S : Type 0} (r : Redis S) (i : IsRedis r) (key : String) (limit : ℕ) where
  abbrev dropped : ℕ → String → S → S
  dropped now member s = drop_stale r key limit now member s

  drop-later :
      (now w : ℕ) (member : String) (s : S)
      → now ≤ w + 60000
      → later w (i.members key (dropped now member s)) ≡ later w (i.members key s)
  drop-later now w member s h = go (ltb now 60001) refl
    where
      go :
          (b : Bool)
          → ltb now 60001 ≡ b
          → later w (i.members key (if b then s else r.zremrangebyscore key 0 (now - 60001) s))
            ≡ later w (i.members key s)
      go true e = refl
      go false e =
          ap (later w) (i.zremrangebyscore_law key 0 (now - 60001) s)
          ∙ later-filter w (now - 60001) (i.members key s) (ground arith)

  drop-length :
      (now : ℕ) (member : String) (s : S)
      → length (i.members key (dropped now member s))
        ≡ later (now - 60000) (i.members key (dropped now member s))
  drop-length now member s = go (ltb now 60001) refl
    where
      go :
          (b : Bool)
          → ltb now 60001 ≡ b
          → let d = i.members key (if b then s else r.zremrangebyscore key 0 (now - 60001) s) in
            length d ≡ later (now - 60000) d
      go true e = let z : now - 60000 ≡ 0 = ground arith in rw z (later-zero (i.members key s))
      go false e =
          let z : now - 60000 ≡ suc (now - 60001) = ground arith in
          rw (i.zremrangebyscore_law key 0 (now - 60001) s, z)
            (length-filter (now - 60001) (i.members key s))

  drop-fresh :
      (now : ℕ) (member : String) (s : S)
      → get member (i.members key s) ≡ none
      → get member (i.members key (dropped now member s)) ≡ none
  drop-fresh now member s h = go (ltb now 60001)
    where
      go :
          (b : Bool)
          → get member (i.members key (if b then s else r.zremrangebyscore key 0 (now - 60001) s))
            ≡ none
      go true = h
      go false =
          rw (i.zremrangebyscore_law key 0 (now - 60001) s)
            (get-filter member _ (i.members key s) h)

  -- The sorted set has the granted instants of the last window.
  abbrev Agrees : ℕ → List ℕ → S → Type 0
  Agrees t granted s = (w : ℕ) → t ≤ w + 60000 → since w granted ≡ later w (i.members key s)

  abbrev fits : ℕ → List ℕ → Bool
  fits now granted = ltb (since (now - 60000) granted) limit

  allow_request_lem :
      (t now : ℕ) (member : String) (s : S) (granted : List ℕ)
      → t ≤ now
      → Agrees t granted s
      → get member (i.members key s) ≡ none
      → let (after, result) = allow_request r key limit now member none s in
        (result.allowed ≡ fits now granted)
        × Agrees now (if fits now granted then now ∷ granted else granted) after
  unfolding allow_request decide record_hit
  allow_request_lem t now member s granted h a f = go (leb limit (r.zcard key kept)) refl
    where
      kept : S
      kept = dropped now member s

      counted : r.zcard key kept ≡ since (now - 60000) granted
      counted =
          i.zcard_law key kept
          ∙ (drop-length now member s
              ∙ (drop-later now (now - 60000) member s (omega arith)
                  ∙ sym (a (now - 60000) (omega (arith, h)))))

      keeps : (w : ℕ) → now ≤ w + 60000 → since w granted ≡ later w (i.members key kept)
      keeps w k = a w (omega (arith, h, k)) ∙ sym (drop-later now w member s k)

      added : S
      added = r.expire key 65 (r.zadd key now member kept)

      adds : (w : ℕ) → now ≤ w + 60000 → since w (now ∷ granted) ≡ later w (i.members key added)
      adds w k =
          since-cons w now granted
          ∙ (rw (keeps w k)
                (sym (later-put w now member (i.members key kept) (drop-fresh now member s f)))
              ∙ sym (
                  ap (later w) (
                    i.expire_law key 65 (r.zadd key now member kept)
                    ∙ i.zadd_law key now member kept)))

      Step : Bool → S × RateLimitResult → Type 0
      Step b x = (x.1.allowed ≡ b) × Agrees now (if b then now ∷ granted else granted) x.0

      go :
          (b : Bool)
          → leb limit (r.zcard key kept) ≡ b
          → Step (fits now granted) (
              if b
              then (kept, denied limit (r.zcard key kept))
              else record_hit r key limit now member none (r.zcard key kept) kept)
      go true e =
          let k : fits now granted ≡ false = ground (arith, counted) in
          subst (λ b. Step b (kept, denied limit (r.zcard key kept))) (sym k) (refl, keeps)
      go false e =
          let k : fits now granted ≡ true = ground (arith, counted) in
          subst (λ b. Step b (record_hit r key limit now member none (r.zcard key kept) kept))
            (sym k) (refl, adds)

  -- The requests of a client, one after the other; Redis works.
  unfoldable pub after_hits : List Hit → S → List ℕ → List ℕ
  after_hits [] s granted = granted
  after_hits (x ∷ hits) s granted =
      let (after, result) = allow_request r key limit x.at x.member none s in
      after_hits hits after (if result.allowed then x.at ∷ granted else granted)

  -- The clock does not run back, and the member's random part makes it new.
  unfoldable pub IsHistory : ℕ → S → List Hit → Type 0
  IsHistory t s [] = Unit
  IsHistory t s (x ∷ hits) =
      (t ≤ x.at)
      × (get x.member (i.members key s) ≡ none)
      × IsHistory x.at (allow_request r key limit x.at x.member none s).0 hits

  after_hits-grants :
      (hits : List Hit) (t : ℕ) (s : S) (granted : List ℕ)
      → Agrees t granted s
      → IsHistory t s hits
      → after_hits hits s granted ≡ grants limit hits granted
  unfolding after_hits IsHistory grants
  after_hits-grants [] t s granted a h = refl
  after_hits-grants (x ∷ hits) t s granted a (k, f, h) =
      let (e, b) = allow_request_lem t x.at x.member s granted k a f in
      rw e (
        after_hits-grants hits x.at (allow_request r key limit x.at x.member none s).0
          (if fits x.at granted then x.at ∷ granted else granted) b h)

  -- The limiter over Redis is the sliding window: of requests that come one after the other, each with
  -- a new member and none earlier than the one before, from an empty set on and while Redis works, exactly those are allowed that come when fewer than the limit
  -- were allowed in the 60 seconds before; so that in no 60 seconds up to an allowed request more than
  -- the limit are allowed.
  pub allow_request-grants :
      (hits : List Hit) (s : S)
      → i.members key s ≡ []
      → IsHistory 0 s hits
      → (after_hits hits s [] ≡ grants limit hits []) × IsBounded limit (after_hits hits s [])
  allow_request-grants hits s e h =
      let same = after_hits-grants hits 0 s [] (λ w k. rw e refl) h in
      (same, subst (IsBounded limit) (sym same) (grants-IsBounded limit hits [] tt))
