-- ===== src/Ratelimit/Window.antt =====
-- A plain description of a sliding window, and counting in sorted sets.
use ms_gatgeway_llm.Base.{
  ℕ, suc, ◌-◌, ◌≤◌, ◌<◌, ◌≡◌, refl, String, Bool, true, false, not, none, List, [], ◌∷◌, length,
  filter, Dict, get, put, ltb, leb, string_key, ltb→lt, if◌then◌else◌, arith,
}
use ms_gatgeway_llm.Ratelimit.Limiter.{within}

-- How many of the instants are `w` or later.
abbrev pub since : ℕ → List ℕ → ℕ
since w times = length (filter (leb w) times)

pub record Hit : Type 0 where
  pub at : ℕ
  pub member : String

-- The description: a request is granted exactly if fewer than `limit` were granted in the 60 seconds
-- before it. The instants of the granted ones, the latest first.
unfoldable pub grants : ℕ → List Hit → List ℕ → List ℕ
grants limit [] granted = granted
grants limit (h ∷ hits) granted =
    grants limit hits (if ltb (since (h.at - 60000) granted) limit then h.at ∷ granted else granted)

abbrev pub later : ℕ → Dict String ℕ → ℕ
later w d = length (filter (λ m. leb w m.1) d)

pub later-filter :
    (w high : ℕ) (d : Dict String ℕ)
    → high < w
    → later w (filter (λ m. not (within 0 high m)) d) ≡ later w d
later-filter w high [] h = refl
later-filter w high ((m, n) ∷ d) h = let k = later-filter w high d h in ground arith

pub length-filter :
    (high : ℕ) (d : Dict String ℕ)
    → length (filter (λ m. not (within 0 high m)) d)
      ≡ later (suc high) (filter (λ m. not (within 0 high m)) d)
length-filter high [] = refl
length-filter high ((m, n) ∷ d) = let k = length-filter high d in ground arith

pub later-zero : (d : Dict String ℕ) → length d ≡ later 0 d
later-zero [] = refl
later-zero ((m, n) ∷ d) = let k = later-zero d in ground arith

pub later-put :
    (w n : ℕ) (member : String) (d : Dict String ℕ)
    → get member d ≡ none
    → later w (put member n d) ≡ (if leb w n then suc (later w d) else later w d)
unfolding get put
later-put w n member [] h = ground arith
later-put w n member ((m, k) ∷ d) h = let e = later-put w n member d in ground arith

pub get-filter :
    (member : String) (p : String × ℕ → Bool) (d : Dict String ℕ)
    → get member d ≡ none
    → get member (filter p d) ≡ none
unfolding get
get-filter member p [] h = refl
get-filter member p ((m, n) ∷ d) h = let e = get-filter member p d in ground arith

-- At each granted instant, no more than `limit` were granted in the 60 seconds up to it.
abbrev pub IsBounded : ℕ → List ℕ → Type 0
IsBounded limit [] = Unit
IsBounded limit (t ∷ granted) = (since (t - 60000) (t ∷ granted) ≤ limit) × IsBounded limit granted

pub since-cons :
    (w t : ℕ) (granted : List ℕ)
    → since w (t ∷ granted) ≡ (if leb w t then suc (since w granted) else since w granted)
since-cons w t granted = ground arith

pub grants-IsBounded :
    (limit : ℕ) (hits : List Hit) (granted : List ℕ)
    → IsBounded limit granted
    → IsBounded limit (grants limit hits granted)
unfolding grants
grants-IsBounded limit [] granted h = h
grants-IsBounded limit (x ∷ hits) granted h =
    grants-IsBounded limit hits _ (go (ltb (since (x.at - 60000) granted) limit) refl)
  where
    go :
        (b : Bool)
        → ltb (since (x.at - 60000) granted) limit ≡ b
        → IsBounded limit (if b then x.at ∷ granted else granted)
    go true e =
        let k = ltb→lt (since (x.at - 60000) granted) limit e in
        let c = since-cons (x.at - 60000) x.at granted in (ground arith, h)
    go false e = h
