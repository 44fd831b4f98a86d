-- ===== src/Base/Lists.antt =====
-- Lists measured by native numbers, and predicates on all entries.
use Prim.Native.Nat.{ℕ, zero, suc, ◌+◌}
use mathlib.Core.Path.{◌≡◌, refl, ap}
use mathlib.Core.Bool.{Bool, true, false, not, ◌&&◌, ◌||◌}
use mathlib.Core.Option.{Option, none, some}
use mathlib.Core.List.{List, [], ◌∷◌, ◌++◌, map}
use native.Mathlib.Omega.{arith}
use mathlib.Core.Logic.{inl, inr}
use ms_gatgeway_llm.Base.Tests.{Key, ◌==◌, if◌then◌else◌, Bool-cases, ==→eq, ==_refl}

module _ {ℓ} {A : Type ℓ} where
  abbrev pub length : List A → ℕ
  length [] = 0
  length (x ∷ xs) = suc (length xs)

  abbrev pub get_elem? : List A → ℕ → Option A
  get_elem? [] i = none
  get_elem? (x ∷ xs) zero = some x
  get_elem? (x ∷ xs) (suc i) = get_elem? xs i

  abbrev pub all : (A → Bool) → List A → Bool
  all p [] = true
  all p (x ∷ xs) = p x && all p xs

  -- The entries that a Boolean test keeps.
  abbrev pub filter : (A → Bool) → List A → List A
  filter p [] = []
  filter p (x ∷ xs) = if p x then x ∷ filter p xs else filter p xs

  pub length-append : (xs ys : List A) → length (xs ++ ys) ≡ length xs + length ys
  length-append [] ys = omega arith
  length-append (x ∷ xs) ys = omega (arith, length-append xs ys)

module _ {ℓ κ} {A : Type ℓ} (P : A → Type κ) where
  abbrev pub All : List A → Type κ
  All [] = Unit
  All (x ∷ xs) = P x × All xs

  pub All-append : (xs ys : List A) → All xs → All ys → All (xs ++ ys)
  All-append [] ys _ k = k
  All-append (x ∷ xs) ys (p, h) k = (p, All-append xs ys h k)

-- a, a + 1, … : k numbers.
abbrev pub range_from : ℕ → ℕ → List ℕ
range_from a zero = []
range_from a (suc k) = a ∷ range_from (suc a) k

abbrev pub range : ℕ → List ℕ
range n = range_from 0 n

abbrev pub sum : List ℕ → ℕ
sum [] = 0
sum (x ∷ xs) = x + sum xs

module _ {ℓ} {A : Type ℓ} where
  abbrev pub take : ℕ → List A → List A
  take zero xs = []
  take (suc n) [] = []
  take (suc n) (x ∷ xs) = x ∷ take n xs

  abbrev pub replicate : ℕ → A → List A
  replicate zero a = []
  replicate (suc n) a = a ∷ replicate n a

  -- A write out of bounds changes nothing.
  abbrev pub set : List A → ℕ → A → List A
  set [] i v = []
  set (x ∷ xs) zero v = v ∷ xs
  set (x ∷ xs) (suc i) v = x ∷ set xs i v

module _ {ℓ κ} {A : Type ℓ} {B : Type κ} where
  pub length-map : (f : A → B) (xs : List A) → length (map f xs) ≡ length xs
  length-map f [] = refl
  length-map f (x ∷ xs) = ap suc (length-map f xs)

pub length-range_from : (a k : ℕ) → length (range_from a k) ≡ k
length-range_from a zero = refl
length-range_from a (suc k) = ap suc (length-range_from (suc a) k)

pub range_from-append : (a k l : ℕ) → range_from a (k + l) ≡ range_from a k ++ range_from (a + k) l
range_from-append a zero l =
    let e : 0 + l ≡ l = omega arith in let f : a + 0 ≡ a = omega arith in rw (e, f)
range_from-append a (suc k) l =
    let e : suc k + l ≡ suc (k + l) = omega arith in
    let f : a + suc k ≡ suc a + k = omega arith in rw (e, f, range_from-append (suc a) k l)

module _ {ℓ} {A : Type ℓ} (p : A → Bool) where
  pub all-filter : (xs : List A) → all p (filter p xs) ≡ true
  all-filter [] = refl
  all-filter (x ∷ xs) = go (p x) refl (all-filter xs)
    where
      go :
          (b : Bool)
          → p x ≡ b
          → all p (filter p xs) ≡ true
          → all p (if b then x ∷ filter p xs else filter p xs) ≡ true
      go true e h = rw e h
      go false e h = h

  pub filter-of_all : (xs : List A) → all p xs ≡ true → filter p xs ≡ xs
  filter-of_all [] h = refl
  filter-of_all (x ∷ xs) h = let k = filter-of_all xs in ground arith

  pub filter-of_none : (xs : List A) → all (λ x. not (p x)) xs ≡ true → filter p xs ≡ []
  filter-of_none [] h = refl
  filter-of_none (x ∷ xs) h = let k = filter-of_none xs in ground arith

  pub all-of_filter : (xs : List A) → filter p xs ≡ [] → all (λ x. not (p x)) xs ≡ true
  all-of_filter [] h = refl
  all-of_filter (x ∷ xs) h = let k = all-of_filter xs in ground arith

-- `Set.has`, over a list.
unfoldable pub contains {ℓ} : {K : Type ℓ} ⦃e : Key K⦄ → List K → K → Bool
contains [] k = false
contains (j ∷ ks) k = j == k || contains ks k

module _ {ℓ} {K : Type ℓ} ⦃e : Key K⦄ where
  pub contains-append :
      (ks js : List K) (k : K) → contains (ks ++ js) k ≡ (contains ks k || contains js k)
  unfolding contains
  contains-append [] js k = refl
  contains-append (a ∷ ks) js k = let ih = contains-append ks js k in ground arith

  pub contains-filter :
      (p : K → Bool) (ks : List K) (k : K) → contains (filter p ks) k ≡ (contains ks k && p k)
  unfolding contains
  contains-filter p [] k = refl
  contains-filter p (a ∷ ks) k =
      let ih = contains-filter p ks k in
      elim (Bool-cases (a == k)) [
        | inl h ↦ let same = ap p (==→eq a k h) in ground arith
        | inr h ↦ ground arith
      ]

  -- What holds of every member holds of all.
  pub all-contained :
      (p : K → Bool) (ks : List K) → ((k : K) → contains ks k ≡ true → p k ≡ true) → all p ks ≡ true
  unfolding contains
  all-contained p [] h = refl
  all-contained p (a ∷ ks) h =
      let first = h a (ground (arith, ==_refl a)) in
      let rest = all-contained p ks (λ k m. h k (ground arith)) in ground arith

module _ {ℓ} {A : Type ℓ} where
  pub filter-ext :
      (p q : A → Bool) (xs : List A) → ((x : A) → p x ≡ q x) → filter p xs ≡ filter q xs
  filter-ext p q [] h = refl
  filter-ext p q (x ∷ xs) h = let ih = filter-ext p q xs h in let e = h x in ground arith

  pub filter-append :
      (p : A → Bool) (xs ys : List A) → filter p (xs ++ ys) ≡ filter p xs ++ filter p ys
  filter-append p [] ys = refl
  filter-append p (x ∷ xs) ys = let ih = filter-append p xs ys in ground arith
