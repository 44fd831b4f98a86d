-- ===== src/Routing/Rotation.antt =====
-- The rotation that the cursor gives to one key, whatever the other keys do.
use native.Mathlib.Nat.{mod-add-mod, mod-lt, mod-mod, add-mod_right}
use ms_gatgeway_llm.Base.{
  ℕ, zero, suc, ◌+◌, ◌%◌, ◌<◌, ◌≡◌, refl, ap, ◌∙◌, inl, inr, String, true, false, List, [], ◌∷◌,
  map, Perm, if◌then◌else◌, ◌==◌, string_key, get-put, ==_refl, ==→eq, Bool-cases, range,
  range_from, arith,
}
use ms_gatgeway_llm.Routing.Cursor.{RoundRobinCursor, current, next}
use ms_gatgeway_llm.Routing.Strategy.{walk_forward_from}
use ms_gatgeway_llm.Routing.Order.{walk_forward_from-perm}

-- The answers that a key gets in a sequence of calls `next(key, length)`.
unfoldable pub served : String → List (String × ℕ) → RoundRobinCursor → List ℕ
served key [] c = []
served key ((k, n) ∷ calls) c =
    let (i, c') = next k n c in
    let rest = served key calls c' in if k == key then i ∷ rest else rest

abbrev pub calls_for : String → List (String × ℕ) → ℕ
calls_for key [] = 0
calls_for key ((k, n) ∷ calls) = (if k == key then 1 else 0) + calls_for key calls

-- The chain of `key` has `n` entries at each of its calls.
abbrev pub HasLength : String → ℕ → List (String × ℕ) → Type 0
HasLength key n [] = Unit
HasLength key n ((k, m) ∷ calls) = ((k == key) ≡ true → m ≡ n) × HasLength key n calls

next_self :
    (key : String) (n : ℕ) (c : RoundRobinCursor)
    → 0 < n
    → ((next key n c).0 ≡ current key c % n) × (current key (next key n c).1 ≡ current key c + 1)
unfolding next current
next_self key n c h =
    let e : (current key c % n + n) % n ≡ current key c % n =
      add-mod_right (current key c % n) n ∙ mod-mod (current key c) n in
    let f = get-put key key (current key c + 1) c.cursors in
    let g = ==_refl key in (ground arith, ground arith)

next_other :
    (k key : String) (n : ℕ) (c : RoundRobinCursor)
    → (k == key) ≡ false
    → current key (next k n c).1 ≡ current key c
unfolding next current
next_other k key n c h = let f = get-put k key (current k c + 1) c.cursors in ground arith

served-eq :
    (key : String) (n : ℕ) (calls : List (String × ℕ)) (c : RoundRobinCursor)
    → 0 < n
    → HasLength key n calls
    → served key calls c ≡ map (λ i. i % n) (range_from (current key c) (calls_for key calls))
unfolding served
served-eq key n [] c h l = refl
served-eq key n ((k, m) ∷ calls) c h (l, ls) = elim (Bool-cases (k == key)) [
  | inl own ↦
      let (now, later) = next_self key n c h in
      let one : 1 + calls_for key calls ≡ suc (calls_for key calls) = omega arith in
      let then' : current key c + 1 ≡ suc (current key c) = omega arith in
      rw (
        own,
        ==→eq k key own,
        l own,
        one,
        served-eq key n calls (next key n c).1 h ls,
        now,
        later,
        then',
      )
  | inr other ↦
      let none' : 0 + calls_for key calls ≡ calls_for key calls = omega arith in
      rw (other, none', served-eq key n calls (next k m c).1 h ls, next_other k key m c other)
]

shift_walk :
    (a n j k : ℕ)
    → map (λ i. i % n) (range_from (a + j) k) ≡ map (λ i. (a % n + i) % n) (range_from j k)
shift_walk a n j zero = refl
shift_walk a n j (suc k) =
    let e : suc (a + j) ≡ a + suc j = omega arith in
    rw (mod-add-mod a n j, e, shift_walk a n (suc j) k)

-- The rotation is fair: among any calls of the cursor, if the chain of `key` has `n` entries at
-- each call for `key`, and there are `n` such calls, then they are given each position of the
-- chain exactly once, however calls for other keys (with chains of any length) are mixed in and
-- wherever the cursor stood.
pub served-perm :
    (key : String) (n : ℕ) (calls : List (String × ℕ)) (c : RoundRobinCursor)
    → 0 < n
    → HasLength key n calls
    → calls_for key calls ≡ n
    → Perm (served key calls c) (range n)
served-perm key n calls c h l count =
    let e : current key c ≡ current key c + 0 = omega arith in
    let f : map (λ i. i % n) (range_from (current key c) n)
        ≡ walk_forward_from (current key c % n) n =
      ap (λ a. map (λ i. i % n) (range_from a n)) e
      ∙ shift_walk (current key c) n 0 n
      ∙ unfold walk_forward_from in refl in
    rw (served-eq key n calls c h l, count, f)
      (walk_forward_from-perm (current key c % n) n (mod-lt (current key c) h))
