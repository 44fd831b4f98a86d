-- ===== src/Base/Split.antt =====
-- `String.prototype.split` at one character, and `slice` from the start.
use Prim.Native.Nat.{ℕ, zero, suc}
use Prim.Native.Char.{Char, code}
use Prim.Native.String.append
use Prim.Native.String.{String, ◌++◌}
use mathlib.Core.Path.{◌≡◌, refl, sym, ap, ◌∙◌}
use mathlib.Core.Bool.{Bool, true, false, ◌||◌}
use mathlib.Core.Logic.{◌≢◌, inl, inr}
use mathlib.Core.List.{List, [], ◌∷◌}
use mathlib.Core.List
use native.Mathlib.Omega.{arith}
use ms_gatgeway_llm.Base.Tests.{nat_eq, if◌then◌else◌, Bool-cases}

-- The number of a text's characters.
abbrev pub text_length : String → ℕ
text_length String.[] = 0
text_length (String.◌∷◌ c s) = suc (text_length s)

-- The first `n` characters.
abbrev pub text_take : ℕ → String → String
text_take zero s = ""
text_take (suc n) String.[] = ""
text_take (suc n) (String.◌∷◌ c s) = String.◌∷◌ c (text_take n s)

-- A character in front of the first piece.
abbrev pub longer : Char → List String → List String
longer c [] = String.◌∷◌ c String.[] ∷ []
longer c (piece ∷ pieces) = String.◌∷◌ c piece ∷ pieces

module _ (separator : Char) where
  abbrev pub is_separator : Char → Bool
  is_separator c = nat_eq (code c) (code separator)

  unfoldable pub includes : String → Bool
  includes String.[] = false
  includes (String.◌∷◌ c s) = is_separator c || includes s

  unfoldable pub split : String → List String
  split String.[] = "" ∷ []
  split (String.◌∷◌ c s) = let rest = split s in if is_separator c then "" ∷ rest else longer c rest

  neither : (a b : Bool) → (a || b) ≡ false → (a ≡ false) × (b ≡ false)
  neither a b h = ground arith

  split_at : (c : Char) (s : String) → is_separator c ≡ true → split (String.◌∷◌ c s) ≡ "" ∷ split s
  unfolding split
  split_at c s h = rw h

  split_past :
      (c : Char) (s : String) → is_separator c ≡ false → split (String.◌∷◌ c s) ≡ longer c (split s)
  unfolding split
  split_past c s h = rw h

  pub split-whole : (s : String) → includes s ≡ false → split s ≡ s ∷ []
  unfolding split includes
  split-whole String.[] h = refl
  split-whole (String.◌∷◌ c s) h =
      let (a, b) = neither (is_separator c) (includes s) h in
      split_past c s a ∙ ap (longer c) (split-whole s b)

  longer-append :
      (c : Char) (xs ys : List String)
      → xs ≢ []
      → longer c (List.◌++◌ xs ys) ≡ List.◌++◌ (longer c xs) ys
  longer-append c [] ys h = absurd (h refl)
  longer-append c (x ∷ xs) ys h = refl

  split-ne-nil : (s : String) → split s ≢ []
  unfolding split
  split-ne-nil String.[] e = cc
  split-ne-nil (String.◌∷◌ c s) e = ground arith

  -- A separator between two texts separates their pieces.
  pub split-append :
      (s t : String) → split (s ++ String.◌∷◌ separator t) ≡ List.◌++◌ (split s) (split t)
  split-append String.[] t =
      ap split (append.nil _) ∙ split_at separator t (ground arith) ∙ unfold split in refl
  split-append (String.◌∷◌ c s) t = elim (Bool-cases (is_separator c)) [
    | inl e ↦
        ap split (append.cons c s (String.◌∷◌ separator t))
        ∙ split_at c _ e
        ∙ ap (λ l. "" ∷ l) (split-append s t)
        ∙ ap (λ l. List.◌++◌ l (split t)) (sym (split_at c s e))
    | inr e ↦
        ap split (append.cons c s (String.◌∷◌ separator t))
        ∙ split_past c _ e
        ∙ ap (longer c) (split-append s t)
        ∙ longer-append c (split s) (split t) (split-ne-nil s)
        ∙ ap (λ l. List.◌++◌ l (split t)) (sym (split_past c s e))
  ]
