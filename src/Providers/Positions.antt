-- ===== src/Providers/Positions.antt =====
-- The positions of an alias's entries under the writes of
-- src/database/repositories/provider-registry.repository.ts.
use ms_gatgeway_llm.Base.{
  ℕ, suc, zero, ◌+◌, ◌-◌, ◌≤◌, ◌<◌, ◌≡◌, ◌≢◌, refl, ap, String, List, [], ◌∷◌, ◌++◌, map,
  string_key, nat_eq, ltb, filter, length, if◌then◌else◌, eq_iff, arith,
}
use ms_gatgeway_llm.Providers.Registry.{AliasEntryRow}
use ms_gatgeway_llm.Providers.Aliases.{is_of, without_entry}

-- The positions count up from `i`.
abbrev pub IsNumbered : ℕ → List AliasEntryRow → Type 0
IsNumbered i [] = Unit {0}
IsNumbered i (e ∷ es) = (e.position ≡ i) × IsNumbered (suc i) es

abbrev pub pair : AliasEntryRow → String × String
pair e = (e.provider_id, e.model_key)

-- A list without its element at a position.
abbrev pub remove_at {ℓ} : {A : Type ℓ} → ℕ → List A → List A
remove_at n [] = []
remove_at zero (x ∷ xs) = xs
remove_at (suc n) (x ∷ xs) = x ∷ remove_at n xs

remove_at_nil {ℓ} : {A : Type ℓ} (k : ℕ) → ◌≡◌ {A = List A} [] (remove_at k [])
remove_at_nil zero = refl
remove_at_nil (suc k) = refl

pub IsNumbered-append :
    (i : ℕ) (es : List AliasEntryRow) (e : AliasEntryRow)
    → IsNumbered i es
    → e.position ≡ i + length es
    → IsNumbered i (es ++ e ∷ [])
IsNumbered-append i [] e h p = (omega arith, tt)
IsNumbered-append i (x ∷ es) e (k, h) p = (k, IsNumbered-append (suc i) es e h (omega arith))

-- The entries of one alias after the removal, without the tests of the alias.
abbrev pub dropped : ℕ → List AliasEntryRow → List AliasEntryRow
dropped position [] = []
dropped position (e ∷ es) =
    if nat_eq e.position position
    then dropped position es
    else (if ltb position e.position then record e { position = e.position - 1 } else e)
      ∷ dropped position es

pub without_entry_self :
    (alias : String) (position : ℕ) (es : List AliasEntryRow)
    → filter (is_of alias) (without_entry alias position es)
      ≡ dropped position (filter (is_of alias) es)
unfolding without_entry
without_entry_self alias position [] = refl
without_entry_self alias position (e ∷ es) =
    let ih = without_entry_self alias position es in ground arith

pub without_entry_other :
    (alias other : String) (position : ℕ) (es : List AliasEntryRow)
    → alias ≢ other
    → filter (is_of other) (without_entry alias position es) ≡ filter (is_of other) es
unfolding without_entry
without_entry_other alias other position [] n = refl
without_entry_other alias other position (e ∷ es) n =
    let ih = without_entry_other alias other position es n in
    ground (arith, eq_iff e.alias_name alias, eq_iff e.alias_name other)

dropped_after :
    (position j : ℕ) (e : AliasEntryRow) (es : List AliasEntryRow)
    → position ≤ j
    → e.position ≡ suc j
    → dropped position (e ∷ es) ≡ record e { position = j } ∷ dropped position es
dropped_after position j e es h k = ground arith

dropped_before :
    (position : ℕ) (e : AliasEntryRow) (es : List AliasEntryRow)
    → e.position < position
    → dropped position (e ∷ es) ≡ e ∷ dropped position es
dropped_before position e es h = ground arith

dropped_at :
    (position : ℕ) (e : AliasEntryRow) (es : List AliasEntryRow)
    → e.position ≡ position
    → dropped position (e ∷ es) ≡ dropped position es
dropped_at position e es h = ground arith

-- After the position all move up.
dropped_above :
    (position j : ℕ) (es : List AliasEntryRow)
    → position ≤ j
    → IsNumbered (suc j) es
    → IsNumbered j (dropped position es) × (map pair (dropped position es) ≡ map pair es)
dropped_above position j [] h n = (tt, refl)
dropped_above position j (e ∷ es) h (k, n) =
    let (m, p) = dropped_above position (suc j) es (omega arith) n in
    rw (dropped_after position j e es h k) ((refl, m), ap (λ l. pair e ∷ l) p)

pub dropped_lem :
    (k i position : ℕ) (es : List AliasEntryRow)
    → position ≡ i + k
    → IsNumbered i es
    → IsNumbered i (dropped position es)
      × (map pair (dropped position es) ≡ remove_at k (map pair es))
dropped_lem k i position [] q n = (tt, remove_at_nil k)
dropped_lem zero i position (e ∷ es) q (p, n) =
    rw (dropped_at position e es (omega arith)) (dropped_above position i es (omega arith) n)
dropped_lem (suc k) i position (e ∷ es) q (p, n) =
    let (m, l) = dropped_lem k (suc i) position es (omega arith) n in
    rw (dropped_before position e es (omega arith)) ((p, m), ap (λ z. pair e ∷ z) l)
