-- ===== src/Access/Replacement.antt =====
-- What a replacement of an allowlist does to the rows and to the permissions.
use ms_gatgeway_llm.Base.{
  ◌≡◌, ◌↔◌, refl, sym, ap, ◌∙◌, String, Bool, true, false, ◌||◌, not, ◌&&◌, Option, none, some,
  List, [], ◌∷◌, ◌++◌, ◌==◌, string_key, if◌then◌else◌, arith, eq_iff, ==_refl, append_assoc,
  append-nil,
}
use ms_gatgeway_llm.Access.Repository.{
  Rows, has, aliases_of, delete_for_client, insert, insert_all, find_duplicate, Replaced,
  duplicate_alias_key, rolled_back, replaced, replace_txn, replace_for_client,
}

-- An independent description: no alias comes twice.
unfoldable pub is_distinct : List String → Bool
is_distinct [] = true
is_distinct (a ∷ keys) = not (has keys a) && is_distinct keys

aliases_of-append :
    (d c a : String) (rows : Rows)
    → aliases_of d (rows ++ (c, a) ∷ []) ≡ aliases_of d rows ++ (if c == d then a ∷ [] else [])
unfolding aliases_of
aliases_of-append d c a [] = refl
aliases_of-append d c a ((e, b) ∷ rows) = let h = aliases_of-append d c a rows in ground arith

pub aliases_of-delete :
    (d c : String) (rows : Rows)
    → aliases_of d (delete_for_client c rows) ≡ (if c == d then [] else aliases_of d rows)
unfolding aliases_of delete_for_client
aliases_of-delete d c [] = ground arith
aliases_of-delete d c ((e, b) ∷ rows) =
    let h = aliases_of-delete d c rows in ground (arith, eq_iff c d, eq_iff e c, eq_iff e d)

-- `keys` has no alias of `seen`, and none twice.
is_new : List String → List String → Bool
is_new seen [] = true
is_new seen (a ∷ keys) = not (has seen a) && is_new (a ∷ seen) keys

find_duplicate_iff :
    (seen keys : List String) → (find_duplicate seen keys ≡ none) ↔ (is_new seen keys ≡ true)
unfolding find_duplicate is_new
find_duplicate_iff seen [] = ground arith
find_duplicate_iff seen (a ∷ keys) = let h = find_duplicate_iff (a ∷ seen) keys in ground arith

has-append : (xs : List String) (a b : String) → has (xs ++ a ∷ []) b ≡ (has xs b || a == b)
has-append [] a b = ground arith
has-append (x ∷ xs) a b = let h = has-append xs a b in ground arith

disjoint : List String → List String → Bool
disjoint seen [] = true
disjoint seen (a ∷ keys) = not (has seen a) && disjoint seen keys

disjoint-cons :
    (a : String) (seen keys : List String)
    → disjoint (a ∷ seen) keys ≡ (not (has keys a) && disjoint seen keys)
unfolding disjoint
disjoint-cons a seen [] = refl
disjoint-cons a seen (k ∷ keys) =
    let h = disjoint-cons a seen keys in ground (arith, eq_iff a k, eq_iff k a)

is_new_lem : (seen keys : List String) → is_new seen keys ≡ (is_distinct keys && disjoint seen keys)
unfolding is_new is_distinct disjoint
is_new_lem seen [] = refl
is_new_lem seen (a ∷ keys) =
    let h = is_new_lem (a ∷ seen) keys in let k = disjoint-cons a seen keys in ground arith

disjoint-nil : (keys : List String) → disjoint [] keys ≡ true
unfolding disjoint
disjoint-nil [] = refl
disjoint-nil (a ∷ keys) = let h = disjoint-nil keys in ground arith

is_new-nil : (keys : List String) → is_new [] keys ≡ is_distinct keys
is_new-nil keys = let h = is_new_lem [] keys in let k = disjoint-nil keys in ground arith

append_when :
    (b : Bool) (a : String) (xs keys : List String)
    → (xs ++ (if b then a ∷ [] else [])) ++ (if b then keys else [])
      ≡ xs ++ (if b then a ∷ keys else [])
append_when true a xs keys = append_assoc xs (a ∷ []) keys
append_when false a xs keys = append-nil (xs ++ [])

append_nothing : (b : Bool) (xs : List String) → xs ≡ xs ++ (if b then [] else [])
append_nothing true xs = sym (append-nil xs)
append_nothing false xs = sym (append-nil xs)

either_list :
    (b : Bool) (keys xs : List String)
    → (if b then [] else xs) ++ (if b then keys else []) ≡ (if b then keys else xs)
either_list true keys xs = refl
either_list false keys xs = append-nil xs

-- The insertions succeed, and only the client's aliases grow.
insert_all_lem :
    (c : String) (keys seen : List String) (rows : Rows)
    → ((b : String) → has (aliases_of c rows) b ≡ has seen b)
    → is_new seen keys ≡ true
    → (after : Rows) × (insert_all c keys rows ≡ some after)
      × ((d : String) → aliases_of d after ≡ aliases_of d rows ++ (if c == d then keys else []))
unfolding insert_all insert is_new
insert_all_lem c [] seen rows h n = (rows, refl, λ d. append_nothing (c == d) (aliases_of d rows))
insert_all_lem c (a ∷ keys) seen rows h n =
    let more : Rows = rows ++ (c, a) ∷ [] in
    let fresh : has (aliases_of c rows) a ≡ false = let e = h a in ground arith in
    let grown : aliases_of c more ≡ aliases_of c rows ++ a ∷ [] =
      aliases_of-append c c a rows ∙ rw (==_refl c) in
    let (after, r, f) =
      insert_all_lem c keys (a ∷ seen) more
        (λ b.
          ap (λ l. has l b) grown
          ∙ (has-append (aliases_of c rows) a b ∙ (let k = h b in ground arith)))
        (ground arith) in
    (
      after,
      rw (fresh, insert_all, insert) r,
      λ d.
          f d
          ∙ (ap (λ l. l ++ (if c == d then keys else [])) (aliases_of-append d c a rows)
              ∙ append_when (c == d) a (aliases_of d rows) keys),
    )

-- How a replacement of the list of `c` by `keys` may end: by the exception for a repeated alias, if
-- there is one, or with rows in which `c` has the list and every other client what it had.
unfoldable pub IsReplacement : String → List String → Rows → Replaced → Type 0
IsReplacement c keys rows (duplicate_alias_key a) = is_distinct keys ≡ false
IsReplacement c keys rows rolled_back = ⊥
IsReplacement c keys rows (replaced after) =
    (is_distinct keys ≡ true)
    × ((d : String) → aliases_of d after ≡ (if c == d then keys else aliases_of d rows))

replace_txn_lem :
    (c : String) (keys : List String) (rows : Rows)
    → is_distinct keys ≡ true
    → IsReplacement c keys rows (replace_txn c keys rows)
unfolding IsReplacement replace_txn
replace_txn_lem c keys rows e =
    let empty : aliases_of c (delete_for_client c rows) ≡ [] =
      aliases_of-delete c c rows ∙ rw (==_refl c) in
    let (after, r, f) =
      insert_all_lem c keys [] (delete_for_client c rows) (λ b. ap (λ l. has l b) empty)
        (is_new-nil keys ∙ e) in
    rw (r, replace_txn, IsReplacement)
      (
        e,
        λ d.
            f d
            ∙ (ap (λ l. l ++ (if c == d then keys else [])) (aliases_of-delete d c rows)
                ∙ either_list (c == d) keys (aliases_of d rows)),
      )

-- A replacement ends as `IsReplacement` says: a list with a repeated alias is refused with nothing
-- written, and any other list is stored, in its order, for that client alone; the primary key is
-- never violated.
pub replace_for_client-IsReplacement :
    (c : String) (keys : List String) (rows : Rows)
    → IsReplacement c keys rows (replace_for_client c keys rows)
unfolding replace_for_client IsReplacement
replace_for_client-IsReplacement c keys rows = go (find_duplicate [] keys) refl
  where
    go :
        (o : Option String)
        → find_duplicate [] keys ≡ o
        → IsReplacement c keys rows (elim o as (λ _. Replaced) [
          | some a ↦ duplicate_alias_key a
          | none ↦ replace_txn c keys rows
        ])
    go none e =
        replace_txn_lem c keys rows (sym (is_new-nil keys) ∙ (find_duplicate_iff [] keys).0 e)
    go (some a) e = let h = find_duplicate_iff [] keys in let k = is_new-nil keys in ground arith
