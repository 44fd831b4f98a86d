-- ===== src/Access/Repository.antt =====
-- The allowlist's table, src/database/repositories/client-alias-access.repository.ts: its rows
-- (client, alias) in the order of insertion; `created_at`, which nothing reads, is left out.
use ms_gatgeway_llm.Base.{
  String, Bool, false, ◌||◌, Option, none, some, List, [], ◌∷◌, ◌++◌, ◌==◌, string_key,
  if◌then◌else◌,
}

abbrev pub Rows : Type 0
Rows = List (String × String)

-- `has` of a JavaScript set, or an entry of an index.
abbrev pub has : List String → String → Bool
has [] a = false
has (b ∷ bs) a = b == a || has bs a

-- The aliases of a client, before they are ordered.
unfoldable pub aliases_of : String → Rows → List String
aliases_of client [] = []
aliases_of client ((d, a) ∷ rows) =
    let rest = aliases_of client rows in if d == client then a ∷ rest else rest

unfoldable pub delete_for_client : String → Rows → Rows
delete_for_client client [] = []
delete_for_client client ((d, a) ∷ rows) =
    let rest = delete_for_client client rows in if d == client then rest else (d, a) ∷ rest

-- `none` is the violation of the primary key.
unfoldable pub insert : String → String → Rows → Option Rows
insert client a rows =
    if has (aliases_of client rows) a then none else some (rows ++ (client, a) ∷ [])

unfoldable pub insert_all : String → List String → Rows → Option Rows
insert_all client [] rows = some rows
insert_all client (a ∷ keys) rows = elim (insert client a rows) [
  | none ↦ none
  | some after ↦ insert_all client keys after
]

-- `assertNoDuplicates`: the first alias that has been seen before.
unfoldable pub find_duplicate : List String → List String → Option String
find_duplicate seen [] = none
find_duplicate seen (a ∷ keys) =
    let rest = find_duplicate (a ∷ seen) keys in if has seen a then some a else rest

-- How `replaceForClient` ends: it throws before any write, the transaction is rolled back, or it is
-- committed.
pub data Replaced : Type 0 where
  duplicate_alias_key : String → Replaced
  rolled_back : Replaced
  replaced : Rows → Replaced

unfoldable pub replace_txn : String → List String → Rows → Replaced
replace_txn client keys rows = elim (insert_all client keys (delete_for_client client rows)) [
  | none ↦ rolled_back
  | some after ↦ replaced after
]

unfoldable pub replace_for_client : String → List String → Rows → Replaced
replace_for_client client keys rows = elim (find_duplicate [] keys) [
  | some a ↦ duplicate_alias_key a
  | none ↦ replace_txn client keys rows
]
