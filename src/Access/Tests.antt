-- ===== src/Access/Tests.antt =====
-- The allowlist on concrete rows, and the theorems at them.
use mathlib.Core.List.Perm
use ms_gatgeway_llm.Base.{◌≡◌, refl, false, some, [], ◌∷◌, arith, eq_iff}
use ms_gatgeway_llm.Access.Repository.{
  Rows, aliases_of, delete_for_client, insert, insert_all, find_duplicate, replaced,
  duplicate_alias_key, replace_txn, replace_for_client,
}
use ms_gatgeway_llm.Access.Service.{is_permitted, get_access}
use ms_gatgeway_llm.Access.Replacement.{IsReplacement, replace_for_client-IsReplacement}
use ms_gatgeway_llm.Access.Permission.{is_permitted-replaced}

abbrev rows : Rows
rows = ("alice", "codex") ∷ ("bob", "slave") ∷ []

abbrev rows_after : Rows
rows_after = ("bob", "slave") ∷ ("alice", "fast") ∷ ("alice", "slave") ∷ []

stored : replace_for_client "alice" ("fast" ∷ "slave" ∷ []) rows ≡ replaced rows_after
unfolding aliases_of delete_for_client insert insert_all find_duplicate replace_txn
    replace_for_client
stored = refl

refused :
    replace_for_client "alice" ("fast" ∷ "slave" ∷ "fast" ∷ []) rows ≡ duplicate_alias_key "fast"
unfolding find_duplicate replace_for_client
refused = refl

replace_for_client-IsReplacement_example :
    IsReplacement "alice"
      ("fast" ∷ "fast" ∷ [])
      rows
      (replace_for_client "alice" ("fast" ∷ "fast" ∷ []) rows)
replace_for_client-IsReplacement_example =
    replace_for_client-IsReplacement "alice" ("fast" ∷ "fast" ∷ []) rows

is_permitted-replaced_example :
    is_permitted (get_access (λ xs. xs) (some "alice") rows_after) "codex" ≡ false
is_permitted-replaced_example =
    is_permitted-replaced (λ xs. xs) Perm.refl "alice" "alice" "codex" ("fast" ∷ "slave" ∷ []) rows
      rows_after (λ e. ground (arith, eq_iff "alice" "")) stored
