-- ===== src/Access/Service.antt =====
-- The allowlist as the service reads it, src/access/alias-access.service.ts. `order_by` is SQLite's
-- `ORDER BY alias_key` and `sort` the sorting by `localeCompare`.
use ms_gatgeway_llm.Base.{false, String, Bool, true, Option, none, some, List, [], ◌∷◌, truthy}
use ms_gatgeway_llm.Access.Repository.{
  Rows, has, aliases_of, delete_for_client, replaced, replace_for_client,
}

pub data AliasAccess : Type 0 where
  unrestricted : AliasAccess
  restricted : (aliases : List String) → AliasAccess

unfoldable pub is_permitted : AliasAccess → String → Bool
is_permitted unrestricted a = true
is_permitted (restricted aliases) a = has aliases a

abbrev pub access_of : List String → AliasAccess
access_of [] = unrestricted
access_of (a ∷ aliases) = restricted (a ∷ aliases)

module _ (order_by : List String → List String) where
  abbrev pub list_by_client : String → Rows → List String
  list_by_client client rows = order_by (aliases_of client rows)

  unfoldable pub get_access : Option String → Rows → AliasAccess
  get_access client_id rows = elim (truthy client_id) [
    | none ↦ unrestricted
    | some client ↦ access_of (list_by_client client rows)
  ]

pub record AliasAccessDescription : Type 0 where
  pub client_id : String
  pub is_restricted : Bool
  pub aliases : List String

module _ (order_by sort : List String → List String) where
  abbrev pub description_of : String → AliasAccess → AliasAccessDescription
  description_of client unrestricted = record {
    client_id = client;
    is_restricted = false;
    aliases = [];
  }
  description_of client (restricted aliases) = record {
    client_id = client;
    is_restricted = true;
    aliases = sort aliases;
  }

  unfoldable pub describe : String → Rows → AliasAccessDescription
  describe client rows = description_of client (get_access order_by (some client) rows)

  -- `none` is an exception of the repository, after which the rows are the old ones.
  unfoldable pub replace : String → List String → Rows → Option (Rows × AliasAccessDescription)
  replace client keys rows = elim (replace_for_client client keys rows) [
    | replaced after ↦ some (after, describe client after)
    | _ ↦ none
  ]

  unfoldable pub clear : String → Rows → Rows × AliasAccessDescription
  clear client rows = let after = delete_for_client client rows in (after, describe client after)
