-- ===== src/Quota/Repository.antt =====
-- The quota tables, src/database/repositories/quota.repository.ts: each table is a `Dict` from its
-- primary key to the other columns, and each method is the SQL statement it runs. The columns
-- `created_at` and `updated_at`, which only reports read, are left out.
use ms_gatgeway_llm.Base.{
  Key, ℕ, ◌+◌, String, Bool, true, false, Option, none, some, Dict, get, put, remove, string_key,
  number_key, pair_key, nat_eq, ◌==◌, ◌||◌, if◌then◌else◌,
}
use ms_gatgeway_llm.Quota.Calendar.{Period}

pub record ClientAliasQuota : Type 0 where
  pub monthly_token_limit : ℕ
  pub divert_alias_key : Option String

pub record ClientAliasUsage : Type 0 where
  pub tokens : ℕ
  pub requests : ℕ

-- The primary keys: (client, alias) and (client, alias, period).
abbrev pub QuotaKey : Type 0
QuotaKey = String × String

abbrev pub UsageKey : Type 0
UsageKey = QuotaKey × Period

instance abbrev pub period_is_key : Key Period
period_is_key = pair_key

instance abbrev pub quota_is_key : Key QuotaKey
quota_is_key = pair_key

instance abbrev pub usage_is_key : Key UsageKey
usage_is_key = pair_key ⦃e = quota_is_key⦄ ⦃f = period_is_key⦄

pub record QuotaRepository : Type 0 where
  pub client_alias_quotas : Dict QuotaKey ClientAliasQuota
  pub client_alias_usage : Dict UsageKey ClientAliasUsage

-- A text that is present and the given one.
abbrev pub is_text : Option String → String → Bool
is_text none t = false
is_text (some s) t = s == t

-- The CHECKs of the table: `monthly_token_limit > 0` and `divert_alias_key <> alias_key`.
abbrev pub is_rejected : String → ClientAliasQuota → Bool
is_rejected alias q = nat_eq q.monthly_token_limit 0 || is_text q.divert_alias_key alias

-- `none` is the exception of a violated CHECK.
unfoldable pub upsert_quota :
    String → String → ClientAliasQuota → QuotaRepository → Option QuotaRepository
upsert_quota client alias q db =
    if is_rejected alias q
    then none
    else some (record db { client_alias_quotas = put (client, alias) q db.client_alias_quotas })

unfoldable pub delete_quota : String → String → QuotaRepository → QuotaRepository × Bool
delete_quota client alias db = (
  record db { client_alias_quotas = remove (client, alias) db.client_alias_quotas },
  elim (get (client, alias) db.client_alias_quotas) [ none ↦ false | some q ↦ true ],
)

abbrev pub get_quota : String → String → QuotaRepository → Option ClientAliasQuota
get_quota client alias db = get (client, alias) db.client_alias_quotas

abbrev pub get_usage : String → String → Period → QuotaRepository → Option ClientAliasUsage
get_usage client alias period db = get ((client, alias), period) db.client_alias_usage

-- The row of `INSERT … ON CONFLICT DO UPDATE`, from the one that is there.
abbrev pub add_to : Option ClientAliasUsage → ℕ → ClientAliasUsage
add_to none n = record { tokens = n; requests = 1 }
add_to (some u) n = record { tokens = u.tokens + n; requests = u.requests + 1 }

unfoldable pub add_usage : String → String → Period → ℕ → QuotaRepository → QuotaRepository
add_usage client alias period n db = record db {
  client_alias_usage =
      put ((client, alias), period) (add_to (get_usage client alias period db) n)
        db.client_alias_usage;
}

unfoldable pub set_usage :
    String → String → Period → ClientAliasUsage → QuotaRepository → QuotaRepository
set_usage client alias period u db = record db {
  client_alias_usage = put ((client, alias), period) u db.client_alias_usage;
}
