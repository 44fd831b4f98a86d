-- ===== src/Quota/Gate.antt =====
-- What a request may do to the counters of the quota: the gate and the accounting of
-- src/quota/quota.service.ts.
use ms_gatgeway_llm.Base.{
  ℕ, ◌+◌, ◌<◌, ◌≡◌, ◌≢◌, ap, String, Option, some, truthy, arith, string_key, get-put_self,
  get-put_ne, pair_key, inl, inr, Option-cases, number_key,
}
use ms_gatgeway_llm.Quota.Calendar.{Period, period_key}
use ms_gatgeway_llm.Quota.Repository.{
  ClientAliasQuota, ClientAliasUsage, QuotaRepository, get_quota, get_usage, add_usage,
  usage_is_key, quota_is_key, period_is_key, UsageKey, add_to,
}
use ms_gatgeway_llm.Quota.Service.{serve, tokens_of, used_in, resolve_target, Number, record_usage}

-- No quota of the client sends its requests on to `alias`.
unfoldable pub NoDivertTo : String → String → QuotaRepository → Type 0
NoDivertTo client alias db =
    (other : String) (q : ClientAliasQuota)
    → get_quota client other db ≡ some q
    → truthy q.divert_alias_key ≢ some alias

pub used_in-add_usage :
    (client alias : String) (period : Period) (n : ℕ) (db : QuotaRepository)
    → used_in client alias period (add_usage client alias period n db)
      ≡ used_in client alias period db + n
unfolding add_usage
used_in-add_usage client alias period n db =
    rw
      (get-put_self ((client, alias), period) (add_to (get_usage client alias period db) n)
        db.client_alias_usage)
      (added (get_usage client alias period db))
  where
    added : (o : Option ClientAliasUsage) → tokens_of (some (add_to o n)) ≡ tokens_of o + n
    added o = ground arith

pub used_in-add_usage_ne :
    (k j : UsageKey) (n : ℕ) (db : QuotaRepository)
    → k ≢ j
    → used_in j.0.0 j.0.1 j.1 (add_usage k.0.0 k.0.1 k.1 n db) ≡ used_in j.0.0 j.0.1 j.1 db
unfolding add_usage
used_in-add_usage_ne k j n db h =
    ap tokens_of (get-put_ne k j (add_to (get_usage k.0.0 k.0.1 k.1 db) n) db.client_alias_usage h)

pub record_usage-quotas :
    (client_id : Option String) (served : String) (tokens : Number) (at : ℕ) (db : QuotaRepository)
    → (record_usage client_id served tokens at db).client_alias_quotas ≡ db.client_alias_quotas
unfolding record_usage add_usage
record_usage-quotas client_id served tokens at db = ground arith

-- The gate serves an alias with a quota, to which nothing diverts, only while it has tokens left.
pub served_lem :
    (client_id : Option String) (c alias a : String) (now : ℕ) (db : QuotaRepository)
    (q : ClientAliasQuota)
    → truthy client_id ≡ some c
    → get_quota c a db ≡ some q
    → NoDivertTo c a db
    → resolve_target client_id alias now db ≡ serve a
    → used_in c a (period_key now) db < q.monthly_token_limit
unfolding resolve_target NoDivertTo
served_lem client_id c alias a now db q t e h s = elim (Option-cases (get_quota c alias db)) [
  | inl g ↦ ground arith
  | inr (q', g) ↦ let k = h alias q' g in ground arith
]
