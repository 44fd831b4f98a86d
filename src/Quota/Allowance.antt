-- ===== src/Quota/Allowance.antt =====
-- A write of a quota against the gate of src/quota/quota.service.ts.
use ms_gatgeway_llm.Base.{
  ℕ, ◌≡◌, ◌≢◌, ◌↔◌, sym, ◌∙◌, String, false, some, leb, arith, string_key, get-put_self, ne→==,
  ==_refl, inl, inr, Bool-cases,
}
use ms_gatgeway_llm.Quota.Calendar.{period_key}
use ms_gatgeway_llm.Quota.Repository.{
  ClientAliasQuota, QuotaRepository, get_quota, is_rejected, upsert_quota as write_quota,
  quota_is_key, usage_is_key,
}
use ms_gatgeway_llm.Quota.Service.{
  serve, used_in, resolve_target, ClientQuotaView, to_view, upsert_quota,
}

-- A write that is not rejected is stored, and the view is of what is stored.
upsert_quota-stores :
    (c a : String) (q : ClientAliasQuota) (now : ℕ) (db after : QuotaRepository)
    (view : ClientQuotaView)
    → upsert_quota c a q now db ≡ some (after, view)
    → (is_rejected a q ≡ false)
      × (get_quota c a after ≡ some q)
      × (view.is_exhausted ≡ leb q.monthly_token_limit (used_in c a (period_key now) after))
unfolding upsert_quota write_quota to_view
upsert_quota-stores c a q now db after view e =
    let g = get-put_self (c, a) q db.client_alias_quotas in
    elim (Bool-cases (is_rejected a q)) [ inl r ↦ ground arith | inr r ↦ ground arith ]

-- The gate, for an alias with a quota that has passed the CHECKs.
resolve_target_iff :
    (c a : String) (q : ClientAliasQuota) (now : ℕ) (db : QuotaRepository)
    → c ≢ ""
    → is_rejected a q ≡ false
    → get_quota c a db ≡ some q
    → (leb q.monthly_token_limit (used_in c a (period_key now) db) ≡ false)
      ↔ (resolve_target (some c) a now db ≡ serve a)
unfolding resolve_target
resolve_target_iff c a q now db h r g = let n = ne→== c "" h in let s = ==_refl a in ground arith

-- A write of a quota takes effect at the next request, and the view that it returns tells it: for a
-- client with a name, the view says that the quota is not exhausted exactly when the gate, at the
-- same time, serves the alias itself.
upsert_quota_lem :
    (c a : String) (q : ClientAliasQuota) (now : ℕ) (db after : QuotaRepository)
    (view : ClientQuotaView)
    → c ≢ ""
    → upsert_quota c a q now db ≡ some (after, view)
    → (view.is_exhausted ≡ false) ↔ (resolve_target (some c) a now after ≡ serve a)
upsert_quota_lem c a q now db after view h e =
    let (r, g, v) = upsert_quota-stores c a q now db after view e in
    let (f, b) = resolve_target_iff c a q now after h r g in (λ w. f (sym v ∙ w), λ t. v ∙ b t)
