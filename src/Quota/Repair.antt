-- ===== src/Quota/Repair.antt =====
-- What a reconciliation does to the counters.
use ms_gatgeway_llm.Base.{
  ◌≡◌, refl, ◌∙◌, subst, Bool, true, false, ◌&&◌, ◌||◌, Option, none, some, List, [], ◌∷◌, map,
  filter, length, Dict, get, put, if◌then◌else◌, ◌==◌, get-put, ==→eq, ==_refl, Bool-cases, ◌⊎◌,
  inl, inr, arith, not,
}
use ms_gatgeway_llm.Quota.Calendar.{Period}
use ms_gatgeway_llm.Quota.Repository.{
  ClientAliasUsage, ClientAliasQuota, QuotaKey, QuotaRepository, UsageKey, quota_is_key,
  usage_is_key, period_is_key, set_usage,
}
use ms_gatgeway_llm.Quota.Service.{tokens_of, requests_of}
use ms_gatgeway_llm.Quota.Reconcile.{
  ReconcileDriftRow, compare_counters, in_sync, repair, reconcile_pairs,
}

abbrev pub contains : List QuotaKey → QuotaKey → Bool
contains [] k = false
contains (j ∷ l) k = j == k || contains l k

abbrev pub has_quota : Option ClientAliasQuota → Bool
has_quota none = false
has_quota (some q) = true

pub contains-keys :
    (d : Dict QuotaKey ClientAliasQuota) (k : QuotaKey)
    → contains (map (λ r. r.0) d) k ≡ has_quota (get k d)
unfolding get
contains-keys [] k = refl
contains-keys ((j, q) ∷ d) k = ground (arith, contains-keys d k)

pub then_of : (b : Bool) (P Q : Type 0) → b ≡ true → (if b then P else Q) → P
then_of b P Q e h = subst (λ b. if b then P else Q) e h

else_of : (b : Bool) (P Q : Type 0) → b ≡ false → (if b then P else Q) → Q
else_of b P Q e h = subst (λ b. if b then P else Q) e h

or_true : (a b : Bool) → b ≡ true → (a || b) ≡ true
or_true a b h = ground arith

same_key : (k : QuotaKey) (p : Period) → usage_is_key.same (k, p) (k, p) ≡ true
same_key k p = (usage_is_key.same_iff (k, p) (k, p)).1 refl

other_key :
    (k j : QuotaKey) (p : Period) → (k == j) ≡ false → usage_is_key.same (k, p) (j, p) ≡ false
other_key k j p e = ground arith

other_pair :
    (k : QuotaKey) (j : UsageKey) (p : Period) (pairs : List QuotaKey)
    → ((j.1 == p) && contains (k ∷ pairs) j.0) ≡ false
    → usage_is_key.same (k, p) j ≡ false
other_pair k (j, q) p pairs h =
    let a = period_is_key.same_iff p q in let b = period_is_key.same_iff q p in ground arith

-- The pass over the pairs, from the counters stored before it and the computed ones.
module _ (stored computed : QuotaKey → Option ClientAliasUsage) (p : Period) where
  abbrev pub compared : QuotaKey → ReconcileDriftRow
  compared k = compare_counters k (stored k) (computed k)

  -- The counter has the computed numbers.
  abbrev pub IsComputed : QuotaKey → Option ClientAliasUsage → Type 0
  IsComputed k o =
      (tokens_of o ≡ tokens_of (computed k)) × (requests_of o ≡ requests_of (computed k))

  abbrev step : QuotaKey → QuotaRepository → QuotaRepository
  step k db = if in_sync (compared k) then db else repair p (compared k) db

  -- A step leaves a counter as it is, or it is its own: then it is the computed one.
  step_lem :
      (k : QuotaKey) (j : UsageKey) (db : QuotaRepository)
      → let old = get j db.client_alias_usage in
        let new = get j (step k db).client_alias_usage in
        if (k, p) == j
        then (if in_sync (compared k) then new ≡ old else IsComputed k new)
        else new ≡ old
  unfolding set_usage
  step_lem k j db =
      go ((k, p) == j) (in_sync (compared k)) (get-put (k, p) j u db.client_alias_usage)
    where
      u : ClientAliasUsage
      u = record { tokens = tokens_of (computed k); requests = requests_of (computed k) }

      old : Option ClientAliasUsage
      old = get j db.client_alias_usage

      new : Bool → Option ClientAliasUsage
      new s = get j (if s then db else repair p (compared k) db).client_alias_usage

      go :
          (b s : Bool)
          → get j (put (k, p) u db.client_alias_usage) ≡ (if b then some u else old)
          → if b then (if s then new s ≡ old else IsComputed k (new s)) else new s ≡ old
      go true true h = refl
      go true false h = rw h (refl, refl)
      go false true h = refl
      go false false h = h

  abbrev pub current : QuotaKey → QuotaRepository → Option ClientAliasUsage
  current j db = get (j, p) db.client_alias_usage

  -- A step on the counters of the period.
  step-current :
      (k j : QuotaKey) (db : QuotaRepository)
      → ((k ≡ j)
          × ((in_sync (compared j) ≡ true) × (current j (step k db) ≡ current j db)
              ⊎ IsComputed j (current j (step k db))))
        ⊎ ((k == j) ≡ false) × (current j (step k db) ≡ current j db)
  step-current k j db = elim (Bool-cases (k == j)) [
    | inl e ↦
        let h = ==→eq k j e in
        inl (
          h,
          subst Same h (
              go (in_sync (compared k)) refl (then_of _ _ _ (same_key k p) (step_lem k (k, p) db))),
        )
    | inr e ↦ inr (e, else_of _ _ _ (other_key k j p e) (step_lem k (j, p) db))
  ]
    where
      Same : QuotaKey → Type 0
      Same j =
          (in_sync (compared j) ≡ true) × (current j (step k db) ≡ current j db)
          ⊎ IsComputed j (current j (step k db))

      go :
          (s : Bool)
          → in_sync (compared k) ≡ s
          → (if s
              then current k (step k db) ≡ current k db
              else IsComputed k (current k (step k db)))
          → Same k
      go true e h = inl (e, h)
      go false e h = inr h

  abbrev pub passed : Bool → List QuotaKey → QuotaRepository → QuotaRepository
  passed dry_run pairs db = (reconcile_pairs compared p dry_run pairs db).0

  passed-cons :
      (k : QuotaKey) (pairs : List QuotaKey) (db : QuotaRepository)
      → passed false (k ∷ pairs) db ≡ passed false pairs (step k db)
  unfolding reconcile_pairs
  passed-cons k pairs db = ground arith

  -- A pair that is in the list has the computed counter after the pass; one that has it keeps it.
  pub passed-IsComputed :
      (j : QuotaKey) (pairs : List QuotaKey) (db : QuotaRepository)
      → (in_sync (compared j) ≡ true → IsComputed j (current j db))
      → (contains pairs j ≡ true) ⊎ IsComputed j (current j db)
      → IsComputed j (current j (passed false pairs db))
  unfolding reconcile_pairs
  passed-IsComputed j [] db h (inr c) = c
  passed-IsComputed j [] db h (inl e) = ground arith
  passed-IsComputed j (k ∷ pairs) db h c =
      rw (passed-cons k pairs db) (passed-IsComputed j pairs (step k db) (go h) (here c))
    where
      go :
          (in_sync (compared j) ≡ true → IsComputed j (current j db))
          → in_sync (compared j) ≡ true
          → IsComputed j (current j (step k db))
      go h s = elim (step-current k j db) [
        | inl (e, inl (t, same)) ↦ rw same (h s)
        | inl (e, inr d) ↦ d
        | inr (e, same) ↦ rw same (h s)
      ]

      here :
          (contains (k ∷ pairs) j ≡ true) ⊎ IsComputed j (current j db)
          → (contains pairs j ≡ true) ⊎ IsComputed j (current j (step k db))
      here c = elim (step-current k j db) [
        | inl (e, inl (t, same)) ↦ inr (rw same (h t))
        | inl (e, inr d) ↦ inr d
        | inr (e, same) ↦ elim c [ inr d ↦ inr (rw same d) | inl i ↦ inl (ground arith) ]
      ]

  -- The other counters stay.
  pub passed-other :
      (j : UsageKey) (pairs : List QuotaKey) (db : QuotaRepository)
      → ((j.1 == p) && contains pairs j.0) ≡ false
      → get j (passed false pairs db).client_alias_usage ≡ get j db.client_alias_usage
  unfolding reconcile_pairs
  passed-other j [] db h = refl
  passed-other j (k ∷ pairs) db h = rw (passed-cons k pairs db) (
      passed-other j pairs (step k db) (ground arith)
      ∙ else_of _ _ _ (other_pair k j p pairs h) (step_lem k j db))

  pub passed-quotas :
      (dry_run : Bool) (pairs : List QuotaKey) (db : QuotaRepository)
      → (passed dry_run pairs db).client_alias_quotas ≡ db.client_alias_quotas
  unfolding reconcile_pairs set_usage
  passed-quotas dry_run [] db = refl
  passed-quotas dry_run (k ∷ pairs) db =
      let h = passed-quotas dry_run pairs db in
      let k = passed-quotas dry_run pairs (repair p (compared k) db) in ground arith

  -- The drift is what is out of step, and a dry run only reports it.
  pub reconcile_pairs-drift :
      (dry_run : Bool) (pairs : List QuotaKey) (db : QuotaRepository)
      → (reconcile_pairs compared p dry_run pairs db).1
        ≡ filter (λ d. not (in_sync d)) (map compared pairs)
  unfolding reconcile_pairs
  reconcile_pairs-drift dry_run [] db = refl
  reconcile_pairs-drift dry_run (k ∷ pairs) db =
      let h = reconcile_pairs-drift dry_run pairs db in
      let k = reconcile_pairs-drift dry_run pairs (repair p (compared k) db) in ground arith

  pub reconcile_pairs-dry :
      (pairs : List QuotaKey) (db : QuotaRepository)
      → (passed true pairs db ≡ db) × ((reconcile_pairs compared p true pairs db).2 ≡ 0)
  unfolding reconcile_pairs
  reconcile_pairs-dry [] db = (refl, refl)
  reconcile_pairs-dry (k ∷ pairs) db =
      let h = reconcile_pairs-dry pairs db in
      let k = reconcile_pairs-dry pairs (repair p (compared k) db) in ground arith

  pub reconcile_pairs-repaired :
      (pairs : List QuotaKey) (db : QuotaRepository)
      → let r = reconcile_pairs compared p false pairs db in r.2 ≡ length r.1
  unfolding reconcile_pairs
  reconcile_pairs-repaired [] db = refl
  reconcile_pairs-repaired (k ∷ pairs) db =
      let h = reconcile_pairs-repaired pairs db in
      let k = reconcile_pairs-repaired pairs (repair p (compared k) db) in ground arith

  -- A pass that finds no drift writes nothing.
  pub reconcile_pairs-in_sync :
      (dry_run : Bool) (pairs : List QuotaKey) (db : QuotaRepository)
      → ((k : QuotaKey) → contains pairs k ≡ true → in_sync (compared k) ≡ true)
      → reconcile_pairs compared p dry_run pairs db ≡ (db, [], 0)
  unfolding reconcile_pairs
  reconcile_pairs-in_sync dry_run [] db h = refl
  reconcile_pairs-in_sync dry_run (k ∷ pairs) db h =
      let s : in_sync (compared k) ≡ true = h k (rw (==_refl k) refl) in
      rw s (
        reconcile_pairs-in_sync dry_run pairs db
          (λ j e. h j (or_true (k == j) (contains pairs j) e)))
