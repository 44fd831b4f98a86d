-- ===== src/Admin/Soundness.antt =====
-- The handlers of src/admin/admin-aliases.controller.ts never leave an exception of the repository to
-- the framework, and keep the chains in order and within 64 entries.
use ms_gatgeway_llm.Base.{
  ℕ, suc, ◌≡◌, ◌≢◌, refl, sym, ap, subst, ◌∙◌, String, Bool, true, not, ◌&&◌, Option, some, List,
  [], ◌∷◌, ◌++◌, get, string_key, number_key, pair_key, nat_eq, leb, all, All, length,
  length-append, Bool-cases, Option-cases, eq_iff, inl, inr, arith,
}
use ms_gatgeway_llm.Providers.{RoutingStrategy}
use ms_gatgeway_llm.Providers.Registry.{AliasEntryRow, get_provider}
use ms_gatgeway_llm.Providers.Paths.{path}
use ms_gatgeway_llm.Providers.Positions.{IsNumbered}
use ms_gatgeway_llm.Providers.Aliases.{
  AliasTables, entries, with_entries, is_there, pair_of, model_exists, create_alias,
  append_alias_entry, upsert_alias_policy,
}
use ms_gatgeway_llm.Providers.AliasChains.{
  creates, appends, apply_alias_call, rows_of, chain_of, pairs,
}
use ms_gatgeway_llm.Providers.Aliases.{
  insert_chain, insert_path, insert_entry, new_entry, delete_chain, delete_weights,
}
use ms_gatgeway_llm.Providers.AliasChains.{insert_path-own}
use ms_gatgeway_llm.Providers.AliasWrites.{delete_chain_self}
use ms_gatgeway_llm.Providers.AliasCalls.{
  apply_alias_call-Agrees, append_alias_entry-succeeds, not_taken,
}
use ms_gatgeway_llm.Admin.Aliases.{
  AdminCall, put_strategy, put_weights, put_priorities, post_alias, delete_whole, post_entry,
  delete_entry, administer, internal_error, entry_exists, primary_unless, is_sized, chain_at,
  view_or_error, create_entry, append_entry, handle,
}
use ms_gatgeway_llm.Admin.Numbering.{IsSound, Good, length-pair, from_call}
use ms_gatgeway_llm.Admin.Guards.{
  with_alias_lem, view_or_error_lem, written_lem, set_strategy-Good, set_weights-Good,
  set_priorities-Good, remove_alias-Good, remove_entry-Good,
}

-- The two names of an entry that exists.
entry_exists_lem :
    (s : AliasTables) (path : String)
    → entry_exists s path ≡ true
    → (q : String × String) × (pair_of path ≡ some q) × (model_exists q s ≡ true)
unfolding entry_exists model_exists get_provider
entry_exists_lem s path h = elim (Option-cases (pair_of path)) [
  | inl e ↦ absurd (ground arith)
  | inr (q, e) ↦ elim (Option-cases (get q.0 s.registry.providers)) [
    | inl f ↦ absurd (ground arith)
    | inr (r, f) ↦ (q, e, ground arith)
  ]
]

length-pairs_of :
    (s : AliasTables) (paths : List String)
    → all (entry_exists s) paths ≡ true
    → length (pairs paths) ≡ length paths
length-pairs_of s [] h = refl
length-pairs_of s (path ∷ paths) h = elim (Bool-cases (entry_exists s path)) [
  | inl t ↦
      let (q, e, there) = entry_exists_lem s path t in
      let ih = length-pairs_of s paths (ground arith) in ground arith
  | inr f ↦ absurd (ground arith)
]

-- A chain of entries that exist can be inserted.
insert_chain-succeeds :
    (a : String) (position : ℕ) (paths : List String) (s : AliasTables)
    → all (entry_exists s) paths ≡ true
    → position ≡ length (rows_of a s)
    → IsNumbered 0 (rows_of a s)
    → (after : AliasTables) × (insert_chain a position paths s ≡ some after)
unfolding insert_chain insert_path insert_entry entry_exists get_provider
insert_chain-succeeds a position [] s h l n = (s, refl)
insert_chain-succeeds a position (path ∷ paths) s h l n = elim (Bool-cases (entry_exists s path)) [
  | inr f ↦ absurd (ground arith)
  | inl t ↦
      let (q, e, there) = entry_exists_lem s path t in
      let free = not_taken a 0 position (entries s) n (omega arith) in
      let next = with_entries (entries s ++ new_entry a position q ∷ []) s in
      let step : insert_path a position path s ≡ some next = ground arith in
      let ((m, c), k) = insert_path-own a path position s next step l n in
      let more : all (entry_exists s) paths ≡ true = ground arith in
      let (after, done) = insert_chain-succeeds a (suc position) paths next more (sym k) m in
      (after, ground arith)
]

create_alias-succeeds :
    (a : String) (chain : List String) (strategy : RoutingStrategy) (s : AliasTables)
    → all (entry_exists s) chain ≡ true
    → (after : AliasTables) × (create_alias a chain strategy s ≡ some after)
unfolding create_alias delete_weights delete_chain entry_exists get_provider
create_alias-succeeds a chain strategy s h =
    let bare = delete_weights a (delete_chain a s) in
    let empty : rows_of a bare ≡ [] = delete_chain_self a s in
    let (next, e) =
      insert_chain-succeeds a 0 chain bare h (sym (ap length empty))
        (subst (IsNumbered 0) (sym empty) tt) in
    (upsert_alias_policy a strategy next, ground arith)

module _ (order_by : List AliasEntryRow → List AliasEntryRow)
    (counts : (es : List AliasEntryRow) → length (order_by es) ≡ length es) where
  append_entry-Good :
      (id path : String) (s : AliasTables) → IsSound s → Good (append_entry order_by id path s)
  unfolding append_entry apply_alias_call
  append_entry-Good id path s sound = with_alias_lem order_by counts id _ s sound (λ chain l.
      elim (Bool-cases (entry_exists s path)) [
        | inr e ↦ rw e (ground arith, sound)
        | inl e ↦ elim (Bool-cases (leb 64 (length chain))) [
          | inl f ↦ rw (e, f) (ground arith, sound)
          | inr f ↦
              let (q, pq, there) = entry_exists_lem s path e in
              let (after, done, c) = append_alias_entry-succeeds s sound.0 id path q pq there in
              let rows = length-pair (rows_of id after) in
              let more = ap length c ∙ length-append (chain_of id s) (q ∷ []) in
              let ps : pairs (path ∷ []) ≡ q ∷ [] = ground arith in
              rw (e, f)
                (written_lem order_by counts (view_or_error order_by id)
                  (append_alias_entry id path s) s after done
                  (
                    view_or_error_lem order_by counts id after (omega (arith, rows, more)),
                    from_call (appends id path) s after sound done (λ b.
                        let k = length-pair (rows_of b s) in
                        let m = sound.1 b in
                        let a = length-append (chain_of b s) (pairs (path ∷ [])) in
                        let z = ap length ps in let t = eq_iff id b in ground arith),
                  ))
        ]
      ])

  create_entry-Good :
      (id : String) (chain : List String) (strategy : Option RoutingStrategy) (s : AliasTables)
      → IsSound s
      → is_sized chain ≡ true
      → Good (create_entry order_by id chain strategy s)
  unfolding create_entry apply_alias_call
  create_entry-Good id chain strategy s sound sized =
      elim (Bool-cases (is_there (chain_at order_by id s))) [
        | inl e ↦ rw e (ground arith, sound)
        | inr e ↦ elim (Bool-cases (all (entry_exists s) chain)) [
          | inr f ↦ rw (e, f) (ground arith, sound)
          | inl f ↦
              let kind = primary_unless strategy in
              let (after, done) = create_alias-succeeds id chain kind s f in
              let c = (apply_alias_call-Agrees (creates id chain kind) s after sound.0 done).1 id in
              let rows = length-pair (rows_of id after) in
              let size = length-pairs_of s chain f in
              let d : chain_of id after ≡ pairs chain = let t = eq_iff id id in ground arith in
              let n = ap length d in
              rw (e, f)
                (written_lem order_by counts (view_or_error order_by id)
                  (create_alias id chain kind s) s after done
                  (
                    view_or_error_lem order_by counts id after (ground arith),
                    from_call (creates id chain kind) s after sound done (λ b.
                        let k = length-pair (rows_of b s) in let m = sound.1 b in ground arith),
                  ))
        ]
      ]

  module _ (matches_id matches_entry : String → Bool) where
    handle-Good :
        (call : AdminCall) (s : AliasTables)
        → IsSound s
        → Good (handle order_by matches_id matches_entry call s)
    handle-Good (put_strategy id strategy) s sound =
        set_strategy-Good order_by counts id strategy s sound
    handle-Good (put_weights id weights) s sound =
        elim (Bool-cases (is_sized weights && all (λ w. not (nat_eq w 0)) weights)) [
          | inl e ↦ rw e (set_weights-Good order_by counts id weights s sound (ground arith))
          | inr e ↦ rw e (ground arith, sound)
        ]
    handle-Good (put_priorities id priorities) s sound =
        set_priorities-Good order_by counts id priorities s sound
    handle-Good (post_alias id chain strategy) s sound =
        elim (Bool-cases (matches_id id && (is_sized chain && all matches_entry chain))) [
          | inl e ↦ rw e (create_entry-Good id chain strategy s sound (ground arith))
          | inr e ↦ rw e (ground arith, sound)
        ]
    handle-Good (delete_whole id) s sound = remove_alias-Good order_by counts id s sound
    handle-Good (post_entry id path) s sound = elim (Bool-cases (matches_entry path)) [
      | inl e ↦ rw e (append_entry-Good id path s sound)
      | inr e ↦ rw e (ground arith, sound)
    ]
    handle-Good (delete_entry id position) s sound =
        remove_entry-Good order_by counts id position s sound

    -- Requests one after the other, on tables in which the entries of every alias have the positions
    -- 0, 1, 2, … and are at most 64, with an order of the listing that keeps the number of the rows:
    -- no request is answered with an exception of the repository (500), and afterwards the entries of
    -- every alias have the positions 0, 1, 2, … again and are at most 64.
    pub administer-IsSound :
        (calls : List AdminCall) (s : AliasTables)
        → IsSound s
        → All
            (λ answer. answer ≢ internal_error)
            (administer order_by matches_id matches_entry calls s).0
          × IsSound (administer order_by matches_id matches_entry calls s).1
    unfolding administer
    administer-IsSound [] s sound = (tt, sound)
    administer-IsSound (call ∷ calls) s sound =
        let (fine, next) = handle-Good call s sound in
        let (rest, last) =
          administer-IsSound calls (handle order_by matches_id matches_entry call s).1 next in
        ((fine, rest), last)
