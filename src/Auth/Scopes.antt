-- ===== src/Auth/Scopes.antt =====
-- The scopes of a client through their column, src/auth/client.repository.ts, and an update of them.
use Prim.Native.Char.{Char}
use Prim.Native.String
use Prim.Native.String.append
use mathlib.Core.List.{flat_map}
use ms_gatgeway_llm.Base.{
  ◌≡◌, ◌≢◌, refl, sym, ap, ◌∙◌, String, some, List, [], ◌∷◌, ◌++◌, inl, inr, filter, is_present,
  split, split-append, join, append-nil, Option-cases, get, get-put_self, string_key, arith,
}
use ms_gatgeway_llm.Auth.Repository.{
  Client, scopes_of, scopes_text, to_client, find_by_id, update_client, change, ClientRow, Clients,
  ClientFields, with_fields,
}
use ms_gatgeway_llm.Auth.Service.{
  ClientService, ClientUpdate, update, update_existing, find_client, merged,
}

abbrev comma : Char
comma = ","

-- The pieces between commas that are not empty.
abbrev pub pieces : List String → List String
pieces scopes = filter is_present (flat_map (split comma) scopes)

split-join :
    (s : String) (scopes : List String)
    → split comma (join "," (s ∷ scopes)) ≡ flat_map (split comma) (s ∷ scopes)
unfolding join flat_map
split-join s [] = sym (append-nil (split comma s))
split-join s (t ∷ scopes) =
    let rest = join "," (t ∷ scopes) in
    ap (λ u. split comma (String.◌++◌ s u))
      (append.cons comma String.[] rest ∙ ap (String.◌∷◌ comma) (append.nil rest))
    ∙ split-append comma s rest
    ∙ ap (λ l. split comma s ++ l) (split-join t scopes)

scopes_of-scopes_text : (scopes : List String) → scopes_of (scopes_text scopes) ≡ pieces scopes
unfolding scopes_of scopes_text join
scopes_of-scopes_text [] = unfold split flat_map in refl
scopes_of-scopes_text (s ∷ scopes) = ap (filter is_present) (split-join s scopes)

pub find_by_id-change :
    (id : String) (f : ClientRow → ClientRow) (row : ClientRow) (db : Clients)
    → get id db ≡ some row
    → find_by_id id (change id f db) ≡ some (to_client id (f row))
unfolding find_by_id change
find_by_id-change id f row db e = let k = get-put_self id (f row) db in ground arith

update_client-changes :
    (id : String) (fields : ClientFields) (db after : Clients)
    → update_client id fields db ≡ some after
    → after ≡ change id (with_fields fields) db
unfolding update_client
update_client-changes id fields db after h = ground arith

module _ {S : Type 0} where
  update_existing-scopes :
      (id : String) (next : ClientFields) (row : ClientRow) (s after : ClientService S) (c : Client)
      → get id s.repo ≡ some row
      → update_existing id next s ≡ (after, inr c)
      → (next.scopes ≢ []) × (find_client id after ≡ some c) × (c.scopes ≡ pieces next.scopes)
  unfolding update_existing find_client to_client
  update_existing-scopes id next row s after c e h =
      let found = find_by_id-change id (with_fields next) row s.repo e in
      let stored = scopes_of-scopes_text next.scopes in
      elim (Option-cases (update_client id next s.repo)) [
        | inl n ↦ ground arith
        | inr (db, u) ↦
            let same = update_client-changes id next s.repo db u in
            let there : find_by_id id db ≡ some (to_client id (with_fields next row)) =
              rw same found in
            ground arith
      ]

  -- After an update that succeeds, with new scopes: there was at least one, the client that is answered
  -- is the one in the table, and its scopes are the pieces between commas of those given, the empty
  -- ones left out.
  pub update-scopes :
      (id : String) (fields : ClientUpdate) (scopes : List String) (s after : ClientService S)
      (c : Client)
      → fields.scopes ≡ some scopes
      → update id fields s ≡ (after, inr c)
      → (scopes ≢ []) × (find_client id after ≡ some c) × (c.scopes ≡ pieces scopes)
  unfolding update find_client find_by_id
  update-scopes id fields scopes s after c f h = elim (Option-cases (get id s.repo)) [
    | inl n ↦ ground arith
    | inr (row, e) ↦
        let next = merged fields (to_client id row) in
        let k = update_existing-scopes id next row s after c e in ground arith
  ]
