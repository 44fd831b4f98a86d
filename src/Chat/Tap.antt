-- ===== src/Chat/Tap.antt =====
-- The tap keeps what the client gets, and is settled once.
use ms_gatgeway_llm.Base.{
  ◌≡◌, refl, sym, ap, ◌∙◌, true, Option, none, some, List, [], ◌∷◌, ◌++◌, append_assoc, append-nil,
  if◌then◌else◌, arith,
}
use ms_gatgeway_llm.Chat.Tee.{
  value, done, fails, Call, next, early_return, Settled, resolved, rejected, Tap, new_tap, close,
  settle, Given, chunk, end, thrown, pull, call, run_calls,
}

module _ {C E : Type 0} where
  -- The chunks among the things that a client gets.
  abbrev pub chunks_of : List (Given C E) → List C
  chunks_of [] = []
  chunks_of (chunk c ∷ given) = c ∷ chunks_of given
  chunks_of (end ∷ given) = chunks_of given
  chunks_of (thrown e ∷ given) = chunks_of given

  -- How the first call that ends the stream ends it.
  abbrev pub first_end : List (Call C E) → Option (Settled C E)
  first_end [] = none
  first_end (next (value c) ∷ calls) = first_end calls
  first_end (next (fails (some e)) ∷ calls) = some (rejected e)
  first_end (next (fails none) ∷ calls) = some resolved
  first_end (next done ∷ calls) = some resolved
  first_end (early_return ∷ calls) = some resolved

  close_lem :
      (e : Option E) (t : Tap C E)
      → let t' = close C E e t in
        (t'.chunks ≡ t.chunks)
        × (t'.closed ≡ true)
        × (t'.logged ≡ (if t.closed then t.logged else some (settle C E e)))
  unfolding close
  close_lem e t = ground arith

  closed_chunks :
      (e : Option E) (t : Tap C E) (calls : List (Call C E))
      → ((u : Tap C E)
          → (run_calls C E calls u).0.chunks ≡ u.chunks ++ chunks_of (run_calls C E calls u).1)
      → (run_calls C E calls (close C E e t)).0.chunks
        ≡ t.chunks ++ chunks_of (run_calls C E calls (close C E e t)).1
  closed_chunks e t calls h =
      let (a, b, d) = close_lem e t in
      h (close C E e t) ∙ ap (λ l. l ++ chunks_of (run_calls C E calls (close C E e t)).1) a

  run_calls-chunks :
      (calls : List (Call C E)) (t : Tap C E)
      → (run_calls C E calls t).0.chunks ≡ t.chunks ++ chunks_of (run_calls C E calls t).1
  unfolding run_calls call pull
  run_calls-chunks [] t = sym (append-nil t.chunks)
  run_calls-chunks (next (value c) ∷ calls) t =
      run_calls-chunks calls (record t { chunks = t.chunks ++ c ∷ [] })
      ∙ append_assoc t.chunks (c ∷ []) _
  run_calls-chunks (next done ∷ calls) t = closed_chunks none t calls (run_calls-chunks calls)
  run_calls-chunks (next (fails e) ∷ calls) t = closed_chunks e t calls (run_calls-chunks calls)
  run_calls-chunks (early_return ∷ calls) t = closed_chunks none t calls (run_calls-chunks calls)

  -- The promise is settled by the first call that ends the stream, unless it was settled before.
  abbrev pub Settles : List (Call C E) → Tap C E → Type 0
  Settles calls t = (run_calls C E calls t).0.logged ≡ (
      if t.closed then t.logged else elim (first_end calls) [ none ↦ t.logged | some s ↦ some s ])

  run_calls-logged : (calls : List (Call C E)) (t : Tap C E) → Settles calls t
  unfolding run_calls call pull
  run_calls-logged [] t = ground arith
  run_calls-logged (next (value c) ∷ calls) t =
      run_calls-logged calls (record t { chunks = t.chunks ++ c ∷ [] })
  run_calls-logged (next done ∷ calls) t =
      let (a, b, d) = close_lem none t in run_calls-logged calls (close C E none t) ∙ rw b d
  run_calls-logged (next (fails none) ∷ calls) t =
      let (a, b, d) = close_lem none t in run_calls-logged calls (close C E none t) ∙ rw b d
  run_calls-logged (next (fails (some e)) ∷ calls) t =
      let (a, b, d) = close_lem (some e) t in run_calls-logged calls (close C E (some e) t) ∙ rw b d
  run_calls-logged (early_return ∷ calls) t =
      let (a, b, d) = close_lem none t in run_calls-logged calls (close C E none t) ∙ rw b d

  -- Whatever calls the client makes of the iterator, and whatever the upstream does: the buffer holds
  -- exactly the chunks that the client has got, in their order; and the promise is settled by the
  -- first call that ends the stream (it resolves at the end, at an early return and at a thrown
  -- `undefined`, and is rejected at any other exception), is pending before, and stays so.
  pub run_calls_lem :
      (calls : List (Call C E))
      → let r = run_calls C E calls (new_tap C E) in
        (r.0.chunks ≡ chunks_of r.1) × (r.0.logged ≡ first_end calls)
  run_calls_lem calls = (
    run_calls-chunks calls (new_tap C E),
    run_calls-logged calls (new_tap C E) ∙ same (first_end calls),
  )
    where
      same :
          (o : Option (Settled C E))
          → (elim o as (λ _. Option (Settled C E)) [ none ↦ none | some s ↦ some s ]) ≡ o
      same none = refl
      same (some s) = refl
