-- ===== src/Anthropic/Stream/Order.antt =====
-- Whole streams in the order that the automaton of Grammar accepts.
use ms_gatgeway_llm.Base.{
  ℕ, ◌≡◌, refl, sym, ap, ◌∙◌, String, true, false, List, [], ◌∷◌, Option, none, some, number_key,
  arith, Bool-cases, inl, inr,
}
use ms_gatgeway_llm.Anthropic.Stream.Events.{closed, Stream, new_stream, Choice, Chunk}
use ms_gatgeway_llm.Anthropic.Stream.Blocks.{Yields, on_usage}
use ms_gatgeway_llm.Anthropic.Stream.Adapter.{
  on_choice, process_chunk, run_chunks, finish_stream, adapt,
}
use ms_gatgeway_llm.Anthropic.Stream.Grammar.{accept, accept_all, phase, before, done}
use ms_gatgeway_llm.Anthropic.Stream.Protocol.{
  IsValid, Follows, IsOpen, accept_all-append, Follows-nothing, Follows-and_then,
}
use ms_gatgeway_llm.Anthropic.Stream.Chunks.{
  finishes, has_no_calls, calls_end, IsStep, on_choice-open, on_choice-closed,
}

on_usage_lem :
    (n : Option ℕ) (s : Stream)
    → ((on_usage n s).state ≡ s.state) × ((on_usage n s).block_index ≡ s.block_index)
unfolding on_usage
on_usage_lem n s = ground arith

on_usage-phase : (n : Option ℕ) (s : Stream) → phase (on_usage n s) ≡ phase s
unfolding phase on_usage
on_usage-phase n s = ground arith

module _ (msg_id model : String) where
  process_chunk-open :
      (f : String) (chunk : Chunk) (s : Stream)
      → IsValid s
      → IsOpen s
      → IsStep msg_id model (finishes chunk) s (process_chunk msg_id model f chunk s)
  unfolding process_chunk Follows IsValid IsOpen accept_all
  process_chunk-open f chunk s h o = go chunk.completion_tokens chunk.choice
    where
      go :
          (n : Option ℕ) (c : Option Choice)
          → IsStep msg_id model
              (finishes (record { completion_tokens = n; choice = c }))
              s
              (process_chunk msg_id model f (record { completion_tokens = n; choice = c }) s)
      go n none =
          let e = on_usage_lem n s in
          let p = on_usage-phase n s in ((ground arith, sym p), (ground arith, ground arith))
      go n (some c) =
          let e = on_usage_lem n s in
          let p = on_usage-phase n s in
          let k = on_choice-open msg_id model f c n (on_usage n s) (ground arith) (ground arith) in
          (
            (
              k.0.0,
              ap (λ q. accept_all q (on_choice msg_id model f c (on_usage n s)).1) (sym p) ∙ k.0.1,
            ),
            k.1,
          )

  process_chunk-closed :
      (f : String) (chunk : Chunk) (s : Stream)
      → s.state ≡ closed
      → has_no_calls chunk ≡ true
      → process_chunk msg_id model f chunk s ≡ (on_usage chunk.completion_tokens s, [])
  unfolding process_chunk
  process_chunk-closed f chunk s e h = go chunk.completion_tokens chunk.choice h
    where
      go :
          (n : Option ℕ) (c : Option Choice)
          → has_no_calls (record { completion_tokens = n; choice = c }) ≡ true
          → process_chunk msg_id model f (record { completion_tokens = n; choice = c }) s
            ≡ (on_usage n s, [])
      go n none h = refl
      go n (some c) h =
          on_choice-closed msg_id model f c (on_usage n s) ((on_usage_lem n s).0 ∙ e) (ground arith)

  run_chunks-closed :
      (chunks : List (String × Chunk)) (s : Stream)
      → s.state ≡ closed
      → calls_end true chunks ≡ true
      → ((run_chunks msg_id model chunks s).0.state ≡ closed)
        × ((run_chunks msg_id model chunks s).1 ≡ [])
  unfolding run_chunks calls_end
  run_chunks-closed [] s e h = (e, refl)
  run_chunks-closed ((f, chunk) ∷ chunks) s e h =
      let p = process_chunk-closed f chunk s e (ground arith) in
      let t : Stream = on_usage chunk.completion_tokens s in
      let k =
        run_chunks-closed chunks t ((on_usage_lem chunk.completion_tokens s).0 ∙ e)
          (ground arith) in
      rw (p, k.0, k.1) (refl, refl)

  phase_closed : (s t : Stream) → s.state ≡ closed → t.state ≡ closed → phase s ≡ phase t
  unfolding phase
  phase_closed s t e f = ground arith

  run_chunks-Follows :
      (chunks : List (String × Chunk)) (s : Stream)
      → IsValid s
      → IsOpen s
      → calls_end false chunks ≡ true
      → Follows s (run_chunks msg_id model chunks s)
  unfolding run_chunks calls_end Follows IsValid accept_all
  run_chunks-Follows [] s h o c = Follows-nothing s h
  run_chunks-Follows ((f, chunk) ∷ chunks) s h o c =
      let k = process_chunk-open f chunk s h o in
      let r : Yields = process_chunk msg_id model f chunk s in
      Follows-and_then s r (λ t. run_chunks msg_id model chunks t) k.0
        (elim (Bool-cases (finishes chunk)) [
          | inl e ↦ go r.0 k.0.0 (k.1.0 e) (let g : finishes chunk ≡ true = e in ground arith)
          | inr e ↦
              run_chunks-Follows chunks r.0 k.0.0 (k.1.1 e)
                (let g : finishes chunk ≡ false = e in ground arith)
        ])
    where
      go :
          (t : Stream)
          → IsValid t
          → t.state ≡ closed
          → calls_end true chunks ≡ true
          → Follows t (run_chunks msg_id model chunks t)
      go t v e c =
          let k = run_chunks-closed chunks t e c in
          (ground (arith, k.0), rw k.1 (phase_closed t _ e k.0))

  finish_stream_lem :
      (s : Stream) → IsValid s → accept_all (phase s) (finish_stream msg_id model s) ≡ done
  unfolding finish_stream accept_all accept phase IsValid
  finish_stream_lem s h = ground arith

  -- For each stream in which no tool call comes after a finish reason: a client that follows the
  -- protocol (one message_start; blocks numbered from 0, one open at a time, each with deltas of its
  -- kind; then one message_delta and one message_stop) accepts all events, up to the end.
  pub adapt-protocol :
      (chunks : List (String × Chunk))
      → calls_end false chunks ≡ true
      → accept_all before (adapt msg_id model chunks) ≡ done
  unfolding adapt Follows phase IsValid IsOpen
  adapt-protocol chunks h =
      let k = run_chunks-Follows chunks new_stream (λ e. refl) (ground arith) h in
      let r : Yields = run_chunks msg_id model chunks new_stream in
      accept_all-append before r.1 (finish_stream msg_id model r.0)
      ∙ (ap (λ p. accept_all p (finish_stream msg_id model r.0)) k.1 ∙ finish_stream_lem r.0 k.0)
