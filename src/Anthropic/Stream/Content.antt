-- ===== src/Anthropic/Stream/Content.antt =====
-- The reasoning and the text of a stream, as the adapter passes them on.
use ms_gatgeway_llm.Base.{
  or_else, truthy, ℕ, ◌≡◌, refl, sym, ap, ◌∙◌, subst, String, List, [], ◌∷◌, ◌++◌, Option, none,
  some, arith, append_assoc, append-nil,
}
use ms_gatgeway_llm.Anthropic.Stream.Events.{
  Stream, new_stream, ToolCall, Choice, Chunk, StreamEvent,
}
use ms_gatgeway_llm.Anthropic.Stream.Blocks.{
  Yields, on_usage, on_reasoning, on_text, tool_block, tool_arguments,
}
use ms_gatgeway_llm.Anthropic.Stream.Adapter.{
  and_then, map_some, on_tool, on_tools, on_finish, on_choice, process_chunk, run_chunks,
  finish_stream, adapt,
}
use ms_gatgeway_llm.Anthropic.Stream.Speech.{
  Said, said, said_in, Mode, speaking, mode, after_reasoning, after_text, after_calls, after_finish,
  after_choice, after_chunk, passed_on,
}

said_in-append : (xs ys : List StreamEvent) → said_in (xs ++ ys) ≡ said_in xs ++ said_in ys
unfolding said_in
said_in-append [] ys = refl
said_in-append (x ∷ xs) ys =
    ap (λ l. said x ++ l) (said_in-append xs ys)
    ∙ sym (append_assoc (said x) (said_in xs) (said_in ys))

-- The stream `r` leaves is in mode `p.0`, and `r` yields the content `p.1`.
Says : Yields → Mode × List Said → Type 0
Says r p = (mode r.0 ≡ p.0) × (said_in r.1 ≡ p.1)

Says-and_then :
    (r : Yields) (f : Stream → Yields) (p : Mode × List Said) (g : Mode → Mode × List Said)
    → Says r p
    → ((t : Stream) → Says (f t) (g (mode t)))
    → Says (and_then r f) ((g p.0).0, p.1 ++ (g p.0).1)
unfolding Says
Says-and_then (s, out) f p g (h, e) k =
    let l : Says (f s) (g p.0) = subst (λ m. Says (f s) (g m)) h (k s) in
    (l.0, said_in-append out (f s).1 ∙ rw (e, l.1))

module _ (msg_id model : String) where
  on_reasoning-Says :
      (o : Option String) (s : Stream)
      → Says (map_some o (on_reasoning msg_id model) s) (after_reasoning o (mode s))
  unfolding Says said_in map_some on_reasoning
  on_reasoning-Says none s = (refl, refl)
  on_reasoning-Says (some a) s = ground arith

  on_text-Says :
      (o : Option String) (s : Stream)
      → Says (map_some o (on_text msg_id model) s) (after_text o (mode s))
  unfolding Says said_in map_some on_text
  on_text-Says none s = (refl, refl)
  on_text-Says (some a) s = ground arith

  on_finish-Says :
      (o : Option String) (s : Stream)
      → Says (map_some o (on_finish msg_id model) s) (after_finish o (mode s), [])
  unfolding Says said_in map_some on_finish
  on_finish-Says none s = (refl, refl)
  on_finish-Says (some a) s = ground arith

  tool_block-Says :
      (f : String) (tc : ToolCall) (i : ℕ) (s : Stream)
      → Says (tool_block msg_id model f tc i s) (after_calls (tc ∷ []) (mode s), [])
  unfolding Says said_in tool_block
  tool_block-Says f tc i s = ground arith

tool_arguments-Says :
    (tc : ToolCall) (i : ℕ) (s : Stream) → Says (tool_arguments tc i s) (mode s, [])
unfolding Says said_in tool_arguments
tool_arguments-Says tc i s = ground arith

module _ (msg_id model : String) where
  on_tool-Says :
      (f : String) (tc : ToolCall) (s : Stream)
      → Says (on_tool msg_id model f tc s) (after_calls (tc ∷ []) (mode s), [])
  unfolding on_tool
  on_tool-Says f tc s =
      let i : ℕ = or_else tc.index 0 in
      Says-and_then (tool_block msg_id model f tc i s) (λ t. tool_arguments tc i t)
        (after_calls (tc ∷ []) (mode s), []) (λ m. (m, [])) (tool_block-Says msg_id model f tc i s)
        (tool_arguments-Says tc i)

  after_calls-cons :
      (tc : ToolCall) (tcs : List ToolCall) (m : Mode)
      → after_calls tcs (after_calls (tc ∷ []) m) ≡ after_calls (tc ∷ tcs) m
  after_calls-cons tc tcs m = ground arith

  on_tools-Says :
      (f : String) (tcs : List ToolCall) (s : Stream)
      → Says (on_tools msg_id model f tcs s) (after_calls tcs (mode s), [])
  unfolding on_tools Says said_in
  on_tools-Says f [] s = (refl, refl)
  on_tools-Says f (tc ∷ tcs) s =
      let k =
        Says-and_then (on_tool msg_id model f tc s) (λ t. on_tools msg_id model f tcs t)
          (after_calls (tc ∷ []) (mode s), []) (λ m. (after_calls tcs m, [])) (on_tool-Says f tc s)
          (on_tools-Says f tcs) in
      (k.0 ∙ after_calls-cons tc tcs (mode s), k.1)

  on_choice-Says :
      (f : String) (c : Choice) (s : Stream)
      → Says (on_choice msg_id model f c s) (after_choice c (mode s))
  unfolding on_choice after_choice
  on_choice-Says f c s =
      let p = after_reasoning (truthy c.delta.reasoning_content) (mode s) in
      let q = after_text (truthy c.delta.content) p.0 in
      let l : List Said = p.1 ++ q.1 in
      let a =
        Says-and_then _ (λ t. map_some (truthy c.delta.content) (on_text msg_id model) t) p
          (after_text (truthy c.delta.content))
          (on_reasoning-Says msg_id model (truthy c.delta.reasoning_content) s)
          (on_text-Says msg_id model (truthy c.delta.content)) in
      let b =
        Says-and_then _ (λ t. on_tools msg_id model f c.delta.tool_calls t) (q.0, l)
          (λ m. (after_calls c.delta.tool_calls m, [])) a (on_tools-Says f c.delta.tool_calls) in
      let k =
        Says-and_then _ (λ t. map_some (truthy c.finish_reason) (on_finish msg_id model) t)
          (after_calls c.delta.tool_calls q.0, l ++ [])
          (λ m. (after_finish (truthy c.finish_reason) m, [])) b
          (on_finish-Says msg_id model (truthy c.finish_reason)) in
      subst
        (λ x.
          Says (on_choice msg_id model f c s)
            (after_finish (truthy c.finish_reason) (after_calls c.delta.tool_calls q.0), x))
        (append-nil (l ++ []) ∙ append-nil l) k

  on_usage-mode : (n : Option ℕ) (s : Stream) → mode (on_usage n s) ≡ mode s
  unfolding on_usage
  on_usage-mode n s = ground arith

  process_chunk-Says :
      (f : String) (chunk : Chunk) (s : Stream)
      → Says (process_chunk msg_id model f chunk s) (after_chunk chunk.choice (mode s))
  unfolding process_chunk after_chunk Says said_in
  process_chunk-Says f chunk s = go chunk.completion_tokens chunk.choice
    where
      go :
          (n : Option ℕ) (c : Option Choice)
          → Says
              (process_chunk msg_id model f (record { completion_tokens = n; choice = c }) s)
              (after_chunk c (mode s))
      go n none = (on_usage-mode n s, refl)
      go n (some c) =
          subst (λ m. Says (on_choice msg_id model f c (on_usage n s)) (after_choice c m))
            (on_usage-mode n s) (on_choice-Says f c (on_usage n s))

  run_chunks-Says :
      (chunks : List (String × Chunk)) (s : Stream)
      → said_in (run_chunks msg_id model chunks s).1 ≡ passed_on (mode s) chunks
  unfolding run_chunks passed_on Says said_in
  run_chunks-Says [] s = refl
  run_chunks-Says ((f, chunk) ∷ chunks) s =
      let b = process_chunk-Says f chunk s in
      let r : Yields = process_chunk msg_id model f chunk s in
      said_in-append r.1 (run_chunks msg_id model chunks r.0).1
      ∙ rw (b.1, run_chunks-Says chunks r.0, b.0)

  finish_stream-said_in : (s : Stream) → said_in (finish_stream msg_id model s) ≡ []
  unfolding finish_stream said_in
  finish_stream-said_in s = ground arith

  -- For each stream: what a client reads in the deltas of thinking and of text is, in order, all
  -- reasoning and all text up to the first finish reason, except text that comes after a tool call
  -- with no reasoning in between.
  pub adapt-said :
      (chunks : List (String × Chunk))
      → said_in (adapt msg_id model chunks) ≡ passed_on speaking chunks
  unfolding adapt
  adapt-said chunks =
      let r : Yields = run_chunks msg_id model chunks new_stream in
      said_in-append r.1 (finish_stream msg_id model r.0)
      ∙ (ap (λ l. said_in r.1 ++ l) (finish_stream-said_in r.0)
          ∙ (append-nil (said_in r.1) ∙ run_chunks-Says chunks new_stream))
