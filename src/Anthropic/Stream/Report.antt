-- ===== src/Anthropic/Stream/Report.antt =====
-- What the one `message_delta` of a stream reports: the stop reason and the output tokens.
use ms_gatgeway_llm.Base.{
  or_else, truthy, ℕ, ◌≡◌, refl, sym, ap, ◌∙◌, String, Bool, true, false, List, [], ◌∷◌, ◌++◌,
  Option, none, some, nat_eq, if◌then◌else◌, arith, append_assoc, append-nil,
}
use ms_gatgeway_llm.Anthropic.Stream.Events.{
  closed, Stream, new_stream, ToolCall, Choice, Chunk, StopReason, StreamEvent,
}
use ms_gatgeway_llm.Anthropic.Stream.Blocks.{
  Yields, map_finish_reason, on_usage, on_reasoning, on_text, tool_block, tool_arguments,
}
use ms_gatgeway_llm.Anthropic.Stream.Adapter.{
  content, and_then, map_some, on_tool, on_tools, on_finish, on_choice, process_chunk, run_chunks,
  finish_stream, adapt,
}

abbrev report : StreamEvent → List (StopReason × ℕ)
report (StreamEvent.message_delta r n) = (r, n) ∷ []
report _ = []

unfoldable pub reports_in : List StreamEvent → List (StopReason × ℕ)
reports_in [] = []
reports_in (e ∷ es) = report e ++ reports_in es

abbrev finish_of : Option Choice → Option String
finish_of none = none
finish_of (some c) = truthy c.finish_reason

abbrev counted : Option ℕ → ℕ → ℕ
counted none n = n
counted (some k) n = if nat_eq k 0 then n else k

-- The first finish reason, with the last positive count of tokens up to its chunk.
unfoldable pub reported : ℕ → List (String × Chunk) → StopReason × ℕ
reported n [] = (StopReason.end_turn, n)
reported n ((f, chunk) ∷ chunks) = elim (finish_of chunk.choice) [
  | none ↦ reported (counted chunk.completion_tokens n) chunks
  | some r ↦ (map_finish_reason r, counted chunk.completion_tokens n)
]

reports_in-append :
    (xs ys : List StreamEvent) → reports_in (xs ++ ys) ≡ reports_in xs ++ reports_in ys
unfolding reports_in
reports_in-append [] ys = refl
reports_in-append (x ∷ xs) ys =
    ap (λ l. report x ++ l) (reports_in-append xs ys)
    ∙ sym (append_assoc (report x) (reports_in xs) (reports_in ys))

abbrev is_closed : Stream → Bool
is_closed s = elim s.state [ closed ↦ true | _ ↦ false ]

-- A part that reports nothing, and neither counts tokens nor closes the stream.
IsQuiet : Stream → Yields → Type 0
IsQuiet s r =
    (is_closed r.0 ≡ is_closed s) × (r.0.output_tokens ≡ s.output_tokens) × (reports_in r.1 ≡ [])

IsQuiet-and_then :
    (s : Stream) (r : Yields) (f : Stream → Yields)
    → IsQuiet s r
    → ((t : Stream) → IsQuiet t (f t))
    → IsQuiet s (and_then r f)
unfolding IsQuiet
IsQuiet-and_then s (t, out) f (h, n, e) k =
    let (h', n', e') = k t in (h' ∙ h, n' ∙ n, reports_in-append out (f t).1 ∙ rw (e, e'))

module _ (msg_id model : String) where
  on_reasoning-IsQuiet :
      (o : Option String) (s : Stream) → IsQuiet s (map_some o (on_reasoning msg_id model) s)
  unfolding IsQuiet reports_in map_some on_reasoning
  on_reasoning-IsQuiet none s = (refl, refl, refl)
  on_reasoning-IsQuiet (some a) s = ground arith

  on_text-IsQuiet :
      (o : Option String) (s : Stream) → IsQuiet s (map_some o (on_text msg_id model) s)
  unfolding IsQuiet reports_in map_some on_text
  on_text-IsQuiet none s = (refl, refl, refl)
  on_text-IsQuiet (some a) s = ground arith

  tool_block-IsQuiet :
      (f : String) (tc : ToolCall) (i : ℕ) (s : Stream)
      → IsQuiet s (tool_block msg_id model f tc i s)
  unfolding IsQuiet reports_in tool_block
  tool_block-IsQuiet f tc i s = ground arith

tool_arguments-IsQuiet : (tc : ToolCall) (i : ℕ) (s : Stream) → IsQuiet s (tool_arguments tc i s)
unfolding IsQuiet reports_in tool_arguments
tool_arguments-IsQuiet tc i s = ground arith

module _ (msg_id model : String) where
  on_tools-IsQuiet :
      (f : String) (tcs : List ToolCall) (s : Stream) → IsQuiet s (on_tools msg_id model f tcs s)
  unfolding on_tools on_tool IsQuiet reports_in
  on_tools-IsQuiet f [] s = (refl, refl, refl)
  on_tools-IsQuiet f (tc ∷ tcs) s =
      IsQuiet-and_then s (on_tool msg_id model f tc s) (λ t. on_tools msg_id model f tcs t)
        (IsQuiet-and_then s (tool_block msg_id model f tc (or_else tc.index 0) s)
          (λ t. tool_arguments tc (or_else tc.index 0) t)
          (tool_block-IsQuiet msg_id model f tc (or_else tc.index 0) s)
          (tool_arguments-IsQuiet tc (or_else tc.index 0)))
        (on_tools-IsQuiet f tcs)

  content-IsQuiet : (f : String) (c : Choice) (s : Stream) → IsQuiet s (content msg_id model f c s)
  content-IsQuiet f c s =
      IsQuiet-and_then s _ (λ t. on_tools msg_id model f c.delta.tool_calls t)
        (IsQuiet-and_then s _ (λ t. map_some (truthy c.delta.content) (on_text msg_id model) t)
          (on_reasoning-IsQuiet msg_id model (truthy c.delta.reasoning_content) s)
          (on_text-IsQuiet msg_id model (truthy c.delta.content)))
        (on_tools-IsQuiet f c.delta.tool_calls)

  -- What a chunk does to the report: the count of tokens, and the report itself at the first finish
  -- reason.
  abbrev Tells : Option String → ℕ → Stream → Yields → Type 0
  Tells none n s r = (is_closed r.0 ≡ is_closed s) × (r.0.output_tokens ≡ n) × (reports_in r.1 ≡ [])
  Tells (some a) n s r =
      (is_closed r.0 ≡ true)
      × (reports_in r.1 ≡ (if is_closed s then [] else (map_finish_reason a, n) ∷ []))

  quiet :
      (s : Stream) (r : Yields)
      → IsQuiet s r
      → Tells none s.output_tokens s (and_then r (λ t. (t, [])))
  unfolding IsQuiet
  quiet s (t, out) (h, n, e) = (h, n, ap reports_in (append-nil out) ∙ e)

  on_finish-reports_in :
      (a : String) (s : Stream)
      → (is_closed (on_finish msg_id model a s).0 ≡ true)
        × (reports_in (on_finish msg_id model a s).1
            ≡ (if is_closed s then [] else (map_finish_reason a, s.output_tokens) ∷ []))
  unfolding on_finish reports_in
  on_finish-reports_in a s = ground arith

  finished :
      (a : String) (s : Stream) (r : Yields)
      → IsQuiet s r
      → Tells (some a) s.output_tokens s (and_then r (λ t. on_finish msg_id model a t))
  unfolding IsQuiet
  finished a s (t, out) (h, n, e) =
      let (k, g) = on_finish-reports_in a t in
      (k, reports_in-append out (on_finish msg_id model a t).1 ∙ rw (e, g, h, n))

  on_choice-Tells :
      (f : String) (c : Choice) (s : Stream)
      → Tells (truthy c.finish_reason) s.output_tokens s (on_choice msg_id model f c s)
  unfolding on_choice map_some
  on_choice-Tells f c s = go (truthy c.finish_reason) (content-IsQuiet f c s)
    where
      go :
          (o : Option String)
          → IsQuiet s (content msg_id model f c s)
          → Tells o s.output_tokens s
              (and_then (content msg_id model f c s) (λ t. map_some o (on_finish msg_id model) t))
      go none q = quiet s (content msg_id model f c s) q
      go (some a) q = finished a s (content msg_id model f c s) q

  on_usage_lem :
      (n : Option ℕ) (s : Stream)
      → (is_closed (on_usage n s) ≡ is_closed s)
        × ((on_usage n s).output_tokens ≡ counted n s.output_tokens)
  unfolding on_usage
  on_usage_lem n s = ground arith

  recount :
      {n : ℕ} (o : Option String) (t s : Stream) (r : Yields)
      → (is_closed t ≡ is_closed s) × (t.output_tokens ≡ n)
      → Tells o t.output_tokens t r
      → Tells o n s r
  recount none t s r (h, e) (k, m, g) = (k ∙ h, m ∙ e, g)
  recount (some a) t s r (h, e) (k, g) = (k, g ∙ rw (h, e))

  process_chunk-Tells :
      (f : String) (chunk : Chunk) (s : Stream)
      → Tells
          (finish_of chunk.choice)
          (counted chunk.completion_tokens s.output_tokens)
          s
          (process_chunk msg_id model f chunk s)
  unfolding process_chunk reports_in
  process_chunk-Tells f chunk s = go chunk.completion_tokens chunk.choice
    where
      go :
          (n : Option ℕ) (c : Option Choice)
          → Tells
              (finish_of c)
              (counted n s.output_tokens)
              s
              (process_chunk msg_id model f (record { completion_tokens = n; choice = c }) s)
      go n none = ((on_usage_lem n s).0, (on_usage_lem n s).1, refl)
      go n (some c) =
          recount (truthy c.finish_reason) (on_usage n s) s _ (on_usage_lem n s)
            (on_choice-Tells f c (on_usage n s))

  report_of_run :
      (o : Option String) (n : ℕ) (chunks : List (String × Chunk)) (s : Stream) (r : Yields)
      → Tells o n s r
      → reports_in r.1 ++ (if is_closed r.0 then [] else reported r.0.output_tokens chunks ∷ []) ≡ (
          if is_closed s
          then []
          else elim o [ none ↦ reported n chunks | some a ↦ (map_finish_reason a, n) ] ∷ [])
  report_of_run none n chunks s r (h, m, g) = rw (h, m, g)
  report_of_run (some a) n chunks s r (h, g) =
      rw (h, g) (append-nil (if is_closed s then [] else (map_finish_reason a, n) ∷ []))

  run_chunks-reports_in :
      (chunks : List (String × Chunk)) (s : Stream)
      → let r = run_chunks msg_id model chunks s in
        reports_in r.1 ++ reports_in (finish_stream msg_id model r.0)
        ≡ (if is_closed s then [] else reported s.output_tokens chunks ∷ [])
  unfolding run_chunks reported reports_in finish_stream
  run_chunks-reports_in [] s = ground arith
  run_chunks-reports_in ((f, chunk) ∷ chunks) s =
      let r : Yields = process_chunk msg_id model f chunk s in
      let rest : Yields = run_chunks msg_id model chunks r.0 in
      ap (λ l. l ++ reports_in (finish_stream msg_id model rest.0)) (reports_in-append r.1 rest.1)
      ∙ (append_assoc (reports_in r.1) (reports_in rest.1) _
          ∙ (ap (λ l. reports_in r.1 ++ l) (run_chunks-reports_in chunks r.0)
              ∙ report_of_run (finish_of chunk.choice) _ chunks s r
                  (process_chunk-Tells f chunk s)))

  -- For each stream there is exactly one `message_delta`. It reports the first finish reason
  -- (`end_turn` when there is none) and the last positive count of completion tokens up to the chunk
  -- with that reason, which is 0 when no such chunk carries a count.
  pub adapt-reports_in :
      (chunks : List (String × Chunk))
      → reports_in (adapt msg_id model chunks) ≡ reported 0 chunks ∷ []
  unfolding adapt
  adapt-reports_in chunks =
      let r : Yields = run_chunks msg_id model chunks new_stream in
      reports_in-append r.1 (finish_stream msg_id model r.0)
      ∙ run_chunks-reports_in chunks new_stream
