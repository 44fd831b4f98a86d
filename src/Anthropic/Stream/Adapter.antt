-- ===== src/Anthropic/Stream/Adapter.antt =====
-- `processChunk`, its loops, and the generator of `createStreamAdapter`. A part of the generator is
-- a function to the new variables and the events that it yields.
use ms_gatgeway_llm.Base.{
  or_else, truthy, String, true, List, [], ◌∷◌, ◌++◌, Option, none, some, string_key, number_key,
}
use ms_gatgeway_llm.Anthropic.Stream.Events.{
  waiting, closed, Stream, new_stream, ToolCall, Choice, Chunk, StopReason, StreamEvent,
}
use ms_gatgeway_llm.Anthropic.Stream.Blocks.{
  Yields, pings, map_finish_reason, on_usage, on_reasoning, on_text, tool_block, tool_arguments,
}

-- Two parts in turn: `f` runs on the variables that the first has left.
abbrev pub and_then : Yields → (Stream → Yields) → Yields
and_then (s, out) f = let r = f s in (r.0, out ++ r.1)

unfoldable pub map_some : Option String → (String → Stream → Yields) → Stream → Yields
map_some none f s = (s, [])
map_some (some a) f s = f a s

module _ (msg_id model : String) where
  unfoldable pub on_tool : String → ToolCall → Stream → Yields
  on_tool fallback tc s =
      and_then (tool_block msg_id model fallback tc (or_else tc.index 0) s)
        (λ t. tool_arguments tc (or_else tc.index 0) t)

  unfoldable pub on_tools : String → List ToolCall → Stream → Yields
  on_tools fallback [] s = (s, [])
  on_tools fallback (tc ∷ tcs) s = and_then (on_tool fallback tc s) (λ t. on_tools fallback tcs t)

  abbrev pub ending : String → Stream → List StreamEvent
  ending reason s =
      StreamEvent.message_delta (map_finish_reason reason) s.output_tokens
      ∷ StreamEvent.message_stop
      ∷ []

  unfoldable pub on_finish : String → Stream → Yields
  on_finish reason s = elim s.state [
    | closed ↦ (s, [])
    | waiting ↦ (
      record s { state = closed; ping_sent = true },
      StreamEvent.message_start msg_id model ∷ pings s ++ ending reason s,
    )
    | _ ↦ (
      record s { state = closed },
      StreamEvent.content_block_stop s.block_index ∷ ending reason s,
    )
  ]

  -- Reasoning, text and tool calls of a choice.
  abbrev pub content : String → Choice → Stream → Yields
  content fallback c s =
      and_then
        (and_then (map_some (truthy c.delta.reasoning_content) (on_reasoning msg_id model) s)
          (λ t. map_some (truthy c.delta.content) (on_text msg_id model) t))
        (λ t. on_tools fallback c.delta.tool_calls t)

  -- `processChunk` after `if (!choice) return`.
  unfoldable pub on_choice : String → Choice → Stream → Yields
  on_choice fallback c s =
      and_then (content fallback c s) (λ t. map_some (truthy c.finish_reason) on_finish t)

  unfoldable pub process_chunk : String → Chunk → Stream → Yields
  process_chunk fallback chunk s = elim chunk.choice [
    | none ↦ (on_usage chunk.completion_tokens s, [])
    | some c ↦ on_choice fallback c (on_usage chunk.completion_tokens s)
  ]

  -- The loop over the source; each chunk comes with its time-stamped fallback id.
  unfoldable pub run_chunks : List (String × Chunk) → Stream → Yields
  run_chunks [] s = (s, [])
  run_chunks ((fallback, chunk) ∷ chunks) s =
      and_then (process_chunk fallback chunk s) (λ t. run_chunks chunks t)

  -- After the loop: the end of a source that has sent no finish reason.
  unfoldable pub finish_stream : Stream → List StreamEvent
  finish_stream s = elim s.state [
    | closed ↦ []
    | waiting ↦
        StreamEvent.message_start msg_id model
        ∷ StreamEvent.message_delta StopReason.end_turn s.output_tokens
        ∷ StreamEvent.message_stop
        ∷ []
    | _ ↦
        StreamEvent.content_block_stop s.block_index
        ∷ StreamEvent.message_delta StopReason.end_turn s.output_tokens
        ∷ StreamEvent.message_stop
        ∷ []
  ]

  -- All events of the generator, for a source that ends.
  unfoldable pub adapt : List (String × Chunk) → List StreamEvent
  adapt chunks = let r = run_chunks chunks new_stream in r.1 ++ finish_stream r.0
