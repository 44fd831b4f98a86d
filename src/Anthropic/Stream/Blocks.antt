-- ===== src/Anthropic/Stream/Blocks.antt =====
-- The parts of `processChunk` that yield content: reasoning, text and tool calls.
use package.text.Mathlib.Text.{starts_with}
use ms_gatgeway_llm.Base.{
  or_else, truthy, ℕ, ◌+◌, String, Bool, true, false, List, [], ◌∷◌, ◌++◌, Option, none, some,
  nat_eq, if◌then◌else◌, ◌==◌, string_key, number_key, get, put,
}
use ms_gatgeway_llm.Anthropic.Stream.Events.{
  waiting, in_thinking, in_text, in_tool_use, closed, ToolCallAccumulator, Stream, ToolCall, Block,
  BlockDelta, StopReason, StreamEvent,
}

-- What a part of the generator does: the new variables, and what it yields.
abbrev pub Yields : Type 0
Yields = Stream × List StreamEvent

-- `if (!pingSent) yield { type: 'StreamEvent.ping' }`.
abbrev pub pings : Stream → List StreamEvent
pings s = if s.ping_sent then [] else StreamEvent.ping ∷ []

unfoldable pub map_finish_reason : String → StopReason
map_finish_reason reason =
    if reason == "stop"
    then StopReason.end_turn
    else if reason == "length"
    then StopReason.max_tokens
    else if reason == "tool_calls"
    then StopReason.tool_use
    else StopReason.end_turn

-- `if (usage?.completion_tokens) outputTokens = usage.completion_tokens`.
unfoldable pub on_usage : Option ℕ → Stream → Stream
on_usage none s = s
on_usage (some n) s = if nat_eq n 0 then s else record s { output_tokens = n }

-- `msg_id` and `model` are the closure's constants `msgId` and `requestedModel`.
module _ (msg_id model : String) where
  unfoldable pub on_reasoning : String → Stream → Yields
  on_reasoning reasoning s = elim s.state [
    | waiting ↦ (
      record s { state = in_thinking; ping_sent = true },
      StreamEvent.message_start msg_id model
            ∷ StreamEvent.content_block_start s.block_index Block.thinking
            ∷ pings s
          ++ StreamEvent.content_block_delta s.block_index (BlockDelta.thinking_delta reasoning)
            ∷ [],
    )
    | in_thinking ↦ (
      s,
      StreamEvent.content_block_delta s.block_index (BlockDelta.thinking_delta reasoning) ∷ [],
    )
    | closed ↦ (s, [])
    | _ ↦ (
      record s { state = in_thinking; block_index = s.block_index + 1 },
      StreamEvent.content_block_stop s.block_index
          ∷ StreamEvent.content_block_start (s.block_index + 1) Block.thinking
          ∷ StreamEvent.content_block_delta (s.block_index + 1)
              (BlockDelta.thinking_delta reasoning)
          ∷ [],
    )
  ]

  unfoldable pub on_text : String → Stream → Yields
  on_text content s = elim s.state [
    | waiting ↦ (
      record s { state = in_text; ping_sent = true },
      StreamEvent.message_start msg_id model
            ∷ StreamEvent.content_block_start s.block_index Block.text
            ∷ pings s
          ++ StreamEvent.content_block_delta s.block_index (BlockDelta.text_delta content) ∷ [],
    )
    | in_thinking ↦ (
      record s { state = in_text; block_index = s.block_index + 1 },
      StreamEvent.content_block_stop s.block_index
          ∷ StreamEvent.content_block_start (s.block_index + 1) Block.text
          ∷ StreamEvent.content_block_delta (s.block_index + 1) (BlockDelta.text_delta content)
          ∷ [],
    )
    | in_text ↦
        (s, StreamEvent.content_block_delta s.block_index (BlockDelta.text_delta content) ∷ [])
    | _ ↦ (s, [])
  ]

  -- The accumulator that a new tool call gets; `fallback` is `toolu_${Date.now()}`.
  abbrev pub accumulator : String → ToolCall → ToolCallAccumulator
  accumulator fallback tc = record {
    id = or_else tc.id fallback;
    name = or_else tc.name "";
    arguments = "";
  }

  abbrev pub tool_start : String → ToolCall → ℕ → StreamEvent
  tool_start fallback tc i =
      StreamEvent.content_block_start i
        (Block.tool_use (or_else tc.id fallback) (or_else tc.name ""))

  -- `IN_TOOL_USE` with the call of index `idx`, in block `i`.
  abbrev pub entered : String → ToolCall → ℕ → ℕ → Stream → Stream
  entered fallback tc idx i s = record s {
    state = in_tool_use;
    block_index = i;
    current_tool_index = some idx;
    tool_calls = put idx (accumulator fallback tc) s.tool_calls;
  }

  -- A call in another block: the open one is closed first.
  abbrev pub next_tool : String → ToolCall → ℕ → Stream → Yields
  next_tool fallback tc idx s = (
    entered fallback tc idx (s.block_index + 1) s,
    StreamEvent.content_block_stop s.block_index ∷ tool_start fallback tc (s.block_index + 1) ∷ [],
  )

  abbrev pub is_current : ℕ → Option ℕ → Bool
  is_current idx none = false
  is_current idx (some i) = nat_eq idx i

  unfoldable pub tool_block : String → ToolCall → ℕ → Stream → Yields
  tool_block fallback tc idx s = elim s.state [
    | waiting ↦ (
      record (entered fallback tc idx s.block_index s) { ping_sent = true },
      StreamEvent.message_start msg_id model ∷ pings s ++ tool_start fallback tc s.block_index ∷ [],
    )
    | in_tool_use ↦
        if is_current idx s.current_tool_index then (s, []) else next_tool fallback tc idx s
    | closed ↦ (s, [])
    | _ ↦ next_tool fallback tc idx s
  ]

-- `existing`, after the fragment of arguments has been added.
unfoldable pub accumulate : ToolCall → String → ToolCallAccumulator → ToolCallAccumulator
accumulate tc fragment existing = record {
  id = if starts_with "toolu_" existing.id then existing.id else or_else (truthy tc.id) existing.id;
  name = if existing.name == "" then or_else (truthy tc.name) existing.name else existing.name;
  arguments = Prim.Native.String.◌++◌ existing.arguments fragment;
}

unfoldable pub tool_arguments : ToolCall → ℕ → Stream → Yields
tool_arguments tc idx s = elim (get idx s.tool_calls) [
  | none ↦ (s, [])
  | some existing ↦ elim (truthy tc.arguments) [
    | none ↦ (s, [])
    | some fragment ↦ (
      record s { tool_calls = put idx (accumulate tc fragment existing) s.tool_calls },
      StreamEvent.content_block_delta s.block_index (BlockDelta.input_json_delta fragment) ∷ [],
    )
  ]
]
