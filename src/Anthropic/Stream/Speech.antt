-- ===== src/Anthropic/Stream/Speech.antt =====
-- An independent description of the reasoning and the text that the stream adapter passes on.
use ms_gatgeway_llm.Base.{truthy, String, List, [], ◌∷◌, ◌++◌, Option, none, some}
use ms_gatgeway_llm.Anthropic.Stream.Events.{
  in_tool_use, closed, Stream, ToolCall, Choice, Chunk, BlockDelta, StreamEvent,
}

pub data Said : Type 0 where
  thought spoke : String → Said

abbrev pub said : StreamEvent → List Said
said (StreamEvent.content_block_delta i (BlockDelta.thinking_delta t)) = thought t ∷ []
said (StreamEvent.content_block_delta i (BlockDelta.text_delta t)) = spoke t ∷ []
said _ = []

-- The content of the deltas, as a client reads it.
unfoldable pub said_in : List StreamEvent → List Said
said_in [] = []
said_in (e ∷ es) = said e ++ said_in es

-- An independent description: text is passed on except between a tool call and the next reasoning,
-- reasoning always, and nothing after a finish reason.
pub data Mode : Type 0 where
  speaking calling over : Mode

abbrev pub mode : Stream → Mode
mode s = elim s.state [ in_tool_use ↦ calling | closed ↦ over | _ ↦ speaking ]

abbrev pub after_reasoning : Option String → Mode → Mode × List Said
after_reasoning (some a) over = (over, [])
after_reasoning (some a) _ = (speaking, thought a ∷ [])
after_reasoning none m = (m, [])

abbrev pub after_text : Option String → Mode → Mode × List Said
after_text (some a) speaking = (speaking, spoke a ∷ [])
after_text _ m = (m, [])

abbrev pub after_calls : List ToolCall → Mode → Mode
after_calls [] m = m
after_calls (tc ∷ tcs) over = over
after_calls (tc ∷ tcs) _ = calling

abbrev pub after_finish : Option String → Mode → Mode
after_finish none m = m
after_finish (some r) m = over

unfoldable pub after_choice : Choice → Mode → Mode × List Said
after_choice c m =
    let r = after_reasoning (truthy c.delta.reasoning_content) m in
    let t = after_text (truthy c.delta.content) r.0 in
    (after_finish (truthy c.finish_reason) (after_calls c.delta.tool_calls t.0), r.1 ++ t.1)

unfoldable pub after_chunk : Option Choice → Mode → Mode × List Said
after_chunk none m = (m, [])
after_chunk (some c) m = after_choice c m

unfoldable pub passed_on : Mode → List (String × Chunk) → List Said
passed_on m [] = []
passed_on m ((f, chunk) ∷ chunks) =
    let r = after_chunk chunk.choice m in r.1 ++ passed_on r.0 chunks
