-- ===== src/Anthropic/Stream/Tests.antt =====
-- Streams of the stream adapter, run, and the theorems on them.
use ms_gatgeway_llm.Base.{
  ℕ, ◌≡◌, refl, String, true, false, get, put, List, [], ◌∷◌, Option, none, some,
}
use ms_gatgeway_llm.Anthropic.Stream.Events.{
  ToolCall, Chunk, Block, BlockDelta, StopReason, StreamEvent,
}
use ms_gatgeway_llm.Anthropic.Stream.Adapter.{
  adapt, run_chunks, process_chunk, on_choice, map_some, on_tools, on_tool, on_finish,
  finish_stream,
}
use ms_gatgeway_llm.Anthropic.Stream.Blocks.{
  on_reasoning, on_usage, on_text, tool_block, tool_arguments, map_finish_reason,
}
use ms_gatgeway_llm.Anthropic.Stream.Grammar.{accept_all, before, done}
use ms_gatgeway_llm.Anthropic.Stream.Chunks.{calls_end}
use ms_gatgeway_llm.Anthropic.Stream.Order.{adapt-protocol}
use ms_gatgeway_llm.Anthropic.Stream.Speech.{
  said_in, thought, spoke, speaking, passed_on, after_chunk, after_choice,
}
use ms_gatgeway_llm.Anthropic.Stream.Content.{adapt-said}
use ms_gatgeway_llm.Anthropic.Stream.Report.{reports_in, reported, adapt-reports_in}

abbrev chunk_of : Option String → Option String → List ToolCall → Option String → Chunk
chunk_of r t calls finish = record {
  completion_tokens = none;
  choice = some (record {
    delta = record { reasoning_content = r; content = t; tool_calls = calls };
    finish_reason = finish;
  });
}

abbrev search_call : ToolCall
search_call = record {
  index = some 0;
  id = some "call_1";
  name = some "search";
  arguments = some "{}";
}

abbrev usage_of : ℕ → Chunk
usage_of n = record { completion_tokens = some n; choice = none }

-- Reasoning, a text, a call, a text that comes too late, and the finish.
abbrev mixed : List (String × Chunk)
mixed =
    ("toolu_1", chunk_of (some "hm") none [] none)
    ∷ ("toolu_2", chunk_of none (some "hello") [] none)
    ∷ ("toolu_3", usage_of 7)
    ∷ ("toolu_4", chunk_of none none (search_call ∷ []) none)
    ∷ ("toolu_5", chunk_of none (some "lost") [] none)
    ∷ ("toolu_6", chunk_of none none [] (some "tool_calls"))
    ∷ []

adapt-mixed :
    adapt "msg_1" "m" mixed
    ≡ StreamEvent.message_start "msg_1" "m"
      ∷ StreamEvent.content_block_start 0 Block.thinking
      ∷ StreamEvent.ping
      ∷ StreamEvent.content_block_delta 0 (BlockDelta.thinking_delta "hm")
      ∷ StreamEvent.content_block_stop 0
      ∷ StreamEvent.content_block_start 1 Block.text
      ∷ StreamEvent.content_block_delta 1 (BlockDelta.text_delta "hello")
      ∷ StreamEvent.content_block_stop 1
      ∷ StreamEvent.content_block_start 2 (Block.tool_use "call_1" "search")
      ∷ StreamEvent.content_block_delta 2 (BlockDelta.input_json_delta "{}")
      ∷ StreamEvent.content_block_stop 2
      ∷ StreamEvent.message_delta StopReason.tool_use 7
      ∷ StreamEvent.message_stop
      ∷ []
unfolding adapt run_chunks process_chunk on_choice map_some on_reasoning on_usage on_tools on_text
    on_tool tool_block tool_arguments get put on_finish map_finish_reason finish_stream
adapt-mixed = refl

mixed-calls_end : calls_end false mixed ≡ true
unfolding calls_end
mixed-calls_end = refl

adapt-protocol_example : accept_all before (adapt "msg_1" "m" mixed) ≡ done
adapt-protocol_example = adapt-protocol "msg_1" "m" mixed mixed-calls_end

adapt-said_example : said_in (adapt "msg_1" "m" mixed) ≡ passed_on speaking mixed
adapt-said_example = adapt-said "msg_1" "m" mixed

passed_on-mixed : passed_on speaking mixed ≡ thought "hm" ∷ spoke "hello" ∷ []
unfolding passed_on after_chunk after_choice
passed_on-mixed = refl

-- The count of tokens that comes after the finish reason, as OpenAI sends it.
abbrev counted_late : List (String × Chunk)
counted_late =
    ("toolu_1", chunk_of none (some "hello") [] none)
    ∷ ("toolu_2", chunk_of none none [] (some "stop"))
    ∷ ("toolu_3", usage_of 7)
    ∷ []

adapt-reports_in_example :
    reports_in (adapt "msg_1" "m" counted_late) ≡ reported 0 counted_late ∷ []
adapt-reports_in_example = adapt-reports_in "msg_1" "m" counted_late

reported-counted_late : reported 0 counted_late ≡ (StopReason.end_turn, 0)
unfolding reported map_finish_reason
reported-counted_late = refl
