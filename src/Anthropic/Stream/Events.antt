-- ===== src/Anthropic/Stream/Events.antt =====
-- The data of the stream adapter: the variables of the closure that `createStreamAdapter` makes
-- (the record `Stream`), the chunks it reads and the events it yields.
use ms_gatgeway_llm.Base.{
  ℕ, String, Bool, false, List, [], Option, none, string_key, number_key, Dict,
}

pub data StreamState : Type 0 where
  waiting in_thinking in_text in_tool_use closed : StreamState

pub record ToolCallAccumulator : Type 0 where
  pub id : String
  pub name : String
  pub arguments : String

-- The variables of `createStreamAdapter`; `none` stands for the tool index -1.
pub record Stream : Type 0 where
  pub state : StreamState
  pub block_index : ℕ
  pub current_tool_index : Option ℕ
  pub tool_calls : Dict ℕ ToolCallAccumulator
  pub output_tokens : ℕ
  pub ping_sent : Bool

abbrev pub new_stream : Stream
new_stream = record {
  state = waiting;
  block_index = 0;
  current_tool_index = none;
  tool_calls = [];
  output_tokens = 0;
  ping_sent = false;
}

-- One entry of `delta.tool_calls`.
pub record ToolCall : Type 0 where
  pub index : Option ℕ
  pub id : Option String
  pub name : Option String
  pub arguments : Option String

-- `none` is `undefined`, `null` or a value of another type; an absent delta has none and no calls.
pub record ChunkDelta : Type 0 where
  pub reasoning_content : Option String
  pub content : Option String
  pub tool_calls : List ToolCall

pub record Choice : Type 0 where
  pub delta : ChunkDelta
  pub finish_reason : Option String

-- `usage?.completion_tokens` and `choices?.[0]`.
pub record Chunk : Type 0 where
  pub completion_tokens : Option ℕ
  pub choice : Option Choice

pub data Block : Type 0 where
  thinking text : Block
  tool_use : (id name : String) → Block

pub data BlockDelta : Type 0 where
  thinking_delta text_delta input_json_delta : String → BlockDelta

pub data StopReason : Type 0 where
  end_turn max_tokens stop_sequence tool_use : StopReason

pub data StreamEvent : Type 0 where
  message_start : (id model : String) → StreamEvent
  content_block_start : (index : ℕ) → Block → StreamEvent
  content_block_delta : (index : ℕ) → BlockDelta → StreamEvent
  content_block_stop : (index : ℕ) → StreamEvent
  message_delta : StopReason → (output_tokens : ℕ) → StreamEvent
  ping message_stop : StreamEvent
