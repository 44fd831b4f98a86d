-- ===== src/Anthropic/Stream/Grammar.antt =====
-- The order in which a client of the Anthropic API may meet the events of a stream, as an automaton.
use ms_gatgeway_llm.Base.{
  ℕ, ◌+◌, Bool, true, false, ◌&&◌, List, [], ◌∷◌, nat_eq, if◌then◌else◌, number_key,
}
use ms_gatgeway_llm.Anthropic.Stream.Events.{
  waiting, in_thinking, in_text, in_tool_use, closed, Stream, Block, BlockDelta, StreamEvent,
}

pub data Kind : Type 0 where
  thinking text tool_use : Kind

-- `outside n`: no block is open and the next one has index n; `inside n k`: block n is open.
pub data Phase : Type 0 where
  before ending done broken : Phase
  outside : ℕ → Phase
  inside : ℕ → Kind → Phase

abbrev pub kind_of : Block → Kind
kind_of Block.thinking = Kind.thinking
kind_of Block.text = Kind.text
kind_of (Block.tool_use i n) = Kind.tool_use

abbrev pub fits : Kind → BlockDelta → Bool
fits Kind.thinking (BlockDelta.thinking_delta s) = true
fits Kind.text (BlockDelta.text_delta s) = true
fits Kind.tool_use (BlockDelta.input_json_delta s) = true
fits _ _ = false

unfoldable pub accept : Phase → StreamEvent → Phase
accept before (StreamEvent.message_start i m) = outside 0
accept (outside n) (StreamEvent.content_block_start i b) =
    if nat_eq i n then inside n (kind_of b) else broken
accept (outside n) StreamEvent.ping = outside n
accept (outside n) (StreamEvent.message_delta r k) = ending
accept (inside n k) (StreamEvent.content_block_delta i d) =
    if nat_eq i n && fits k d then inside n k else broken
accept (inside n k) StreamEvent.ping = inside n k
accept (inside n k) (StreamEvent.content_block_stop i) =
    if nat_eq i n then outside (n + 1) else broken
accept ending StreamEvent.message_stop = done
accept _ _ = broken

unfoldable pub accept_all : Phase → List StreamEvent → Phase
accept_all p [] = p
accept_all p (e ∷ es) = accept_all (accept p e) es

-- The phase in which a client is that has read what the adapter has yielded.
unfoldable pub phase : Stream → Phase
phase s = elim s.state [
  | waiting ↦ before
  | in_thinking ↦ inside s.block_index Kind.thinking
  | in_text ↦ inside s.block_index Kind.text
  | in_tool_use ↦ inside s.block_index Kind.tool_use
  | closed ↦ done
]
