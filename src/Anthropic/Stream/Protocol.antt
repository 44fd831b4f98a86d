-- ===== src/Anthropic/Stream/Protocol.antt =====
-- The events of the stream adapter in the order that the automaton of Grammar accepts.
use ms_gatgeway_llm.Base.{
  ℕ, ◌≡◌, refl, ap, ◌∙◌, ◌≢◌, String, List, [], ◌∷◌, ◌++◌, number_key, arith,
}
use ms_gatgeway_llm.Anthropic.Stream.Events.{
  waiting, in_tool_use, closed, Stream, ToolCall, StreamEvent,
}
use ms_gatgeway_llm.Anthropic.Stream.Blocks.{
  Yields, on_reasoning, on_text, tool_block, tool_arguments,
}
use ms_gatgeway_llm.Anthropic.Stream.Adapter.{and_then, on_finish}
use ms_gatgeway_llm.Anthropic.Stream.Grammar.{Phase, accept, accept_all, phase}

pub accept_all-append :
    (p : Phase) (xs ys : List StreamEvent)
    → accept_all p (xs ++ ys) ≡ accept_all (accept_all p xs) ys
unfolding accept_all
accept_all-append p [] ys = refl
accept_all-append p (x ∷ xs) ys = accept_all-append (accept p x) xs ys

unfoldable pub IsValid : Stream → Type 0
IsValid s = s.state ≡ waiting → s.block_index ≡ 0

-- A part of the generator that a client in step with `s` can follow.
unfoldable pub Follows : Stream → Yields → Type 0
Follows s r = IsValid r.0 × (accept_all (phase s) r.1 ≡ phase r.0)

pub Follows-nothing : (s : Stream) → IsValid s → Follows s (s, [])
unfolding Follows accept_all
Follows-nothing s h = (h, refl)

pub Follows-and_then :
    (s : Stream) (r : Yields) (f : Stream → Yields)
    → Follows s r
    → Follows r.0 (f r.0)
    → Follows s (and_then r f)
unfolding Follows
Follows-and_then s (t, out) f (h, e) (k, g) =
    (k, accept_all-append (phase s) out (f t).1 ∙ ap (λ p. accept_all p (f t).1) e ∙ g)

-- The state in which `s` is, for a split.
unfoldable pub IsOpen : Stream → Type 0
IsOpen s = s.state ≢ closed

module _ (msg_id model : String) where
  pub on_reasoning-Follows :
      (a : String) (s : Stream) → IsValid s → Follows s (on_reasoning msg_id model a s)
  unfolding IsValid Follows accept_all accept phase on_reasoning
  on_reasoning-Follows a s h = ground arith

  pub on_text-Follows : (a : String) (s : Stream) → IsValid s → Follows s (on_text msg_id model a s)
  unfolding IsValid Follows accept_all accept phase on_text
  on_text-Follows a s h = ground arith

  pub on_finish-Follows :
      (a : String) (s : Stream) → IsValid s → Follows s (on_finish msg_id model a s)
  unfolding IsValid Follows accept_all accept phase on_finish
  on_finish-Follows a s h = ground arith

  pub on_reasoning-IsOpen :
      (a : String) (s : Stream) → IsOpen s → IsOpen (on_reasoning msg_id model a s).0
  unfolding IsOpen on_reasoning
  on_reasoning-IsOpen a s h = ground arith

  pub on_text-IsOpen : (a : String) (s : Stream) → IsOpen s → IsOpen (on_text msg_id model a s).0
  unfolding IsOpen on_text
  on_text-IsOpen a s h = ground arith

  pub on_finish-closed : (a : String) (s : Stream) → (on_finish msg_id model a s).0.state ≡ closed
  unfolding on_finish
  on_finish-closed a s = ground arith

  -- A stream that is not closed has the call's block open afterwards, and the call's accumulator.
  pub tool_block_lem :
      (f : String) (tc : ToolCall) (i : ℕ) (s : Stream)
      → IsValid s
      → IsOpen s
      → Follows s (tool_block msg_id model f tc i s)
        × ((tool_block msg_id model f tc i s).0.state ≡ in_tool_use)
  unfolding IsValid IsOpen Follows accept_all accept phase tool_block
  tool_block_lem f tc i s h k = ground arith

  pub tool_arguments_lem :
      (tc : ToolCall) (i : ℕ) (s : Stream)
      → s.state ≡ in_tool_use
      → Follows s (tool_arguments tc i s) × ((tool_arguments tc i s).0.state ≡ in_tool_use)
  unfolding IsValid Follows accept_all accept phase tool_arguments
  tool_arguments_lem tc i s h = ground arith
