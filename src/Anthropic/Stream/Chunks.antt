-- ===== src/Anthropic/Stream/Chunks.antt =====
-- One chunk, against the automaton of Grammar: the parts of `processChunk` in turn.
use ms_gatgeway_llm.Base.{
  or_else, truthy, ℕ, ◌≡◌, String, Bool, true, false, ◌&&◌, ◌||◌, not, List, [], ◌∷◌, Option, none,
  some, number_key, arith,
}
use ms_gatgeway_llm.Anthropic.Stream.Events.{in_tool_use, closed, Stream, ToolCall, Choice, Chunk}
use ms_gatgeway_llm.Anthropic.Stream.Blocks.{
  Yields, on_reasoning, on_text, tool_block, tool_arguments,
}
use ms_gatgeway_llm.Anthropic.Stream.Adapter.{
  content, and_then, map_some, on_tool, on_tools, on_finish, on_choice,
}
use ms_gatgeway_llm.Anthropic.Stream.Protocol.{
  IsValid, Follows, IsOpen, Follows-nothing, Follows-and_then, on_reasoning-Follows,
  on_text-Follows, on_finish-Follows, on_reasoning-IsOpen, on_text-IsOpen, on_finish-closed,
  tool_block_lem, tool_arguments_lem,
}

-- The chunk carries a finish reason.
abbrev pub finishes : Chunk → Bool
finishes chunk = elim chunk.choice [
  | none ↦ false
  | some c ↦ elim (truthy c.finish_reason) [ none ↦ false | some r ↦ true ]
]

abbrev pub calls_of : Chunk → List ToolCall
calls_of chunk = elim chunk.choice [ none ↦ [] | some c ↦ c.delta.tool_calls ]

abbrev pub has_no_calls : Chunk → Bool
has_no_calls chunk = elim (calls_of chunk) [ [] ↦ true | tc ∷ tcs ↦ false ]

-- Once a chunk has carried a finish reason, no chunk carries a tool call.
unfoldable pub calls_end : Bool → List (String × Chunk) → Bool
calls_end finished [] = true
calls_end finished ((f, chunk) ∷ chunks) =
    (not finished || has_no_calls chunk) && calls_end (finished || finishes chunk) chunks

-- A client in step can follow, and the stream stays open.
Keeps : Stream → Yields → Type 0
Keeps s r = Follows s r × IsOpen r.0

Keeps-and_then :
    (s : Stream) (r : Yields) (f : Stream → Yields)
    → Keeps s r
    → Keeps r.0 (f r.0)
    → Keeps s (and_then r f)
unfolding Keeps
Keeps-and_then s r f (h, o) (k, p) = (Follows-and_then s r f h k, p)

Keeps-map_some :
    (a : Option String) (f : String → Stream → Yields) (s : Stream)
    → IsValid s
    → IsOpen s
    → ((b : String) → Keeps s (f b s))
    → Keeps s (map_some a f s)
unfolding Keeps map_some
Keeps-map_some none f s h o k = (Follows-nothing s h, o)
Keeps-map_some (some b) f s h o k = k b

module _ (msg_id model : String) where
  on_tool-Keeps :
      (f : String) (tc : ToolCall) (s : Stream)
      → IsValid s
      → IsOpen s
      → Keeps s (on_tool msg_id model f tc s)
  unfolding Keeps IsOpen on_tool
  on_tool-Keeps f tc s h o =
      let i : ℕ = or_else tc.index 0 in
      let b = tool_block_lem msg_id model f tc i s h o in
      let t : Stream = (tool_block msg_id model f tc i s).0 in
      let a = tool_arguments_lem msg_id model tc i t b.1 in
      (
        Follows-and_then s (tool_block msg_id model f tc i s) (λ t. tool_arguments tc i t) b.0 a.0,
        let e : (tool_arguments tc i t).0.state ≡ in_tool_use = a.1 in ground arith,
      )

  on_tools-Keeps :
      (f : String) (tcs : List ToolCall) (s : Stream)
      → IsValid s
      → IsOpen s
      → Keeps s (on_tools msg_id model f tcs s)
  unfolding Keeps on_tools Follows
  on_tools-Keeps f [] s h o = (Follows-nothing s h, o)
  on_tools-Keeps f (tc ∷ tcs) s h o =
      let k = on_tool-Keeps f tc s h o in
      Keeps-and_then s (on_tool msg_id model f tc s) (λ t. on_tools msg_id model f tcs t) k
        (on_tools-Keeps f tcs (on_tool msg_id model f tc s).0 k.0.0 k.1)

  content-Keeps :
      (f : String) (c : Choice) (s : Stream)
      → IsValid s
      → IsOpen s
      → Keeps s (content msg_id model f c s)
  unfolding Keeps Follows
  content-Keeps f c s h o =
      let a =
        Keeps-map_some (truthy c.delta.reasoning_content) (on_reasoning msg_id model) s h o (λ b.
          (on_reasoning-Follows msg_id model b s h, on_reasoning-IsOpen msg_id model b s o)) in
      let t : Stream =
        (map_some (truthy c.delta.reasoning_content) (on_reasoning msg_id model) s).0 in
      let b =
        Keeps-map_some (truthy c.delta.content) (on_text msg_id model) t a.0.0 a.1
          (λ b. (on_text-Follows msg_id model b t a.0.0, on_text-IsOpen msg_id model b t a.1)) in
      let k =
        Keeps-and_then s (map_some (truthy c.delta.reasoning_content) (on_reasoning msg_id model) s)
          (λ t. map_some (truthy c.delta.content) (on_text msg_id model) t) a b in
      Keeps-and_then s _ (λ t. on_tools msg_id model f c.delta.tool_calls t) k
        (on_tools-Keeps f c.delta.tool_calls _ k.0.0 k.1)

  -- An open stream is closed by a chunk with a finish reason, and by no other.
  abbrev pub IsStep : Bool → Stream → Yields → Type 0
  IsStep b s r = Follows s r × ((b ≡ true → r.0.state ≡ closed) × (b ≡ false → IsOpen r.0))

  pub on_choice-open :
      (f : String) (c : Choice) (n : Option ℕ) (s : Stream)
      → IsValid s
      → IsOpen s
      → IsStep
          (finishes (record { completion_tokens = n; choice = some c }))
          s
          (on_choice msg_id model f c s)
  unfolding on_choice map_some Keeps Follows
  on_choice-open f c n s h o = let k = content-Keeps f c s h o in go (truthy c.finish_reason) k
    where
      go :
          (r : Option String)
          → Keeps s (content msg_id model f c s)
          → IsStep
              (elim r [ none ↦ false | some r ↦ true ])
              s
              (and_then (content msg_id model f c s) (λ t. map_some r (on_finish msg_id model) t))
      go none k = (
        Follows-and_then s (content msg_id model f c s) (λ t. (t, [])) k.0
            (Follows-nothing (content msg_id model f c s).0 k.0.0),
        (ground arith, λ e. k.1),
      )
      go (some r) k = (
        Follows-and_then s (content msg_id model f c s) (λ t. on_finish msg_id model r t) k.0
            (on_finish-Follows msg_id model r (content msg_id model f c s).0 k.0.0),
        (λ e. on_finish-closed msg_id model r (content msg_id model f c s).0, ground arith),
      )

  -- A closed stream yields nothing for a chunk without tool calls.
  pub on_choice-closed :
      (f : String) (c : Choice) (s : Stream)
      → s.state ≡ closed
      → c.delta.tool_calls ≡ []
      → on_choice msg_id model f c s ≡ (s, [])
  unfolding on_choice map_some on_reasoning on_text on_tools on_finish
  on_choice-closed f c s h e = ground arith
