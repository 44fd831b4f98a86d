-- ===== src/Anthropic/RoundTrip.antt =====
-- An answer that a client sends back reaches the upstream as the upstream said it.
use package.text.Mathlib.TextLemmas.{append-nil as text_append-nil}
use ms_gatgeway_llm.Base.{
  ◌≡◌, refl, ap, ◌∙◌, String, Option, none, some, truthy, or_else, List, [], ◌∷◌, ◌++◌, string_key,
  concat_text, arith, All,
}
use ms_gatgeway_llm.Anthropic.Types.{
  text, thinking, AnthropicMessage, blocks, FunctionCall, assistant,
}
use ms_gatgeway_llm.Anthropic.Request.{
  texts, thoughts, calls, translate_assistant, translate_blocks, translate_message,
}
use ms_gatgeway_llm.Anthropic.Response.{
  CallMessage, function_call, other_call, Choice, Usage, ChatCompletion, AnthropicMessageResponse,
  function_calls, push, tool_uses, translate_content, translate_response,
}

module _ {J : Type 0} (parse : String → Option J) (empty : J) (stringify : J → String) where
  -- The arguments are JSON as `JSON.stringify` writes it.
  abbrev pub IsCanonical : FunctionCall → Type 0
  IsCanonical c = stringify (or_else (parse c.arguments) empty) ≡ c.arguments

  abbrev pub echo : AnthropicMessageResponse J → AnthropicMessage J
  echo r = record { role = "assistant"; content = blocks r.content }

  texts-tool_uses : (cs : List CallMessage) → texts (tool_uses parse empty cs) ≡ []
  texts-tool_uses [] = refl
  texts-tool_uses (function_call c ∷ cs) = texts-tool_uses cs
  texts-tool_uses (other_call ∷ cs) = texts-tool_uses cs

  thoughts-tool_uses : (cs : List CallMessage) → thoughts (tool_uses parse empty cs) ≡ []
  thoughts-tool_uses [] = refl
  thoughts-tool_uses (function_call c ∷ cs) = thoughts-tool_uses cs
  thoughts-tool_uses (other_call ∷ cs) = thoughts-tool_uses cs

  calls-tool_uses :
      (cs : List CallMessage)
      → All IsCanonical (function_calls cs)
      → calls stringify (tool_uses parse empty cs) ≡ function_calls cs
  calls-tool_uses [] h = refl
  calls-tool_uses (function_call c ∷ cs) (e, h) =
      ap (λ a. record c { arguments = a } ∷ calls stringify (tool_uses parse empty cs)) e
      ∙ ap (λ l. c ∷ l) (calls-tool_uses cs h)
  calls-tool_uses (other_call ∷ cs) h = calls-tool_uses cs h

  truthy_idem : (o : Option String) → truthy (truthy o) ≡ truthy o
  truthy_idem none = refl
  truthy_idem (some s) = ground arith

  joined : (s : String) → truthy (some s) ≡ some s → truthy (some (concat_text (s ∷ []))) ≡ some s
  unfolding concat_text
  joined s h = rw (text_append-nil s) h

  translate_assistant-pushed :
      (r t : Option String) (cs : List CallMessage)
      → truthy r ≡ r
      → truthy t ≡ t
      → All IsCanonical (function_calls cs)
      → translate_assistant stringify (push thinking r ++ (push text t ++ tool_uses parse empty cs))
        ≡ assistant t r (function_calls cs)
  unfolding translate_assistant concat_text
  translate_assistant-pushed none none cs h k a =
      rw (texts-tool_uses cs, thoughts-tool_uses cs, calls-tool_uses cs a) refl
  translate_assistant-pushed none (some t) cs h k a =
      rw (texts-tool_uses cs, thoughts-tool_uses cs, calls-tool_uses cs a, joined t k) refl
  translate_assistant-pushed (some r) none cs h k a =
      rw (texts-tool_uses cs, thoughts-tool_uses cs, calls-tool_uses cs a, joined r h) refl
  translate_assistant-pushed (some r) (some t) cs h k a =
      rw (texts-tool_uses cs, thoughts-tool_uses cs, calls-tool_uses cs a, joined r h, joined t k)
        refl

  -- The round trip of an answer: translated for the client and sent back by it as the assistant's
  -- message of the next request, it is the upstream's message again, with the same text, reasoning and
  -- calls of functions (a blank text counts as none), if the calls' arguments are canonical JSON.
  pub translate_message-echo :
      (message_id model : String) (choice : Choice) (choices : List Choice) (usage : Option Usage)
      → All IsCanonical (function_calls choice.message.tool_calls)
      → let response : ChatCompletion = record { choices = choice ∷ choices; usage = usage } in
        translate_message stringify
          (echo (translate_response parse empty message_id response model))
        ≡ assistant
            (truthy choice.message.content)
            (truthy choice.message.reasoning_content)
            (function_calls choice.message.tool_calls)
          ∷ []
  unfolding translate_message translate_response translate_content translate_blocks
  translate_message-echo message_id model choice choices usage h =
      let m = choice.message in
      ap (λ a. a ∷ [])
        (translate_assistant-pushed (truthy m.reasoning_content) (truthy m.content) m.tool_calls
          (truthy_idem m.reasoning_content) (truthy_idem m.content) h)
