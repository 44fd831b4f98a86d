-- ===== src/Anthropic/Tests.antt =====
-- The adapters on a conversation with a tool, and the theorems at it. A JSON object is its text here.
use ms_gatgeway_llm.Base.{ℕ, true, ◌≡◌, refl, String, none, some, List, [], ◌∷◌, join, concat_text}
use ms_gatgeway_llm.Anthropic.Types.{
  AnthropicContentBlock, text, thinking, tool_use, tool_result, image, result_text,
  AnthropicMessage, blocks, whole, system_text, text_part, image_url, plain, tool, user_parts,
  assistant,
}
use ms_gatgeway_llm.Anthropic.Request.{
  translate_user, translate_system, translate_assistant, translate_blocks, translate_message,
  translate_all, translate_messages,
}
use ms_gatgeway_llm.Anthropic.Body.{
  AnthropicMessagesBody, any_choice, required, enabled, translate_request,
}
use ms_gatgeway_llm.Anthropic.Response.{Choice, function_call, ChatCompletion, translate_response}
use ms_gatgeway_llm.Anthropic.ToolOrder.{IsInOrder, translate_request-IsInOrder}
use ms_gatgeway_llm.Anthropic.RoundTrip.{echo, translate_message-echo}

abbrev message : String → List (AnthropicContentBlock String) → AnthropicMessage String
message role bs = record { role = role; content = blocks bs }

abbrev conversation : List (AnthropicMessage String)
conversation =
    record { role = "user"; content = whole "Weather?" }
    ∷ message "assistant"
        (thinking "hm" ∷ text "Let me see." ∷ tool_use "call_1" "weather" "{}" ∷ [])
    ∷ message "user"
        (text "Here:" ∷ image "image/png" "AAAA" ∷ tool_result "call_1" (result_text "sunny") ∷ [])
    ∷ []

abbrev same : String → String
same s = s

translated : Unit {0}
unfolding translate_user translate_system translate_assistant translate_blocks translate_message
    translate_all translate_messages join concat_text
translated = tt

-- The result comes before the rest of its message.
translate_messages_test :
    translate_messages same conversation (system_text "Be brief.")
    ≡ plain "system" (some "Be brief.")
      ∷ plain "user" (some "Weather?")
      ∷ assistant
          (some "Let me see.")
          (some "hm")
          (record { id = "call_1"; name = "weather"; arguments = "{}" } ∷ [])
      ∷ tool "call_1" "sunny"
      ∷ user_parts (text_part "Here:" ∷ image_url "data:image/png;base64,AAAA" ∷ [])
      ∷ []
unfolding translated
translate_messages_test = refl

-- `F` is the type of numbers here.
abbrev body : AnthropicMessagesBody String ℕ
body = record {
  model = "claude";
  messages = conversation;
  system = system_text "Be brief.";
  max_tokens = 100;
  tools = record { name = "weather"; description = some ""; input_schema = "{}" } ∷ [];
  choice = some any_choice;
  temperature = none;
  top_p = none;
  top_k = some 40;
  stop_sequences = none;
  thinking = some (record { kind = "adaptive"; budget_tokens = none });
  stream = true;
  user_id = none;
}

translate_request_test :
    ((translate_request same body).tools
      ≡ record { name = "weather"; description = none; parameters = "{}" } ∷ [])
    × ((translate_request same body).choice ≡ some required)
    × ((translate_request same body).thinking ≡ some (enabled none))
unfolding translate_request
translate_request_test = (refl, refl, refl)

translate_request-IsInOrder_example : IsInOrder [] (translate_request same body).messages
translate_request-IsInOrder_example =
    translate_request-IsInOrder same body (refl, (refl, (refl, refl)))

abbrev choice : Choice
choice = record {
  message = record {
    content = some "Let me see.";
    reasoning_content = some "";
    tool_calls = function_call (record { id = "call_1"; name = "weather"; arguments = "{}" }) ∷ [];
  };
  finish_reason = some "tool_calls";
}

translate_message-echo_example :
    let response : ChatCompletion = record { choices = choice ∷ []; usage = none } in
    translate_message same (echo some "{}" same (translate_response some "{}" "msg_1" response "m"))
    ≡ assistant
        (some "Let me see.")
        none
        (record { id = "call_1"; name = "weather"; arguments = "{}" } ∷ [])
      ∷ []
translate_message-echo_example =
    translate_message-echo some "{}" same "msg_1" "m" choice [] none (refl, tt)
