-- ===== src/Anthropic/Response.antt =====
-- The translation of an answer, src/anthropic/adapters/response-adapter.ts. The random message id is
-- an argument; `parse` is `JSON.parse`, `none` its exception, and `empty` the object `{}`.
use ms_gatgeway_llm.Base.{
  ℕ, String, Option, none, some, truthy, or_else, List, [], ◌∷◌, ◌++◌, ◌==◌, string_key,
  if◌then◌else◌,
}
use ms_gatgeway_llm.Anthropic.Types.{AnthropicContentBlock, text, thinking, tool_use, FunctionCall}

pub data CallMessage : Type 0 where
  function_call : FunctionCall → CallMessage
  other_call : CallMessage

-- A `reasoning_content` that is no text is absent; so is everything of a message that is absent.
pub record UpstreamMessage : Type 0 where
  pub content : Option String
  pub reasoning_content : Option String
  pub tool_calls : List CallMessage

pub record Choice : Type 0 where
  pub message : UpstreamMessage
  pub finish_reason : Option String

pub record Usage : Type 0 where
  pub prompt_tokens : ℕ
  pub completion_tokens : ℕ

pub record ChatCompletion : Type 0 where
  pub choices : List Choice
  pub usage : Option Usage

pub data StopReason : Type 0 where
  end_turn max_tokens stop_sequence tool_use_stop : StopReason

pub record AnthropicMessageResponse (J : Type 0) : Type 0 where
  pub id : String
  pub content : List (AnthropicContentBlock J)
  pub model : String
  pub stop_reason : Option StopReason
  pub input_tokens : ℕ
  pub output_tokens : ℕ

abbrev stop_of : String → Option StopReason
stop_of reason =
    if reason == "stop"
    then some end_turn
    else if reason == "length"
    then some max_tokens
    else if reason == "tool_calls"
    then some tool_use_stop
    else if reason == "content_filter"
    then some end_turn
    else if reason == ""
    then none
    else some end_turn

unfoldable pub map_stop_reason : Option String → Option StopReason
map_stop_reason none = none
map_stop_reason (some reason) = stop_of reason

abbrev pub function_calls : List CallMessage → List FunctionCall
function_calls [] = []
function_calls (function_call c ∷ cs) = c ∷ function_calls cs
function_calls (other_call ∷ cs) = function_calls cs

module _ {J : Type 0} where
  -- `if (text) content.push(…)`.
  abbrev pub push :
      (String → AnthropicContentBlock J) → Option String → List (AnthropicContentBlock J)
  push block none = []
  push block (some s) = block s ∷ []

  module _ (parse : String → Option J) (empty : J) where
    abbrev pub tool_uses : List CallMessage → List (AnthropicContentBlock J)
    tool_uses [] = []
    tool_uses (function_call c ∷ cs) =
        tool_use c.id c.name (or_else (parse c.arguments) empty) ∷ tool_uses cs
    tool_uses (other_call ∷ cs) = tool_uses cs

    unfoldable pub translate_content : UpstreamMessage → List (AnthropicContentBlock J)
    translate_content m =
        push thinking (truthy m.reasoning_content)
        ++ (push text (truthy m.content) ++ tool_uses m.tool_calls)

    abbrev first_choice : List Choice → Choice
    first_choice [] = record {
      message = record { content = none; reasoning_content = none; tool_calls = [] };
      finish_reason = none;
    }
    first_choice (c ∷ choices) = c

    abbrev usage_of : Option Usage → Usage
    usage_of none = record { prompt_tokens = 0; completion_tokens = 0 }
    usage_of (some u) = u

    unfoldable pub translate_response :
        String → ChatCompletion → String → AnthropicMessageResponse J
    translate_response message_id response requested_model =
        let choice = first_choice response.choices in
        record {
          id = message_id;
          content = translate_content choice.message;
          model = requested_model;
          stop_reason = map_stop_reason choice.finish_reason;
          input_tokens = (usage_of response.usage).prompt_tokens;
          output_tokens = (usage_of response.usage).completion_tokens;
        }
