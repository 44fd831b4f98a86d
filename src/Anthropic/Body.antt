-- ===== src/Anthropic/Body.antt =====
-- The body of a request, `translateRequest`, `translateTools` and `translateToolChoice` of
-- src/anthropic/adapters/request-adapter.ts. `J` are JSON objects and `F` numbers with a fraction;
-- `none` is a field that is absent. `top_k` is accepted and not passed on.
use ms_gatgeway_llm.Base.{
  ℕ, String, Bool, Option, none, some, truthy, List, map, ◌||◌, ◌==◌, string_key, if◌then◌else◌,
}
use ms_gatgeway_llm.Anthropic.Types.{AnthropicMessage, System, OutMessage}
use ms_gatgeway_llm.Anthropic.Request.{translate_messages}

pub record AnthropicTool (J : Type 0) : Type 0 where
  pub name : String
  pub description : Option String
  pub input_schema : J

pub data AnthropicToolChoice : Type 0 where
  auto_choice any_choice : AnthropicToolChoice
  tool_choice : (name : String) → AnthropicToolChoice

pub record ThinkingRequest : Type 0 where
  pub kind : String
  pub budget_tokens : Option ℕ

pub record AnthropicMessagesBody (J F : Type 0) : Type 0 where
  pub model : String
  pub messages : List (AnthropicMessage J)
  pub system : System J
  pub max_tokens : ℕ
  pub tools : List (AnthropicTool J)
  pub choice : Option AnthropicToolChoice
  pub temperature : Option F
  pub top_p : Option F
  pub top_k : Option ℕ
  pub stop_sequences : Option (List String)
  pub thinking : Option ThinkingRequest
  pub stream : Bool
  pub user_id : Option String

-- A function's tool and the choices as the upstream takes them.
pub record FunctionTool (J : Type 0) : Type 0 where
  pub name : String
  pub description : Option String
  pub parameters : J

pub data OutChoice : Type 0 where
  auto required : OutChoice
  function : (name : String) → OutChoice

pub data OutThinking : Type 0 where
  enabled : (budget_tokens : Option ℕ) → OutThinking
  disabled : OutThinking

-- The parameters that go to the upstream; `tools` is absent if it is empty, and `stream` if it is false.
pub record OutParams (J F : Type 0) : Type 0 where
  pub model : String
  pub messages : List (OutMessage J)
  pub max_tokens : ℕ
  pub tools : List (FunctionTool J)
  pub choice : Option OutChoice
  pub temperature : Option F
  pub top_p : Option F
  pub stop : Option (List String)
  pub thinking : Option OutThinking
  pub stream : Bool
  pub user : Option String

abbrev pub translate_tool_choice : Option AnthropicToolChoice → Option OutChoice
translate_tool_choice none = none
translate_tool_choice (some auto_choice) = some auto
translate_tool_choice (some any_choice) = some required
translate_tool_choice (some (tool_choice name)) = some (function name)

abbrev pub translate_thinking : Option ThinkingRequest → Option OutThinking
translate_thinking none = none
translate_thinking (some t) =
    if t.kind == "enabled" || t.kind == "adaptive"
    then some (enabled t.budget_tokens)
    else if t.kind == "disabled"
    then some disabled
    else none

abbrev pub translate_tool : {J : Type 0} → AnthropicTool J → FunctionTool J
translate_tool t = record {
  name = t.name;
  description = truthy t.description;
  parameters = t.input_schema;
}

module _ {J F : Type 0} (stringify : J → String) where
  unfoldable pub translate_request : AnthropicMessagesBody J F → OutParams J F
  translate_request body = record {
    model = body.model;
    messages = translate_messages stringify body.messages body.system;
    max_tokens = body.max_tokens;
    tools = map translate_tool body.tools;
    choice = translate_tool_choice body.choice;
    temperature = body.temperature;
    top_p = body.top_p;
    stop = body.stop_sequences;
    thinking = translate_thinking body.thinking;
    stream = body.stream;
    user = truthy body.user_id;
  }
