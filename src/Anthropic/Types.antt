-- ===== src/Anthropic/Types.antt =====
-- The messages on both sides of the adapters: Anthropic's of src/anthropic/types.ts and the OpenAI
-- ones that src/anthropic/adapters/request-adapter.ts makes. `J` is the type of JSON objects.
use ms_gatgeway_llm.Base.{String, Option, List}

-- A block inside a tool result; only texts are passed on.
pub data InnerBlock : Type 0 where
  inner_text : String → InnerBlock
  inner_other : InnerBlock

pub data ToolResultContent : Type 0 where
  result_text : String → ToolResultContent
  result_blocks : List InnerBlock → ToolResultContent
  no_result : ToolResultContent

module _ (J : Type 0) where
  -- A thinking block's signature is left out, as the adapters do not read it.
  pub data AnthropicContentBlock : Type 0 where
    text thinking : String → AnthropicContentBlock
    tool_use : (id name : String) → (input : J) → AnthropicContentBlock
    tool_result : (tool_use_id : String) → ToolResultContent → AnthropicContentBlock
    image : (media_type base64 : String) → AnthropicContentBlock

  pub data MessageContent : Type 0 where
    absent : MessageContent
    whole : String → MessageContent
    blocks : List AnthropicContentBlock → MessageContent

  pub record AnthropicMessage : Type 0 where
    pub role : String
    pub content : MessageContent

  -- `role` is a text, as the body's schema demands.
  pub data System : Type 0 where
    no_system : System
    system_text : String → System
    system_blocks : List AnthropicContentBlock → System

pub record FunctionCall : Type 0 where
  pub id : String
  pub name : String
  pub arguments : String

pub data UserPart : Type 0 where
  text_part : String → UserPart
  image_url : String → UserPart

-- A message that goes to the upstream. `plain` has a text or `null`, `passed` the blocks as they came.
pub data OutMessage (J : Type 0) : Type 0 where
  plain : (role : String) → Option String → OutMessage J
  tool : (tool_call_id content : String) → OutMessage J
  user_parts : List UserPart → OutMessage J
  assistant :
      (content reasoning_content : Option String) → (tool_calls : List FunctionCall) → OutMessage J
  passed : (role : String) → List (AnthropicContentBlock J) → OutMessage J
