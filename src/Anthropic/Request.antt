-- ===== src/Anthropic/Request.antt =====
-- The messages of a request, `translateMessages` of src/anthropic/adapters/request-adapter.ts.
-- `stringify` is `JSON.stringify`.
use Prim.Native.String.{◌++◌ as append}
use ms_gatgeway_llm.Base.{
  String, none, some, truthy, List, [], ◌∷◌, ◌++◌, map, ◌==◌, string_key, if◌then◌else◌, join,
  concat_text,
}
use ms_gatgeway_llm.Anthropic.Types.{
  InnerBlock, inner_text, inner_other, ToolResultContent, result_text, result_blocks, no_result,
  AnthropicContentBlock, text, thinking, tool_use, tool_result, image, absent, whole, blocks,
  AnthropicMessage, System, no_system, system_text, system_blocks, FunctionCall, UserPart,
  text_part, image_url, OutMessage, plain, tool, user_parts, assistant, passed,
}

-- The filters of the blocks by their type, each with what is read of the blocks.
abbrev inner_texts : List InnerBlock → List String
inner_texts [] = []
inner_texts (inner_text s ∷ bs) = s ∷ inner_texts bs
inner_texts (inner_other ∷ bs) = inner_texts bs

abbrev pub result_content : ToolResultContent → String
result_content (result_text s) = s
result_content (result_blocks bs) = concat_text (inner_texts bs)
result_content no_result = ""

module _ {J : Type 0} where
  abbrev pub texts : List (AnthropicContentBlock J) → List String
  texts [] = []
  texts (text s ∷ bs) = s ∷ texts bs
  texts (b ∷ bs) = texts bs

  abbrev pub thoughts : List (AnthropicContentBlock J) → List String
  thoughts [] = []
  thoughts (thinking s ∷ bs) = s ∷ thoughts bs
  thoughts (b ∷ bs) = thoughts bs

  abbrev pub results : List (AnthropicContentBlock J) → List (OutMessage J)
  results [] = []
  results (tool_result id c ∷ bs) = tool id (result_content c) ∷ results bs
  results (b ∷ bs) = results bs

  -- The blocks that are no tool results.
  abbrev pub rest_of : List (AnthropicContentBlock J) → List (AnthropicContentBlock J)
  rest_of [] = []
  rest_of (tool_result id c ∷ bs) = rest_of bs
  rest_of (b ∷ bs) = b ∷ rest_of bs

  abbrev images : List (AnthropicContentBlock J) → List UserPart
  images [] = []
  images (image media_type base64 ∷ bs) =
      image_url (append "data:" (append media_type (append ";base64," base64))) ∷ images bs
  images (b ∷ bs) = images bs

  abbrev pub user_message : List UserPart → OutMessage J
  user_message (text_part s ∷ []) = plain "user" (some s)
  user_message parts = user_parts parts

  abbrev pub rest_message : List (AnthropicContentBlock J) → List (OutMessage J)
  rest_message [] = []
  rest_message (b ∷ bs) = user_message (map text_part (texts (b ∷ bs)) ++ images (b ∷ bs)) ∷ []

  unfoldable pub translate_user : List (AnthropicContentBlock J) → List (OutMessage J)
  translate_user bs = results bs ++ rest_message (rest_of bs)

  unfoldable pub translate_system : System J → List (OutMessage J)
  translate_system no_system = []
  translate_system (system_text s) = elim (truthy (some s)) [
    | none ↦ []
    | some t ↦ plain "system" (some t) ∷ []
  ]
  translate_system (system_blocks bs) = elim (truthy (some (join "\n\n" (texts bs)))) [
    | none ↦ []
    | some t ↦ plain "system" (some t) ∷ []
  ]

  module _ (stringify : J → String) where
    abbrev pub calls : List (AnthropicContentBlock J) → List FunctionCall
    calls [] = []
    calls (tool_use id name input ∷ bs) =
        record { id = id; name = name; arguments = stringify input } ∷ calls bs
    calls (b ∷ bs) = calls bs

    -- An absent `tool_calls` is the empty list here.
    unfoldable pub translate_assistant : List (AnthropicContentBlock J) → OutMessage J
    translate_assistant bs =
        assistant (truthy (some (concat_text (texts bs))))
          (truthy (some (concat_text (thoughts bs)))) (calls bs)

    unfoldable pub translate_blocks : String → List (AnthropicContentBlock J) → List (OutMessage J)
    translate_blocks role bs =
        if role == "user"
        then translate_user bs
        else if role == "assistant"
        then translate_assistant bs ∷ []
        else passed role bs ∷ []

    unfoldable pub translate_message : AnthropicMessage J → List (OutMessage J)
    translate_message m = elim m.content [
      | absent ↦ plain m.role none ∷ []
      | whole s ↦ plain m.role (some s) ∷ []
      | blocks bs ↦ translate_blocks m.role bs
    ]

    unfoldable pub translate_all : List (AnthropicMessage J) → List (OutMessage J)
    translate_all [] = []
    translate_all (m ∷ ms) = translate_message m ++ translate_all ms

    unfoldable pub translate_messages : List (AnthropicMessage J) → System J → List (OutMessage J)
    translate_messages ms system = translate_system system ++ translate_all ms
