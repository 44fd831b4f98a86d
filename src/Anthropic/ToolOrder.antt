-- ===== src/Anthropic/ToolOrder.antt =====
-- Tool calls and their results keep their places: the OpenAI API demands the results right after the
-- calls.
use ms_gatgeway_llm.Base.{
  ◌≡◌, refl, sym, ap, subst, String, Bool, true, false, Option, none, some, truthy, List, [], ◌∷◌,
  ◌++◌, map, ◌==◌, string_key, if◌then◌else◌, append_assoc, join,
}
use ms_gatgeway_llm.Anthropic.Types.{
  AnthropicContentBlock, text, thinking, tool_use, tool_result, image, MessageContent, absent,
  whole, blocks, AnthropicMessage, System, no_system, system_text, system_blocks, UserPart,
  text_part, image_url, OutMessage, plain, tool, assistant, passed,
}
use ms_gatgeway_llm.Anthropic.Request.{
  texts, results, rest_of, user_message, rest_message, translate_user, translate_system, calls,
  translate_assistant, translate_blocks, translate_message, translate_all, translate_messages,
}
use ms_gatgeway_llm.Anthropic.Body.{AnthropicMessagesBody, translate_request}

module _ {J : Type 0} where
  abbrev result_ids : List (AnthropicContentBlock J) → List String
  result_ids [] = []
  result_ids (tool_result id c ∷ bs) = id ∷ result_ids bs
  result_ids (b ∷ bs) = result_ids bs

  abbrev call_ids : List (AnthropicContentBlock J) → List String
  call_ids [] = []
  call_ids (tool_use id name input ∷ bs) = id ∷ call_ids bs
  call_ids (b ∷ bs) = call_ids bs

  -- The ids of the results of a user's message, and of the calls of an assistant's.
  abbrev answers : String → MessageContent J → List String
  answers role (blocks bs) = if role == "user" then result_ids bs else []
  answers role content = []

  abbrev asks : String → MessageContent J → List String
  asks role (blocks bs) =
      if role == "user" then [] else if role == "assistant" then call_ids bs else []
  asks role content = []

  -- Each message has the results of the calls of the one before it, in their order; `ids` are those
  -- that wait for theirs.
  abbrev pub IsAnswered : List String → List (AnthropicMessage J) → Type 0
  IsAnswered ids [] = ids ≡ []
  IsAnswered ids (m ∷ ms) = (answers m.role m.content ≡ ids) × IsAnswered (asks m.role m.content) ms

  -- The same of the messages that go to the upstream: a result is a message, and waiting calls are
  -- answered before anything else.
  abbrev pub IsInOrder : List String → List (OutMessage J) → Type 0
  IsInOrder [] [] = Unit
  IsInOrder (id ∷ ids) [] = ⊥
  IsInOrder [] (tool i c ∷ ms) = ⊥
  IsInOrder (id ∷ ids) (tool i c ∷ ms) = (i ≡ id) × IsInOrder ids ms
  IsInOrder [] (assistant c r cs ∷ ms) = IsInOrder (map (λ c. c.id) cs) ms
  IsInOrder [] (m ∷ ms) = IsInOrder [] ms
  IsInOrder (id ∷ ids) (m ∷ ms) = ⊥

  results-IsInOrder :
      (bs : List (AnthropicContentBlock J)) (ms : List (OutMessage J))
      → IsInOrder [] ms
      → IsInOrder (result_ids bs) (results bs ++ ms)
  results-IsInOrder [] ms h = h
  results-IsInOrder (text s ∷ bs) ms h = results-IsInOrder bs ms h
  results-IsInOrder (thinking s ∷ bs) ms h = results-IsInOrder bs ms h
  results-IsInOrder (tool_use id name input ∷ bs) ms h = results-IsInOrder bs ms h
  results-IsInOrder (tool_result id c ∷ bs) ms h = (refl, results-IsInOrder bs ms h)
  results-IsInOrder (image media_type base64 ∷ bs) ms h = results-IsInOrder bs ms h

  user_message-IsInOrder :
      (parts : List UserPart) (ms : List (OutMessage J))
      → IsInOrder [] ms
      → IsInOrder [] (user_message parts ∷ ms)
  user_message-IsInOrder [] ms h = h
  user_message-IsInOrder (text_part s ∷ []) ms h = h
  user_message-IsInOrder (text_part s ∷ part ∷ parts) ms h = h
  user_message-IsInOrder (image_url u ∷ parts) ms h = h

  rest_message-IsInOrder :
      (bs : List (AnthropicContentBlock J)) (ms : List (OutMessage J))
      → IsInOrder [] ms
      → IsInOrder [] (rest_message bs ++ ms)
  rest_message-IsInOrder [] ms h = h
  rest_message-IsInOrder (b ∷ bs) ms h = user_message-IsInOrder _ ms h

  translate_system-IsInOrder :
      (system : System J) (ms : List (OutMessage J))
      → IsInOrder [] ms
      → IsInOrder [] (translate_system system ++ ms)
  unfolding translate_system
  translate_system-IsInOrder no_system ms h = h
  translate_system-IsInOrder (system_text s) ms h = go (truthy (some s))
    where
      go :
          (o : Option String)
          → IsInOrder [] (
              (elim o as (λ _. List (OutMessage J)) [
                | none ↦ []
                | some t ↦ plain "system" (some t) ∷ []
              ])
              ++ ms)
      go none = h
      go (some t) = h
  translate_system-IsInOrder (system_blocks bs) ms h = go (truthy (some (join "\n\n" (texts bs))))
    where
      go :
          (o : Option String)
          → IsInOrder [] (
              (elim o as (λ _. List (OutMessage J)) [
                | none ↦ []
                | some t ↦ plain "system" (some t) ∷ []
              ])
              ++ ms)
      go none = h
      go (some t) = h

  module _ (stringify : J → String) where
    calls-ids :
        (bs : List (AnthropicContentBlock J)) → map (λ c. c.id) (calls stringify bs) ≡ call_ids bs
    calls-ids [] = refl
    calls-ids (text s ∷ bs) = calls-ids bs
    calls-ids (thinking s ∷ bs) = calls-ids bs
    calls-ids (tool_use id name input ∷ bs) = ap (λ l. id ∷ l) (calls-ids bs)
    calls-ids (tool_result id c ∷ bs) = calls-ids bs
    calls-ids (image media_type base64 ∷ bs) = calls-ids bs

    translate_blocks-IsInOrder :
        (role : String) (bs : List (AnthropicContentBlock J)) (ms : List (OutMessage J))
        → IsInOrder (asks role (blocks bs)) ms
        → IsInOrder (answers role (blocks bs)) (translate_blocks stringify role bs ++ ms)
    unfolding translate_blocks translate_user translate_assistant
    translate_blocks-IsInOrder role bs ms = go (role == "user") (role == "assistant")
      where
        go :
            (u a : Bool)
            → IsInOrder (if u then [] else if a then call_ids bs else []) ms
            → IsInOrder (if u then result_ids bs else []) (
                (if u
                  then translate_user bs
                  else if a
                  then translate_assistant stringify bs ∷ []
                  else passed role bs ∷ [])
                ++ ms)
        go true a h =
            subst (IsInOrder (result_ids bs))
              (sym (append_assoc (results bs) (rest_message (rest_of bs)) ms))
              (results-IsInOrder bs _ (rest_message-IsInOrder (rest_of bs) ms h))
        go false true h = subst (λ ids. IsInOrder ids ms) (sym (calls-ids bs)) h
        go false false h = h

    translate_all-IsInOrder :
        (ids : List String) (ms : List (AnthropicMessage J))
        → IsAnswered ids ms
        → IsInOrder ids (translate_all stringify ms)
    unfolding translate_all translate_message
    translate_all-IsInOrder ids [] h = subst (λ ids. IsInOrder ids []) (sym h) tt
    translate_all-IsInOrder ids (m ∷ ms) (e, h) =
        subst (λ ids. IsInOrder ids (translate_all stringify (m ∷ ms))) e
          (go m.content (translate_all-IsInOrder (asks m.role m.content) ms h))
      where
        message : MessageContent J → List (OutMessage J)
        message c = elim c as (λ _. List (OutMessage J)) [
          | absent ↦ plain m.role none ∷ []
          | whole s ↦ plain m.role (some s) ∷ []
          | blocks bs ↦ translate_blocks stringify m.role bs
        ]

        go :
            (c : MessageContent J)
            → IsInOrder (asks m.role c) (translate_all stringify ms)
            → IsInOrder (answers m.role c) (message c ++ translate_all stringify ms)
        go absent k = k
        go (whole s) k = k
        go (blocks bs) k = translate_blocks-IsInOrder m.role bs _ k

    translate_messages-IsInOrder :
        (ms : List (AnthropicMessage J)) (system : System J)
        → IsAnswered [] ms
        → IsInOrder [] (translate_messages stringify ms system)
    unfolding translate_messages
    translate_messages-IsInOrder ms system h =
        translate_system-IsInOrder system _ (translate_all-IsInOrder [] ms h)

    -- If in a request every call of a tool is answered in the next message, in the order of the calls,
    -- then so it is in the messages that go to the upstream: each result directly follows the calls,
    -- before the rest of the user's message, and no result is without its call.
    pub translate_request-IsInOrder :
        {F : Type 0} (body : AnthropicMessagesBody J F)
        → IsAnswered [] body.messages
        → IsInOrder [] (translate_request stringify body).messages
    unfolding translate_request
    translate_request-IsInOrder body h = translate_messages-IsInOrder body.messages body.system h
