-- ===== src/Chat/Tests.antt =====
-- The properties of the chat service's parts at concrete inputs.
use ms_gatgeway_llm.Base.{
  ℕ, ◌≡◌, refl, ◌+◌, String, true, Option, none, some, List, [], ◌∷◌, join, concat_text,
}
use ms_gatgeway_llm.Providers.{ResolvedModel}
use ms_gatgeway_llm.Chat.Messages.{
  Content, text, parts, ChatMessage, plain, with_text, other_part, normalize_messages, extract_text,
}
use ms_gatgeway_llm.Chat.Outbound.{absent, present, Body, include_usage, disabled, outbound}
use ms_gatgeway_llm.Chat.Limits.{IsWithin, SendsTokens, SendsMessages, Prefers, outbound_lem}
use ms_gatgeway_llm.Chat.Tokens.{TokenUsage, TapChunk}
use ms_gatgeway_llm.Chat.Tee.{Call, next, value, fails, early_return, new_tap, run_calls}
use ms_gatgeway_llm.Chat.Tap.{chunks_of, first_end, run_calls_lem}

abbrev message : String → Content → ChatMessage Unit
message r c = record { role = some r; content = c; fields = tt }

abbrev conversation : List (ChatMessage Unit)
conversation =
    message "user" (text "hi")
    ∷ message "system" (parts (plain "be " ∷ with_text "brief" ∷ other_part ∷ []))
    ∷ message "assistant" (text "hello")
    ∷ message "system" (text "no jokes")
    ∷ []

merged_conversation :
    normalize_messages conversation
    ≡ message "system" (text "be brief\n\nno jokes")
      ∷ message "user" (text "hi")
      ∷ message "assistant" (text "hello")
      ∷ []
unfolding normalize_messages extract_text join concat_text
merged_conversation = refl

abbrev request_body : Body Unit Unit Unit Unit
request_body = record {
  model = "chat";
  messages = some conversation;
  max_tokens = present (some 200000);
  thinking = absent;
  stream = true;
  stream_options = absent;
  rest = tt;
}

abbrev thinking_off : ResolvedModel
thinking_off = record {
  requested_as = "chat";
  provider_id = "p";
  model_key = "big";
  upstream_model = "big";
  overrides = record { max_tokens = none; disable_thinking = some true };
  api_key = "";
  base_url = "";
  supports_stream = true;
  timeout_ms = 1000;
  priority = 0;
}

outbound_lem_example :
    let sent = outbound request_body thinking_off in
    (sent.model ≡ "big")
    × IsWithin sent.max_tokens
    × SendsTokens (present (some 200000)) none sent.max_tokens
    × Prefers absent true disabled sent.thinking
    × Prefers absent true include_usage sent.stream_options
    × (sent.stream ≡ true)
    × (sent.rest ≡ tt)
    × SendsMessages request_body.messages sent.messages
outbound_lem_example = outbound_lem request_body thinking_off

abbrev usage_of : ℕ → ℕ → TokenUsage
usage_of p c = record { prompt_tokens = p; completion_tokens = c; total_tokens = p + c }

abbrev piece : Option TokenUsage → TapChunk
piece u = record { usage = u; contents = "abcde" ∷ [] }

abbrev client_calls : List (Call ℕ String)
client_calls = next (value 1) ∷ next (value 2) ∷ next (fails (some "reset")) ∷ early_return ∷ []

run_calls_lem_example :
    let r = run_calls ℕ String client_calls (new_tap ℕ String) in
    (r.0.chunks ≡ chunks_of r.1) × (r.0.logged ≡ first_end client_calls)
run_calls_lem_example = run_calls_lem client_calls
