-- ===== src/Chat/Limits.antt =====
-- What every provider of a chain receives.
use ms_gatgeway_llm.Chat.Messages.{ChatMessage, normalize_messages}
use ms_gatgeway_llm.Chat.Merging.{Merges, normalize_messages-Merges}
use ms_gatgeway_llm.Base.{
  refl, List, ℕ, zero, suc, ◌≤◌, min, ◌≡◌, Bool, true, false, Option, none, some, arith,
}
use ms_gatgeway_llm.Providers.{ResolvedModel}
use ms_gatgeway_llm.Chat.Outbound.{
  is_true, Field, absent, present, disabled, include_usage, Body, max_tokens_ceiling,
  clamp_max_tokens, normalize_body, apply_resolved, outbound,
}

-- The number of tokens in a field is within the upstream's range.
abbrev pub IsWithin : Field ℕ → Type 0
IsWithin absent = Unit
IsWithin (present none) = Unit
IsWithin (present (some n)) = n ≤ max_tokens_ceiling

-- The caller's number, or else the model's, brought into the range; a number 0 of the model is none.
abbrev pub SendsTokens : Field ℕ → Option ℕ → Field ℕ → Type 0
SendsTokens absent none sent = sent ≡ absent
SendsTokens absent (some zero) sent = sent ≡ absent
SendsTokens absent (some (suc n)) sent = sent ≡ present (some (min (suc n) max_tokens_ceiling))
SendsTokens (present none) o sent = sent ≡ present none
SendsTokens (present (some n)) o sent = sent ≡ present (some (min n max_tokens_ceiling))

-- The caller's value, be it `null`; or else the gateway's, if it has reason for one.
abbrev pub Prefers : {A : Type 0} → Field A → Bool → A → Field A → Type 0
Prefers absent true own sent = sent ≡ present (some own)
Prefers absent false own sent = sent ≡ absent
Prefers (present a) b own sent = sent ≡ present a

-- The messages of the body are the caller's with its system messages merged into one, in front, that
-- keeps their texts; and no list stays what it is.
abbrev pub SendsMessages :
    {E : Type 0} → Option (List (ChatMessage E)) → Option (List (ChatMessage E)) → Type 0
SendsMessages none sent = sent ≡ none
SendsMessages {E} (some ms) sent =
    (merged : List (ChatMessage E)) × (sent ≡ some merged) × Merges ms merged

module _ {E T O R : Type 0} where
  outbound_fields :
      (body : Body E T O R) (m : ResolvedModel)
      → let sent = outbound body m in
        (sent.model ≡ m.upstream_model)
        × IsWithin sent.max_tokens
        × SendsTokens body.max_tokens m.overrides.max_tokens sent.max_tokens
        × Prefers body.thinking (is_true m.overrides.disable_thinking) disabled sent.thinking
        × Prefers body.stream_options body.stream include_usage sent.stream_options
        × (sent.stream ≡ body.stream)
        × (sent.rest ≡ body.rest)
  unfolding outbound apply_resolved clamp_max_tokens normalize_body
  outbound_fields body m = ground arith

  outbound-messages :
      (body : Body E T O R) (m : ResolvedModel)
      → SendsMessages body.messages (outbound body m).messages
  unfolding outbound apply_resolved clamp_max_tokens normalize_body
  outbound-messages body m = go body.messages refl
    where
      go :
          (o : Option (List (ChatMessage E)))
          → body.messages ≡ o
          → SendsMessages o (outbound body m).messages
      go none e = ground arith
      go (some ms) e = (normalize_messages ms, ground arith, normalize_messages-Merges ms)

  -- The body for a provider names the upstream's model. Its `max_tokens` is at most 131072: the
  -- caller's or else the model's, cut to that. For `thinking` and `stream_options` the caller's
  -- value wins; or else a model that is flagged gets `thinking` disabled, and a stream asks for its
  -- usage. Its messages have at most one system message, in front, which keeps the caller's texts of
  -- them that are not blank; the other messages are the caller's, in their order. What else the
  -- body has is the caller's.
  pub outbound_lem :
      (body : Body E T O R) (m : ResolvedModel)
      → let sent = outbound body m in
        (sent.model ≡ m.upstream_model)
        × IsWithin sent.max_tokens
        × SendsTokens body.max_tokens m.overrides.max_tokens sent.max_tokens
        × Prefers body.thinking (is_true m.overrides.disable_thinking) disabled sent.thinking
        × Prefers body.stream_options body.stream include_usage sent.stream_options
        × (sent.stream ≡ body.stream)
        × (sent.rest ≡ body.rest)
        × SendsMessages body.messages sent.messages
  outbound_lem body m =
      let (model, within, tokens, thinking, options, stream, rest) = outbound_fields body m in
      (model, within, tokens, thinking, options, stream, rest, outbound-messages body m)
