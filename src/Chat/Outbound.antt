-- ===== src/Chat/Outbound.antt =====
-- The body that goes to the upstream, `normalizeBody` and `applyResolved` of
-- src/chat/chat.service.ts. Numbers of tokens are positive integers, as the request's schema
-- (src/chat/schemas/chat-completion.schema.ts) demands.
use ms_gatgeway_llm.Base.{
  ℕ, ltb, nat_eq, String, Bool, true, false, Option, none, some, List, if◌then◌else◌,
}
use ms_gatgeway_llm.Providers.{ResolvedModel}
use ms_gatgeway_llm.Chat.Messages.{ChatMessage, normalize_messages}

-- A field of the body: absent, or present with `null` or `undefined` (`none`) or a value.
pub data Field (A : Type 0) : Type 0 where
  absent : Field A
  present : Option A → Field A

pub data Thinking (T : Type 0) : Type 0 where
  disabled : Thinking T
  as_given : T → Thinking T

pub data StreamOptions (O : Type 0) : Type 0 where
  include_usage : StreamOptions O
  given_options : O → StreamOptions O

-- `messages` is `none` when it is no array; `rest` are the fields that are passed on.
pub record Body (E T O R : Type 0) : Type 0 where
  pub model : String
  pub messages : Option (List (ChatMessage E))
  pub max_tokens : Field ℕ
  pub thinking : Field (Thinking T)
  pub stream : Bool
  pub stream_options : Field (StreamOptions O)
  pub rest : R

abbrev pub max_tokens_ceiling : ℕ
max_tokens_ceiling = 131072

abbrev pub is_absent : {A : Type 0} → Field A → Bool
is_absent absent = true
is_absent (present a) = false

-- `field in body` decides; the caller's value wins.
abbrev pub default_to : {A : Type 0} → Option A → Field A → Field A
default_to none f = f
default_to (some a) absent = present (some a)
default_to (some a) (present b) = present b

-- A number that JavaScript takes for true.
abbrev positive : Option ℕ → Option ℕ
positive none = none
positive (some n) = if nat_eq n 0 then none else some n

abbrev clamp_field : Field ℕ → Field ℕ
clamp_field absent = absent
clamp_field (present none) = present none
clamp_field (present (some n)) =
    present (some (if ltb max_tokens_ceiling n then max_tokens_ceiling else n))

abbrev pub is_true : Option Bool → Bool
is_true none = false
is_true (some b) = b

abbrev when : {A : Type 0} → Bool → A → Option A
when b a = if b then some a else none

module _ {E T O R : Type 0} where
  unfoldable pub clamp_max_tokens : Body E T O R → Body E T O R
  clamp_max_tokens body = record body { max_tokens = clamp_field body.max_tokens }

  unfoldable pub normalize_body : Body E T O R → Body E T O R
  normalize_body body = elim body.messages [
    | none ↦ body
    | some ms ↦ record body { messages = some (normalize_messages ms) }
  ]

  unfoldable pub apply_resolved : Body E T O R → ResolvedModel → Body E T O R
  apply_resolved body resolved = clamp_max_tokens (record body {
    model = resolved.upstream_model;
    max_tokens = default_to (positive resolved.overrides.max_tokens) body.max_tokens;
    thinking =
        default_to (when (is_true resolved.overrides.disable_thinking) disabled) body.thinking;
    stream_options = default_to (when body.stream include_usage) body.stream_options;
  })

  -- What `callUpstream` sends.
  unfoldable pub outbound : Body E T O R → ResolvedModel → Body E T O R
  outbound body resolved = apply_resolved (normalize_body body) resolved
