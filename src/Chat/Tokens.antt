-- ===== src/Chat/Tokens.antt =====
-- The token counts of an answer, `extractTokens`, `estimateTokens` and `extractStreamTokens` of
-- src/chat/chat.service.ts.
use ms_gatgeway_llm.Base.{
  ℕ, ◌+◌, ◌*◌, ◌/◌, ◌≤◌, max, ◌≡◌, refl, String, Option, none, some, List, [], ◌∷◌, map, sum, arith,
  or_else,
}

pub record TokenUsage : Type 0 where
  pub prompt_tokens : ℕ
  pub completion_tokens : ℕ
  pub total_tokens : ℕ

-- A chunk as the tap keeps it: its usage, and the contents of its choices' deltas that are texts.
pub record TapChunk : Type 0 where
  pub usage : Option TokenUsage
  pub contents : List String

abbrev pub quarter : ℕ → ℕ
quarter chars = max 1 ((chars + 3) / 4)

-- `length_of` is a text's length in UTF-16 code units, and `prompt_chars` that of
-- `JSON.stringify(promptBody)`.
module _ (length_of : String → ℕ) (prompt_chars : ℕ) where
  abbrev pub chunk_chars : TapChunk → ℕ
  chunk_chars c = sum (map length_of c.contents)

  unfoldable pub estimate_tokens : List TapChunk → TokenUsage
  estimate_tokens chunks =
      let completion = quarter (sum (map chunk_chars chunks)) in
      let prompt = quarter prompt_chars in
      record {
        prompt_tokens = prompt;
        completion_tokens = completion;
        total_tokens = prompt + completion;
      }

  -- The loop over the chunks, with `found` so far.
  unfoldable pub find_usage : Option TokenUsage → List TapChunk → Option TokenUsage
  find_usage found [] = found
  find_usage found (c ∷ chunks) =
      find_usage (elim c.usage [ none ↦ found | some u ↦ some u ]) chunks

  unfoldable pub extract_stream_tokens : List TapChunk → TokenUsage
  extract_stream_tokens chunks = or_else (find_usage none chunks) (estimate_tokens chunks)

  abbrev pub NoUsage : List TapChunk → Type 0
  NoUsage [] = Unit
  NoUsage (c ∷ chunks) = (c.usage ≡ none) × NoUsage chunks

  find_usage-NoUsage :
      (found : Option TokenUsage) (chunks : List TapChunk)
      → NoUsage chunks
      → find_usage found chunks ≡ found
  unfolding find_usage
  find_usage-NoUsage found [] h = refl
  find_usage-NoUsage found (c ∷ chunks) (e, h) = rw e (find_usage-NoUsage found chunks h)

  -- A stream without a usage is still counted: a token for each four characters, rounded up, and at
  -- least one for the prompt and one for the answer.
  extract_stream_tokens-NoUsage :
      (chunks : List TapChunk)
      → NoUsage chunks
      → let n = extract_stream_tokens chunks in
        let chars = sum (map chunk_chars chunks) in
        (n.total_tokens ≡ n.prompt_tokens + n.completion_tokens)
        × (1 ≤ n.prompt_tokens)
        × (1 ≤ n.completion_tokens)
        × (chars ≤ 4 * n.completion_tokens)
        × (4 * n.completion_tokens ≤ chars + 4)
        × (prompt_chars ≤ 4 * n.prompt_tokens)
        × (4 * n.prompt_tokens ≤ prompt_chars + 4)
  unfolding extract_stream_tokens estimate_tokens
  extract_stream_tokens-NoUsage chunks h = rw (find_usage-NoUsage none chunks h) (ground arith)
