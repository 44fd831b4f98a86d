-- ===== src/Chat/Merging.antt =====
-- What the merging of system messages keeps.
use package.text.Mathlib.TextLemmas.{append-eq-nil_iff}
use ms_gatgeway_llm.Base.{
  ◌≡◌, refl, sym, ap, ◌∙◌, subst, String, Bool, true, false, not, List, [], ◌∷◌, map, filter, all,
  string_key, if◌then◌else◌, is_blank, is_present, join, arith, all-filter, filter-of_all,
  filter-of_none, all-of_filter, ==→eq, eq_iff,
}
use ms_gatgeway_llm.Chat.Messages.{
  text, ChatMessage, extract_text, is_system, systems, others, merged_content, merged_system,
  normalize_messages,
}

-- The texts that are not blank, with blank lines between them.
abbrev said : List String → String
said texts = join "\n\n" (filter is_present texts)

said-one : (s : String) → said (s ∷ []) ≡ s
unfolding join
said-one s = ground (arith, eq_iff s "")

join-blank : (separator s : String) (texts : List String) → join separator (s ∷ texts) ≡ "" → s ≡ ""
unfolding join
join-blank separator s [] h = h
join-blank separator s (t ∷ texts) h = (append-eq-nil_iff.0 h).0

said-blank : (s : String) (texts : List String) → said (s ∷ texts) ≡ "" → s ≡ ""
said-blank s texts = go (is_blank s) refl
  where
    go :
        (b : Bool)
        → is_blank s ≡ b
        → join "\n\n" (if not b then s ∷ filter is_present texts else filter is_present texts) ≡ ""
        → s ≡ ""
    go true e h = ==→eq s "" e
    go false e h = join-blank "\n\n" s (filter is_present texts) h

module _ {E : Type 0} where
  -- At most the first message is a system message.
  abbrev pub is_merged : List (ChatMessage E) → Bool
  is_merged [] = true
  is_merged (m ∷ ms) = all (λ k. not (is_system k)) ms

  others-IsMerged : (ms : List (ChatMessage E)) → all (λ k. not (is_system k)) (others ms) ≡ true
  others-IsMerged = all-filter (λ k. not (is_system k))

  -- A list with one system message, in front.
  systems-merged :
      (m : ChatMessage E) (ms : List (ChatMessage E))
      → is_system m ≡ true
      → systems (m ∷ others ms) ≡ m ∷ []
  systems-merged m ms e =
      rw e (ap (λ l. m ∷ l) (filter-of_none is_system (others ms) (others-IsMerged ms)))

  others-merged :
      (m : ChatMessage E) (ms : List (ChatMessage E))
      → is_system m ≡ true
      → others (m ∷ others ms) ≡ others ms
  others-merged m ms e =
      rw e (filter-of_all (λ k. not (is_system k)) (others ms) (others-IsMerged ms))

  -- What is asked of the merged list.
  abbrev pub Merges : List (ChatMessage E) → List (ChatMessage E) → Type 0
  Merges ms merged =
      (is_merged merged ≡ true)
      × (others merged ≡ others ms)
      × (merged_content (systems merged) ≡ merged_content (systems ms))

  -- The merged message says what all the system messages say.
  merged_content-merged_system :
      (m : ChatMessage E) (rest : List (ChatMessage E))
      → merged_content (merged_system m (m ∷ rest) ∷ []) ≡ merged_content (m ∷ rest)
  unfolding extract_text
  merged_content-merged_system m rest =
      said-one (extract_text (merged_system m (m ∷ rest)).content)
      ∙ go (merged_content (m ∷ rest)) refl (is_blank (merged_content (m ∷ rest))) refl
    where
      go :
          (c : String)
          → merged_content (m ∷ rest) ≡ c
          → (b : Bool) → is_blank c ≡ b
          → extract_text (if b then m.content else text c) ≡ c
      go c e true h =
          let k : c ≡ "" = ==→eq c "" h in
          said-blank (extract_text m.content) (map (λ m. extract_text m.content) rest) (e ∙ k)
          ∙ sym k
      go c e false h = refl

  -- The two cases of `normalize_messages`.
  merge_of_none : (ms : List (ChatMessage E)) → systems ms ≡ [] → normalize_messages ms ≡ ms
  unfolding normalize_messages
  merge_of_none ms e = rw (e, normalize_messages)

  merge_of_some :
      (ms : List (ChatMessage E)) (m : ChatMessage E) (rest : List (ChatMessage E))
      → systems ms ≡ m ∷ rest
      → normalize_messages ms ≡ merged_system m (m ∷ rest) ∷ others ms
  unfolding normalize_messages
  merge_of_some ms m rest e = rw (e, normalize_messages)

  is_merged-of_none : (ms : List (ChatMessage E)) → systems ms ≡ [] → is_merged ms ≡ true
  is_merged-of_none [] e = refl
  is_merged-of_none (m ∷ ms) e = let k = all-of_filter is_system (m ∷ ms) e in ground arith

  -- After merging there is at most one system message, in front; the other messages are as they
  -- were, in their order; and the text of the system messages, the blank ones left out, is kept.
  pub normalize_messages-Merges : (ms : List (ChatMessage E)) → Merges ms (normalize_messages ms)
  normalize_messages-Merges ms = go (systems ms) refl
    where
      go : (l : List (ChatMessage E)) → systems ms ≡ l → Merges ms (normalize_messages ms)
      go [] e = subst (Merges ms) (sym (merge_of_none ms e)) (is_merged-of_none ms e, refl, refl)
      go (m ∷ rest) e =
          let n : ChatMessage E = merged_system m (m ∷ rest) in
          subst (Merges ms) (sym (merge_of_some ms m rest e)) (
            others-IsMerged ms,
            others-merged n ms refl,
            ap merged_content (systems-merged n ms refl)
                ∙ (merged_content-merged_system m rest ∙ ap merged_content (sym e)),
          )
