-- ===== src/Chat/Messages.antt =====
-- Messages and their normalisation, `extractText` and `normalizeMessages` of
-- src/chat/chat.service.ts. `E` is the type of a message's other fields, which are passed on.
use ms_gatgeway_llm.Base.{
  String, Bool, false, not, Option, none, some, List, [], ◌∷◌, map, filter, ◌==◌, string_key,
  if◌then◌else◌, is_blank, is_present, join, concat_text,
}

-- A part of a content array: a text, an object with a `text` (as `String(text ?? '')` renders it),
-- or something else.
pub data ContentPart : Type 0 where
  plain with_text : String → ContentPart
  other_part : ContentPart

pub data Content : Type 0 where
  text : String → Content
  parts : List ContentPart → Content
  other_content : Content

abbrev part_text : ContentPart → String
part_text (plain s) = s
part_text (with_text s) = s
part_text other_part = ""

unfoldable pub extract_text : Content → String
extract_text (text s) = s
extract_text (parts ps) = concat_text (map part_text ps)
extract_text other_content = ""

pub record ChatMessage (E : Type 0) : Type 0 where
  pub role : Option String
  pub content : Content
  pub fields : E

module _ {E : Type 0} where
  abbrev pub is_system : ChatMessage E → Bool
  is_system m = elim m.role [ none ↦ false | some r ↦ r == "system" ]

  abbrev pub systems : List (ChatMessage E) → List (ChatMessage E)
  systems = filter is_system

  abbrev pub others : List (ChatMessage E) → List (ChatMessage E)
  others = filter (λ m. not (is_system m))

  -- `mergedContent`.
  abbrev pub merged_content : List (ChatMessage E) → String
  merged_content ms = join "\n\n" (filter is_present (map (λ m. extract_text m.content) ms))

  -- `mergedSystem`, from the first of the system messages and all of them.
  abbrev pub merged_system : ChatMessage E → List (ChatMessage E) → ChatMessage E
  merged_system first ms = record first {
    role = some "system";
    content = if is_blank (merged_content ms) then first.content else text (merged_content ms);
  }

  unfoldable pub normalize_messages : List (ChatMessage E) → List (ChatMessage E)
  normalize_messages ms = elim (systems ms) [
    | [] ↦ ms
    | first ∷ rest ↦ merged_system first (first ∷ rest) ∷ others ms
  ]
