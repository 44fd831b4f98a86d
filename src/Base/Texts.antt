-- ===== src/Base/Texts.antt =====
-- Texts joined and concatenated, as `Array.prototype.join` and `+=` do.
use Prim.Native.String.{String, ◌++◌}
use mathlib.Core.Bool.{Bool, not}
use mathlib.Core.List.{List, [], ◌∷◌}
use ms_gatgeway_llm.Base.Tests.{◌==◌, string_key}

abbrev pub is_blank : String → Bool
is_blank s = s == ""

abbrev pub is_present : String → Bool
is_present s = not (is_blank s)

unfoldable pub join : String → List String → String
join separator [] = ""
join separator (s ∷ []) = s
join separator (s ∷ t ∷ texts) = s ++ (separator ++ join separator (t ∷ texts))

unfoldable pub concat_text : List String → String
concat_text [] = ""
concat_text (s ∷ texts) = s ++ concat_text texts
