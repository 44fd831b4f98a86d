-- ===== src/Providers/Paths.antt =====
-- Paths "providerId/modelKey": their text in src/database/repositories/provider-registry.repository.ts
-- and the splitting of it in src/providers/provider.service.ts.
use Prim.Native.Char.{Char}
use Prim.Native.String
use Prim.Native.String.append
use ms_gatgeway_llm.Base.{
  ◌≡◌, ap, ◌∙◌, String, Bool, false, List, [], ◌∷◌, split, includes, split-append, split-whole,
}

abbrev slash : Char
slash = "/"

unfoldable pub includes_slash : String → Bool
unfolding includes
includes_slash s = includes slash s

-- `split('/')`.
unfoldable pub split_slash : String → List String
unfolding split
split_slash s = split slash s

abbrev pub path : String → String → String
path provider_id model_key = String.◌++◌ provider_id (String.◌++◌ "/" model_key)

-- A provider id and a model key without a slash are the two pieces of their path.
pub split_slash-path :
    (provider_id model_key : String)
    → includes_slash provider_id ≡ false
    → includes_slash model_key ≡ false
    → split_slash (path provider_id model_key) ≡ provider_id ∷ model_key ∷ []
unfolding split_slash includes_slash
split_slash-path p m h k =
    ap (λ t. split slash (String.◌++◌ p t))
      (append.cons slash String.[] m ∙ ap (String.◌∷◌ slash) (append.nil m))
    ∙ (split-append slash p m ∙ rw (split-whole slash p h, split-whole slash m k))
