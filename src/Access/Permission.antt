-- ===== src/Access/Permission.antt =====
-- The permissions that the service reads from the rows, after a replacement.
use mathlib.Core.List.{Permᴰ}
use mathlib.Core.Logic.{∥∥₁_elim}
use ms_gatgeway_llm.Base.{
  not, ==_refl, ◌≡◌, ◌≢◌, refl, sym, ap, ◌∙◌, subst, String, Bool, true, false, ◌||◌, some, List,
  [], ◌∷◌, ◌==◌, string_key, if◌then◌else◌, Perm, arith, ne→==,
}
use ms_gatgeway_llm.Access.Repository.{
  delete_for_client, Rows, has, aliases_of, replaced, replace_for_client,
}
use ms_gatgeway_llm.Access.Service.{
  description_of, clear, describe, is_permitted, access_of, get_access,
}
use ms_gatgeway_llm.Access.Replacement.{
  aliases_of-delete, IsReplacement, replace_for_client-IsReplacement,
}

abbrev pub is_empty : List String → Bool
is_empty [] = true
is_empty (a ∷ rest) = false

or_swap : (x y z : Bool) → (x || (y || z)) ≡ (y || (x || z))
or_swap x y z = ground arith

has-swap :
    {x y v w : String} (l : List String) (a : String)
    → x ≡ w
    → y ≡ v
    → has (x ∷ y ∷ l) a ≡ has (v ∷ w ∷ l) a
has-swap {v = v} {w = w} l a e f = rw (e, f) (or_swap (w == a) (v == a) (has l a))

has-permᴰ : {xs ys : List String} (a : String) → Permᴰ xs ys → has xs a ≡ has ys a
has-permᴰ a Permᴰ.nil = refl
has-permᴰ a (Permᴰ.cons e q) = let h = has-permᴰ a q in rw (e, h)
has-permᴰ a (Permᴰ.swap e f) = has-swap _ a e f
has-permᴰ a (Permᴰ.trans q r) = has-permᴰ a q ∙ has-permᴰ a r

is_empty-permᴰ : {xs ys : List String} → Permᴰ xs ys → is_empty xs ≡ is_empty ys
is_empty-permᴰ Permᴰ.nil = refl
is_empty-permᴰ (Permᴰ.cons e q) = refl
is_empty-permᴰ (Permᴰ.swap e f) = refl
is_empty-permᴰ (Permᴰ.trans q r) = is_empty-permᴰ q ∙ is_empty-permᴰ r

-- A list that grants an alias: an empty one grants all.
abbrev pub grants : List String → String → Bool
grants keys a = is_empty keys || has keys a

grants-permᴰ : {xs ys : List String} (a : String) → Permᴰ xs ys → grants xs a ≡ grants ys a
grants-permᴰ a q = rw (is_empty-permᴰ q, has-permᴰ a q)

is_permitted-access_of :
    (xs : List String) (a : String) → is_permitted (access_of xs) a ≡ grants xs a
unfolding is_permitted
is_permitted-access_of [] a = refl
is_permitted-access_of (x ∷ xs) a = refl

-- `order_by` is the ordering of the rows, which keeps them all.
module _ (order_by : List String → List String)
    (keeps : (xs : List String) → Perm (order_by xs) xs) where
  get_access_lem :
      (d : String) (rows : Rows)
      → d ≢ ""
      → get_access order_by (some d) rows ≡ access_of (order_by (aliases_of d rows))
  unfolding get_access
  get_access_lem d rows h = rw (ne→== d "" h, get_access)

  is_permitted-get_access :
      (d a : String) (rows : Rows)
      → d ≢ ""
      → is_permitted (get_access order_by (some d) rows) a ≡ grants (aliases_of d rows) a
  unfolding get_access
  is_permitted-get_access d a rows h =
      rw (ne→== d "" h, get_access)
        (is_permitted-access_of (order_by (aliases_of d rows)) a
          ∙ ∥∥₁_elim (keeps (aliases_of d rows)) (hlevel) (λ q. grants-permᴰ a q))

  -- Once a list has been stored for the client `c`, whatever the ordering of the rows: `c` may use
  -- an alias exactly when it stands in the list, or when the list is empty; and for every other
  -- client the answer is the one before. Both clients have a name.
  pub is_permitted-replaced :
      (c d a : String) (keys : List String) (rows after : Rows)
      → d ≢ ""
      → replace_for_client c keys rows ≡ replaced after
      → is_permitted (get_access order_by (some d) after) a
        ≡ (if c == d then grants keys a else is_permitted (get_access order_by (some d) rows) a)
  unfolding IsReplacement
  is_permitted-replaced c d a keys rows after h e =
      let s : IsReplacement c keys rows (replaced after) =
        subst (IsReplacement c keys rows) e (replace_for_client-IsReplacement c keys rows) in
      is_permitted-get_access d a after h ∙ (ap (λ l. grants l a) (s.1 d) ∙ pick (c == d))
    where
      pick :
          (b : Bool)
          → grants (if b then keys else aliases_of d rows) a
            ≡ (if b then grants keys a else is_permitted (get_access order_by (some d) rows) a)
      pick true = refl
      pick false = sym (is_permitted-get_access d a rows h)

  describe-is_restricted :
      (sort : List String → List String) (c : String) (rows : Rows)
      → c ≢ ""
      → (describe order_by sort c rows).is_restricted ≡ not (is_empty (aliases_of c rows))
  unfolding describe get_access
  describe-is_restricted sort c rows h =
      ap (λ t. (description_of order_by sort c t).is_restricted) (get_access_lem c rows h)
      ∙ (listed (order_by (aliases_of c rows))
          ∙ ∥∥₁_elim (keeps (aliases_of c rows)) (hlevel) (λ q. ap not (is_empty-permᴰ q)))
    where
      listed :
          (xs : List String)
          → (description_of order_by sort c (access_of xs)).is_restricted ≡ not (is_empty xs)
      listed [] = refl
      listed (x ∷ xs) = refl

  -- After the allowlist of the client `c` has been cleared, `c` may use every alias, and for every
  -- other client the answer is the one before; the description that is returned says that `c` is
  -- not restricted.
  clear_lem :
      (sort : List String → List String) (c d a : String) (rows : Rows)
      → c ≢ ""
      → d ≢ ""
      → (is_permitted (get_access order_by (some d) (clear order_by sort c rows).0) a
          ≡ (if c == d then true else is_permitted (get_access order_by (some d) rows) a))
        × ((clear order_by sort c rows).1.is_restricted ≡ false)
  unfolding clear
  clear_lem sort c d a rows h k = (
    is_permitted-get_access d a (delete_for_client c rows) k
        ∙ (ap (λ l. grants l a) (aliases_of-delete d c rows) ∙ pick (c == d)),
    cleared,
  )
    where
      pick :
          (b : Bool)
          → grants (if b then [] else aliases_of d rows) a
            ≡ (if b then true else is_permitted (get_access order_by (some d) rows) a)
      pick true = refl
      pick false = sym (is_permitted-get_access d a rows k)

      cleared : (describe order_by sort c (delete_for_client c rows)).is_restricted ≡ false
      cleared =
          describe-is_restricted sort c (delete_for_client c rows) h
          ∙ (ap (λ l. not (is_empty l)) (aliases_of-delete c c rows) ∙ rw (==_refl c))
