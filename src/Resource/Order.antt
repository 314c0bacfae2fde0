-- ===== src/Resource/Order.antt =====
-- Python's order of texts, by code points, its stable `sorted`, and the elements of a set.
pub mod Sorted
use Prim.Native.Char.{code}
use Prim.Native.String.{String}
use ops_inspection_system.Common.{
  Bool, true, false, List, [], ◌∷◌, ◌&&◌, ◌||◌, ◌==◌, ltb, contains, string_eq, number_eq,
  if◌then◌else◌,
}

-- `a <= b`
unfoldable pub text_leb : String → String → Bool
text_leb String.[] b = true
text_leb (String.◌∷◌ c a) String.[] = false
text_leb (String.◌∷◌ c a) (String.◌∷◌ d b) =
    ltb (code c) (code d) || code c == code d && text_leb a b

module _ {ℓ} {A : Type ℓ} where
  unfoldable pub insert : (A → A → Bool) → A → List A → List A
  insert le x [] = x ∷ []
  insert le x (y ∷ ys) = let rest = insert le x ys in if le x y then x ∷ y ∷ ys else y ∷ rest

  unfoldable pub sort : (A → A → Bool) → List A → List A
  sort le [] = []
  sort le (x ∷ xs) = insert le x (sort le xs)

-- Each text once.
unfoldable pub unique : List String → List String
unique [] = []
unique (x ∷ xs) = let rest = unique xs in if contains rest x then rest else x ∷ rest
