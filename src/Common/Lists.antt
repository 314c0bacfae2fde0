-- ===== src/Common/Lists.antt =====
-- Lists over the native numbers, and predicates on lists.
use Prim.Native.Nat.{ℕ, zero, suc, ◌+◌, min}
use mathlib.Core.Path.{◌≡◌, refl, sym, ap, subst, ◌∙◌}
use mathlib.Core.Logic.{inl, inr}
use mathlib.Core.Option.{Option, none, some, some-injective}
use mathlib.Core.Bool.{Bool, true, false, ◌&&◌, ◌||◌}
use mathlib.Core.List.{List, [], ◌∷◌, ◌++◌, Memᴰ, map}
use native.Mathlib.Omega.{arith}
use ops_inspection_system.Common.Tests.{if◌then◌else◌, Bool-cases}

module _ {ℓ} {A : Type ℓ} where
  abbrev pub length : List A → ℕ
  length [] = 0
  length (x ∷ xs) = suc (length xs)

  abbrev pub take : ℕ → List A → List A
  take zero xs = []
  take (suc n) [] = []
  take (suc n) (x ∷ xs) = x ∷ take n xs

  abbrev pub drop : ℕ → List A → List A
  drop zero xs = xs
  drop (suc n) [] = []
  drop (suc n) (x ∷ xs) = drop n xs

  -- Python's `any` and `all` over a generator.
  abbrev pub any : (A → Bool) → List A → Bool
  any p [] = false
  any p (x ∷ xs) = p x || any p xs

  abbrev pub all : (A → Bool) → List A → Bool
  all p [] = true
  all p (x ∷ xs) = p x && all p xs

  -- A comprehension with a condition.
  abbrev pub select : (A → Bool) → List A → List A
  select p [] = []
  select p (x ∷ xs) = let rest = select p xs in if p x then x ∷ rest else rest

  -- A loop that appends to a list, for each element.
  unfoldable pub flat_map {κ} : {B : Type κ} → (A → List B) → List A → List B
  flat_map f [] = []
  flat_map f (x ∷ xs) = f x ++ flat_map f xs

  pub length-append : (xs ys : List A) → length (xs ++ ys) ≡ length xs + length ys
  length-append [] ys = omega arith
  length-append (x ∷ xs) ys = omega (arith, length-append xs ys)

  pub length-take : (n : ℕ) (xs : List A) → length (take n xs) ≡ min n (length xs)
  length-take zero xs = omega arith
  length-take (suc n) [] = omega arith
  length-take (suc n) (x ∷ xs) = omega (arith, length-take n xs)

module _ {ℓ κ} {A : Type ℓ} (P : A → Type κ) where
  abbrev pub All : List A → Type κ
  All [] = Unit
  All (x ∷ xs) = P x × All xs

  pub All-append : (xs ys : List A) → All xs → All ys → All (xs ++ ys)
  All-append [] ys _ k = k
  All-append (x ∷ xs) ys (p, h) k = (p, All-append xs ys h k)

module _ {ℓ κ μ} {A : Type ℓ} (P : A → Type κ) (Q : A → Type μ) where
  pub All-map : ((x : A) → P x → Q x) → (xs : List A) → All P xs → All Q xs
  All-map f [] _ = tt
  All-map f (x ∷ xs) (h, hs) = (f x h, All-map f xs hs)

  pub All-zip : (xs : List A) → All P xs → All Q xs → All (λ x. P x × Q x) xs
  All-zip [] _ _ = tt
  All-zip (x ∷ xs) (h, hs) (k, ks) = ((h, k), All-zip xs hs ks)

module _ {ℓ κ} {A : Type ℓ} (P : A → Type κ) where
  pub All-at : {a : A} (xs : List A) → All P xs → Memᴰ a xs → P a
  All-at [] _ m = elim m [ ]
  All-at (x ∷ xs) (h, hs) (Memᴰ.head e) = subst P (sym e) h
  All-at (x ∷ xs) (h, hs) (Memᴰ.tail m) = All-at xs hs m

-- An SQL table is the list of its rows. `UPDATE … SET … WHERE …`, and the number of rows it hits.
module _ {ℓ} {A : Type ℓ} where
  unfoldable pub update_where : (A → Bool) → (A → A) → List A → List A
  update_where p f [] = []
  update_where p f (x ∷ xs) = (if p x then f x else x) ∷ update_where p f xs

  unfoldable pub count : (A → Bool) → List A → ℕ
  count p [] = 0
  count p (x ∷ xs) = (if p x then 1 else 0) + count p xs

  -- `SELECT … WHERE …`, the first row in table order.
  unfoldable pub find : (A → Bool) → List A → Option A
  find p [] = none
  find p (x ∷ xs) = if p x then some x else find p xs

  pub length-update_where :
      (p : A → Bool) (f : A → A) (xs : List A) → length (update_where p f xs) ≡ length xs
  unfolding update_where
  length-update_where p f [] = refl
  length-update_where p f (x ∷ xs) = omega (arith, length-update_where p f xs)

module _ {ℓ κ} {A : Type ℓ} (P : A → Type κ) where
  pub All-update_where :
      (p : A → Bool) (f : A → A) (xs : List A)
      → ((x : A) → p x ≡ true → P x → P (f x))
      → All P xs
      → All P (update_where p f xs)
  unfolding update_where
  All-update_where p f [] step _ = tt
  All-update_where p f (x ∷ xs) step (h, hs) = (one (p x) refl, All-update_where p f xs step hs)
    where
      one : (b : Bool) → p x ≡ b → P (if b then f x else x)
      one true e = step x e h
      one false e = h

  pub All-find :
      (p : A → Bool) (xs : List A) (x : A) → All P xs → find p xs ≡ some x → P x × (p x ≡ true)
  unfolding find
  All-find p [] x h e = absurd (ground arith)
  All-find p (y ∷ xs) x (h, hs) e = elim (Bool-cases (p y)) [
    | inl yes_y ↦
        let same : some y ≡ some x = ground arith in
        let eq = some-injective y x same in (subst P eq h, ap p (sym eq) ∙ yes_y)
    | inr no_y ↦ All-find p xs x hs (ground arith)
  ]

module _ {ℓ κ} {A : Type ℓ} (P : A → Type κ) where
  -- The update need only keep `P` at the rows that it hits.
  pub All-update_hit :
      (p : A → Bool) (f : A → A) (xs : List A)
      → All (λ x. p x ≡ true → P x → P (f x)) xs
      → All P xs
      → All P (update_where p f xs)
  unfolding update_where
  All-update_hit p f [] step _ = tt
  All-update_hit p f (x ∷ xs) (here, step) (h, hs) =
      let rest = All-update_hit p f xs step hs in
      elim (Bool-cases (p x)) [ inl hit ↦ rw hit (here hit h, rest) | inr miss ↦ rw miss (h, rest) ]

  pub All-All : ((x : A) → P x) → (xs : List A) → All P xs
  All-All h [] = tt
  All-All h (x ∷ xs) = (h x, All-All h xs)

-- The row that `p` finds is the updated one, where the update keeps `p`.
pub find-update_hit {ℓ} :
    {A : Type ℓ} (p : A → Bool) (f : A → A) (xs : List A) (x : A)
    → ((y : A) → p (f y) ≡ p y)
    → find p xs ≡ some x
    → find p (update_where p f xs) ≡ some (f x)
unfolding find update_where
find-update_hit p f [] x same e = absurd (ground arith)
find-update_hit p f (y ∷ xs) x same e = elim (Bool-cases (p y)) [
  | inl here ↦ ground (arith, same y)
  | inr there ↦ ground (arith, find-update_hit p f xs x same (ground arith))
]

module _ {ℓ κ} {A : Type ℓ} (P : A → Type κ) where
  pub All-if : (b : Bool) (xs ys : List A) → All P xs → All P ys → All P (if b then xs else ys)
  All-if true xs ys h k = h
  All-if false xs ys h k = k

  pub All-take : (n : ℕ) (xs : List A) → All P xs → All P (take n xs)
  All-take zero xs _ = tt
  All-take (suc n) [] _ = tt
  All-take (suc n) (x ∷ xs) (h, hs) = (h, All-take n xs hs)

  pub All-select : (p : A → Bool) (xs : List A) → All P xs → All P (select p xs)
  All-select p [] _ = tt
  All-select p (x ∷ xs) (h, hs) =
      All-if (p x) (x ∷ select p xs) (select p xs) (h, All-select p xs hs) (All-select p xs hs)

module _ {ℓ κ μ} {A : Type ℓ} {B : Type κ} (P : B → Type μ) where
  pub All-flat_map :
      (f : A → List B) (xs : List A) → ((x : A) → All P (f x)) → All P (flat_map f xs)
  unfolding flat_map
  All-flat_map f [] h = tt
  All-flat_map f (x ∷ xs) h = All-append P (f x) (flat_map f xs) (h x) (All-flat_map f xs h)

  pub All-mapped : (f : A → B) (xs : List A) → ((x : A) → P (f x)) → All P (map f xs)
  All-mapped f [] h = tt
  All-mapped f (x ∷ xs) h = (h x, All-mapped f xs h)

-- A loop that appends nothing for any of the elements.
pub flat_map-nil {ℓ κ} :
    {A : Type ℓ} {B : Type κ} (f : A → List B) (xs : List A)
    → All (λ x. f x ≡ []) xs
    → flat_map f xs ≡ []
unfolding flat_map
flat_map-nil f [] h = refl
flat_map-nil f (x ∷ xs) (h, hs) = rw (h, flat_map-nil f xs hs)

module _ {ℓ} {A : Type ℓ} (p : A → Bool) where
  pub any-append_left : (xs ys : List A) → any p xs ≡ true → any p (xs ++ ys) ≡ true
  any-append_left [] ys h = ground arith
  any-append_left (x ∷ xs) ys h = elim (Bool-cases (p x)) [
    | inl yes_x ↦ ground arith
    | inr no_x ↦ ground (arith, any-append_left xs ys (ground arith))
  ]

  pub any-append_right : (xs ys : List A) → any p ys ≡ true → any p (xs ++ ys) ≡ true
  any-append_right [] ys h = h
  any-append_right (x ∷ xs) ys h = ground (arith, any-append_right xs ys h)
