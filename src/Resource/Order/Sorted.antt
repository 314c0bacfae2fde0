-- ===== src/Resource/Order/Sorted.antt =====
-- resource_audit.py, disk_audit.py: what Python's `sorted` gives is a rearrangement in ascending order.
use mathlib.Core.List.{Perm}
use mathlib.Core.List.Perm
use ops_inspection_system.Common.{
  Bool, true, false, List, [], ◌∷◌, ◌≡◌, refl, inl, inr, arith, All, All-map, any, Bool-cases,
}
use ops_inspection_system.Resource.Order.{insert, sort}

module _ {ℓ} {A : Type ℓ} (le : A → A → Bool) where
  pub insert-perm : (x : A) (xs : List A) → Perm (insert le x xs) (x ∷ xs)
  unfolding insert
  insert-perm x [] = Perm.rfl
  insert-perm x (y ∷ ys) = elim (Bool-cases (le x y)) [
    | inl yes_le ↦ rw (yes_le, insert) Perm.rfl
    | inr no_le ↦
        rw (no_le, insert) (Perm.trans (Perm.cons y (insert-perm x ys)) (Perm.swap x y ys))
  ]

  pub sort-perm : (xs : List A) → Perm (sort le xs) xs
  unfolding sort
  sort-perm [] = Perm.rfl
  sort-perm (x ∷ xs) = Perm.trans (insert-perm x (sort le xs)) (Perm.cons x (sort-perm xs))

  -- Each element stands before those that it is at most.
  abbrev pub IsAscending : List A → Type ℓ
  IsAscending [] = Unit
  IsAscending (x ∷ xs) = All (λ y. le x y ≡ true) xs × IsAscending xs

  pub All-insert {κ} :
      (P : A → Type κ) (x : A) (xs : List A) → P x → All P xs → All P (insert le x xs)
  unfolding insert
  All-insert P x [] h _ = (h, tt)
  All-insert P x (y ∷ ys) h (k, ks) = elim (Bool-cases (le x y)) [
    | inl yes_le ↦ rw (yes_le, insert) (h, (k, ks))
    | inr no_le ↦ rw (no_le, insert) (k, All-insert P x ys h ks)
  ]

  pub All-sort {κ} : (P : A → Type κ) (xs : List A) → All P xs → All P (sort le xs)
  unfolding sort
  All-sort P [] _ = tt
  All-sort P (x ∷ xs) (h, hs) = All-insert P x (sort le xs) h (All-sort P xs hs)

  any-insert : (p : A → Bool) (x : A) (xs : List A) → any p (insert le x xs) ≡ any p (x ∷ xs)
  unfolding insert
  any-insert p x [] = refl
  any-insert p x (y ∷ ys) = elim (Bool-cases (le x y)) [
    | inl yes_le ↦ rw (yes_le, insert) refl
    | inr no_le ↦ rw (no_le, insert) (ground (arith, any-insert p x ys))
  ]

  pub any-sort : (p : A → Bool) (xs : List A) → any p (sort le xs) ≡ any p xs
  unfolding sort
  any-sort p [] = refl
  any-sort p (x ∷ xs) = ground (arith, any-insert p x (sort le xs), any-sort p xs)

  module _ (total : (x y : A) → le x y ≡ false → le y x ≡ true)
      (trans : (x y z : A) → le x y ≡ true → le y z ≡ true → le x z ≡ true) where
    insert-IsAscending : (x : A) (xs : List A) → IsAscending xs → IsAscending (insert le x xs)
    unfolding insert
    insert-IsAscending x [] _ = (tt, tt)
    insert-IsAscending x (y ∷ ys) (h, hs) = elim (Bool-cases (le x y)) [
      | inl yes_le ↦
          let above =
            All-map (λ z. le y z ≡ true) (λ z. le x z ≡ true) (λ z. trans x y z yes_le) ys h in
          rw (yes_le, insert) ((yes_le, above), (h, hs))
      | inr no_le ↦
          rw (no_le, insert)
            (All-insert (λ z. le y z ≡ true) x ys (total x y no_le) h, insert-IsAscending x ys hs)
    ]

    pub sort-IsAscending : (xs : List A) → IsAscending (sort le xs)
    unfolding sort
    sort-IsAscending [] = tt
    sort-IsAscending (x ∷ xs) = insert-IsAscending x (sort le xs) (sort-IsAscending xs)
