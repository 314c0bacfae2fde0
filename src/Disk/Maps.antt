-- ===== src/Disk/Maps.antt =====
-- disk_audit.py: the lookups by mount point and by device name: each key stands once, finds its own
-- entry, and comes from one of the items.
use ops_inspection_system.Common.{
  String, Bool, true, some, List, [], ◌∷◌, ◌≡◌, inl, inr, arith, ◌||◌, ◌==◌, any, All, flat_map,
  Dict, get, put, IsDistinct, put-IsDistinct, Bool-cases, contains, string_eq, any-append_left,
  any-append_right, subst, sym,
}
use ops_inspection_system.Disk.{keyed, has_key}

same_text : (a b : String) → (a == b) ≡ true → a ≡ b
same_text a b h = ground arith

module _ {ℓ} {A : Type ℓ} where
  pub keyed-IsDistinct :
      (key : A → String) (xs : List A) (d : Dict String A)
      → IsDistinct d
      → IsDistinct (keyed key xs d)
  unfolding keyed
  keyed-IsDistinct key [] d h = h
  keyed-IsDistinct key (x ∷ xs) d h =
      keyed-IsDistinct key xs (put d (key x) x) (put-IsDistinct d (key x) x h)

  pub has_key-get :
      (d : Dict String A) (key : String) (a : A) → get d key ≡ some a → has_key d key ≡ true
  unfolding get contains
  has_key-get [] key a h = absurd (ground arith)
  has_key-get ((k, v) ∷ d) key a h = elim (Bool-cases (k == key)) [
    | inl same ↦ ground arith
    | inr other ↦ ground (arith, has_key-get d key a (ground arith))
  ]

  has_key-put :
      (d : Dict String A) (key j : String) (a : A)
      → has_key (put d key a) j ≡ (j == key || has_key d j)
  unfolding put contains
  has_key-put [] key j a = ground arith
  has_key-put ((k, v) ∷ d) key j a = elim (Bool-cases (key == k)) [
    | inl same ↦ ground arith
    | inr other ↦ ground (arith, has_key-put d key j a)
  ]

  has_key-keyed :
      (key : A → String) (xs : List A) (d : Dict String A) (j : String)
      → has_key d j ≡ true
      → has_key (keyed key xs d) j ≡ true
  unfolding keyed
  has_key-keyed key [] d j h = h
  has_key-keyed key (x ∷ xs) d j h =
      has_key-keyed key xs (put d (key x) x) j (ground (arith, has_key-put d (key x) j x))

  -- The key of every item is there.
  pub All-keyed :
      (key : A → String) (xs : List A) (d : Dict String A)
      → All (λ x. has_key (keyed key xs d) (key x) ≡ true) xs
  unfolding keyed
  All-keyed key [] d = tt
  All-keyed key (x ∷ xs) d = (
    has_key-keyed key xs (put d (key x) x) (key x)
        (ground (arith, has_key-put d (key x) (key x) x)),
    All-keyed key xs (put d (key x) x),
  )

  module _ (P : String → Type 0) where
    put-keys :
        (d : Dict String A) (key : String) (a : A)
        → P key
        → All (λ e. P e.0) d
        → All (λ e. P e.0) (put d key a)
    unfolding put
    put-keys [] key a h _ = (h, tt)
    put-keys ((k, v) ∷ d) key a h (g, gs) = elim (Bool-cases (key == k)) [
      | inl same ↦ rw (same, put) (g, gs)
      | inr other ↦ rw (other, put) (g, put-keys d key a h gs)
    ]

    pub keyed-keys :
        (key : A → String) (xs : List A) (d : Dict String A)
        → All (λ x. P (key x)) xs
        → All (λ e. P e.0) d
        → All (λ e. P e.0) (keyed key xs d)
    unfolding keyed
    keyed-keys key [] d _ g = g
    keyed-keys key (x ∷ xs) d (h, hs) g =
        keyed-keys key xs (put d (key x) x) hs (put-keys d (key x) x h g)

    -- What holds of all keys holds of one that is found.
    pub get-keys :
        (d : Dict String A) (key : String) (a : A) → get d key ≡ some a → All (λ e. P e.0) d → P key
    unfolding get
    get-keys [] key a h _ = absurd (ground arith)
    get-keys ((k, v) ∷ d) key a h (g, gs) = elim (Bool-cases (k == key)) [
      | inl same ↦ subst P (same_text k key same) g
      | inr other ↦ get-keys d key a (ground arith) gs
    ]

  -- A loop over a dict passes the entry that a key finds.
  pub any-flat_map-get {κ} :
      {B : Type κ} (p : B → Bool) (f : String × A → List B) (d : Dict String A) (key : String)
      (a : A)
      → get d key ≡ some a
      → any p (f (key, a)) ≡ true
      → any p (flat_map f d) ≡ true
  unfolding get flat_map
  any-flat_map-get p f [] key a h _ = absurd (ground arith)
  any-flat_map-get p f ((k, v) ∷ d) key a h found = elim (Bool-cases (k == key)) [
    | inl same ↦
        let here : (k, v) ≡ (key, a) = ground (arith, same_text k key same) in
        any-append_left p (f (k, v)) (flat_map f d)
          (subst (λ e. any p (f e) ≡ true) (sym here) found)
    | inr other ↦
        any-append_right p (f (k, v)) (flat_map f d)
          (any-flat_map-get p f d key a (ground arith) found)
  ]
