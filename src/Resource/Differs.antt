-- ===== src/Resource/Differs.antt =====
-- What it means that a sample differs from a confirmed configuration, said without the comparison of
-- the program, and that the comparison then names a change.
use ops_inspection_system.Common.{
  ℕ, String, Bool, true, false, Option, none, some, List, [], ◌∷◌, ◌++◌, ◌≡◌, ◌≢◌, ◌⊎◌, inl, inr,
  refl, sym, ◌∙◌, arith, not, ◌==◌, any, select, map, contains, string_eq, number_eq, Bool-cases,
  Option-cases,
}
use ops_inspection_system.Resource.Order.{text_leb, sort, unique}
use ops_inspection_system.Resource.Order.Sorted.{any-sort}
use ops_inspection_system.Resource.{
  Mount, Device, Disk, Payload, item_at, only_in, in_both, device_identity, hardware_change,
  for_each, mount_change, device_change, mount_changes, device_changes, disk_changes,
  normalize_payload, compare_resource_payload,
}

-- Both say something, and not the same.
abbrev pub TextDiffers : String → String → Type 0
TextDiffers old new = (old ≢ "") × (new ≢ "") × (old ≢ new)

-- A key that is in one list only.
abbrev pub KeysDiffer : List String → List String → Type 0
KeysDiffer old new =
    (k : String) × (((contains old k ≡ true) × (contains new k ≡ false))
      ⊎ ((contains new k ≡ true) × (contains old k ≡ false)))

-- A mount point that has another size or file system.
abbrev pub MountDiffers : List Mount → List Mount → Type 0
MountDiffers old new =
    (k : String) × (m : Mount) × (n : Mount) × (item_at (λ (x : Mount). x.mount) k old ≡ some m)
    × (item_at (λ (x : Mount). x.mount) k new ≡ some n)
    × ((m.size_kb ≢ n.size_kb) ⊎ (m.fstype ≢ n.fstype))

-- A disk that has another size.
abbrev pub DeviceDiffers : List Device → List Device → Type 0
DeviceDiffers old new =
    (k : String) × (d : Device) × (e : Device) × (item_at device_identity k old ≡ some d)
    × (item_at device_identity k new ≡ some e)
    × (d.size_bytes ≢ e.size_bytes)

abbrev mount_points : Disk → List String
mount_points d = map (λ (m : Mount). m.mount) d.mounts

abbrev identities : Disk → List String
identities d = map device_identity d.devices

abbrev pub DiskDiffers : Option Disk → Option Disk → Type 0
DiskDiffers (some old) (some new) =
    KeysDiffer (mount_points old) (mount_points new)
    ⊎ (MountDiffers old.mounts new.mounts
        ⊎ (KeysDiffer (identities old) (identities new) ⊎ DeviceDiffers old.devices new.devices))
DiskDiffers _ _ = ⊥

-- A field of the hardware, a mount point or a disk. The device of a mount point does not count.
abbrev pub Differs : Payload → Payload → Type 0
Differs old new =
    TextDiffers old.cpu new.cpu
    ⊎ (TextDiffers old.memory new.memory
        ⊎ (TextDiffers old.storage new.storage ⊎ DiskDiffers old.disk new.disk))

append-left {ℓ} : {A : Type ℓ} (xs ys : List A) → xs ≢ [] → xs ++ ys ≢ []
append-left [] ys h e = h refl
append-left (x ∷ xs) ys h e = absurd (cc)

append-right {ℓ} : {A : Type ℓ} (xs ys : List A) → ys ≢ [] → xs ++ ys ≢ []
append-right [] ys h e = h e
append-right (x ∷ xs) ys h e = absurd (cc)

contains-any : (xs : List String) (k : String) → contains xs k ≡ any (λ x. k == x) xs
unfolding contains
contains-any [] k = refl
contains-any (x ∷ xs) k = ground (arith, contains-any xs k)

contains-sort :
    (le : String → String → Bool) (xs : List String) (k : String)
    → contains (sort le xs) k ≡ contains xs k
contains-sort le xs k =
    contains-any (sort le xs) k ∙ any-sort le (λ x. k == x) xs ∙ sym (contains-any xs k)

contains-select :
    (p : String → Bool) (xs : List String) (k : String)
    → contains xs k ≡ true
    → p k ≡ true
    → contains (select p xs) k ≡ true
unfolding contains
contains-select p [] k h t = absurd (cc)
contains-select p (x ∷ xs) k h t = elim (Bool-cases (k == x)) [
  | inl same ↦ ground arith
  | inr other ↦ ground (arith, contains-select p xs k)
]

contains-unique : (xs : List String) (k : String) → contains (unique xs) k ≡ contains xs k
unfolding contains unique
contains-unique [] k = refl
contains-unique (x ∷ xs) k = ground (arith, contains-unique xs k)

contains-only_in :
    (xs ys : List String) (k : String)
    → contains xs k ≡ true
    → contains ys k ≡ false
    → contains (only_in xs ys) k ≡ true
unfolding only_in
contains-only_in xs ys k h t =
    contains-sort text_leb _ k
    ∙ contains-select (λ k. not (contains ys k)) (unique xs) k (contains-unique xs k ∙ h)
        (ground arith)

contains-in_both :
    (xs ys : List String) (k : String)
    → contains xs k ≡ true
    → contains ys k ≡ true
    → contains (in_both xs ys) k ≡ true
unfolding in_both
contains-in_both xs ys k h t =
    contains-sort text_leb _ k
    ∙ contains-select (λ k. contains ys k) (unique xs) k (contains-unique xs k ∙ h) t

for_each-some :
    (ks : List String) (f : String → List String) (k : String)
    → contains ks k ≡ true
    → f k ≢ []
    → for_each ks f ≢ []
unfolding contains for_each
for_each-some [] f k h t = absurd (cc)
for_each-some (x ∷ ks) f k h t = elim (Bool-cases (k == x)) [
  | inl same ↦ let found : k ≡ x = ground arith in append-left (f x) (for_each ks f) (rw found at t)
  | inr other ↦ append-right (f x) (for_each ks f) (for_each-some ks f k (ground arith) t)
]

contains-item_at {ℓ} :
    {A : Type ℓ} (key : A → String) (k : String) (xs : List A) (x : A)
    → item_at key k xs ≡ some x
    → contains (map key xs) k ≡ true
unfolding contains item_at
contains-item_at key k [] x e = absurd (cc)
contains-item_at key k (y ∷ xs) x e = elim (Option-cases (item_at key k xs)) [
  | inl missing ↦ ground arith
  | inr (z, later) ↦ ground (arith, contains-item_at key k xs z later)
]

hardware_change-some :
    (label old new : String) → TextDiffers old new → hardware_change label old new ≢ []
unfolding hardware_change
hardware_change-some label old new (was, is_now, differs) e = absurd (ground arith)

one_text : (s : String) → ◌≢◌ {A = List String} (s ∷ []) []
one_text s e = absurd (cc)

module _ (one_decimal : ℕ → ℕ → String) where
  mount_change-some :
      (k : String) (m n : Mount)
      → (m.size_kb ≢ n.size_kb) ⊎ (m.fstype ≢ n.fstype)
      → mount_change one_decimal k (some m) (some n) ≢ []
  unfolding mount_change
  mount_change-some k m n (inl size) e = absurd (ground arith)
  mount_change-some k m n (inr fstype) e = absurd (ground arith)

  mount_changes-keys :
      (old new : List Mount)
      → KeysDiffer (map (λ (m : Mount). m.mount) old) (map (λ (m : Mount). m.mount) new)
      → mount_changes one_decimal old new ≢ []
  unfolding mount_changes
  mount_changes-keys old new (k, inl (there, missing)) =
      append-left _ _ (for_each-some _ _ k (contains-only_in _ _ k there missing) (one_text _))
  mount_changes-keys old new (k, inr (there, missing)) =
      append-right _ _
        (append-left _ _ (for_each-some _ _ k (contains-only_in _ _ k there missing) (one_text _)))

  mount_changes-items :
      (old new : List Mount) → MountDiffers old new → mount_changes one_decimal old new ≢ []
  unfolding mount_changes
  mount_changes-items old new (k, m, n, was, is_now, differs) = append-right _ _ (
      append-right _ _ (
        for_each-some _ _ k
          (contains-in_both _ _ k (contains-item_at _ k old m was)
            (contains-item_at _ k new n is_now))
          (rw (was, is_now) (mount_change-some k m n differs))))

  device_changes-keys :
      (old new : List Device)
      → KeysDiffer (map device_identity old) (map device_identity new)
      → device_changes one_decimal old new ≢ []
  unfolding device_changes
  device_changes-keys old new (k, inl (there, missing)) =
      append-left _ _ (for_each-some _ _ k (contains-only_in _ _ k there missing) (one_text _))
  device_changes-keys old new (k, inr (there, missing)) =
      append-right _ _
        (append-left _ _ (for_each-some _ _ k (contains-only_in _ _ k there missing) (one_text _)))

  device_change-some :
      (k : String) (d e : Device)
      → d.size_bytes ≢ e.size_bytes
      → device_change one_decimal k (some d) (some e) ≢ []
  unfolding device_change
  device_change-some k d e size p = absurd (ground arith)

  device_changes-items :
      (old new : List Device) → DeviceDiffers old new → device_changes one_decimal old new ≢ []
  unfolding device_changes
  device_changes-items old new (k, d, e, was, is_now, differs) = append-right _ _ (
      append-right _ _ (
        for_each-some _ _ k
          (contains-in_both _ _ k (contains-item_at _ k old d was)
            (contains-item_at _ k new e is_now))
          (rw (was, is_now) (device_change-some k d e differs))))

  disk_changes-some :
      (old new : Option Disk) → DiskDiffers old new → disk_changes one_decimal old new ≢ []
  unfolding disk_changes
  disk_changes-some (some old) (some new) (inl mounts) =
      append-left _ _ (mount_changes-keys old.mounts new.mounts mounts)
  disk_changes-some (some old) (some new) (inr (inl items)) =
      append-left _ _ (mount_changes-items old.mounts new.mounts items)
  disk_changes-some (some old) (some new) (inr (inr (inl devices))) =
      append-right _ _ (device_changes-keys old.devices new.devices devices)
  disk_changes-some (some old) (some new) (inr (inr (inr items))) =
      append-right _ _ (device_changes-items old.devices new.devices items)
  disk_changes-some none new differs = elim differs [ ]
  disk_changes-some (some old) none differs = elim differs [ ]

  -- Payloads that differ once they are normalized show a change.
  pub compare-Differs :
      (p q : Payload)
      → Differs (normalize_payload p) (normalize_payload q)
      → compare_resource_payload one_decimal p q ≢ []
  unfolding compare_resource_payload
  compare-Differs p q (inl cpu) = append-left _ _ (hardware_change-some "CPU" _ _ cpu)
  compare-Differs p q (inr (inl memory)) =
      append-right _ _ (append-left _ _ (hardware_change-some "内存" _ _ memory))
  compare-Differs p q (inr (inr (inl storage))) =
      append-right _ _
        (append-right _ _ (append-left _ _ (hardware_change-some "物理磁盘总容量" _ _ storage)))
  compare-Differs p q (inr (inr (inr disk))) =
      let old = normalize_payload p in
      let new = normalize_payload q in
      append-right (hardware_change "CPU" old.cpu new.cpu) _ (
        append-right (hardware_change "内存" old.memory new.memory) _ (
          append-right (hardware_change "物理磁盘总容量" old.storage new.storage) _
            (disk_changes-some old.disk new.disk disk)))
