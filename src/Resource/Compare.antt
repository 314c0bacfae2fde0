-- ===== src/Resource/Compare.antt =====
-- A payload does not differ from itself, so an accepted configuration raises no alarm.
use ops_inspection_system.Common.{
  ℕ, String, Bool, true, false, Option, none, some, List, [], ◌∷◌, ◌≡◌, refl, arith, All, All-map,
  select, contains, map, not, string_eq, number_eq, Bool-cases, inl, inr,
}
use ops_inspection_system.Resource.Order.{sort, unique}
use ops_inspection_system.Resource.{
  Mount, Device, Disk, Payload, only_in, in_both, item_at, for_each, mount_change, device_change,
  hardware_change, mount_changes, device_changes, disk_changes, compare_resource_payload,
  normalize_payload, device_identity,
}

pub select-none {ℓ} :
    {A : Type ℓ} (p : A → Bool) (xs : List A) → All (λ x. p x ≡ false) xs → select p xs ≡ []
select-none p [] h = refl
select-none p (x ∷ xs) (h, hs) = rw (h, select-none p xs hs)

contains_self : (xs : List String) → All (λ k. contains xs k ≡ true) xs
unfolding contains
contains_self [] = tt
contains_self (x ∷ xs) = (
  ground arith,
  All-map (λ k. contains xs k ≡ true) (λ k. contains (x ∷ xs) k ≡ true) (λ k h. ground arith) xs
      (contains_self xs),
)

All-unique : (P : String → Type 0) (xs : List String) → All P xs → All P (unique xs)
unfolding unique
All-unique P [] h = tt
All-unique P (x ∷ xs) (h, hs) = elim (Bool-cases (contains (unique xs) x)) [
  | inl again ↦ rw (again, unique) (All-unique P xs hs)
  | inr first ↦ rw (first, unique) (h, All-unique P xs hs)
]

pub only_in_self : (xs : List String) → only_in xs xs ≡ []
unfolding only_in sort
only_in_self xs = rw (
    select-none (λ k. not (contains xs k)) (unique xs)
      (All-unique (λ k. not (contains xs k) ≡ false) xs
        (All-map (λ k. contains xs k ≡ true) (λ k. not (contains xs k) ≡ false)
          (λ k h. ground arith) xs (contains_self xs))))

for_each-nil :
    (ks : List String) (f : String → List String) → ((k : String) → f k ≡ []) → for_each ks f ≡ []
unfolding for_each
for_each-nil [] f h = refl
for_each-nil (k ∷ ks) f h = rw (h k, for_each-nil ks f h)

hardware_change_self : (label value : String) → hardware_change label value value ≡ []
unfolding hardware_change
hardware_change_self label value = ground arith

module _ (one_decimal : ℕ → ℕ → String) where
  mount_change_self : (k : String) (m : Option Mount) → mount_change one_decimal k m m ≡ []
  unfolding mount_change
  mount_change_self k none = refl
  mount_change_self k (some m) = ground arith

  device_change_self : (k : String) (d : Option Device) → device_change one_decimal k d d ≡ []
  unfolding device_change
  device_change_self k none = refl
  device_change_self k (some d) = ground arith

  mount_changes_self : (ms : List Mount) → mount_changes one_decimal ms ms ≡ []
  unfolding mount_changes for_each
  mount_changes_self ms = rw (
    only_in_self (map (λ (m : Mount). m.mount) ms),
    for_each-nil (in_both (map (λ (m : Mount). m.mount) ms) (map (λ (m : Mount). m.mount) ms)) _
        (λ k. mount_change_self k (item_at (λ (m : Mount). m.mount) k ms)),
  )

  device_changes_self : (ds : List Device) → device_changes one_decimal ds ds ≡ []
  unfolding device_changes for_each
  device_changes_self ds = rw (
    only_in_self (map device_identity ds),
    for_each-nil (in_both (map device_identity ds) (map device_identity ds)) _
        (λ k. device_change_self k (item_at device_identity k ds)),
  )

  disk_changes_self : (d : Option Disk) → disk_changes one_decimal d d ≡ []
  unfolding disk_changes
  disk_changes_self none = refl
  disk_changes_self (some d) = rw (mount_changes_self d.mounts, device_changes_self d.devices)

  -- Payloads that are the same once normalized show no change.
  pub compare-same :
      (p q : Payload)
      → normalize_payload p ≡ normalize_payload q
      → compare_resource_payload one_decimal p q ≡ []
  unfolding compare_resource_payload
  compare-same p q same =
      let n = normalize_payload q in
      rw (
        same,
        hardware_change_self "CPU" n.cpu,
        hardware_change_self "内存" n.memory,
        hardware_change_self "物理磁盘总容量" n.storage,
        disk_changes_self n.disk,
      )
