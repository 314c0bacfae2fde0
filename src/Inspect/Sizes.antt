-- ===== src/Inspect/Sizes.antt =====
-- app.py, resource_audit.py: the sizes of disks and mount points that an inspection compares.
use ops_inspection_system.Common.{
  String, none, some, List, [], ◌∷◌, ◌≡◌, refl, inl, inr, arith, ◌==◌, All, All-mapped, select, map,
  string_eq, number_eq, Bool-cases,
}
use ops_inspection_system.Json.{str, get}
use ops_inspection_system.Resource
use ops_inspection_system.Resource.{
  RawDevice, size_of, sized, stable_part, mount_leb, device_leb, visible_mounts, disk_structure,
}
use ops_inspection_system.Resource.Order.Sorted.{All-sort}
use ops_inspection_system.Disk.{Filesystem, Device, Snapshot}
use ops_inspection_system.Inspect.{
  filesystem_fields, state_fields, device_fields, raw_device, raw_filesystem, raw_snapshot,
}

-- The keys of a row of df and of a device have none that a size is read from.
no_size_kb : (f : Filesystem) → get (filesystem_fields f) "size_kb" ≡ none
unfolding filesystem_fields get string_eq
no_size_kb f = refl

no_size : (d : Device) → get (device_fields d) "size" ≡ none
unfolding device_fields state_fields get string_eq
no_size d = ground arith

no_size_bytes : (d : Device) → get (device_fields d) "size_bytes" ≡ none
unfolding device_fields state_fields get string_eq
no_size_bytes d = ground arith

kind_of_device : (d : Device) → get (device_fields d) "type" ≡ some (str d.kind)
unfolding device_fields get string_eq
kind_of_device d = refl

size_of_zero : (mount : String) (fs : List Filesystem) → size_of mount (map raw_filesystem fs) 0 ≡ 0
unfolding size_of
size_of_zero mount [] = refl
size_of_zero mount (f ∷ fs) = ground (arith, no_size_kb f, size_of_zero mount fs)

-- The configuration that `disk_structure` takes from a collected snapshot has the size 0 for every
-- mount point and every disk, whatever their sizes are: `build_snapshot` writes none of the keys that
-- the sizes are read from.
pub disk_structure_sizes :
    (lower : String → String) (exclude_fstypes exclude_paths : List String) (s : Snapshot)
    → All
        (λ (m : Resource.Mount). m.size_kb ≡ 0)
        (disk_structure lower exclude_fstypes exclude_paths (raw_snapshot s)).mounts
      × All
          (λ (d : Resource.Device). d.size_bytes ≡ 0)
          (disk_structure lower exclude_fstypes exclude_paths (raw_snapshot s)).devices
unfolding disk_structure raw_snapshot number_eq
disk_structure_sizes lower exclude_fstypes exclude_paths s = (
  All-sort mount_leb (λ (m : Resource.Mount). m.size_kb ≡ 0) _
      (All-mapped (λ (m : Resource.Mount). m.size_kb ≡ 0) (sized (map raw_filesystem s.filesystems))
        _ (λ m. size_of_zero m.mount s.filesystems)),
  All-sort device_leb (λ (d : Resource.Device). d.size_bytes ≡ 0) _ (devices s.devices),
)
  where
    devices :
        (ds : List Device)
        → All
            (λ (d : Resource.Device). d.size_bytes ≡ 0)
            (map stable_part
              (select (λ (item : RawDevice). item.kind == "disk") (map raw_device ds)))
    devices [] = tt
    devices (d ∷ ds) = elim (Bool-cases ((raw_device d).kind == "disk")) [
      | inl disk ↦ simp (disk, no_size d, no_size_bytes d) (refl, devices ds)
      | inr other ↦ rw other (devices ds)
    ]
