-- ===== src/Resource.antt =====
-- resource_audit.py: the payload of a server's confirmed configuration, how one is built from a
-- sample, and how two are compared. A hardware field that is missing is the empty text.
-- Parameters: `lower` is `str.lower`; `one_decimal` the text that Python's `:.1f` gives of a quotient.
use ops_inspection_system.Common.{
  ℕ, ◌*◌, ◌-◌, max, String, ◌<>◌, Bool, true, false, Option, none, some, List, [], ◌∷◌, ◌++◌, ◌&&◌,
  ◌||◌, not, ◌==◌, ltb, length, any, all, select, map, contains, string_eq, number_eq,
  if◌then◌else◌, strip, starts_with,
}
use ops_inspection_system.Resource.Order.{text_leb, sort, unique}
pub mod Order
pub mod Expected
pub mod Store
pub mod Evaluate
pub mod Compare
pub mod Differs
pub mod Events
pub mod Operations
pub mod Closed
pub mod Reports
pub mod Alarms
pub mod Request
mod Tests

pub record Mount : Type 0 where
  pub mount : String
  pub device : String
  pub fstype : String
  pub size_kb : ℕ

pub record Device : Type 0 where
  pub name : String
  pub uuid : String
  pub size_bytes : ℕ

pub record Disk : Type 0 where
  pub mounts : List Mount
  pub devices : List Device

pub record Payload : Type 0 where
  pub cpu : String
  pub memory : String
  pub storage : String
  pub disk : Option Disk

-- A sample of the disks, the parts that `disk_structure` reads. A number that is missing is 0; the
-- mounts bear no size.
pub record RawDevice : Type 0 where
  pub name : String
  pub uuid : String
  pub kind : String
  pub size_bytes : ℕ
  pub size : ℕ

pub record Snapshot : Type 0 where
  pub mounts : List Mount
  pub filesystems : List (String × ℕ)
  pub devices : List RawDevice

pub record Hardware : Type 0 where
  pub cpu : String
  pub memory : String
  pub storage : String

unfoldable pub clean_text : String → String
clean_text value = let text = strip value in if text == "未知" || text == "采集失败" then "" else text

-- The test of `disk_audit.visible_mounts`, with the two lists of config.py.
unfoldable pub is_visible : (String → String) → List String → List String → String → String → Bool
is_visible lower exclude_fstypes exclude_paths mount fstype =
    not (mount == "" || contains exclude_fstypes (lower fstype))
    && not (any (λ prefix. mount == prefix || starts_with mount (prefix <> "/")) exclude_paths)

unfoldable pub visible_mounts :
    (String → String) → List String → List String → List Mount → List Mount
visible_mounts lower exclude_fstypes exclude_paths mounts =
    select (λ item. is_visible lower exclude_fstypes exclude_paths item.mount item.fstype) mounts

-- `{item.get('mount'): item for …}.get(mount)`: the last of the items counts.
unfoldable pub size_of : String → List (String × ℕ) → ℕ → ℕ
size_of mount [] found = found
size_of mount ((key, size) ∷ rest) found = size_of mount rest (if key == mount then size else found)

abbrev pub mount_leb : Mount → Mount → Bool
mount_leb a b = text_leb a.mount b.mount

-- The order of the pairs of the uuid and the name.
abbrev pub device_leb : Device → Device → Bool
device_leb a b = if a.uuid == b.uuid then text_leb a.name b.name else text_leb a.uuid b.uuid

-- `size_bytes or size or 0`
abbrev size_or : ℕ → ℕ → ℕ
size_or a b = if a == 0 then b else a

abbrev pub sized : List (String × ℕ) → Mount → Mount
sized filesystems item = record item { size_kb = size_of item.mount filesystems 0 }

abbrev pub stable_part : RawDevice → Device
stable_part item = record {
  name = item.name;
  uuid = item.uuid;
  size_bytes = size_or item.size_bytes item.size;
}

unfoldable pub disk_structure : (String → String) → List String → List String → Snapshot → Disk
disk_structure lower exclude_fstypes exclude_paths s = record {
  mounts =
      sort mount_leb
        (map (sized s.filesystems) (visible_mounts lower exclude_fstypes exclude_paths s.mounts));
  devices =
      sort device_leb
        (map stable_part (select (λ (item : RawDevice). item.kind == "disk") s.devices));
}

abbrev sort_disk : Disk → Disk
sort_disk d = record { mounts = sort mount_leb d.mounts; devices = sort device_leb d.devices }

unfoldable pub normalize_payload : Payload → Payload
normalize_payload p = record {
  cpu = clean_text p.cpu;
  memory = clean_text p.memory;
  storage = clean_text p.storage;
  disk = elim p.disk [ none ↦ none | some d ↦ some (sort_disk d) ];
}

abbrev pub has_hardware : Payload → Bool
has_hardware p = not (p.cpu == "" && p.memory == "" && p.storage == "")

-- The hardware of a sample replaces the base's if any field of it says something.
abbrev put_hardware : Option Hardware → Payload → Payload
put_hardware none p = p
put_hardware (some h) p =
    let q = record p {
      cpu = clean_text h.cpu;
      memory = clean_text h.memory;
      storage = clean_text h.storage;
    } in
    if has_hardware q then q else p

unfoldable pub build_resource_payload :
    (String → String)
    → List String
    → List String
    → Option Hardware
    → Option Snapshot
    → Payload
    → Payload
build_resource_payload lower exclude_fstypes exclude_paths hardware snapshot base =
    let p = put_hardware hardware base in
    normalize_payload (elim snapshot [
      | none ↦ p
      | some s ↦ record p { disk = some (disk_structure lower exclude_fstypes exclude_paths s) }
    ])

-- `{key(item): item for item in items}.get(key)`: the last item counts.
unfoldable pub item_at {ℓ} : {A : Type ℓ} → (A → String) → String → List A → Option A
item_at key k [] = none
item_at key k (x ∷ xs) = elim (item_at key k xs) [
  | some y ↦ some y
  | none ↦ if key x == k then some x else none
]

-- `sorted(set(old) - set(new))` and `sorted(set(old) & set(new))` of the keys.
unfoldable pub only_in : List String → List String → List String
only_in xs ys = sort text_leb (select (λ k. not (contains ys k)) (unique xs))

unfoldable pub in_both : List String → List String → List String
in_both xs ys = sort text_leb (select (λ k. contains ys k) (unique xs))

abbrev or_text : String → String → String
or_text text other = if text == "" then other else text

-- `_device_identity`
abbrev pub device_identity : Device → String
device_identity d = or_text d.uuid d.name

unfoldable pub hardware_change : String → String → String → List String
hardware_change label old new =
    if not (old == "") && not (new == "") && not (old == new)
    then (label <> " " <> old <> " → " <> new) ∷ []
    else []

-- A loop that appends texts for each key.
unfoldable pub for_each : List String → (String → List String) → List String
for_each [] f = []
for_each (k ∷ ks) f = f k ++ for_each ks f

abbrev device_of : Option Mount → String
device_of none = "未知设备"
device_of (some m) = or_text m.device "未知设备"

abbrev name_of : String → Option Device → String
name_of key none = key
name_of key (some d) = or_text d.name key

module _ (one_decimal : ℕ → ℕ → String) where
  unfoldable pub mount_change : String → Option Mount → Option Mount → List String
  mount_change mount (some old) (some new) =
      (if not (old.size_kb == new.size_kb)
        then ("挂载点 "
            <> mount
            <> " 容量 "
            <> one_decimal old.size_kb 1048576
            <> " GB → "
            <> one_decimal new.size_kb 1048576
            <> " GB")
          ∷ []
        else [])
      ++ (if not (old.fstype == new.fstype)
          then ("挂载点 "
              <> mount
              <> " 文件系统 "
              <> or_text old.fstype "未知"
              <> " → "
              <> or_text new.fstype "未知")
            ∷ []
          else [])
  mount_change mount _ _ = []

  unfoldable pub device_change : String → Option Device → Option Device → List String
  device_change key (some old) (some new) =
      if not (old.size_bytes == new.size_bytes)
      then ("物理磁盘 "
          <> or_text new.name key
          <> " 容量 "
          <> one_decimal old.size_bytes 1000000000
          <> " GB → "
          <> one_decimal new.size_bytes 1000000000
          <> " GB")
        ∷ []
      else []
  device_change key _ _ = []

  unfoldable pub mount_changes : List Mount → List Mount → List String
  mount_changes old new =
      let old_keys = map (λ (m : Mount). m.mount) old in
      let new_keys = map (λ (m : Mount). m.mount) new in
      let old_at = λ (k : String). item_at (λ (m : Mount). m.mount) k old in
      let new_at = λ (k : String). item_at (λ (m : Mount). m.mount) k new in
      for_each (only_in old_keys new_keys) (λ k. ("删除挂载点 " <> k) ∷ [])
      ++ (for_each (only_in new_keys old_keys)
            (λ k. ("新增挂载点 " <> k <> "（" <> device_of (new_at k) <> "）") ∷ [])
          ++ for_each (in_both old_keys new_keys) (λ k. mount_change k (old_at k) (new_at k)))

  unfoldable pub device_changes : List Device → List Device → List String
  device_changes old new =
      let old_keys = map device_identity old in
      let new_keys = map device_identity new in
      let old_at = λ (k : String). item_at device_identity k old in
      let new_at = λ (k : String). item_at device_identity k new in
      for_each (only_in old_keys new_keys) (λ k. ("减少物理磁盘 " <> name_of k (old_at k)) ∷ [])
      ++ (for_each (only_in new_keys old_keys) (λ k. ("新增物理磁盘 " <> name_of k (new_at k)) ∷ [])
          ++ for_each (in_both old_keys new_keys) (λ k. device_change k (old_at k) (new_at k)))

  unfoldable pub disk_changes : Option Disk → Option Disk → List String
  disk_changes (some old) (some new) =
      mount_changes old.mounts new.mounts ++ device_changes old.devices new.devices
  disk_changes _ _ = []

  unfoldable pub compare_resource_payload : Payload → Payload → List String
  compare_resource_payload baseline current =
      let old = normalize_payload baseline in
      let new = normalize_payload current in
      hardware_change "CPU" old.cpu new.cpu
      ++ (hardware_change "内存" old.memory new.memory
          ++ (hardware_change "物理磁盘总容量" old.storage new.storage ++ disk_changes old.disk new.disk))
