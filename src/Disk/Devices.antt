-- ===== src/Disk/Devices.antt =====
-- disk_audit.py: which device of the one snapshot is which of the other. A disk that comes back under
-- another name is known by the UUIDs of its partitions. The names of devices are ASCII.
use Prim.Native.Char.{Char, code}
use Prim.Native.String.{String}
use ops_inspection_system.Common.{
  ◌<>◌, Bool, Option, none, some, List, [], ◌∷◌, ◌&&◌, ◌||◌, not, ◌==◌, leb, any, select, map, Dict,
  contains, string_eq, number_eq, option_eq, if◌then◌else◌, starts_with, text_length, text_drop,
  flat_map,
}
use ops_inspection_system.Disk.{Snapshot, Device, device_map, has_key}

-- The longest beginning of characters that pass the test, and the rest.
unfoldable pub span : (Char → Bool) → String → String × String
span test String.[] = ("", "")
span test (String.◌∷◌ c s) =
    let (taken, rest) = span test s in
    if test c then (String.◌∷◌ c taken, rest) else ("", String.◌∷◌ c s)

abbrev is_digit : Char → Bool
is_digit c = leb 48 (code c) && leb (code c) 57

abbrev is_lower_letter : Char → Bool
is_lower_letter c = leb 97 (code c) && leb (code c) 122

-- A name that begins with the prefix and one digit or more: that part, and the rest.
unfoldable pub numbered : String → String → Option (String × String)
numbered prefix name =
    let (digits, rest) = span is_digit (text_drop (text_length prefix) name) in
    if starts_with name prefix && not (digits == "") then some (prefix <> digits, rest) else none

-- The device, where a partition's number is all that follows its name.
unfoldable pub part_of : Option (String × String) → Option String
part_of none = none
part_of (some (whole, rest)) = elim (numbered "p" rest) [
  | some (_, String.[]) ↦ some whole
  | _ ↦ none
]

unfoldable pub numbered_twice : String → String → String → Option (String × String)
numbered_twice prefix second name = elim (numbered prefix name) [
  | none ↦ none
  | some (a, rest) ↦ elim (numbered second rest) [
    | none ↦ none
    | some (b, end) ↦ some (a <> b, end)
  ]
]

-- The second pattern: two small letters or more, then digits only.
unfoldable pub lettered : String → Option String
lettered name =
    let (letters, rest) = span is_lower_letter name in
    if leb 2 (text_length letters) && not (rest == "") && (span is_digit rest).1 == ""
    then some letters
    else none

abbrev or_else {ℓ} : {A : Type ℓ} → Option A → Option A → Option A
or_else none other = other
or_else (some a) other = some a

-- `_parent_device_name`
unfoldable pub parent_device_name : String → Option String
parent_device_name name = or_else (part_of (numbered_twice "nvme" "n" name)) (
    or_else (part_of (numbered "mmcblk" name))
      (or_else (part_of (numbered "loop" name)) (lettered name)))

-- `IGNORED_DEVICE_RE.match`
unfoldable pub is_ignored : String → Bool
is_ignored name = any (starts_with name) ("loop" ∷ "sr" ∷ "ram" ∷ "zram" ∷ "fd" ∷ "md" ∷ [])

-- The values of a dict.
abbrev values {ℓ} : {A : Type ℓ} → Dict String A → List A
values d = map (λ e. e.1) d

abbrev uuids : List Device → List String
uuids devices = map (λ (d : Device). d.uuid) (select (λ (d : Device). not (d.uuid == "")) devices)

-- `_renamed_uuids`, the set as a list.
unfoldable pub renamed_uuids : Snapshot → Snapshot → List String
renamed_uuids prev cur =
    select (contains (uuids (values (device_map prev)))) (map (λ (d : Device). d.uuid) cur.devices)

abbrev parent_list : Device → List String
parent_list d = elim (parent_device_name d.name) [ none ↦ [] | some parent ↦ parent ∷ [] ]

-- `_renamed_parent_devices`
unfoldable pub renamed_parent_devices : Snapshot → Snapshot → List String
renamed_parent_devices prev cur =
    flat_map parent_list
      (select (λ (d : Device). contains (renamed_uuids prev cur) d.uuid) cur.devices)

-- `_renamed_old_parent_devices`
unfoldable pub renamed_old_parent_devices : Snapshot → Snapshot → List String
renamed_old_parent_devices prev cur =
    select (λ (parent : String). not (has_key (device_map cur) parent))
      (flat_map parent_list
        (select (λ (d : Device). contains (renamed_uuids prev cur) d.uuid) prev.devices))

-- `os.path.basename`
unfoldable pub basename : String → String
basename path = last_part path path
  where
    last_part : String → String → String
    last_part String.[] part = part
    last_part (String.◌∷◌ c rest) part = last_part rest (if code c == 47 then rest else part)

-- `_device_still_present`
unfoldable pub device_still_present : String → List Device → Bool
device_still_present path devices =
    let base = basename path in
    starts_with path "/dev/"
    && (contains (map (λ (d : Device). d.name) devices) base
        || starts_with path "/dev/disk/by-uuid/" && contains (uuids devices) base)
