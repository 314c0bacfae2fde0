-- ===== src/Disk/Audit/Quiet.antt =====
-- disk_audit.py: a snapshot shows nothing lost, shrunk or new against itself.
use ops_inspection_system.Common.{
  String, true, false, some, [], ◌∷◌, ◌≡◌, refl, inl, inr, arith, get, string_eq, number_eq,
  if◌then◌else◌, map, All, All-map, All-get, flat_map, flat_map-nil, Bool-cases,
}
use ops_inspection_system.Resource.Compare.{select-none, only_in_self}
use ops_inspection_system.Disk.{Device, Snapshot, Config, Print, mount_map, device_map, has_key}
use ops_inspection_system.Disk.Maps.{keyed-IsDistinct, has_key-get, All-keyed}
use ops_inspection_system.Disk.Structure.{
  check_mount, check_mounts, is_comparable, is_lost, device_lost, compare_size, check_size,
  check_devices, new_devices, check_additions,
}

mount_map-get :
    (lower : String → String) (config : Config) (s : Snapshot)
    → All (λ e. get (mount_map lower config s) e.0 ≡ some e.1) (mount_map lower config s)
unfolding mount_map
mount_map-get lower config s = All-get _ (keyed-IsDistinct _ _ [] tt)

device_map-get : (s : Snapshot) → All (λ e. get (device_map s) e.0 ≡ some e.1) (device_map s)
unfolding device_map
device_map-get s = All-get _ (keyed-IsDistinct _ _ [] tt)

check_mounts_self :
    (lower : String → String) (config : Config) (s : Snapshot) → check_mounts lower config s s ≡ []
unfolding check_mounts check_mount
check_mounts_self lower config s = flat_map-nil _ (mount_map lower config s) (
    All-map (λ e. get (mount_map lower config s) e.0 ≡ some e.1) _ (λ e g. rw g (ground arith))
      (mount_map lower config s) (mount_map-get lower config s))

check_size_self :
    (print : Print) (name : String) (d : Device) → check_size print name d (some d) ≡ []
unfolding check_size compare_size
check_size_self print name d = ground arith

is_lost_self :
    (s : Snapshot) (name : String) (d : Device)
    → get (device_map s) name ≡ some d
    → is_lost s s name d ≡ false
unfolding is_lost
is_lost_self s name d h = rw (has_key-get (device_map s) name d h) refl

none_lost :
    (print : Print) (s : Snapshot)
    → flat_map
        (λ e. if is_lost s s e.0 e.1 then device_lost print e.0 e.1 ∷ [] else [])
        (device_map s)
      ≡ []
none_lost print s =
    let lost = λ (e : String × Device).
      (if is_lost s s e.0 e.1 then device_lost print e.0 e.1 ∷ [] else []) in
    flat_map-nil lost (device_map s) (
      All-map (λ e. get (device_map s) e.0 ≡ some e.1) (λ e. lost e ≡ [])
        (λ e g. rw (is_lost_self s e.0 e.1 g) refl) (device_map s) (device_map-get s))

check_devices_self : (print : Print) (s : Snapshot) → check_devices print s s ≡ []
unfolding check_devices
check_devices_self print s = elim (Bool-cases (is_comparable s s)) [
  | inl like ↦
      rw (like, none_lost print s)
        (flat_map-nil _ (device_map s) (
          All-map (λ e. get (device_map s) e.0 ≡ some e.1) _
            (λ e g. rw g (check_size_self print e.0 e.1)) (device_map s) (device_map-get s)))
  | inr unlike ↦ rw unlike refl
]

new_devices_self : (s : Snapshot) → new_devices s s ≡ []
unfolding new_devices device_map
new_devices_self s = elim (Bool-cases (is_comparable s s)) [
  | inl like ↦ rw like (
      select-none _ s.devices (
        All-map (λ (d : Device). has_key (device_map s) d.name ≡ true) _ (λ d h. rw h refl)
          s.devices (All-keyed (λ (d : Device). d.name) s.devices [])))
  | inr unlike ↦ rw unlike refl
]

check_additions_self :
    (lower : String → String) (config : Config) (print : Print) (s : Snapshot)
    → check_additions lower config print s s ≡ []
unfolding check_additions flat_map
check_additions_self lower config print s =
    rw (only_in_self (map (λ e. e.0) (mount_map lower config s)), new_devices_self s) refl

-- A snapshot compared to itself: no mount point, device or size is reported as lost, changed or new.
pub compare_self :
    (lower : String → String) (config : Config) (print : Print) (s : Snapshot)
    → (check_mounts lower config s s ≡ [])
      × (check_devices print s s ≡ [])
      × (check_additions lower config print s s ≡ [])
compare_self lower config print s = (
  check_mounts_self lower config s,
  check_devices_self print s,
  check_additions_self lower config print s,
)
