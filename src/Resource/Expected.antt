-- ===== src/Resource/Expected.antt =====
-- resource_audit.py: `payload_matches`, the test of a sample against a planned change. The plan's
-- sizes, which app.py rounds to three decimals, are thousandths of a gigabyte; the test of a size is
-- that of the exact quotients, which differ from Python's floats in the last bit at most.
use ops_inspection_system.Common.{
  ℕ, ◌+◌, ◌*◌, ◌-◌, max, String, Bool, true, false, Option, none, some, List, [], ◌∷◌, ◌&&◌, ◌||◌,
  not, ◌==◌, leb, length, all, map, select, contains, string_eq, number_eq,
}
use ops_inspection_system.Resource.{
  Mount, Device, Disk, Payload, clean_text, normalize_payload, item_at,
}

pub record ExpectedMount : Type 0 where
  pub mount : String
  pub size_gb : Option ℕ

-- A count that is None or '' is `none`.
pub record Criteria : Type 0 where
  pub device_count : Option ℕ
  pub mount_count : Option ℕ
  pub mounts : List ExpectedMount

-- `disk_expectation` is `none` where the key is missing, `some none` where its value is None.
pub record Expected : Type 0 where
  pub payload : Payload
  pub disk_expectation : Option (Option Criteria)

-- One field of the loop over `expected_hardware`.
abbrev pub field_matches : String → String → Bool
field_matches expected current =
    clean_text expected == "" || clean_text current == clean_text expected

abbrev pub count_matches : Option ℕ → ℕ → Bool
count_matches none n = true
count_matches (some wanted) n = n == wanted

-- Both lists hold the same texts.
abbrev pub same_set : List String → List String → Bool
same_set xs ys = all (contains ys) xs && all (contains xs) ys

-- `abs(actual_gb - expected) <= max(1.0, expected * 0.02)`, both sides by 1000 * 1024² * 50.
unfoldable pub size_fits : ℕ → ℕ → Bool
size_fits size_kb wanted =
    let actual = size_kb * 1000 in
    let expected = wanted * 1048576 in
    leb (((actual - expected) + (expected - actual)) * 50) (max 52428800000 expected)

abbrev size_kb_of : Option Mount → ℕ
size_kb_of none = 0
size_kb_of (some m) = m.size_kb

unfoldable pub mount_fits : List Mount → ExpectedMount → Bool
mount_fits mounts item = elim item.size_gb [
  | none ↦ true
  | some wanted ↦
      item.mount == ""
      || size_fits (size_kb_of (item_at (λ (m : Mount). m.mount) item.mount mounts)) wanted
]

abbrev disk_or_empty : Option Disk → Disk
disk_or_empty none = record { mounts = []; devices = [] }
disk_or_empty (some d) = d

abbrev named : List ExpectedMount → List String
named items =
    map (λ (m : ExpectedMount). m.mount) (select (λ (m : ExpectedMount). not (m.mount == "")) items)

unfoldable pub criteria_match : Criteria → Disk → Bool
criteria_match c d =
    count_matches c.device_count (length d.devices)
    && count_matches c.mount_count (length d.mounts)
    && (length c.mounts == 0 || same_set (map (λ (m : Mount). m.mount) d.mounts) (named c.mounts))
    && all (mount_fits d.mounts) c.mounts

-- Python's `==` between the values.
abbrev same_mount : Mount → Mount → Bool
same_mount a b =
    a.mount == b.mount && a.device == b.device && a.fstype == b.fstype && a.size_kb == b.size_kb

abbrev same_device : Device → Device → Bool
same_device a b = a.name == b.name && a.uuid == b.uuid && a.size_bytes == b.size_bytes

abbrev pairwise {ℓ} : {A : Type ℓ} → (A → A → Bool) → List A → List A → Bool
pairwise eq [] [] = true
pairwise eq (x ∷ xs) (y ∷ ys) = eq x y && pairwise eq xs ys
pairwise eq _ _ = false

abbrev same_disk : Option Disk → Option Disk → Bool
same_disk none none = true
same_disk (some a) (some b) =
    pairwise same_mount a.mounts b.mounts && pairwise same_device a.devices b.devices
same_disk _ _ = false

unfoldable pub same_payload : Payload → Payload → Bool
same_payload a b =
    a.cpu == b.cpu && a.memory == b.memory && a.storage == b.storage && same_disk a.disk b.disk

unfoldable pub payload_matches : Expected → Payload → Bool
payload_matches expected raw =
    let current = normalize_payload raw in
    let e = expected.payload in
    (field_matches e.cpu current.cpu
      && field_matches e.memory current.memory
      && field_matches e.storage current.storage)
    && elim expected.disk_expectation [
      | none ↦ same_payload (normalize_payload e) current
      | some none ↦ true
      | some (some c) ↦ criteria_match c (disk_or_empty current.disk)
    ]
