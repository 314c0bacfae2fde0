-- ===== src/Inspect.antt =====
-- app.py: `audit_server_disk` and `attach_open_resource_change`, the part of an inspection that judges
-- the disks and the configuration of a server. Parameters: as in Disk, Disk.Store and Resource.Evaluate.
-- `Mishap` is where an exception ends the comparison.
pub mod Faults
pub mod Sizes
mod Tests
use ops_inspection_system.Common.{
  ℕ, String, Bool, true, false, Option, none, some, List, [], ◌∷◌, ◌++◌, not, ◌==◌, length, map,
  select, contains, string_eq, number_eq, if◌then◌else◌,
}
use ops_inspection_system.Json.{Json, null, bool, num, str, Fields, end, field, get}
use ops_inspection_system.Resource
use ops_inspection_system.Resource.{Payload, RawDevice, Hardware, build_resource_payload}
use ops_inspection_system.Resource.Store.{Event, Store}
use ops_inspection_system.Resource.Store.Changes.{get_open_resource_change_event}
use ops_inspection_system.Resource.Evaluate
use ops_inspection_system.Resource.Evaluate.{
  Result, normal, initial, planned, raised, evaluate_resource_configuration, result_finding,
}
use ops_inspection_system.Disk.{Mount, Filesystem, Device, Snapshot, Config, Print, Finding}
use ops_inspection_system.Disk.Audit.{compare_disk}
use ops_inspection_system.Disk.Store.{SnapshotRow, get_disk_baselines, save_disk_snapshot}

-- The limits of the ages of the snapshots, in seconds.
pub record AgeLimits : Type 0 where
  pub min_age : ℕ
  pub max_age : ℕ
  pub recent_age : ℕ

pub record Tables : Type 0 where
  pub snapshots : List SnapshotRow
  pub resource : Store

-- The two keys of the result of a server that are written.
pub record Report : Type 0 where
  pub disk_findings : List Finding
  pub resource_findings : List Evaluate.Finding

-- The dict of a row of df, as `parse_df` gives it.
abbrev optional_number : Option ℕ → Json
optional_number none = null
optional_number (some n) = num n

unfoldable pub filesystem_fields : Filesystem → Fields
filesystem_fields f = field "device" (str f.device) (
    field "mount" (str f.mount) (
      field "total_kb" (num f.total_kb) (
        field "used_kb" (optional_number f.used_kb)
          (field "avail_kb" (num f.avail_kb) (field "usage" (num f.usage) end)))))

-- What `parse_devstate` knows of a device: keys that may be missing.
abbrev pub text_field : String → String → Fields → Fields
text_field key text rest = if text == "" then rest else field key (str text) rest

abbrev pub number_field : String → Option ℕ → Fields → Fields
number_field key none rest = rest
number_field key (some n) rest = field key (num n) rest

unfoldable pub state_fields : Device → Fields
state_fields d =
    text_field "state" d.state (number_field "ioerr" d.ioerr (number_field "timeout" d.timeout end))

-- The dict of a device, as `parse_lsblk` gives it and `_build_devices` adds its state.
unfoldable pub device_fields : Device → Fields
device_fields d = field "name" (str d.name) (
    field "type" (str d.kind) (
      field "size_kb" (num d.size_kb) (
        field "ro" (bool d.ro) (
          field "mount" (str d.mount) (
            field "fstype" (str d.fstype)
              (field "uuid" (str d.uuid) (field "by_path" (str d.by_path) (state_fields d))))))))

-- `item.get(key) or ''` and `int(item.get(key) or 0)`, for texts and numbers.
abbrev pub text_at : Option Json → String
text_at (some (str s)) = s
text_at _ = ""

abbrev pub number_at : Option Json → ℕ
number_at (some (num n)) = n
number_at _ = 0

-- What `disk_structure` reads of a snapshot, by the keys that it reads.
abbrev pub raw_mount : Mount → Resource.Mount
raw_mount m = record { mount = m.mount; device = m.device; fstype = m.fstype; size_kb = 0 }

abbrev pub raw_filesystem : Filesystem → String × ℕ
raw_filesystem f =
    let item = filesystem_fields f in (text_at (get item "mount"), number_at (get item "size_kb"))

abbrev pub raw_device : Device → RawDevice
raw_device d =
    let item = device_fields d in
    record {
      name = text_at (get item "name");
      uuid = text_at (get item "uuid");
      kind = text_at (get item "type");
      size_bytes = number_at (get item "size_bytes");
      size = number_at (get item "size");
    }

unfoldable pub raw_snapshot : Snapshot → Resource.Snapshot
raw_snapshot s = record {
  mounts = map raw_mount s.mounts;
  filesystems = map raw_filesystem s.filesystems;
  devices = map raw_device s.devices;
}

abbrev no_payload : Payload
no_payload = record { cpu = ""; memory = ""; storage = ""; disk = none }

-- `structural_categories`
abbrev pub is_structural : Finding → Bool
is_structural f = contains ("磁盘变更" ∷ "磁盘容量异常" ∷ "磁盘掉盘" ∷ "磁盘未挂载" ∷ "磁盘消失" ∷ []) f.category

-- The status is `normal` or `planned`; that of an event is neither.
abbrev pub is_accepted : Result → Bool
is_accepted normal = true
is_accepted (planned changes id) = true
is_accepted _ = false

-- Once the structure is accepted, findings about it are left out.
unfoldable pub keep_findings : Result → List Finding → List Finding
keep_findings result findings =
    if is_accepted result then select (λ f. not (is_structural f)) findings else findings

-- An exception: before the configuration is judged, while it is judged, which leaves the tables of the
-- configurations in some state, or when the snapshot is saved.
pub data Mishap : Type 0 where
  no_mishap at_baselines : Mishap
  at_evaluation : (left : Store) → Mishap
  at_saving : Mishap

-- What the exception handler adds.
abbrev pub check_failed : Finding
check_failed = record {
  severity = "info";
  category = "磁盘检查";
  text = "本次磁盘比对执行失败，已跳过（详见服务端日志）。";
  mount = none;
}

abbrev failed_report : Report
failed_report = record { disk_findings = check_failed ∷ []; resource_findings = [] }

-- The snapshot is not saved; the findings are there already.
unfoldable pub unsaved : Tables → Tables × Report → Tables × Report
unsaved t (t₁, r) = (
  record t₁ { snapshots = t.snapshots },
  record r { disk_findings = r.disk_findings ++ check_failed ∷ [] },
)

abbrev listed : Option Evaluate.Finding → List Evaluate.Finding
listed none = []
listed (some f) = f ∷ []

module _ (lower : String → String) (config : Config) (print : Print) (one_decimal : ℕ → ℕ → String)
    (dump : Payload → String) (sha256_hex : String → String) (day : ℕ → String)
    (limits : AgeLimits) where
  -- The payload of the configuration that a snapshot shows.
  unfoldable pub resource_payload : Option Hardware → Snapshot → Payload
  resource_payload hardware s =
      build_resource_payload lower config.exclude_fstypes config.exclude_paths hardware
        (some (raw_snapshot s)) no_payload

  -- With a snapshot.
  unfoldable pub audit_snapshot :
      ℕ → ℕ → Option Hardware → Snapshot → List Finding → Tables → Tables × Report
  audit_snapshot now server_id hardware s findings t =
      let (store, result) =
        evaluate_resource_configuration one_decimal dump sha256_hex now now server_id
          (resource_payload hardware s) t.resource in
      let kept = keep_findings result findings in
      (
        record {
          snapshots = save_disk_snapshot day server_id (some s) now kept t.snapshots;
          resource = store;
        },
        record {
          disk_findings = kept;
          resource_findings = listed (result_finding print.show result);
        },
      )

  -- With a snapshot, by what goes wrong.
  unfoldable pub audit_found :
      Mishap → ℕ → ℕ → Option Hardware → Snapshot → List Finding → Tables → Tables × Report
  audit_found no_mishap now server_id hardware s findings t =
      audit_snapshot now server_id hardware s findings t
  audit_found at_baselines now server_id hardware s findings t = (t, failed_report)
  audit_found (at_evaluation left) now server_id hardware s findings t =
      (record t { resource = left }, failed_report)
  audit_found at_saving now server_id hardware s findings t =
      unsaved t (audit_snapshot now server_id hardware s findings t)

  -- Without one, only the baselines are read.
  unfoldable pub audit_missing : Mishap → List Finding → Tables → Tables × Report
  audit_missing at_baselines findings t = (t, failed_report)
  audit_missing _ findings t = (t, record { disk_findings = findings; resource_findings = [] })

  -- `audit_server_disk`: the inventory and the error are those of the sample.
  unfoldable pub audit_server_disk :
      Mishap → ℕ → ℕ → Option Hardware → Option Snapshot → String → Tables → Tables × Report
  audit_server_disk mishap now server_id hardware inventory error t =
      let baselines =
        get_disk_baselines server_id now limits.min_age limits.max_age limits.recent_age
          t.snapshots in
      let findings = compare_disk lower config print baselines inventory error in
      elim inventory [
        | none ↦ audit_missing mishap findings t
        | some s ↦ audit_found mishap now server_id hardware s findings t
      ]

-- `attach_open_resource_change`: an open event is told, where the audit told none.
unfoldable pub open_finding : (ℕ → String) → Option Event → List Evaluate.Finding
open_finding show none = []
open_finding show (some e) = listed (result_finding show (raised e.status e.change_detail e.id))

unfoldable pub attach_open_resource_change : (ℕ → String) → ℕ → Store → Report → Report
attach_open_resource_change show server_id store r =
    if length r.resource_findings == 0
    then record r {
      resource_findings = open_finding show (get_open_resource_change_event server_id store);
    }
    else r
