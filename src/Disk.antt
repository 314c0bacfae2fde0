-- ===== src/Disk.antt =====
-- disk_audit.py: the snapshot of a server's disks as `build_snapshot` leaves it, the lookups by mount
-- point and by device name, and the findings. A text that is missing is the empty text.
-- Parameters: `lower` is `str.lower`; `Print` has the texts that Python's formats give of numbers.
-- A time of the kernel log is in microseconds.
pub mod Devices
pub mod Maps
pub mod Structure
pub mod Signals
pub mod Space
pub mod Audit
pub mod Store
use ops_inspection_system.Common.{
  ℕ, ◌*◌, String, ◌<>◌, Bool, true, false, Option, none, some, List, [], ◌∷◌, ◌++◌, ◌||◌, ◌==◌, leb,
  select, map, Dict, put, get, contains, string_eq, number_eq, option_eq, if◌then◌else◌, strip,
  text_length, text_take, ◌-◌, length,
}
use ops_inspection_system.Resource.{is_visible}

pub record Mount : Type 0 where
  pub device : String
  pub mount : String
  pub fstype : String
  pub ro : Bool

pub record Filesystem : Type 0 where
  pub device : String
  pub mount : String
  pub total_kb : ℕ
  pub used_kb : Option ℕ
  pub avail_kb : ℕ
  pub usage : ℕ

pub record Device : Type 0 where
  pub name : String
  pub kind : String
  pub size_kb : ℕ
  pub ro : Bool
  pub mount : String
  pub fstype : String
  pub uuid : String
  pub by_path : String
  pub state : String
  pub ioerr : Option ℕ
  pub timeout : Option ℕ

-- `rebuilding` is the operation with the text of its percentage.
pub record Array : Type 0 where
  pub level : String
  pub state : String
  pub members : List String
  pub failed : List String
  pub groups : List (ℕ × ℕ × String)
  pub degraded : Bool
  pub rebuilding : Option (String × String)

pub record Kernel : Type 0 where
  pub errors_last_at : Option ℕ
  pub recent : List (ℕ × String)

-- `counts` are the numbers of mounts and of disks, where the key is there.
pub record Snapshot : Type 0 where
  pub source : String
  pub devices_truncated : Bool
  pub uptime_seconds : Option ℕ
  pub mounts : List Mount
  pub filesystems : List Filesystem
  pub inodes : Dict String (Option ℕ)
  pub df_errors : List String
  pub devices : List Device
  pub raid : Dict String Array
  pub fs_errors : Dict String ℕ
  pub kernel : Option Kernel
  pub counts : Option ℕ × Option ℕ

-- A row of `disk_snapshots`, where the payload can be empty; its age is in seconds.
pub record Row : Type 0 where
  pub payload : Option Snapshot
  pub age : Option ℕ

-- config.py: the amounts of space in KB; the days and the percentages as whole numbers.
pub record Config : Type 0 where
  pub exclude_fstypes : List String
  pub exclude_paths : List String
  pub inode_threshold : ℕ
  pub burst_kb : ℕ
  pub growth_kb_per_day : ℕ
  pub growth_percent_per_day : ℕ
  pub shrink_kb_per_day : ℕ
  pub full_warn_days : ℕ
  pub small_fs_kb : ℕ

-- `{}`, and `{:g}`, `{:.0f}` and `{:.1f}` of a quotient.
pub record Print : Type 0 where
  pub show : ℕ → String
  pub general : ℕ → ℕ → String
  pub no_decimal : ℕ → ℕ → String
  pub one_decimal : ℕ → ℕ → String

pub record Finding : Type 0 where
  pub severity : String
  pub category : String
  pub text : String
  pub mount : Option String

-- `SEVERE`, `WARN` and `INFO`.
abbrev pub severe : String
severe = "severe"

abbrev pub warn : String
warn = "warn"

abbrev pub info : String
info = "info"

-- `finding`: an empty mount point is left out.
unfoldable pub finding : String → String → String → Option String → Finding
finding severity category text mount = record {
  severity = severity;
  category = category;
  text = text;
  mount = if mount == some "" then none else mount;
}

abbrev pub or_text : String → String → String
or_text text other = if text == "" then other else text

unfoldable pub format_findings : List Finding → List String
format_findings findings =
    map (λ (f : Finding). "【" <> or_text f.category "磁盘检查" <> "】" <> f.text) findings

abbrev pub is_alert : Finding → Bool
is_alert f = f.severity == severe || f.severity == warn

-- One step of the loop puts the finding in front, since the rest of the loop comes behind it.
abbrev pub split_one : Finding → List Finding × List Finding → List Finding × List Finding
split_one f (alerts, notices) = if is_alert f then (f ∷ alerts, notices) else (alerts, f ∷ notices)

-- `split_findings`: the alerts and the notices.
unfoldable pub split_findings : List Finding → List Finding × List Finding
split_findings [] = ([], [])
split_findings (f ∷ findings) = split_one f (split_findings findings)

-- `_shorten`, with its default limit.
unfoldable pub shorten : String → String
shorten text =
    let short = strip text in
    if leb (text_length short) 160 then short else text_take 159 short <> "…"

-- `format_size_kb`
unfoldable pub format_size_kb : Print → ℕ → String
format_size_kb print size =
    if size == 0
    then "未知"
    else if leb 1073741824 size
    then print.one_decimal size 1073741824 <> " TB"
    else if leb 10485760 size
    then print.no_decimal size 1048576 <> " GB"
    else print.one_decimal size 1048576 <> " GB"

-- `{key(item): item for item in items}` after the entries of `d`.
unfoldable pub keyed {ℓ} : {A : Type ℓ} → (A → String) → List A → Dict String A → Dict String A
keyed key [] d = d
keyed key (x ∷ xs) d = keyed key xs (put d (key x) x)

unfoldable pub device_map : Snapshot → Dict String Device
device_map s = keyed (λ (item : Device). item.name) s.devices []

abbrev pub has_key {ℓ} : {A : Type ℓ} → Dict String A → String → Bool
has_key d key = contains (map (λ e. e.0) d) key

module _ (lower : String → String) (config : Config) where
  unfoldable pub mount_map : Snapshot → Dict String Mount
  mount_map s =
      keyed (λ (item : Mount). item.mount)
        (select
          (λ (item : Mount).
            is_visible lower config.exclude_fstypes config.exclude_paths item.mount item.fstype)
          s.mounts)
        []

  unfoldable pub filesystem_map : Snapshot → Dict String Filesystem
  filesystem_map s =
      keyed (λ (item : Filesystem). item.mount)
        (select (λ (item : Filesystem). has_key (mount_map s) item.mount) s.filesystems) []
