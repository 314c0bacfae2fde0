-- ===== src/Inspect/Tests.antt =====
-- Inspect, Disk.Store: instances. A server has one data disk and a file system that df cannot read.
use ops_inspection_system.Common.{
  ℕ, String, Bool, false, none, some, [], ◌∷◌, ◌≡◌, arith, refl, All, any, ◌==◌, string_eq,
}
use ops_inspection_system.Resource
use ops_inspection_system.Resource.{Payload, disk_structure}
use ops_inspection_system.Disk.{Filesystem, Device, Snapshot, Config, Print, Finding}
use ops_inspection_system.Disk.Audit.{compare_disk}
use ops_inspection_system.Disk.Store.{SnapshotRow, get_disk_baselines}
use ops_inspection_system.Disk.Store.Ages.{AgeWithin, get_disk_baselines-AgeWithin}
use ops_inspection_system.Inspect.{AgeLimits, Tables, at_saving, raw_snapshot, audit_server_disk}
use ops_inspection_system.Inspect.Faults.{is_fault, audit_server_disk_faults}
use ops_inspection_system.Inspect.Sizes.{disk_structure_sizes}

abbrev lower : String → String
lower s = s

abbrev config : Config
config = record {
  exclude_fstypes = "tmpfs" ∷ [];
  exclude_paths = [];
  inode_threshold = 80;
  burst_kb = 20971520;
  growth_kb_per_day = 20971520;
  growth_percent_per_day = 5;
  shrink_kb_per_day = 20971520;
  full_warn_days = 7;
  small_fs_kb = 10485760;
}

abbrev print : Print
print = record {
  show = λ n. "n";
  general = λ n d. "g";
  no_decimal = λ n d. "0";
  one_decimal = λ n d. "1.0";
}

abbrev sda : Device
sda = record {
  name = "sda";
  kind = "disk";
  size_kb = 1048576;
  ro = false;
  mount = "/";
  fstype = "ext4";
  uuid = "u1";
  by_path = "";
  state = "";
  ioerr = none;
  timeout = none;
}

abbrev root_usage : Filesystem
root_usage = record {
  device = "/dev/sda";
  mount = "/";
  total_kb = 1048576;
  used_kb = some 10;
  avail_kb = 1048566;
  usage = 1;
}

abbrev sample : Snapshot
sample = record {
  source = "lsblk";
  devices_truncated = false;
  uptime_seconds = some 9000;
  mounts = record { device = "/dev/sda"; mount = "/"; fstype = "ext4"; ro = false } ∷ [];
  filesystems = root_usage ∷ [];
  inodes = [];
  df_errors = "df: /data: Input/output error" ∷ [];
  devices = sda ∷ [];
  raid = [];
  fs_errors = [];
  kernel = none;
  counts = (none, none);
}

abbrev stored : SnapshotRow
stored = record {
  server_id = 7;
  snapshot_date = "2026-09-13";
  collected_at = 100000;
  payload = some sample;
  findings = [];
}

abbrev tables : Tables
tables = record {
  snapshots = stored ∷ [];
  resource = record { baselines = []; plans = []; next_plan = 1; events = []; next_event = 1 };
}

abbrev limits : AgeLimits
limits = record { min_age = 43200; max_age = 172800; recent_age = 1800 }

abbrev dump : Payload → String
dump p = p.cpu

abbrev day : ℕ → String
day at = "2026-09-14"

abbrev is_df_error : Finding → Bool
is_df_error f = f.category == "文件系统异常"

audit_server_disk_faults_example :
    any
      (is_fault is_df_error)
      (audit_server_disk lower config print
        (λ n d. "1.0")
        dump
        lower
        day
        limits
        at_saving
        186400
        7
        none
        (some sample)
        ""
        tables).1.disk_findings
    ≡ any (is_fault is_df_error) (
        compare_disk lower config print
          (get_disk_baselines 7 186400 43200 172800 1800 (stored ∷ []))
          (some sample)
          "")
audit_server_disk_faults_example =
    audit_server_disk_faults lower config print (λ n d. "1.0") dump lower day limits is_df_error
      at_saving 186400 7 none (some sample) "" tables refl

disk_structure_sizes_example :
    All
      (λ (m : Resource.Mount). m.size_kb ≡ 0)
      (disk_structure lower [] [] (raw_snapshot sample)).mounts
    × All
        (λ (d : Resource.Device). d.size_bytes ≡ 0)
        (disk_structure lower [] [] (raw_snapshot sample)).devices
disk_structure_sizes_example = disk_structure_sizes lower [] [] sample

get_disk_baselines-AgeWithin_example :
    AgeWithin 43200 172800 (get_disk_baselines 7 186400 43200 172800 1800 (stored ∷ [])).prev_day
    × AgeWithin 1800 172800
        (get_disk_baselines 7 186400 43200 172800 1800 (stored ∷ [])).prev_recent
get_disk_baselines-AgeWithin_example =
    get_disk_baselines-AgeWithin 7 186400 43200 172800 1800 (stored ∷ []) (omega arith)
      (omega arith)
