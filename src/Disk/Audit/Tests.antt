-- ===== src/Disk/Audit/Tests.antt =====
-- Disk: instances. A data disk is mounted in the older snapshot and gone in the newer one.
use ops_inspection_system.Common.{
  ◌*◌, String, true, false, none, some, List, [], ◌∷◌, ◌≡◌, refl, inr, All, any, get, string_eq,
  number_eq, contains, map, flat_map, put, text_length, text_drop,
}
use ops_inspection_system.Resource.{is_visible}
use ops_inspection_system.Disk.{
  Mount, Device, Snapshot, Row, Config, Print, Finding, split_findings, mount_map, device_map,
  keyed,
}
use ops_inspection_system.Disk.Devices.{
  span, numbered, part_of, numbered_twice, lettered, parent_device_name, basename,
  device_still_present, renamed_uuids, renamed_parent_devices, renamed_old_parent_devices,
  is_ignored,
}
use ops_inspection_system.Disk.Structure.{check_mounts, check_devices, check_additions, is_lost}
use ops_inspection_system.Disk.Audit.{Baselines, compare_disk}
use ops_inspection_system.Disk.Audit.Known.{IsKnown}
use ops_inspection_system.Disk.Audit.Severity.{
  SeverestFirst, compare_disk-AreKnown, compare_disk-SeverestFirst, compare_disk_no_alert,
}
use ops_inspection_system.Disk.Audit.Lost.{reports, compare_disk_lost_mount}
use ops_inspection_system.Disk.Audit.Quiet.{compare_self}

abbrev lower : String → String
lower s = s

abbrev config : Config
config = record {
  exclude_fstypes = "tmpfs" ∷ [];
  exclude_paths = "/run" ∷ [];
  inode_threshold = 80;
  burst_kb = 20 * 1048576;
  growth_kb_per_day = 20 * 1048576;
  growth_percent_per_day = 5;
  shrink_kb_per_day = 20 * 1048576;
  full_warn_days = 7;
  small_fs_kb = 10 * 1048576;
}

abbrev print : Print
print = record {
  show = λ n. "n";
  general = λ n d. "g";
  no_decimal = λ n d. "0";
  one_decimal = λ n d. "1.0";
}

abbrev data_mount : Mount
data_mount = record { device = "/dev/sdb1"; mount = "/data"; fstype = "ext4"; ro = false }

abbrev sdb1 : Device
sdb1 = record {
  name = "sdb1";
  kind = "part";
  size_kb = 500;
  ro = false;
  mount = "/data";
  fstype = "ext4";
  uuid = "u1";
  by_path = "";
  state = "";
  ioerr = none;
  timeout = none;
}

abbrev snapshot_of : List Mount → List Device → Snapshot
snapshot_of mounts devices = record {
  source = "lsblk";
  devices_truncated = false;
  uptime_seconds = some 9000;
  mounts = mounts;
  filesystems = [];
  inodes = [];
  df_errors = [];
  devices = devices;
  raid = [];
  fs_errors = [];
  kernel = none;
  counts = (none, none);
}

abbrev before : Snapshot
before = snapshot_of (data_mount ∷ []) (sdb1 ∷ [])

abbrev after : Snapshot
after = snapshot_of [] (sdb1 ∷ [])

abbrev row : Snapshot → Row
row s = record { payload = some s; age = some 86400 }

abbrev baselines : Baselines
baselines = record {
  prev_day = some (row before);
  prev_recent = none;
  last_any = some (row before);
}

abbrev no_baselines : Baselines
no_baselines = record { prev_day = none; prev_recent = none; last_any = none }

runs : Unit {0}
unfolding string_eq number_eq contains get put text_length text_drop mount_map device_map keyed
    is_visible span numbered part_of numbered_twice lettered parent_device_name basename
    device_still_present renamed_uuids renamed_parent_devices renamed_old_parent_devices flat_map
    is_ignored is_lost
runs = tt

parents :
    map parent_device_name
      ("sdb1" ∷ "nvme0n1p2" ∷ "mmcblk0p1" ∷ "loop3p1" ∷ "dm-0" ∷ "sdb" ∷ "a1" ∷ [])
    ≡ some "sdb" ∷ some "nvme0n1" ∷ some "mmcblk0" ∷ some "loop3" ∷ none ∷ none ∷ none ∷ []
unfolding runs
parents = refl

basename_path : basename "/dev/disk/by-uuid/u1" ≡ "u1"
unfolding runs
basename_path = refl

-- The partition came back under another name: its disk counts as renamed, not as lost.
renamed :
    renamed_old_parent_devices before (snapshot_of [] (record sdb1 { name = "sdc1" } ∷ []))
    ≡ "sdb" ∷ []
unfolding runs
renamed = refl

there : get (mount_map lower config before) "/data" ≡ some data_mount
unfolding runs
there = refl

gone : get (mount_map lower config after) "/data" ≡ none
unfolding runs
gone = refl

compare_disk_lost_mount_example :
    any (reports "/data") (compare_disk lower config print baselines (some after) "") ≡ true
compare_disk_lost_mount_example =
    compare_disk_lost_mount lower config print baselines before after "" "/data" data_mount refl
      there gone

compare_disk-AreKnown_example :
    All IsKnown (compare_disk lower config print baselines (some after) "")
compare_disk-AreKnown_example = compare_disk-AreKnown lower config print baselines (some after) ""

compare_disk-SeverestFirst_example :
    SeverestFirst (compare_disk lower config print baselines (some after) "")
compare_disk-SeverestFirst_example =
    compare_disk-SeverestFirst lower config print baselines (some after) ""

compare_disk_no_alert_example :
    (split_findings (compare_disk lower config print no_baselines (some after) "")).0 ≡ []
compare_disk_no_alert_example =
    compare_disk_no_alert lower config print no_baselines (some after) "" (inr (refl, refl))

abbrev two_findings : List Finding
two_findings =
    record { severity = "info"; category = "磁盘变化"; text = "a"; mount = none }
    ∷ record { severity = "severe"; category = "磁盘掉盘"; text = "b"; mount = some "/data" }
    ∷ []

compare_self_example :
    (check_mounts lower config before before ≡ [])
    × (check_devices print before before ≡ [])
    × (check_additions lower config print before before ≡ [])
compare_self_example = compare_self lower config print before
