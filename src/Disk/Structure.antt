-- ===== src/Disk/Structure.antt =====
-- disk_audit.py: the checks of what is there: mount points, block devices and arrays that vanish,
-- shrink, turn read-only or degrade, and those that are new.
use ops_inspection_system.Common.{
  ℕ, ◌+◌, ◌-◌, ◌*◌, max, String, ◌<>◌, Bool, false, Option, none, some, List, [], ◌∷◌, ◌++◌, ◌&&◌,
  ◌||◌, not, ◌==◌, ltb, select, map, get, contains, string_eq, number_eq, option_eq, if◌then◌else◌,
  starts_with, flat_map,
}
use ops_inspection_system.Resource.{only_in}
use ops_inspection_system.Resource.Evaluate.{join}
use ops_inspection_system.Disk.{
  Mount, Device, Array, Snapshot, Config, Print, Finding, severe, info, finding, or_text,
  format_size_kb, device_map, has_key, mount_map,
}
use ops_inspection_system.Disk.Devices.{
  is_ignored, renamed_uuids, renamed_parent_devices, renamed_old_parent_devices,
  device_still_present, basename,
}

-- `_is_network_fs`
unfoldable pub is_network_fs : (String → String) → String → Bool
is_network_fs lower fstype =
    let name = lower fstype in
    starts_with name "nfs"
    || contains ("cifs" ∷ "smb3" ∷ "smbfs" ∷ "fuse.sshfs" ∷ "glusterfs" ∷ "ceph" ∷ []) name

-- A mount point that is gone, by what is left of it.
unfoldable pub mount_gone : (String → String) → List Device → String → Mount → Finding
mount_gone lower devices mount old =
    let device = or_text old.device "未知设备" in
    if is_network_fs lower old.fstype
    then finding severe "磁盘未挂载"
        ("网络挂载 " <> mount <> "（" <> device <> "）本次不可用，可能是存储端或网络中断，请确认后重新挂载。") (some mount)
    else if device_still_present device devices
    then finding severe "磁盘未挂载"
        ("挂载点 " <> mount <> "（" <> device <> "）已消失，但块设备仍在，通常是掉盘只读重挂、卷未激活或人工卸载，请确认数据是否还能访问。")
        (some mount)
    else finding severe "磁盘掉盘"
        ("挂载点 " <> mount <> "（" <> device <> "）已消失，且未发现对应块设备，疑似掉盘或分区丢失，请立即检查。") (some mount)

-- The body of the loop.
unfoldable pub check_mount :
    (String → String) → List Device → String → Mount → Option Mount → List Finding
check_mount lower devices mount old none = mount_gone lower devices mount old ∷ []
check_mount lower devices mount old (some new) =
    if not old.ro && new.ro
    then finding severe "磁盘只读"
        ("文件系统 " <> mount <> " 由可读写（rw）变为只读（ro），内核可能在 I/O 错误后做了保护性重挂载，请尽快备份数据并检查磁盘健康。") (some mount)
      ∷ []
    else []

-- `_check_mounts`
unfoldable pub check_mounts : (String → String) → Config → Snapshot → Snapshot → List Finding
check_mounts lower config prev cur =
    flat_map (λ e. check_mount lower cur.devices e.0 e.1 (get (mount_map lower config cur) e.0))
      (mount_map lower config prev)

abbrev unsized : Device → Bool
unsized d = contains ("lvm" ∷ "loop" ∷ "rom" ∷ []) d.kind

-- The early returns of `_check_devices`: lists that cannot be compared.
abbrev pub is_comparable : Snapshot → Snapshot → Bool
is_comparable prev cur =
    not (prev.devices_truncated || cur.devices_truncated) && prev.source == cur.source

-- A device that is absent and whose absence counts.
unfoldable pub is_lost : Snapshot → Snapshot → String → Device → Bool
is_lost prev cur name old =
    not (has_key (device_map cur) name || is_ignored name)
    && not (not (old.uuid == "") && contains (renamed_uuids prev cur) old.uuid)
    && not (contains (renamed_old_parent_devices prev cur) name)
    && not (unsized old)

unfoldable pub device_lost : Print → String → Device → Finding
device_lost print name old =
    finding severe "磁盘消失"
      ("块设备 "
        <> name
        <> "（"
        <> or_text old.kind "未知类型"
        <> "，"
        <> format_size_kb print old.size_kb
        <> "）在本次采集里消失，请确认是人为下线还是硬件掉盘。")
      none

-- The sizes of a device that is in both snapshots.
unfoldable pub compare_size : Print → String → ℕ → ℕ → List Finding
compare_size print name old_size new_size =
    let sizes =
      "块设备 "
      <> name
      <> " 容量由 "
      <> format_size_kb print old_size
      <> " 变为 "
      <> format_size_kb print new_size in
    if old_size == 0 || new_size == 0 || old_size == new_size
    then []
    else if ltb (2 * new_size) old_size
    then finding severe "磁盘容量异常" (sizes <> "（不足一半），疑似分区表损坏或阵列成员丢失，请立即检查。") none ∷ []
    else if ltb (max old_size (20 * 1048576)) (20 * ((new_size - old_size) + (old_size - new_size)))
    then finding info "磁盘变化" (sizes <> "（疑似扩容或分区调整），如为人为操作可忽略。") none ∷ []
    else []

unfoldable pub check_size : Print → String → Device → Option Device → List Finding
check_size print name old none = []
check_size print name old (some new) =
    if unsized old then [] else compare_size print name old.size_kb new.size_kb

-- `_check_devices`
unfoldable pub check_devices : Print → Snapshot → Snapshot → List Finding
check_devices print prev cur =
    if is_comparable prev cur
    then flat_map (λ e. if is_lost prev cur e.0 e.1 then device_lost print e.0 e.1 ∷ [] else [])
        (device_map prev)
      ++ flat_map (λ e. check_size print e.0 e.1 (get (device_map cur) e.0)) (device_map prev)
    else []

-- The text of the members that failed or are missing.
unfoldable pub array_detail : Print → Array → String
array_detail print array =
    let groups = join "、" (
      map
        (λ (g : ℕ × ℕ × String).
          "[" <> print.show g.0 <> "/" <> print.show g.1 <> "] [" <> g.2 <> "]")
        array.groups) in
    or_text (or_text groups array.state) "状态异常"

abbrev named : String → List String → String → String
named before [] after = ""
named before names after = before <> join "、" names <> after

-- `old.get("members") or []` and `old.get("degraded")`, where `old` can be `{}`.
abbrev members_of : Option Array → List String
members_of none = []
members_of (some a) = a.members

abbrev was_degraded : Option Array → Bool
was_degraded none = false
was_degraded (some a) = a.degraded

unfoldable pub degraded_text : Print → String → Array → Option Array → String
degraded_text print name array old =
    "软阵列 "
    <> name
    <> "（"
    <> or_text array.level "未知级别"
    <> "）处于降级状态："
    <> array_detail print array
    <> named "，失效成员 " array.failed ""
    <> named "，成员 " (select (λ m. not (contains array.members m)) (members_of old)) " 已从阵列中消失"
    <> (if was_degraded old then "（上次巡检已发现，仍未恢复）" else "")
    <> "，请尽快更换故障磁盘并等待重建完成。"

unfoldable pub rebuild_notice : String → Option (String × String) → List Finding
rebuild_notice name none = []
rebuild_notice name (some (op, percent)) =
    finding info "磁盘变化"
      ("软阵列 " <> name <> " 正在 " <> op <> "（" <> percent <> "%），通常是成员故障或更换后的自动重建，重建期间请不要重启。") none
    ∷ []

unfoldable pub check_array : Print → String → Array → Option Array → List Finding
check_array print name array old =
    (if array.degraded
      then finding severe "磁盘阵列降级" (degraded_text print name array old) none ∷ []
      else [])
    ++ rebuild_notice name array.rebuilding

-- `_check_raid`
unfoldable pub check_raid : Print → Snapshot → Snapshot → List Finding
check_raid print prev cur =
    flat_map (λ e. check_array print e.0 e.1 (get prev.raid e.0)) cur.raid
    ++ flat_map
        (λ e.
          if has_key cur.raid e.0
          then []
          else finding severe "磁盘阵列降级"
              ("软阵列 " <> e.0 <> " 本次在 /proc/mdstat 中消失，请确认阵列是否被停用或成员盘全部掉线。") none
            ∷ [])
        prev.raid

-- The disks of the second snapshot that `_check_additions` calls new.
unfoldable pub new_devices : Snapshot → Snapshot → List Device
new_devices prev cur =
    if is_comparable prev cur
    then select
        (λ (d : Device).
          not (has_key (device_map prev) d.name)
          && d.kind == "disk"
          && not (contains (renamed_parent_devices prev cur) d.name)
          && not (is_ignored d.name))
        cur.devices
    else []

-- The new disks that a new mount point lies on.
unfoldable pub carriers : List Device → Mount → List Device
carriers devices entry = select (λ (d : Device). starts_with (basename entry.device) d.name) devices

-- The size of the last of them.
unfoldable pub carrier_text : Print → List Device → String
carrier_text print [] = ""
carrier_text print (d ∷ []) = "，容量 " <> format_size_kb print d.size_kb
carrier_text print (d ∷ ds) = carrier_text print ds

unfoldable pub mount_added : Print → List Device → String → Option Mount → List Finding
mount_added print devices mount none = []
mount_added print devices mount (some entry) =
    finding info "磁盘变化"
      ("新增挂载点 "
        <> mount
        <> "（"
        <> or_text entry.device "未知设备"
        <> "，"
        <> or_text entry.fstype "未知类型"
        <> "）"
        <> carrier_text print (carriers devices entry)
        <> "，如为人为操作可忽略。")
      (some mount)
    ∷ []

unfoldable pub consumed_by : List Device → Option Mount → List String
consumed_by devices none = []
consumed_by devices (some entry) = map (λ (d : Device). d.name) (carriers devices entry)

unfoldable pub device_added : Print → Device → Finding
device_added print d =
    finding info "磁盘变化"
      ("新增块设备 "
        <> d.name
        <> "（"
        <> format_size_kb print d.size_kb
        <> "，"
        <> d.kind
        <> "），如为人为操作可忽略。")
      none

-- `_check_additions`
unfoldable pub check_additions :
    (String → String) → Config → Print → Snapshot → Snapshot → List Finding
check_additions lower config print prev cur =
    let before = mount_map lower config prev in
    let after = mount_map lower config cur in
    let fresh = new_devices prev cur in
    let added = only_in (map (λ e. e.0) after) (map (λ e. e.0) before) in
    let consumed = flat_map (λ mount. consumed_by fresh (get after mount)) added in
    flat_map (λ mount. mount_added print fresh mount (get after mount)) added
    ++ map (device_added print) (select (λ (d : Device). not (contains consumed d.name)) fresh)
