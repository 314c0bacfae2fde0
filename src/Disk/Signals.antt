-- ===== src/Disk/Signals.antt =====
-- disk_audit.py: the checks of what the kernel reports: error counters, device states, log lines,
-- errors of df, and the use of inodes.
use ops_inspection_system.Common.{
  ℕ, ◌-◌, ◌*◌, String, ◌<>◌, Bool, true, false, Option, none, some, List, [], ◌∷◌, ◌++◌, ◌||◌, not,
  ◌==◌, ltb, leb, any, select, map, take, get, contains, string_eq, number_eq, option_eq,
  if◌then◌else◌, occurs_in, flat_map,
}
use ops_inspection_system.Resource.Order.{text_leb, sort}
use ops_inspection_system.Disk.{
  Device, Kernel, Snapshot, Row, Config, Print, Finding, severe, warn, finding, shorten, device_map,
  has_key, mount_map,
}

-- A counter of a device counts only where both snapshots have it and it grew.
unfoldable pub counter_grew : Print → String → String → Option ℕ → Option ℕ → List Finding
counter_grew print name label (some before) (some after) =
    if leb after before
    then []
    else finding (if leb 10 (after - before) then severe else warn) "磁盘I/O错误"
        ("块设备 "
          <> name
          <> " 的"
          <> label
          <> "由 "
          <> print.show before
          <> " 增加到 "
          <> print.show after
          <> "（本次新增 "
          <> print.show (after - before)
          <> "），内核已记录到该磁盘的读写异常，建议检查数据完整性并安排更换。")
        none
      ∷ []
counter_grew print name label _ _ = []

abbrev pub ioerr_of : Option Device → Option ℕ
ioerr_of none = none
ioerr_of (some d) = d.ioerr

abbrev pub timeout_of : Option Device → Option ℕ
timeout_of none = none
timeout_of (some d) = d.timeout

abbrev pub state_of : Option Device → String
state_of none = ""
state_of (some d) = d.state

-- `_BAD_DEVICE_STATES`
abbrev bad_device_states : List String
bad_device_states = "offline" ∷ "blocked" ∷ "deleted" ∷ "cancel" ∷ "quiesce" ∷ []

-- The state of a device, after the state it had.
unfoldable pub check_state : String → String → String → List Finding
check_state name old state =
    if state == "" || state == "running"
    then []
    else if contains bad_device_states state || not (old == state)
    then finding severe "磁盘状态异常"
        ("块设备 " <> name <> " 的内核状态为 " <> state <> "（正常应为 running），说明内核已把该磁盘标记为异常。") none
      ∷ []
    else []

unfoldable pub check_device_counters : Print → Device → Option Device → List Finding
check_device_counters print device old =
    counter_grew print device.name "I/O 错误计数" (ioerr_of old) device.ioerr
    ++ (counter_grew print device.name "I/O 超时计数" (timeout_of old) device.timeout
        ++ check_state device.name (state_of old) device.state)

unfoldable pub check_fs_errors : Print → String → Option ℕ → ℕ → List Finding
check_fs_errors print name none after = []
check_fs_errors print name (some before) after =
    if ltb before after
    then finding severe "文件系统错误"
        ("文件系统 "
          <> name
          <> " 的内核错误计数由 "
          <> print.show before
          <> " 增加到 "
          <> print.show after
          <> "，说明 ext4 在读写时遇到了错误，请尽快备份数据并检查磁盘。")
        none
      ∷ []
    else []

-- `_check_counters`, with a snapshot to compare to.
unfoldable pub check_counters : Print → Snapshot → Snapshot → List Finding
check_counters print prev cur =
    flat_map (λ (d : Device). check_device_counters print d (get (device_map prev) d.name))
      cur.devices
    ++ flat_map (λ e. check_fs_errors print e.0 (get prev.fs_errors e.0) e.1) cur.fs_errors

-- `_kernel_severity`
unfoldable pub kernel_severity : (String → String) → String → String
kernel_severity lower text =
    let lowered = lower text in
    if any (λ hint. occurs_in hint lowered)
      ("medium error" ∷ "unrecover" ∷ "critical medium error" ∷ "ext4-fs error" ∷ "xfs (" ∷ [])
    then severe
    else warn

abbrev pub recent_of : Option Kernel → List (ℕ × String)
recent_of none = []
recent_of (some k) = k.recent

abbrev kernel_of : Option Snapshot → Option Kernel
kernel_of none = none
kernel_of (some s) = s.kernel

abbrev uptime_of : Option Snapshot → Option ℕ
uptime_of none = none
uptime_of (some s) = s.uptime_seconds

-- `rebooted`
unfoldable pub is_rebooted : Option ℕ → Option ℕ → Bool
is_rebooted (some before) (some now) = ltb now before
is_rebooted _ _ = false

-- A line of the last day, by the seconds since the start of the system.
unfoldable pub is_recent : Option ℕ → ℕ × String → Bool
is_recent none line = true
is_recent (some boot) (t, _) = leb (boot * 1000000 - t) (86400 * 1000000)

abbrev lines_after : Option ℕ → List (ℕ × String) → List (ℕ × String)
lines_after none recent = recent
lines_after (some last) recent = select (λ (line : ℕ × String). ltb last line.0) recent

-- The lines to report, and what the text says of them.
unfoldable pub candidates :
    Option Kernel → Bool → Option ℕ → List (ℕ × String) → List (ℕ × String) × String
candidates none rebooted boot recent = (select (is_recent boot) recent, "（近 24 小时内）")
candidates (some k) rebooted boot recent =
    if rebooted
    then (select (is_recent boot) recent, "（近 24 小时内）")
    else (lines_after k.errors_last_at recent, "")

unfoldable pub kernel_finding : (String → String) → String → ℕ × String → Finding
kernel_finding lower suffix (t, text) =
    finding (kernel_severity lower text) "内核磁盘错误" ("内核日志出现磁盘错误" <> suffix <> "：" <> shorten text)
      none

abbrev pub payload_of : Option Row → Option Snapshot
payload_of none = none
payload_of (some r) = r.payload

-- `_check_kernel`
unfoldable pub check_kernel : (String → String) → Option Row → Snapshot → List Finding
check_kernel lower prev cur =
    let before = payload_of prev in
    let (lines, suffix) =
      candidates (kernel_of before) (is_rebooted (uptime_of before) cur.uptime_seconds)
        cur.uptime_seconds (recent_of cur.kernel) in
    map (kernel_finding lower suffix) (take 3 lines)

-- `_check_df_errors`
unfoldable pub check_df_errors : Snapshot → List Finding
check_df_errors cur =
    map
      (λ line.
        finding severe "文件系统异常"
          ("df 读取挂载点时报错：" <> shorten line <> "。常见原因是文件系统损坏或存储失联，请尽快确认该挂载点上的数据是否还能访问。") none)
      (take 3 cur.df_errors)

unfoldable pub inode_finding : Config → Print → Bool → String → Option ℕ → List Finding
inode_finding config print visible mount none = []
inode_finding config print visible mount (some usage) =
    if not visible || leb usage config.inode_threshold
    then []
    else finding warn "inode使用率过高"
        ("挂载点 "
          <> mount
          <> " 的 inode 使用率已达 "
          <> print.general usage 1
          <> "%（阈值 "
          <> print.general config.inode_threshold 1
          <> "%），继续增长会导致无法创建新文件。")
        (some mount)
      ∷ []

-- The order of a dict's items with distinct keys.
abbrev pub key_leb {ℓ} : {A : Type ℓ} → String × A → String × A → Bool
key_leb a b = text_leb a.0 b.0

-- `_check_inode`
unfoldable pub check_inode : (String → String) → Config → Print → Snapshot → List Finding
check_inode lower config print cur =
    flat_map (λ e. inode_finding config print (has_key (mount_map lower config cur) e.0) e.0 e.1)
      (sort key_leb cur.inodes)
