-- ===== src/Disk/Space.antt =====
-- disk_audit.py: the checks of how full the file systems are and how fast they grow. The source's
-- floats are exact fractions here: an amount of a day is compared by cross multiplication with the
-- `seconds` since the snapshot that is compared to.
use ops_inspection_system.Common.{
  ℕ, ◌+◌, ◌-◌, ◌*◌, String, ◌<>◌, Bool, Option, none, some, List, [], ◌∷◌, ◌&&◌, ◌||◌, ◌==◌, ltb,
  leb, Dict, get, string_eq, number_eq, if◌then◌else◌, flat_map,
}
use ops_inspection_system.Resource.Order.{sort}
use ops_inspection_system.Disk.{
  Filesystem, Snapshot, Row, Config, Print, Finding, warn, finding, format_size_kb, filesystem_map,
}
use ops_inspection_system.Disk.Signals.{key_leb}

-- `daily_gb <= -DISK_AUDIT_SHRINK_GB_PER_DAY`
unfoldable pub shrinks : Config → ℕ → ℕ → ℕ → Bool
shrinks config seconds before now =
    leb (config.shrink_kb_per_day * seconds + now * 86400) (before * 86400)

-- `over_absolute or over_percent`, for a growth.
unfoldable pub over_growth : Config → ℕ → ℕ → ℕ → Bool
over_growth config seconds growth size =
    leb config.small_fs_kb size && ltb (config.growth_kb_per_day * seconds) (growth * 86400)
    || ltb 0 size && ltb (config.growth_percent_per_day * size * seconds) (growth * 86400 * 100)

-- `will_fill`
unfoldable pub will_fill : Config → ℕ → ℕ → ℕ → Bool
will_fill config seconds growth avail =
    ltb 0 avail && leb (avail * seconds) (config.full_warn_days * (growth * 86400))

-- `_days_text`
unfoldable pub days_text : Print → ℕ → ℕ → String
days_text print days_num days_den =
    if ltb days_num days_den
    then "不到 1 天就会写满"
    else "约 " <> print.one_decimal days_num days_den <> " 天后写满"

unfoldable pub shrink_finding : Print → ℕ → String → ℕ → Finding
shrink_finding print seconds mount loss =
    finding warn "磁盘容量突降"
      ("挂载点 "
        <> mount
        <> " 近 "
        <> print.one_decimal seconds 86400
        <> " 天减少了 "
        <> print.one_decimal loss 1048576
        <> " GB（日均 "
        <> print.one_decimal (loss * 86400) (seconds * 1048576)
        <> " GB），请确认是正常清理还是数据丢失。")
      (some mount)

unfoldable pub growth_base : Print → ℕ → String → ℕ → Filesystem → String
growth_base print seconds mount growth now =
    "挂载点 "
    <> mount
    <> " 近 "
    <> print.one_decimal seconds 86400
    <> " 天增长 "
    <> print.one_decimal growth 1048576
    <> " GB（日均 "
    <> print.one_decimal (growth * 86400) (seconds * 1048576)
    <> " GB，容量 "
    <> format_size_kb print now.total_kb
    <> "，当前使用率 "
    <> print.general now.usage 1
    <> "%）"

-- A file system that grows.
unfoldable pub growing : Config → Print → ℕ → String → ℕ → Filesystem → List Finding
growing config print seconds mount growth now =
    let base = growth_base print seconds mount growth now in
    let fills = days_text print (now.avail_kb * seconds) (growth * 86400) in
    let soon = will_fill config seconds growth now.avail_kb in
    if over_growth config seconds growth now.total_kb
    then finding warn "磁盘增长异常"
        (base
          <> "，增长明显高于预期"
          <> (if soon then "，按当前速度" <> fills else "")
          <> "，请确认是否有日志、备份或临时文件异常增长。")
        (some mount)
      ∷ []
    else if soon
    then finding warn "磁盘即将写满" (base <> "，按当前速度" <> fills <> "，请提前清理或扩容。") (some mount) ∷ []
    else []

unfoldable pub growth_of : Config → Print → ℕ → String → ℕ → ℕ → Filesystem → List Finding
growth_of config print seconds mount before used now =
    if shrinks config seconds before used
    then shrink_finding print seconds mount (before - used) ∷ []
    else if leb used before
    then []
    else growing config print seconds mount (used - before) now

-- `old.get("used_kb")`, where the file system can be new.
abbrev pub used_of : Option Filesystem → Option ℕ
used_of none = none
used_of (some f) = f.used_kb

-- The body of the loop of `_check_growth`.
unfoldable pub growth_step :
    Config → Print → ℕ → String → Option ℕ → Option ℕ → Filesystem → List Finding
growth_step config print seconds mount (some before) (some used) now =
    growth_of config print seconds mount before used now
growth_step config print seconds mount _ _ now = []

abbrev pub filesystems_of : (String → String) → Config → Option Snapshot → Dict String Filesystem
filesystems_of lower config none = []
filesystems_of lower config (some s) = filesystem_map lower config s

-- `row.get("age_hours") or 0`
abbrev pub age_of : Row → ℕ
age_of row = elim row.age [ none ↦ 0 | some seconds ↦ seconds ]

-- `_check_growth`
unfoldable pub check_growth :
    (String → String) → Config → Print → Option Row → Snapshot → List Finding
check_growth lower config print none cur = []
check_growth lower config print (some row) cur =
    let before = filesystems_of lower config row.payload in
    if age_of row == 0
    then []
    else flat_map
        (λ e. growth_step config print (age_of row) e.0 (used_of (get before e.0)) e.1.used_kb e.1)
        (sort key_leb (filesystem_map lower config cur))

-- The body of the loop of `_check_burst`.
unfoldable pub burst_step : Config → Print → ℕ → String → Option ℕ → Option ℕ → List Finding
burst_step config print seconds mount (some before) (some used) =
    if leb used (before + config.burst_kb)
    then []
    else finding warn "磁盘短时突增"
        ("挂载点 "
          <> mount
          <> " 在 "
          <> print.no_decimal seconds 60
          <> " 分钟内增长 "
          <> print.one_decimal (used - before) 1048576
          <> " GB（阈值 "
          <> print.general config.burst_kb 1048576
          <> " GB），疑似有大批量写入或日志暴涨，请确认是否为正常业务。")
        (some mount)
      ∷ []
burst_step config print seconds mount _ _ = []

-- `_check_burst`: the snapshot that is compared to is at most six hours old.
unfoldable pub check_burst :
    (String → String) → Config → Print → Option Row → Snapshot → List Finding
check_burst lower config print none cur = []
check_burst lower config print (some row) cur =
    let before = filesystems_of lower config row.payload in
    if age_of row == 0 || ltb 21600 (age_of row)
    then []
    else flat_map
        (λ e. burst_step config print (age_of row) e.0 (used_of (get before e.0)) e.1.used_kb)
        (sort key_leb (filesystem_map lower config cur))
