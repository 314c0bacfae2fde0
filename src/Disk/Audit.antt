-- ===== src/Disk/Audit.antt =====
-- disk_audit.py: `compare_disk`, all the checks of a snapshot against the earlier ones.
pub mod Known
pub mod Severity
pub mod Lost
pub mod Quiet
mod Tests
use ops_inspection_system.Common.{
  ℕ, ◌*◌, String, ◌<>◌, Bool, true, false, Option, none, some, List, [], ◌∷◌, ◌++◌, ◌==◌, ltb, leb,
  string_eq, if◌then◌else◌, length,
}
use ops_inspection_system.Resource.Order.{sort}
use ops_inspection_system.Disk.{
  Snapshot, Row, Config, Print, Finding, severe, warn, info, finding, mount_map,
}
use ops_inspection_system.Disk.Structure.{check_mounts, check_devices, check_raid, check_additions}
use ops_inspection_system.Disk.Signals.{
  check_counters, check_kernel, check_df_errors, check_inode, payload_of,
}
use ops_inspection_system.Disk.Space.{check_growth, check_burst}

pub record Baselines : Type 0 where
  pub prev_day : Option Row
  pub prev_recent : Option Row
  pub last_any : Option Row

-- `order.get(severity, 3)`
unfoldable pub rank : Finding → ℕ
rank f =
    if f.severity == severe
    then 0
    else if f.severity == warn
    then 1
    else if f.severity == info
    then 2
    else 3

abbrev pub rank_leb : Finding → Finding → Bool
rank_leb f g = leb (rank f) (rank g)

-- `_sort_findings`
unfoldable pub sort_findings : List Finding → List Finding
sort_findings findings = sort rank_leb findings

abbrev or_number : Option ℕ → ℕ → ℕ
or_number none n = n
or_number (some k) n = k

module _ (lower : String → String) (config : Config) (print : Print) where
  -- `_first_run_text`
  unfoldable pub first_run_text : Snapshot → String
  first_run_text cur =
      "首次采集磁盘基线：数据挂载点 "
      <> print.show (or_number cur.counts.0 (length (mount_map lower config cur)))
      <> " 个、物理磁盘 "
      <> print.show (or_number cur.counts.1 0)
      <> " 块，已记录，下次巡检开始比对掉盘、磁盘损坏与容量增长。"

  -- The last snapshot of all is too old, or too young, to compare to.
  unfoldable pub stale_notice : Option ℕ → List Finding
  stale_notice none = []
  stale_notice (some age) =
      if ltb (48 * 3600) age
      then finding info "磁盘检查"
          ("最近一次磁盘基线是 " <> print.no_decimal age 3600 <> " 小时前（超过 48 小时），本次只记录新基线，不做掉盘与增长趋势判断。") none
        ∷ []
      else []

  -- No snapshot to compare to.
  unfoldable pub without_baseline : Option Row → Snapshot → List Finding
  without_baseline none cur = finding info "磁盘检查" (first_run_text cur) none ∷ []
  without_baseline (some last) cur = stale_notice last.age

  -- The checks, of `prev` with its row, and of `recent`, the payload for the counters.
  unfoldable pub all_checks : Baselines → Option Row → Snapshot → Snapshot → Snapshot → List Finding
  all_checks b row prev recent cur =
      check_mounts lower config prev cur
      ++ (check_devices print prev cur
          ++ (check_raid print prev cur
              ++ (check_growth lower config print row cur
                  ++ (check_additions lower config print prev cur
                      ++ (check_counters print recent cur
                          ++ (check_kernel lower (or_row b.prev_recent b.prev_day) cur
                              ++ (check_burst lower config print b.prev_recent cur
                                  ++ (check_df_errors cur
                                      ++ check_inode lower config print cur))))))))
    where
      or_row : Option Row → Option Row → Option Row
      or_row none other = other
      or_row (some row) other = some row

  unfoldable pub compare_snapshots :
      Baselines → Option Snapshot → Option Snapshot → Snapshot → List Finding
  compare_snapshots b none none cur = without_baseline b.last_any cur
  compare_snapshots b none (some recent) cur =
      sort_findings (all_checks b b.prev_recent recent recent cur)
  compare_snapshots b (some day) none cur = sort_findings (all_checks b b.prev_day day day cur)
  compare_snapshots b (some day) (some recent) cur =
      sort_findings (all_checks b b.prev_day day recent cur)

  -- `compare_disk`; the reason of a failure can be empty.
  unfoldable pub compare_disk : Baselines → Option Snapshot → String → List Finding
  compare_disk b none error =
      finding info "磁盘检查" ("本次未做磁盘比对：" <> (if error == "" then "未能采集磁盘明细" else error) <> "。") none
      ∷ []
  compare_disk b (some cur) error =
      compare_snapshots b (payload_of b.prev_day) (payload_of b.prev_recent) cur
