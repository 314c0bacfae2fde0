-- ===== src/Disk/Audit/Known.antt =====
-- disk_audit.py: each check of `compare_disk` gives findings of one of the three severities.
use ops_inspection_system.Common.{
  ℕ, number_eq, String, Bool, Option, none, some, List, ◌≡◌, refl, inl, inr, arith, ◌⊎◌, ◌||◌, ◌==◌,
  ltb, get, Bool-cases, All, All-append, All-flat_map, All-mapped, take, string_eq,
}
use ops_inspection_system.Resource.Order.{sort}
use ops_inspection_system.Disk.{
  Mount, Device, Array, Filesystem, Snapshot, Row, Config, Print, Finding, finding, mount_map,
  filesystem_map, device_map,
}
use ops_inspection_system.Disk.Structure.{
  mount_gone, check_mount, check_mounts, check_devices, device_lost, compare_size, check_size,
  is_comparable, rebuild_notice, check_array, check_raid, mount_added, device_added,
  check_additions,
}
use ops_inspection_system.Disk.Signals.{
  counter_grew, check_state, ioerr_of, timeout_of, state_of, check_device_counters, check_fs_errors,
  check_counters, kernel_severity, kernel_finding, check_kernel, key_leb, check_df_errors,
  inode_finding, check_inode,
}
use ops_inspection_system.Disk.Space.{
  growing, growth_of, shrink_finding, age_of, used_of, filesystems_of, growth_step, check_growth,
  burst_step, check_burst,
}
use ops_inspection_system.Disk.Audit.{Baselines, all_checks}

-- One of the three severities.
abbrev pub IsKnown : Finding → Type 0
IsKnown f = (f.severity ≡ "severe") ⊎ ((f.severity ≡ "warn") ⊎ (f.severity ≡ "info"))

abbrev pub AreKnown : List Finding → Type 0
AreKnown = All IsKnown

mount_gone-IsKnown :
    (lower : String → String) (devices : List Device) (mount : String) (old : Mount)
    → IsKnown (mount_gone lower devices mount old)
unfolding mount_gone finding
mount_gone-IsKnown lower devices mount old = ground arith

check_mount-AreKnown :
    (lower : String → String) (devices : List Device) (mount : String) (old : Mount)
    (new : Option Mount)
    → AreKnown (check_mount lower devices mount old new)
unfolding check_mount finding
check_mount-AreKnown lower devices mount old none = (mount_gone-IsKnown lower devices mount old, tt)
check_mount-AreKnown lower devices mount old (some new) = ground arith

compare_size-AreKnown :
    (print : Print) (name : String) (old new : ℕ) → AreKnown (compare_size print name old new)
unfolding compare_size finding
compare_size-AreKnown print name old new = ground arith

check_size-AreKnown :
    (print : Print) (name : String) (old : Device) (new : Option Device)
    → AreKnown (check_size print name old new)
unfolding check_size
check_size-AreKnown print name old none = tt
check_size-AreKnown print name old (some new) =
    ground (arith, compare_size-AreKnown print name old.size_kb new.size_kb)

check_devices-AreKnown :
    (print : Print) (prev cur : Snapshot) → AreKnown (check_devices print prev cur)
unfolding check_devices device_lost finding
check_devices-AreKnown print prev cur = elim (Bool-cases (is_comparable prev cur)) [
  | inl yes_like ↦
      rw (yes_like, check_devices)
        (All-append IsKnown _ _ (All-flat_map IsKnown _ (device_map prev) (λ e. ground arith)) (
          All-flat_map IsKnown _ (device_map prev)
            (λ e. check_size-AreKnown print e.0 e.1 (get (device_map cur) e.0))))
  | inr no_like ↦ rw (no_like, check_devices) tt
]

check_array-AreKnown :
    (print : Print) (name : String) (array : Array) (old : Option Array)
    → AreKnown (check_array print name array old)
unfolding check_array rebuild_notice finding
check_array-AreKnown print name array old =
    All-append IsKnown _ _ (ground arith) (notice name array.rebuilding)
  where
    notice : (name : String) (r : Option (String × String)) → AreKnown (rebuild_notice name r)
    notice name none = tt
    notice name (some r) = (inr (inr refl), tt)

check_raid-AreKnown : (print : Print) (prev cur : Snapshot) → AreKnown (check_raid print prev cur)
unfolding check_raid finding
check_raid-AreKnown print prev cur =
    All-append IsKnown _ _
      (All-flat_map IsKnown _ cur.raid
        (λ e. check_array-AreKnown print e.0 e.1 (get prev.raid e.0)))
      (All-flat_map IsKnown _ prev.raid (λ e. ground arith))

mount_added-AreKnown :
    (print : Print) (fresh : List Device) (mount : String) (entry : Option Mount)
    → AreKnown (mount_added print fresh mount entry)
unfolding mount_added finding
mount_added-AreKnown print fresh mount none = tt
mount_added-AreKnown print fresh mount (some entry) = (inr (inr refl), tt)

check_additions-AreKnown :
    (lower : String → String) (config : Config) (print : Print) (prev cur : Snapshot)
    → AreKnown (check_additions lower config print prev cur)
unfolding check_additions device_added finding
check_additions-AreKnown lower config print prev cur =
    All-append IsKnown _ _
      (All-flat_map IsKnown _ _
        (λ mount. mount_added-AreKnown print _ mount (get (mount_map lower config cur) mount)))
      (All-mapped IsKnown (device_added print) _ (λ d. inr (inr refl)))

counter_grew-AreKnown :
    (print : Print) (name label : String) (before after : Option ℕ)
    → AreKnown (counter_grew print name label before after)
unfolding counter_grew finding
counter_grew-AreKnown print name label none after = tt
counter_grew-AreKnown print name label (some before) none = tt
counter_grew-AreKnown print name label (some before) (some after) = ground arith

check_state-AreKnown : (name old state : String) → AreKnown (check_state name old state)
unfolding check_state finding
check_state-AreKnown name old state = ground arith

check_device_counters-AreKnown :
    (print : Print) (d : Device) (old : Option Device)
    → AreKnown (check_device_counters print d old)
unfolding check_device_counters
check_device_counters-AreKnown print d old =
    All-append IsKnown _ _ (counter_grew-AreKnown print d.name "I/O 错误计数" (ioerr_of old) d.ioerr) (
      All-append IsKnown _ _
        (counter_grew-AreKnown print d.name "I/O 超时计数" (timeout_of old) d.timeout)
        (check_state-AreKnown d.name (state_of old) d.state))

check_counters-AreKnown :
    (print : Print) (prev cur : Snapshot) → AreKnown (check_counters print prev cur)
unfolding check_counters check_fs_errors finding
check_counters-AreKnown print prev cur =
    All-append IsKnown _ _
      (All-flat_map IsKnown _ cur.devices
        (λ d. check_device_counters-AreKnown print d (get (device_map prev) d.name)))
      (All-flat_map IsKnown _ cur.fs_errors (λ e. grew e.0 (get prev.fs_errors e.0) e.1))
  where
    grew :
        (name : String) (before : Option ℕ) (after : ℕ)
        → AreKnown (check_fs_errors print name before after)
    grew name none after = tt
    grew name (some before) after = ground arith

kernel_finding-IsKnown :
    (lower : String → String) (suffix : String) (line : ℕ × String)
    → IsKnown (kernel_finding lower suffix line)
unfolding kernel_finding kernel_severity finding
kernel_finding-IsKnown lower suffix (t, text) = ground arith

check_kernel-AreKnown :
    (lower : String → String) (prev : Option Row) (cur : Snapshot)
    → AreKnown (check_kernel lower prev cur)
unfolding check_kernel
check_kernel-AreKnown lower prev cur =
    All-mapped IsKnown (kernel_finding lower _) _ (kernel_finding-IsKnown lower _)

check_df_errors-AreKnown : (cur : Snapshot) → AreKnown (check_df_errors cur)
unfolding check_df_errors finding
check_df_errors-AreKnown cur = All-mapped IsKnown _ (take 3 cur.df_errors) (λ line. inl refl)

inode_finding-AreKnown :
    (config : Config) (print : Print) (visible : Bool) (mount : String) (usage : Option ℕ)
    → AreKnown (inode_finding config print visible mount usage)
unfolding inode_finding finding
inode_finding-AreKnown config print visible mount none = tt
inode_finding-AreKnown config print visible mount (some usage) = ground arith

check_inode-AreKnown :
    (lower : String → String) (config : Config) (print : Print) (cur : Snapshot)
    → AreKnown (check_inode lower config print cur)
unfolding check_inode
check_inode-AreKnown lower config print cur =
    All-flat_map IsKnown _ (sort key_leb cur.inodes)
      (λ e. inode_finding-AreKnown config print _ e.0 e.1)

growth_step-AreKnown :
    (config : Config) (print : Print) (seconds : ℕ) (mount : String) (before used : Option ℕ)
    (now : Filesystem)
    → AreKnown (growth_step config print seconds mount before used now)
unfolding growth_step growth_of growing shrink_finding finding
growth_step-AreKnown config print seconds mount none used now = tt
growth_step-AreKnown config print seconds mount (some before) none now = tt
growth_step-AreKnown config print seconds mount (some before) (some used) now = ground arith

check_growth-AreKnown :
    (lower : String → String) (config : Config) (print : Print) (row : Option Row) (cur : Snapshot)
    → AreKnown (check_growth lower config print row cur)
unfolding check_growth
check_growth-AreKnown lower config print none cur = tt
check_growth-AreKnown lower config print (some row) cur = elim (Bool-cases (age_of row == 0)) [
  | inl fresh ↦ rw fresh tt
  | inr old ↦ rw old (
      All-flat_map IsKnown _ (sort key_leb (filesystem_map lower config cur)) (λ e.
        growth_step-AreKnown config print (age_of row) e.0
          (used_of (get (filesystems_of lower config row.payload) e.0)) e.1.used_kb e.1))
]

burst_step-AreKnown :
    (config : Config) (print : Print) (seconds : ℕ) (mount : String) (before used : Option ℕ)
    → AreKnown (burst_step config print seconds mount before used)
unfolding burst_step finding
burst_step-AreKnown config print seconds mount none used = tt
burst_step-AreKnown config print seconds mount (some before) none = tt
burst_step-AreKnown config print seconds mount (some before) (some used) = ground arith

check_burst-AreKnown :
    (lower : String → String) (config : Config) (print : Print) (row : Option Row) (cur : Snapshot)
    → AreKnown (check_burst lower config print row cur)
unfolding check_burst
check_burst-AreKnown lower config print none cur = tt
check_burst-AreKnown lower config print (some row) cur =
    elim (Bool-cases (age_of row == 0 || ltb 21600 (age_of row))) [
      | inl far ↦ rw far tt
      | inr near ↦ rw near (
          All-flat_map IsKnown _ (sort key_leb (filesystem_map lower config cur)) (λ e.
            burst_step-AreKnown config print (age_of row) e.0
              (used_of (get (filesystems_of lower config row.payload) e.0)) e.1.used_kb))
    ]

module _ (lower : String → String) (config : Config) (print : Print) where
  pub all_checks-AreKnown :
      (b : Baselines) (row : Option Row) (prev recent cur : Snapshot)
      → AreKnown (all_checks lower config print b row prev recent cur)
  unfolding all_checks check_mounts
  all_checks-AreKnown b row prev recent cur =
      let and = All-append IsKnown in
      and _ _
        (All-flat_map IsKnown _ (mount_map lower config prev)
          (λ e. check_mount-AreKnown lower cur.devices e.0 e.1 _))
        (and _ _ (check_devices-AreKnown print prev cur) (
          and _ _ (check_raid-AreKnown print prev cur) (
            and _ _ (check_growth-AreKnown lower config print row cur) (
              and _ _ (check_additions-AreKnown lower config print prev cur) (
                and _ _ (check_counters-AreKnown print recent cur) (
                  and _ _ (check_kernel-AreKnown lower _ cur) (
                    and _ _ (check_burst-AreKnown lower config print b.prev_recent cur) (
                      and _ _ (check_df_errors-AreKnown cur)
                        (check_inode-AreKnown lower config print cur)))))))))
