-- ===== src/Disk/Audit/Lost.antt =====
-- disk_audit.py: a data mount point that is no longer there is reported.
use ops_inspection_system.Common.{
  String, Bool, true, false, Option, none, some, List, [], ◌∷◌, ◌≡◌, refl, arith, ◌&&◌, ◌==◌, any,
  get, string_eq, option_eq, if◌then◌else◌, select, All, any-append_left,
}
use ops_inspection_system.Resource.{is_visible}
use ops_inspection_system.Resource.Order.Sorted.{any-sort}
use ops_inspection_system.Disk.{
  Mount, Device, Snapshot, Row, Config, Print, Finding, severe, finding, mount_map,
}
use ops_inspection_system.Disk.Maps.{keyed-keys, get-keys, any-flat_map-get}
use ops_inspection_system.Disk.Structure.{mount_gone, check_mount, check_mounts}
use ops_inspection_system.Disk.Signals.{payload_of}
use ops_inspection_system.Disk.Audit.{
  Baselines, sort_findings, all_checks, compare_snapshots, compare_disk,
}

-- The snapshot that the mount points are compared to.
abbrev pub compared_to : Baselines → Option Snapshot
compared_to b = elim (payload_of b.prev_day) [ none ↦ payload_of b.prev_recent | some s ↦ some s ]

-- A severe finding at the mount point.
abbrev pub reports : String → Finding → Bool
reports mount f = f.severity == severe && f.mount == some mount

check_mount-gone :
    (lower : String → String) (devices : List Device) (mount : String) (old : Mount)
    → (mount == "") ≡ false
    → any (reports mount) (check_mount lower devices mount old none) ≡ true
unfolding check_mount mount_gone finding
check_mount-gone lower devices mount old named = ground arith

select-named :
    (test : Mount → Bool) (ms : List Mount)
    → ((m : Mount) → test m ≡ true → (m.mount == "") ≡ false)
    → All (λ m. (m.mount == "") ≡ false) (select test ms)
select-named test [] h = tt
select-named test (m ∷ ms) h =
    elim (test m)
        as (λ b.
          test m ≡ b
          → All (λ m. (m.mount == "") ≡ false) (if b then m ∷ select test ms else select test ms)) [
            | true ↦ λ yes_test. (h m yes_test, select-named test ms h)
            | false ↦ λ _. select-named test ms h
          ]
      refl

module _ (lower : String → String) (config : Config) (print : Print) where
  -- A visible mount point has a name.
  mount_map-named :
      (s : Snapshot) (mount : String) (m : Mount)
      → get (mount_map lower config s) mount ≡ some m
      → (mount == "") ≡ false
  unfolding mount_map is_visible
  mount_map-named s mount m found =
      get-keys (λ k. (k == "") ≡ false) (mount_map lower config s) mount m found
        (keyed-keys (λ k. (k == "") ≡ false) (λ (item : Mount). item.mount) _ []
          (select-named _ s.mounts (λ m h. ground arith)) tt)

  all_checks-lost :
      (b : Baselines) (row : Option Row) (prev recent cur : Snapshot) (mount : String) (old : Mount)
      → get (mount_map lower config prev) mount ≡ some old
      → get (mount_map lower config cur) mount ≡ none
      → any (reports mount) (sort_findings (all_checks lower config print b row prev recent cur))
        ≡ true
  unfolding all_checks check_mounts sort_findings
  all_checks-lost b row prev recent cur mount old before after =
      let here = any-flat_map-get (reports mount) _ (mount_map lower config prev) mount old before (
        rw after
          (check_mount-gone lower cur.devices mount old (mount_map-named prev mount old before))) in
      rw any-sort (any-append_left (reports mount) _ _ here)

  compare_snapshots-lost :
      (b : Baselines) (day recent : Option Snapshot) (prev cur : Snapshot) (mount : String)
      (old : Mount)
      → (elim day [ none ↦ recent | some s ↦ some s ]) ≡ some prev
      → get (mount_map lower config prev) mount ≡ some old
      → get (mount_map lower config cur) mount ≡ none
      → any (reports mount) (compare_snapshots lower config print b day recent cur) ≡ true
  unfolding compare_snapshots
  compare_snapshots-lost b none none prev cur mount old h before after = absurd (ground arith)
  compare_snapshots-lost b none (some r) prev cur mount old h before after =
      all_checks-lost b b.prev_recent r r cur mount old (ground arith) after
  compare_snapshots-lost b (some d) none prev cur mount old h before after =
      all_checks-lost b b.prev_day d d cur mount old (ground arith) after
  compare_snapshots-lost b (some d) (some r) prev cur mount old h before after =
      all_checks-lost b b.prev_day d r cur mount old (ground arith) after

  -- Where the snapshot that is compared to has a visible mount point that the new one lacks, the audit
  -- has a severe finding at it.
  pub compare_disk_lost_mount :
      (b : Baselines) (prev cur : Snapshot) (error mount : String) (old : Mount)
      → compared_to b ≡ some prev
      → get (mount_map lower config prev) mount ≡ some old
      → get (mount_map lower config cur) mount ≡ none
      → any (reports mount) (compare_disk lower config print b (some cur) error) ≡ true
  unfolding compare_disk
  compare_disk_lost_mount b prev cur error mount old against before after =
      compare_snapshots-lost b (payload_of b.prev_day) (payload_of b.prev_recent) prev cur mount old
        against before after
