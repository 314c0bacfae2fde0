-- ===== src/Disk/Store/Ages.antt =====
-- models.py: the snapshots that an audit compares to are as old as the limits say, and the newest such.
use ops_inspection_system.Common.{
  ℕ, ◌-◌, ◌≤◌, Bool, true, false, Option, none, some, List, [], ◌∷◌, ◌≡◌, refl, subst, sym, inl,
  inr, arith, ltb, number_eq, if◌then◌else◌, Bool-cases, All, All-map,
}
use ops_inspection_system.Disk.{Row}
use ops_inspection_system.Disk.Store.{
  SnapshotRow, decode_disk_snapshot, later, newest, in_window, get_disk_baselines,
}

-- What a query for the newest row gives: a row that passes the test and that none which passes is
-- newer than; or nothing, where none passes.
abbrev IsNewest : (SnapshotRow → Bool) → List SnapshotRow → Option SnapshotRow → Type 0
IsNewest test rows none = All (λ r. test r ≡ false) rows
IsNewest test rows (some best) =
    (test best ≡ true) × All (λ r. test r ≡ true → r.collected_at ≤ best.collected_at) rows

newest-IsNewest :
    (test : SnapshotRow → Bool) (rows : List SnapshotRow) → IsNewest test rows (newest test rows)
unfolding newest
newest-IsNewest test [] = tt
newest-IsNewest test (r ∷ rows) = step (newest test rows) (newest-IsNewest test rows) (test r) refl
  where
    step :
        (best : Option SnapshotRow)
        → IsNewest test rows best
        → (b : Bool) → test r ≡ b
        → IsNewest test (r ∷ rows) (if b then some (later r best) else best)
    step none h true e = (
      e,
      (
        (λ _. omega arith),
        All-map (λ x. test x ≡ false) (λ x. test x ≡ true → x.collected_at ≤ r.collected_at)
            (λ x miss hit. absurd (cc (miss, hit))) rows h,
      ),
    )
    step none h false e = (e, h)
    step (some best) (fits, h) true e = elim (Bool-cases (ltb r.collected_at best.collected_at)) [
      | inl older ↦
          let kept : later r (some best) ≡ best = ground arith in
          subst (λ z. IsNewest test (r ∷ rows) (some z)) (sym kept) (fits, ((λ _. ground arith), h))
      | inr newer ↦
          let taken : later r (some best) ≡ r = ground arith in
          let below =
            All-map (λ x. test x ≡ true → x.collected_at ≤ best.collected_at)
              (λ x. test x ≡ true → x.collected_at ≤ r.collected_at)
              (λ x g hit. let here = g hit in ground arith) rows h in
          subst (λ z. IsNewest test (r ∷ rows) (some z)) (sym taken)
            (e, ((λ _. omega arith), below))
    ]
    step (some best) (fits, h) false e = (fits, ((λ hit. absurd (cc (e, hit))), h))

-- The age of a snapshot, where there is one, lies between the limits.
abbrev pub AgeWithin : ℕ → ℕ → Option Row → Type 0
AgeWithin low high none = Unit
AgeWithin low high (some row) = (age : ℕ) × (row.age ≡ some age) × (low ≤ age) × (age ≤ high)

window-AgeWithin :
    (server_id now low high : ℕ) (rows : List SnapshotRow)
    → low ≤ now
    → AgeWithin low high
        (decode_disk_snapshot now (newest (in_window server_id (now - high) (now - low)) rows))
unfolding decode_disk_snapshot
window-AgeWithin server_id now low high rows old =
    within _ (newest-IsNewest (in_window server_id (now - high) (now - low)) rows)
  where
    within :
        (o : Option SnapshotRow)
        → IsNewest (in_window server_id (now - high) (now - low)) rows o
        → AgeWithin low high (decode_disk_snapshot now o)
    within none h = tt
    within (some r) (fits, h) = (now - r.collected_at, refl, ground arith, ground arith)

-- The snapshot of the day before is at least as old as the one limit and at most as old as the other,
-- and so is the recent one with its own limit.
pub get_disk_baselines-AgeWithin :
    (server_id now min_age max_age recent_age : ℕ) (rows : List SnapshotRow)
    → min_age ≤ now
    → recent_age ≤ now
    → AgeWithin min_age max_age
        (get_disk_baselines server_id now min_age max_age recent_age rows).prev_day
      × AgeWithin recent_age max_age
          (get_disk_baselines server_id now min_age max_age recent_age rows).prev_recent
unfolding get_disk_baselines
get_disk_baselines-AgeWithin server_id now min_age max_age recent_age rows day recent = (
  window-AgeWithin server_id now min_age max_age rows day,
  window-AgeWithin server_id now recent_age max_age rows recent,
)
