-- ===== src/Disk/Audit/Severity.antt =====
-- disk_audit.py: the severities of what `compare_disk` finds, their order, and the two groups that
-- `split_findings` makes of it.
use mathlib.Core.List.{Perm, perm_middle}
use mathlib.Core.List.Perm
use ops_inspection_system.Common.{
  ℕ, ◌*◌, String, true, false, Option, none, some, List, [], ◌∷◌, ◌++◌, ◌≡◌, refl, inl, inr, arith,
  ltb, ◌⊎◌, number_eq, Bool-cases, All, All-map, string_eq,
}
use ops_inspection_system.Resource.Order.Sorted.{sort-perm, IsAscending, sort-IsAscending, All-sort}
use ops_inspection_system.Disk.{
  Snapshot, Row, Config, Print, Finding, finding, is_alert, split_one, split_findings,
}
use ops_inspection_system.Disk.Signals.{payload_of}
use ops_inspection_system.Disk.Audit.{
  Baselines, rank, rank_leb, sort_findings, all_checks, without_baseline, stale_notice,
  compare_snapshots, compare_disk,
}
use ops_inspection_system.Disk.Audit.Known.{IsKnown, AreKnown, all_checks-AreKnown}

-- The first may stand before the second.
abbrev pub Precedes : Finding → Finding → Type 0
Precedes f g =
    (g.severity ≡ "severe" → f.severity ≡ "severe")
    × (g.severity ≡ "warn" → (f.severity ≡ "severe") ⊎ (f.severity ≡ "warn"))

-- Each finding may stand before all that come after it.
abbrev pub SeverestFirst : List Finding → Type 0
SeverestFirst [] = Unit
SeverestFirst (f ∷ fs) = All (Precedes f) fs × SeverestFirst fs

rank_leb-Precedes : (f g : Finding) → rank_leb f g ≡ true → Precedes f g
unfolding rank
rank_leb-Precedes f g h = (λ severe. ground arith, λ warn. ground arith)

ascending-SeverestFirst : (fs : List Finding) → IsAscending rank_leb fs → SeverestFirst fs
ascending-SeverestFirst [] h = tt
ascending-SeverestFirst (f ∷ fs) (h, hs) = (
  All-map (λ g. rank_leb f g ≡ true) (Precedes f) (rank_leb-Precedes f) fs h,
  ascending-SeverestFirst fs hs,
)

-- Sorting keeps the findings and puts the more severe ones first.
pub sort_findings_lem :
    (findings : List Finding)
    → Perm (sort_findings findings) findings × IsAscending rank_leb (sort_findings findings)
unfolding sort_findings
sort_findings_lem findings = (
  sort-perm rank_leb findings,
  sort-IsAscending rank_leb (λ f g h. ground arith) (λ f g k h i. ground arith) findings,
)

module _ (lower : String → String) (config : Config) (print : Print) where
  stale_notice-AreKnown : (age : Option ℕ) → AreKnown (stale_notice lower config print age)
  unfolding stale_notice finding
  stale_notice-AreKnown none = tt
  stale_notice-AreKnown (some age) = ground arith

  stale_notice-IsAscending :
      (age : Option ℕ) → IsAscending rank_leb (stale_notice lower config print age)
  unfolding stale_notice finding
  stale_notice-IsAscending none = tt
  stale_notice-IsAscending (some age) = ground arith

  without_baseline-AreKnown :
      (last : Option Row) (cur : Snapshot) → AreKnown (without_baseline lower config print last cur)
  unfolding without_baseline finding
  without_baseline-AreKnown none cur = (inr (inr refl), tt)
  without_baseline-AreKnown (some last) cur = stale_notice-AreKnown last.age

  without_baseline-IsAscending :
      (last : Option Row) (cur : Snapshot)
      → IsAscending rank_leb (without_baseline lower config print last cur)
  unfolding without_baseline
  without_baseline-IsAscending none cur = (tt, tt)
  without_baseline-IsAscending (some last) cur = stale_notice-IsAscending last.age

  sorted-AreKnown :
      (b : Baselines) (row : Option Row) (prev recent cur : Snapshot)
      → AreKnown (sort_findings (all_checks lower config print b row prev recent cur))
  unfolding sort_findings
  sorted-AreKnown b row prev recent cur =
      All-sort rank_leb IsKnown _ (all_checks-AreKnown lower config print b row prev recent cur)

  compare_snapshots-AreKnown :
      (b : Baselines) (day recent : Option Snapshot) (cur : Snapshot)
      → AreKnown (compare_snapshots lower config print b day recent cur)
  unfolding compare_snapshots
  compare_snapshots-AreKnown b none none cur = without_baseline-AreKnown b.last_any cur
  compare_snapshots-AreKnown b none (some r) cur = sorted-AreKnown b b.prev_recent r r cur
  compare_snapshots-AreKnown b (some d) none cur = sorted-AreKnown b b.prev_day d d cur
  compare_snapshots-AreKnown b (some d) (some r) cur = sorted-AreKnown b b.prev_day d r cur

  -- Every finding of an audit has one of the three severities.
  pub compare_disk-AreKnown :
      (b : Baselines) (current : Option Snapshot) (error : String)
      → All IsKnown (compare_disk lower config print b current error)
  unfolding compare_disk finding
  compare_disk-AreKnown b none error = (inr (inr refl), tt)
  compare_disk-AreKnown b (some cur) error = compare_snapshots-AreKnown b _ _ cur

  compare_snapshots-IsAscending :
      (b : Baselines) (day recent : Option Snapshot) (cur : Snapshot)
      → IsAscending rank_leb (compare_snapshots lower config print b day recent cur)
  unfolding compare_snapshots
  compare_snapshots-IsAscending b none none cur = without_baseline-IsAscending b.last_any cur
  compare_snapshots-IsAscending b none (some r) cur = (sort_findings_lem _).1
  compare_snapshots-IsAscending b (some d) none cur = (sort_findings_lem _).1
  compare_snapshots-IsAscending b (some d) (some r) cur = (sort_findings_lem _).1

  -- In what an audit finds, all that stands before a severe finding is severe, and all that stands
  -- before a warning is severe or a warning.
  pub compare_disk-SeverestFirst :
      (b : Baselines) (current : Option Snapshot) (error : String)
      → SeverestFirst (compare_disk lower config print b current error)
  unfolding compare_disk
  compare_disk-SeverestFirst b none error = (tt, tt)
  compare_disk-SeverestFirst b (some cur) error =
      ascending-SeverestFirst _ (compare_snapshots-IsAscending b _ _ cur)

  stale_notice-quiet :
      (age : Option ℕ) → (split_findings (stale_notice lower config print age)).0 ≡ []
  unfolding stale_notice split_findings finding string_eq
  stale_notice-quiet none = refl
  stale_notice-quiet (some age) = elim (Bool-cases (ltb (48 * 3600) age)) [
    | inl far ↦ rw far refl
    | inr near ↦ rw near refl
  ]

  -- Without a current snapshot, whatever the baselines are, or where neither the baseline of the day
  -- before nor the recent one can be read, an audit raises no alert.
  pub compare_disk_no_alert :
      (b : Baselines) (current : Option Snapshot) (error : String)
      → (current ≡ none) ⊎ ((payload_of b.prev_day ≡ none) × (payload_of b.prev_recent ≡ none))
      → (split_findings (compare_disk lower config print b current error)).0 ≡ []
  unfolding compare_disk compare_snapshots without_baseline split_findings finding string_eq
  compare_disk_no_alert b none error missing = refl
  compare_disk_no_alert b (some cur) error (inl missing) = absurd (cc)
  compare_disk_no_alert b (some cur) error (inr (day, recent)) = rw (day, recent) (quiet b.last_any)
    where
      quiet :
          (last : Option Row)
          → (split_findings (without_baseline lower config print last cur)).0 ≡ []
      quiet none = refl
      quiet (some last) = stale_notice-quiet last.age

split_one-perm :
    (f : Finding) (fs : List Finding) (p : List Finding × List Finding)
    → Perm (p.0 ++ p.1) fs
    → Perm ((split_one f p).0 ++ (split_one f p).1) (f ∷ fs)
split_one-perm f fs (alerts, notices) h = elim (Bool-cases (is_alert f)) [
  | inl yes_alert ↦ rw yes_alert (Perm.cons f h)
  | inr no_alert ↦ rw no_alert (Perm.trans (perm_middle alerts notices) (Perm.cons f h))
]

split_one-All :
    (f : Finding) (p : List Finding × List Finding)
    → All (λ g. is_alert g ≡ true) p.0 × All (λ g. is_alert g ≡ false) p.1
    → All (λ g. is_alert g ≡ true) (split_one f p).0
      × All (λ g. is_alert g ≡ false) (split_one f p).1
split_one-All f (alerts, notices) (h, k) = elim (Bool-cases (is_alert f)) [
  | inl yes_alert ↦ rw yes_alert ((yes_alert, h), k)
  | inr no_alert ↦ rw no_alert (h, (no_alert, k))
]

-- The two groups make up the findings: the first has the severe ones and the warnings, the second
-- the others.
pub split_findings_lem :
    (findings : List Finding)
    → Perm ((split_findings findings).0 ++ (split_findings findings).1) findings
      × All (λ g. is_alert g ≡ true) (split_findings findings).0
      × All (λ g. is_alert g ≡ false) (split_findings findings).1
unfolding split_findings
split_findings_lem [] = (Perm.rfl, tt, tt)
split_findings_lem (f ∷ fs) =
    let (same, alerts, notices) = split_findings_lem fs in
    let (h, k) = split_one-All f (split_findings fs) (alerts, notices) in
    (split_one-perm f fs (split_findings fs) same, h, k)
