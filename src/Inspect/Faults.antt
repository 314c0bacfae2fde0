-- ===== src/Inspect/Faults.antt =====
-- app.py: an accepted configuration hides findings about the structure only.
use ops_inspection_system.Common.{
  ℕ, String, Bool, true, false, Option, none, some, List, [], ◌∷◌, ◌++◌, ◌≡◌, refl, subst, ◌∙◌, inl,
  inr, arith, ◌&&◌, ◌==◌, not, any, All, contains, select, string_eq, Bool-cases,
}
use ops_inspection_system.Resource.{Payload, Hardware}
use ops_inspection_system.Resource.Evaluate.{Result}
use ops_inspection_system.Disk.{Snapshot, Config, Print, Finding}
use ops_inspection_system.Disk.Audit.{compare_disk}
use ops_inspection_system.Disk.Store.{get_disk_baselines}
use ops_inspection_system.Inspect.{
  AgeLimits, Tables, Mishap, no_mishap, at_baselines, at_evaluation, at_saving, check_failed,
  unsaved, audit_found, audit_missing, is_structural, is_accepted, keep_findings, audit_snapshot,
  audit_server_disk,
}

-- The categories of faults, which a person cannot accept: the disks' and arrays' state, read-only file
-- systems, errors of file systems and in the kernel's log, inodes and the growth of what is used.
abbrev pub fault_categories : List String
fault_categories =
    "磁盘只读" ∷ "磁盘阵列降级" ∷ "文件系统错误" ∷ "文件系统异常" ∷ "磁盘I/O错误" ∷ "磁盘状态异常" ∷ "内核磁盘错误" ∷ "inode使用率过高"
    ∷ "磁盘增长异常" ∷ "磁盘容量突降" ∷ "磁盘即将写满" ∷ "磁盘短时突增" ∷ []

-- A finding of such a category that passes the test.
abbrev pub is_fault : (Finding → Bool) → Finding → Bool
is_fault test f = contains fault_categories f.category && test f

-- The exception, if any, comes after the findings are in the report.
abbrev pub is_told : Mishap → Bool
is_told no_mishap = true
is_told at_saving = true
is_told _ = false

contains-excludes :
    (xs ys : List String) (c : String)
    → All (λ x. contains ys x ≡ false) xs
    → contains xs c ≡ true
    → contains ys c ≡ false
unfolding contains
contains-excludes [] ys c h there = absurd (cc)
contains-excludes (x ∷ xs) ys c (h, hs) there = elim (Bool-cases (c == x)) [
  | inl same ↦ let found : x ≡ c = ground arith in subst (λ k. contains ys k ≡ false) found h
  | inr other ↦ contains-excludes xs ys c hs (ground arith)
]

faults_stay :
    All
      (λ (x : String). contains ("磁盘变更" ∷ "磁盘容量异常" ∷ "磁盘掉盘" ∷ "磁盘未挂载" ∷ "磁盘消失" ∷ []) x ≡ false)
      fault_categories
unfolding contains string_eq
faults_stay = (
  refl,
  (refl, (refl, (refl, (refl, (refl, (refl, (refl, (refl, (refl, (refl, (refl, tt))))))))))),
)

fault-not_structural :
    (f : Finding) → contains fault_categories f.category ≡ true → is_structural f ≡ false
fault-not_structural f h = contains-excludes fault_categories _ f.category faults_stay h

any-select :
    (test : Finding → Bool) (fs : List Finding)
    → any (is_fault test) (select (λ f. not (is_structural f)) fs) ≡ any (is_fault test) fs
any-select test [] = refl
any-select test (f ∷ fs) = elim (Bool-cases (contains fault_categories f.category)) [
  | inl fault ↦ simp (fault-not_structural f fault, fault, any-select test fs) refl
  | inr other ↦ elim (Bool-cases (is_structural f)) [
    | inl dropped ↦ simp (dropped, other, any-select test fs) refl
    | inr kept ↦ simp (kept, other, any-select test fs) refl
  ]
]

keep_findings-any :
    (test : Finding → Bool) (result : Result) (fs : List Finding)
    → any (is_fault test) (keep_findings result fs) ≡ any (is_fault test) fs
unfolding keep_findings
keep_findings-any test result fs = elim (Bool-cases (is_accepted result)) [
  | inl accepted ↦ rw accepted (any-select test fs)
  | inr open_question ↦ rw open_question refl
]

notice_is_no_fault : contains fault_categories check_failed.category ≡ false
unfolding contains string_eq
notice_is_no_fault = refl

any-check_failed :
    (test : Finding → Bool) (fs : List Finding)
    → any (is_fault test) (fs ++ check_failed ∷ []) ≡ any (is_fault test) fs
any-check_failed test [] = simp notice_is_no_fault refl
any-check_failed test (f ∷ fs) = simp (any-check_failed test fs) refl

module _ (lower : String → String) (config : Config) (print : Print) (one_decimal : ℕ → ℕ → String)
    (dump : Payload → String) (sha256_hex : String → String) (day : ℕ → String)
    (limits : AgeLimits) where
  -- The findings of a fault category that the comparison with the stored snapshots gives are those that
  -- the report of a server has, whatever configuration is confirmed or planned, also where the snapshot
  -- cannot be saved. Excepted are exceptions before the findings are in the report.
  pub audit_server_disk_faults :
      (test : Finding → Bool) (mishap : Mishap) (now server_id : ℕ) (hardware : Option Hardware)
      (inventory : Option Snapshot) (error : String) (t : Tables)
      → is_told mishap ≡ true
      → any
          (is_fault test)
          (audit_server_disk lower config print one_decimal dump sha256_hex day limits mishap now
            server_id hardware inventory error t).1.disk_findings
        ≡ any (is_fault test) (
            compare_disk lower config print
              (get_disk_baselines server_id now limits.min_age limits.max_age limits.recent_age
                t.snapshots)
              inventory
              error)
  unfolding audit_server_disk audit_found audit_missing audit_snapshot unsaved
  audit_server_disk_faults test no_mishap now server_id hardware none error t told = refl
  audit_server_disk_faults test at_saving now server_id hardware none error t told = refl
  audit_server_disk_faults test no_mishap now server_id hardware (some s) error t told =
      keep_findings-any test _ _
  audit_server_disk_faults test at_saving now server_id hardware (some s) error t told =
      any-check_failed test _ ∙ keep_findings-any test _ _
  audit_server_disk_faults test at_baselines now server_id hardware inventory error t told =
      absurd (cc)
  audit_server_disk_faults test (at_evaluation left) now server_id hardware inventory error t told =
      absurd (cc)
