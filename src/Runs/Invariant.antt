-- ===== src/Runs/Invariant.antt =====
-- What holds of the queue after any calls of its operations.
use ops_inspection_system.Common.{
  ℕ, ◌+◌, ◌≤◌, ◌<◌, String, Bool, true, Option, List, [], ◌∷◌, ◌≡◌, refl, sym, subst, arith, All,
  All-map, All-append, All-update_hit, All-All, update_where, Bool-cases, Option-cases, inl, inr,
  find, ltb,
}
use ops_inspection_system.Runs.{
  Run, Queue, NewRun, init, fresh_row, clashes, create_inspection_run, claim_next_inspection_run,
  start, is_running, interrupted, requeue, exhausted, give_up, recover_interrupted_inspection_runs,
  update_inspection_run_progress, finish_inspection_run, retry_or_fail_inspection_run, has_run_id,
  retry_later, fail, claimable,
}
use ops_inspection_system.Runs.Table.{
  Ascending, Ascending-append, Ascending-update_where, unique_id, Distinct, Distinct-append,
  Distinct-update_where,
}
use ops_inspection_system.Runs.Claim.{claim_lem, chosen}

-- A row never counts more attempts than its limit, and a running row counts at least one.
pub record IsSane (r : Run) : Type 0 where
  pub bounded : r.attempts ≤ r.max_attempts
  pub percent : r.progress ≤ 100
  pub begun : is_running r.status ≡ true → 1 ≤ r.attempts

-- Ids ascend, no run id and no dedupe key stands twice, and every row is sane.
pub record IsValid (q : Queue) : Type 0 where
  pub ids : Ascending 0 q.rows q.next_id
  pub distinct : Distinct q.rows
  pub sane : All IsSane q.rows

pub IsValid-init : IsValid init
IsValid-init = record { ids = omega arith; distinct = tt; sane = tt }

-- An update that leaves the key columns alone and the rows sane.
IsValid-update_where :
    (p : Run → Bool) (f : Run → Run) (q : Queue)
    → ((r : Run)
        → ((f r).id ≡ r.id) × ((f r).run_id ≡ r.run_id) × ((f r).dedupe_key ≡ r.dedupe_key))
    → All (λ r. p r ≡ true → IsSane r → IsSane (f r)) q.rows
    → IsValid q
    → IsValid (record q { rows = update_where p f q.rows })
IsValid-update_where p f q same keeps v = record {
  ids = Ascending-update_where p f 0 q.rows q.next_id (λ r. (same r).0) v.ids;
  distinct = Distinct-update_where p f q.rows (λ r. ((same r).1, (same r).2)) v.distinct;
  sane = All-update_hit IsSane p f q.rows keeps v.sane;
}

-- The operations of the queue.
pub data Call : Type 0 where
  create : NewRun → Call
  claim recover : Call
  progress : String → String → ℕ → Option String → Call
  finish : String → Option String → Call
  retry : String → String → ℕ → Call

-- A call at a time of the clock.
unfoldable pub call : ℕ → Call → Queue → Queue
call now (create n) q = (create_inspection_run now n q).0
call now claim q = (claim_next_inspection_run now q).0
call now recover q = (recover_interrupted_inspection_runs now q).0
call now (progress run_id message percent path) q =
    update_inspection_run_progress run_id message percent path q
call now (finish run_id path) q = finish_inspection_run now run_id path q
call now (retry run_id error delay) q = (retry_or_fail_inspection_run now run_id error delay q).0

unfoldable pub run_calls : Queue → List (ℕ × Call) → Queue
run_calls q [] = q
run_calls q ((now, c) ∷ rest) = run_calls (call now c q) rest

IsSane-fresh_row : (id now : ℕ) (n : NewRun) → IsSane (fresh_row id now n)
IsSane-fresh_row id now n = ground arith

IsSane-start :
    (now : ℕ) (r job : Run)
    → (r.id ≡ job.id → r ≡ job)
    → claimable now job ≡ true
    → chosen job r ≡ true
    → IsSane r
    → IsSane (start now r)
IsSane-start now r job same ready hit h =
    let e = same (ground arith) in
    let room : job.attempts < job.max_attempts = ground arith in
    record {
      bounded = subst (λ x. x.attempts + 1 ≤ x.max_attempts) (sym e) (omega arith);
      percent = h.percent;
      begun = λ _. omega arith;
    }

create-IsValid :
    (now : ℕ) (n : NewRun) (q : Queue) → IsValid q → IsValid (create_inspection_run now n q).0
unfolding create_inspection_run
create-IsValid now n q v = elim (Option-cases (find (clashes n) q.rows)) [
  | inl free ↦
      rw (free, create_inspection_run)
        (record {
          ids = Ascending-append 0 q.rows q.next_id (fresh_row q.next_id now n) refl v.ids;
          distinct = Distinct-append q.next_id now n q.rows free v.distinct;
          sane =
              All-append IsSane q.rows (fresh_row q.next_id now n ∷ []) v.sane
                (IsSane-fresh_row q.next_id now n, tt);
        })
  | inr (r, taken) ↦ rw (taken, create_inspection_run) v
]

claim-IsValid : (now : ℕ) (q : Queue) → IsValid q → IsValid (claim_next_inspection_run now q).0
claim-IsValid now q v = elim (claim_lem now q v.ids) [
  | inl (_, e) ↦ rw e v
  | inr (job, first, e) ↦ rw e (
      IsValid-update_where (chosen job) (start now) q (λ r. (refl, refl, refl))
        (All-map (λ r. r.id ≡ job.id → r ≡ job)
          (λ r. chosen job r ≡ true → IsSane r → IsSane (start now r))
          (λ r same hit h. IsSane-start now r job same first.ready hit h) q.rows
          (unique_id 0 q.rows q.next_id job v.ids first.listed))
        v)
]

recover-IsValid :
    (now : ℕ) (q : Queue) → IsValid q → IsValid (recover_interrupted_inspection_runs now q).0
unfolding recover_interrupted_inspection_runs
recover-IsValid now q v =
    IsValid-update_where exhausted (give_up now)
      (record q { rows = update_where interrupted (requeue now) q.rows }) (λ r. (refl, refl, refl))
      (All-All (λ r. exhausted r ≡ true → IsSane r → IsSane (give_up now r)) (λ r _ h. ground arith)
        _)
      (IsValid-update_where interrupted (requeue now) q (λ r. (refl, refl, refl))
        (All-All (λ r. interrupted r ≡ true → IsSane r → IsSane (requeue now r))
          (λ r _ h. ground arith) q.rows)
        v)

progress-IsValid :
    (run_id message : String) (percent : ℕ) (path : Option String) (q : Queue)
    → IsValid q
    → IsValid (update_inspection_run_progress run_id message percent path q)
unfolding update_inspection_run_progress
progress-IsValid run_id message percent path q v =
    IsValid-update_where (has_run_id run_id) _ q (λ r. (refl, refl, refl))
      (All-All _ (λ r _ h. record { bounded = h.bounded; percent = omega arith; begun = h.begun })
        q.rows)
      v

finish-IsValid :
    (now : ℕ) (run_id : String) (path : Option String) (q : Queue)
    → IsValid q
    → IsValid (finish_inspection_run now run_id path q)
unfolding finish_inspection_run
finish-IsValid now run_id path q v =
    IsValid-update_where (has_run_id run_id) _ q (λ r. (refl, refl, refl))
      (All-All _ (λ r _ h. record { bounded = h.bounded; percent = omega arith; begun = λ on. cc })
        q.rows)
      v

retry-IsValid :
    (now : ℕ) (run_id error : String) (delay : ℕ) (q : Queue)
    → IsValid q
    → IsValid (retry_or_fail_inspection_run now run_id error delay q).0
unfolding retry_or_fail_inspection_run
retry-IsValid now run_id error delay q v = elim (Option-cases (find (has_run_id run_id) q.rows)) [
  | inl gone ↦ rw (gone, retry_or_fail_inspection_run) v
  | inr (row, there) ↦ elim (Bool-cases (ltb row.attempts row.max_attempts)) [
    | inl again ↦
        rw (there, again, retry_or_fail_inspection_run)
          (IsValid-update_where (has_run_id run_id) (retry_later error (now + delay)) q
            (λ r. (refl, refl, refl))
            (All-All _
              (λ r _ h. record { bounded = h.bounded; percent = omega arith; begun = λ on. cc })
              q.rows)
            v)
    | inr over ↦
        rw (there, over, retry_or_fail_inspection_run)
          (IsValid-update_where (has_run_id run_id) (fail error now) q (λ r. (refl, refl, refl))
            (All-All _
              (λ r _ h. record { bounded = h.bounded; percent = omega arith; begun = λ on. cc })
              q.rows)
            v)
  ]
]

call-IsValid : (now : ℕ) (c : Call) (q : Queue) → IsValid q → IsValid (call now c q)
unfolding call
call-IsValid now (create n) q v = create-IsValid now n q v
call-IsValid now claim q v = claim-IsValid now q v
call-IsValid now recover q v = recover-IsValid now q v
call-IsValid now (progress run_id message percent path) q v =
    progress-IsValid run_id message percent path q v
call-IsValid now (finish run_id path) q v = finish-IsValid now run_id path q v
call-IsValid now (retry run_id error delay) q v = retry-IsValid now run_id error delay q v

-- From a valid queue, any calls at any times lead to a valid queue.
pub run_calls-IsValid :
    (q : Queue) (calls : List (ℕ × Call)) → IsValid q → IsValid (run_calls q calls)
unfolding run_calls
run_calls-IsValid q [] v = v
run_calls-IsValid q ((now, c) ∷ rest) v =
    run_calls-IsValid (call now c q) rest (call-IsValid now c q v)
