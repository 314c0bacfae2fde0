-- ===== src/Runs/Worker.antt =====
-- app.py: one turn of `queue_worker_loop`, and `enqueue_inspection` and `dispatch_scheduled_tasks` of
-- the scheduler. What `run_inspection` does to a server is a parameter: only its outcome counts here.
-- A schedule time is the minute of the day that its text names.
use ops_inspection_system.Common.{
  ℕ, ◌+◌, ◌<◌, ◌≤◌, String, true, Option, none, some, ◌≡◌, ◌⊎◌, refl, arith, ◌==◌, string_eq,
  number_eq, if◌then◌else◌, find-update_hit, Bool-cases, inl, inr, ltb, option_eq,
}
use ops_inspection_system.Runs.{
  Run, Queue, success, failed, claimable, claim_next_inspection_run, finish_inspection_run,
  retry_or_fail_inspection_run, get_inspection_run, has_run_id, retry_later, fail,
}

-- What comes of `run_inspection`: the path of the report, the error that it returns, or an exception.
pub data Ran : Type 0 where
  succeeded : Option String → Ran
  unsuccessful raised : String → Ran

-- The calls after `run_inspection`.
unfoldable pub conclude : ℕ → ℕ → String → Ran → Queue → Queue
conclude now delay run_id (succeeded path) q = finish_inspection_run now run_id path q
conclude now delay run_id (unsuccessful error) q =
    (retry_or_fail_inspection_run now run_id (if error == "" then "报告生成失败" else error) delay q).0
conclude now delay run_id (raised error) q =
    (retry_or_fail_inspection_run now run_id error delay q).0

-- One turn of the loop that no other worker gets into: a claim at `now`, its end at `later`.
unfoldable pub work_once : (Run → Ran) → ℕ → ℕ → ℕ → Queue → Queue
work_once run now later delay q =
    let (q₁, claimed) = claim_next_inspection_run now q in
    elim claimed [ none ↦ q₁ | some job ↦ conclude later delay job.run_id (run job) q₁ ]

-- The row of a run whose work has ended: it has succeeded with its report; or it waits for its next
-- try, which may be claimed when the delay is over; or it has failed, and no attempt is left.
abbrev pub Settled : ℕ → ℕ → Ran → Run → Run → Type 0
Settled now delay (succeeded path) row r = (r.status ≡ success) × (r.report_path ≡ path)
Settled now delay _ row r =
    ((row.attempts < row.max_attempts) × (claimable (now + delay) r ≡ true))
    ⊎ ((row.max_attempts ≤ row.attempts) × (r.status ≡ failed))

retry-Settled :
    (now delay : ℕ) (run_id error : String) (q : Queue) (row : Run)
    → get_inspection_run run_id q ≡ some row
    → (r : Run) × (get_inspection_run run_id
          (retry_or_fail_inspection_run now run_id error delay q).0
        ≡ some r)
      × (r.attempts ≡ row.attempts)
      × (((row.attempts < row.max_attempts) × (claimable (now + delay) r ≡ true))
          ⊎ ((row.max_attempts ≤ row.attempts) × (r.status ≡ failed)))
unfolding get_inspection_run retry_or_fail_inspection_run
retry-Settled now delay run_id error q row there =
    elim (Bool-cases (ltb row.attempts row.max_attempts)) [
      | inl again ↦ (
        retry_later error (now + delay) row,
        ground (
          arith,
          there,
          find-update_hit (has_run_id run_id) (retry_later error (now + delay)) q.rows row
              (λ r. refl) there,
        ),
        refl,
        inl (ground arith, ground arith),
      )
      | inr over ↦ (
        fail error now row,
        ground (
          arith,
          there,
          find-update_hit (has_run_id run_id) (fail error now) q.rows row (λ r. refl) there,
        ),
        refl,
        inr (ground arith, refl),
      )
    ]

-- When the work on a run ends, its row is settled in the sense of `Settled` and has the attempts that
-- it had, whatever other workers did to the queue since the claim.
pub conclude_lem :
    (now delay : ℕ) (run_id : String) (ran : Ran) (q : Queue) (row : Run)
    → get_inspection_run run_id q ≡ some row
    → (r : Run) × (get_inspection_run run_id (conclude now delay run_id ran q) ≡ some r)
      × (r.attempts ≡ row.attempts)
      × Settled now delay ran row r
unfolding conclude get_inspection_run finish_inspection_run
conclude_lem now delay run_id (succeeded path) q row there =
    (_, find-update_hit (has_run_id run_id) _ q.rows row (λ r. refl) there, refl, (refl, refl))
conclude_lem now delay run_id (unsuccessful error) q row there =
    retry-Settled now delay run_id (if error == "" then "报告生成失败" else error) q row there
conclude_lem now delay run_id (raised error) q row there =
    retry-Settled now delay run_id error q row there
