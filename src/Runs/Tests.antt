-- ===== src/Runs/Tests.antt =====
-- Runs: tests and instances.
use ops_inspection_system.Common.{
  ℕ, String, true, false, Option, none, some, List, [], ◌∷◌, ◌≡◌, ◌⊎◌, refl, All, update_where,
  count, find, string_eq, number_eq,
}
use ops_inspection_system.Runs.{
  Run, Queue, NewRun, init, update_inspection_run_progress, create_inspection_run, claimable,
  first_claimable, claim_next_inspection_run, start, recover_interrupted_inspection_runs,
}
use ops_inspection_system.Runs.{
  Status, success, failed, queued, fresh_row, get_inspection_run, finish_inspection_run,
  retry_or_fail_inspection_run,
}
use ops_inspection_system.Runs.Worker.{
  succeeded, raised, conclude, work_once, Settled, conclude_lem,
}
use ops_inspection_system.Runs.Table.{Ascending}
use ops_inspection_system.Runs.Claim.{IsFirst, chosen, taken, claim_lem}
use ops_inspection_system.Runs.Invariant.{
  IsValid, IsValid-init, Call, create, claim, recover, progress, call, run_calls, run_calls-IsValid,
}
use ops_inspection_system.Runs.Recovery.{Recovered, AllPairs, recover_lem}

abbrev nightly : String → NewRun
nightly run_id = record {
  run_id = run_id;
  task_name = "nightly";
  source = "schedule";
  payload = "{}";
  task_id = some 1;
  dedupe_key = some "task:1:202401010200";
  max_attempts = 3;
}

abbrev manual : NewRun
manual = record {
  run_id = "m1";
  task_name = "manual";
  source = "manual";
  payload = "{}";
  task_id = none;
  dedupe_key = none;
  max_attempts = 1;
}

abbrev calls : List (ℕ × Call)
calls =
    (5, create (nightly "a"))
    ∷ (6, create manual)
    ∷ (7, claim)
    ∷ (8, progress "a" "half" 250 none)
    ∷ (9, recover)
    ∷ []

run_calls-IsValid_example : IsValid (run_calls init calls)
run_calls-IsValid_example = run_calls-IsValid init calls IsValid-init

abbrev queue : Queue
queue = run_calls init calls

runs : Unit {0}
unfolding create_inspection_run first_claimable claim_next_inspection_run
    recover_interrupted_inspection_runs update_where count find string_eq number_eq run_calls call
    update_inspection_run_progress
runs = tt

queue-Ascending : Ascending 0 queue.rows queue.next_id
queue-Ascending = (run_calls-IsValid init calls IsValid-init).ids

claim_lem_example :
    (All (λ r. claimable 10 r ≡ false) queue.rows
      × (claim_next_inspection_run 10 queue ≡ (queue, none)))
    ⊎ ((job : Run) × IsFirst 10 queue.rows job
        × (claim_next_inspection_run 10 queue ≡ (
          record queue { rows = update_where (chosen job) (start 10) queue.rows },
          some (taken 10 job),
        )))
claim_lem_example = claim_lem 10 queue queue-Ascending

abbrev run_id_of : Option Run → String
run_id_of none = ""
run_id_of (some r) = r.run_id

-- The scheduled run, which the restart put back, goes before the manual one.
claim_test : run_id_of (claim_next_inspection_run 10 queue).1 ≡ "a"
unfolding runs
claim_test = refl

recover_lem_example :
    AllPairs (Recovered 10) queue.rows (recover_interrupted_inspection_runs 10 queue).0.rows
recover_lem_example = recover_lem 10 queue

went_in : (create_inspection_run 5 (nightly "a") init).1 ≡ true
unfolding runs
went_in = refl

abbrev busy : Run
busy = taken 7 (fresh_row 1 5 (nightly "a"))

abbrev busy_queue : Queue
busy_queue = record { rows = busy ∷ []; next_id = 2 }

there : get_inspection_run "a" busy_queue ≡ some busy
unfolding get_inspection_run find string_eq
there = refl

conclude_lem_example :
    (r : Run) × (get_inspection_run "a" (conclude 20 10 "a" (raised "boom") busy_queue) ≡ some r)
    × (r.attempts ≡ busy.attempts)
    × Settled 20 10 (raised "boom") busy r
conclude_lem_example = conclude_lem 20 10 "a" (raised "boom") busy_queue busy there

abbrev status_of : Option Run → Status
status_of none = failed
status_of (some r) = r.status

-- A turn of the loop with a report, and one with an exception.
work_once_tests :
    (status_of (get_inspection_run "a" (work_once (λ job. succeeded none) 10 20 10 queue))
      ≡ success)
    × (status_of (get_inspection_run "a" (work_once (λ job. raised "boom") 10 20 10 queue))
        ≡ queued)
unfolding runs get_inspection_run work_once conclude finish_inspection_run
    retry_or_fail_inspection_run
work_once_tests = (refl, refl)
