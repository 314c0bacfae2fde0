-- ===== src/Runs/Schedule/Tests.antt =====
-- Runs.Schedule: instances. One task is due at the minute, another is switched off.
use ops_inspection_system.Common.{
  ℕ, String, ◌<>◌, true, false, none, [], ◌∷◌, ◌≡◌, refl, string_eq, number_eq,
}
use ops_inspection_system.Runs.{init}
use ops_inspection_system.Runs.Schedule.{Task, dispatch_scheduled_tasks}
use ops_inspection_system.Runs.Schedule.Twice.{AreFresh, dispatch_twice}

abbrev minute : ℕ → String
minute at = "2026-09-14 08:30"

abbrev clock : ℕ → String
clock at = "08:30"

abbrev show : ℕ → String
show n = "n"

abbrev payload : Task → String
payload t = t.name

abbrev nightly : Task
nightly = record {
  id = 3;
  name = "nightly";
  schedule_time = "08:30";
  enable_schedule = true;
  last_run = none;
}

abbrev weekly : Task
weekly = record nightly { id = 4; name = "weekly"; enable_schedule = false }

abbrev token : Task → String
token t = "run-" <> t.name

abbrev again : Task → String
again t = "rerun-" <> t.name

is_fresh : AreFresh token (nightly ∷ weekly ∷ []) init
unfolding string_eq
is_fresh = (refl, (refl, tt), (refl, tt, tt))

dispatch_twice_example :
    dispatch_scheduled_tasks minute clock show payload 105 again
      (dispatch_scheduled_tasks minute clock show payload 100 token
        (nightly ∷ weekly ∷ [])
        init).tasks
      (dispatch_scheduled_tasks minute clock show payload 100 token
        (nightly ∷ weekly ∷ [])
        init).queue
    ≡ record {
      tasks =
          (dispatch_scheduled_tasks minute clock show payload 100 token
            (nightly ∷ weekly ∷ [])
            init).tasks;
      queue =
          (dispatch_scheduled_tasks minute clock show payload 100 token
            (nightly ∷ weekly ∷ [])
            init).queue;
      dispatched = 0;
    }
dispatch_twice_example =
    dispatch_twice minute clock show payload 100 105 token again (nightly ∷ weekly ∷ []) init
      is_fresh refl refl
