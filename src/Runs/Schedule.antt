-- ===== src/Runs/Schedule.antt =====
-- app.py: `dispatch_scheduled_tasks` and `enqueue_inspection`, which put the runs of scheduled tasks
-- into the queue. Parameters: `minute` and `clock` are the texts of a time as "%Y-%m-%d %H:%M" and
-- "%H:%M", `show` the decimal text of a number, `payload` the JSON text of a task's options, and
-- `token` the run id that is drawn for a task. `inspection_progress` and the log are left out.
pub mod Enqueue
pub mod Twice
mod Tests
use ops_inspection_system.Common.{
  ℕ, suc, String, ◌<>◌, Bool, true, false, Option, none, some, List, [], ◌∷◌, ◌&&◌, not, ◌==◌,
  string_eq, number_eq, option_eq, if◌then◌else◌, update_where, strip, text_take,
}
use ops_inspection_system.Runs.{
  Queue, NewRun, create_inspection_run, update_inspection_run_progress,
}

-- A row of `inspection_tasks`, the columns that the scheduler reads; its time is a text.
pub record Task : Type 0 where
  pub id : ℕ
  pub name : String
  pub schedule_time : String
  pub enable_schedule : Bool
  pub last_run : Option ℕ

-- `enqueue_inspection`, with the two limits of a new run that it fixes.
unfoldable pub enqueue_inspection :
    ℕ → String → String → String → String → Option ℕ → String → Queue → Queue × Bool
enqueue_inspection now run_id task_name source payload task_id dedupe_key q =
    let (q₁, inserted) =
      create_inspection_run now
        (record {
          run_id = run_id;
          task_name = task_name;
          source = source;
          payload = payload;
          task_id = task_id;
          dedupe_key = some dedupe_key;
          max_attempts = 2;
        })
        q in
    (
      if inserted then update_inspection_run_progress run_id "任务已入队，等待执行" 0 none q₁ else q₁,
      inserted,
    )

-- `models.update_task_last_run`
unfoldable pub update_task_last_run : ℕ → ℕ → List Task → List Task
update_task_last_run now id tasks =
    update_where (λ (t : Task). t.id == id) (λ (t : Task). record t { last_run = some now }) tasks

-- The tables that the scheduler writes, and the number of the runs that it put in.
pub record Board : Type 0 where
  pub tasks : List Task
  pub queue : Queue
  pub dispatched : ℕ

module _ (minute clock : ℕ → String) (show : ℕ → String) (payload : Task → String) where
  -- The tests of the two `continue`s.
  unfoldable pub is_due : ℕ → Task → Bool
  is_due now t =
      t.enable_schedule
      && text_take 5 (strip t.schedule_time) == clock now
      && not (elim t.last_run [ none ↦ "" | some at ↦ minute at ] == minute now)

  unfoldable pub dedupe_key : ℕ → Task → String
  dedupe_key now t = "scheduled:" <> show t.id <> ":" <> minute now

  unfoldable pub book : Task → ℕ → Queue × Bool → Board → Board
  book t now (q, inserted) b =
      if inserted
      then record {
        tasks = update_task_last_run now t.id b.tasks;
        queue = q;
        dispatched = suc b.dispatched;
      }
      else record b { queue = q }

  -- The body of the loop.
  unfoldable pub dispatch : ℕ → (Task → String) → Task → Board → Board
  dispatch now token t b =
      if is_due now t
      then book t now
          (enqueue_inspection now (token t) t.name "scheduled" (payload t) (some t.id)
            (dedupe_key now t) b.queue)
          b
      else b

  unfoldable pub dispatch_all : ℕ → (Task → String) → List Task → Board → Board
  dispatch_all now token [] b = b
  dispatch_all now token (t ∷ tasks) b = dispatch_all now token tasks (dispatch now token t b)

  -- `dispatch_scheduled_tasks`: the loop runs over the tasks as they were read first.
  unfoldable pub dispatch_scheduled_tasks : ℕ → (Task → String) → List Task → Queue → Board
  dispatch_scheduled_tasks now token tasks q =
      dispatch_all now token tasks (record { tasks = tasks; queue = q; dispatched = 0 })
