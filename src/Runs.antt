-- ===== src/Runs.antt =====
-- The persistent queue of inspection runs: the table `inspection_runs` and its operations in
-- models.py. Times, which the table holds as texts of one fixed format, are the seconds that they
-- stand for; `now` is the clock's at the call. Each operation is one transaction, one step here.
pub mod Table
pub mod Claim
pub mod Invariant
pub mod Recovery
pub mod Worker
pub mod Schedule
mod Tests
use ops_inspection_system.Common.{
  ℕ, suc, ◌+◌, min, String, Bool, true, false, Option, none, some, List, [], ◌∷◌, ◌++◌, ◌&&◌, ◌||◌,
  ◌==◌, ltb, leb, string_eq, number_eq, if◌then◌else◌, update_where, count, find, text_take,
}

pub data Status : Type 0 where
  queued running success failed : Status

pub record Run : Type 0 where
  pub id : ℕ
  pub run_id : String
  pub task_id : Option ℕ
  pub task_name : String
  pub source : String
  pub payload : String
  pub status : Status
  pub progress : ℕ
  pub message : String
  pub report_path : Option String
  pub error : Option String
  pub attempts : ℕ
  pub max_attempts : ℕ
  pub next_retry_at : Option ℕ
  pub dedupe_key : Option String
  pub created_at : ℕ
  pub started_at : Option ℕ
  pub finished_at : Option ℕ

-- The table, in the order of insertion, and the number that AUTOINCREMENT gives next.
pub record Queue : Type 0 where
  pub rows : List Run
  pub next_id : ℕ

abbrev pub init : Queue
init = record { rows = []; next_id = 1 }

abbrev pub is_queued : Status → Bool
is_queued queued = true
is_queued _ = false

abbrev pub is_running : Status → Bool
is_running running = true
is_running _ = false

-- SQL's `=` between a column and a value: never true of NULL.
abbrev pub same_key : Option String → Option String → Bool
same_key (some a) (some b) = a == b
same_key _ _ = false

-- What a new run brings.
pub record NewRun : Type 0 where
  pub run_id : String
  pub task_name : String
  pub source : String
  pub payload : String
  pub task_id : Option ℕ
  pub dedupe_key : Option String
  pub max_attempts : ℕ

abbrev pub fresh_row : ℕ → ℕ → NewRun → Run
fresh_row id now n = record {
  id = id;
  run_id = n.run_id;
  task_id = n.task_id;
  task_name = n.task_name;
  source = n.source;
  payload = n.payload;
  status = queued;
  progress = 0;
  message = "等待执行";
  report_path = none;
  error = none;
  attempts = 0;
  max_attempts = n.max_attempts;
  next_retry_at = none;
  dedupe_key = n.dedupe_key;
  created_at = now;
  started_at = none;
  finished_at = none;
}

-- The two UNIQUE columns of the table.
abbrev pub clashes : NewRun → Run → Bool
clashes n r = r.run_id == n.run_id || same_key r.dedupe_key n.dedupe_key

-- `create_inspection_run`: INSERT OR IGNORE; true where the row went in.
unfoldable pub create_inspection_run : ℕ → NewRun → Queue → Queue × Bool
create_inspection_run now n q = elim (find (clashes n) q.rows) [
  | some _ ↦ (q, false)
  | none ↦
      (record q { rows = q.rows ++ fresh_row q.next_id now n ∷ []; next_id = suc q.next_id }, true)
]

abbrev pub is_due : ℕ → Option ℕ → Bool
is_due now none = true
is_due now (some at) = leb at now

-- The WHERE clause of the query in `claim_next_inspection_run`.
abbrev pub claimable : ℕ → Run → Bool
claimable now r = is_queued r.status && ltb r.attempts r.max_attempts && is_due now r.next_retry_at

-- ORDER BY created_at, id
abbrev pub before : Run → Run → Bool
before a b = ltb a.created_at b.created_at || leb a.created_at b.created_at && leb a.id b.id

-- LIMIT 1 of a result in that order.
abbrev pub earlier : Run → Option Run → Run
earlier r none = r
earlier r (some best) = if before r best then r else best

unfoldable pub first_claimable : ℕ → List Run → Option Run
first_claimable now [] = none
first_claimable now (r ∷ rows) =
    let best = first_claimable now rows in if claimable now r then some (earlier r best) else best

abbrev pub has_id : ℕ → Run → Bool
has_id id r = r.id == id

abbrev pub start : ℕ → Run → Run
start now r = record r {
  status = running;
  started_at = some now;
  finished_at = none;
  attempts = r.attempts + 1;
  message = "正在执行";
  error = none;
}

-- `claim_next_inspection_run`. What it returns is the row as it was read, with three fields anew.
unfoldable pub claim_next_inspection_run : ℕ → Queue → Queue × Option Run
claim_next_inspection_run now q = elim (first_claimable now q.rows) [
  | none ↦ (q, none)
  | some job ↦
      let chosen = λ (r : Run). has_id job.id r && is_queued r.status in
      if count chosen q.rows == 1
      then (
        record q { rows = update_where chosen (start now) q.rows },
        some (record job { status = running; started_at = some now; attempts = job.attempts + 1 }),
      )
      else (q, none)
]

abbrev pub interrupted : Run → Bool
interrupted r = is_running r.status && ltb r.attempts r.max_attempts

abbrev pub requeue : ℕ → Run → Run
requeue now r = record r {
  status = queued;
  message = "服务重启，等待恢复执行";
  next_retry_at = some now;
  started_at = none;
  finished_at = none;
}

abbrev pub exhausted : Run → Bool
exhausted r = is_running r.status && leb r.max_attempts r.attempts

abbrev pub give_up : ℕ → Run → Run
give_up now r = record r {
  status = failed;
  message = "服务重启后已超过最大重试次数";
  error = some "interrupted";
  finished_at = some now;
}

-- `recover_interrupted_inspection_runs`, with the number of rows put back into the queue.
unfoldable pub recover_interrupted_inspection_runs : ℕ → Queue → Queue × ℕ
recover_interrupted_inspection_runs now q =
    let again = update_where interrupted (requeue now) q.rows in
    (record q { rows = update_where exhausted (give_up now) again }, count interrupted q.rows)

abbrev pub has_run_id : String → Run → Bool
has_run_id run_id r = r.run_id == run_id

-- SQL's COALESCE(a, b)
abbrev pub coalesce : Option String → Option String → Option String
coalesce none b = b
coalesce (some a) b = some a

-- `update_inspection_run_progress`; the callers' percentages are natural numbers, so the lower
-- bound of the clamp is met.
unfoldable pub update_inspection_run_progress : String → String → ℕ → Option String → Queue → Queue
update_inspection_run_progress run_id message progress report_path q = record q {
  rows =
      update_where (has_run_id run_id)
        (λ r. record r {
          message = message;
          progress = min 100 progress;
          report_path = coalesce report_path r.report_path;
        })
        q.rows;
}

-- `finish_inspection_run`
unfoldable pub finish_inspection_run : ℕ → String → Option String → Queue → Queue
finish_inspection_run now run_id report_path q = record q {
  rows =
      update_where (has_run_id run_id)
        (λ r. record r {
          status = success;
          progress = 100;
          message = "执行完成";
          report_path = report_path;
          error = none;
          next_retry_at = none;
          finished_at = some now;
        })
        q.rows;
}

-- What `retry_or_fail_inspection_run` returns.
pub data Verdict : Type 0 where
  missing again_queued for_good : Verdict

abbrev pub retry_later : String → ℕ → Run → Run
retry_later error at r = record r {
  status = queued;
  progress = 0;
  message = "执行失败，等待重试";
  error = some (text_take 2000 error);
  next_retry_at = some at;
  started_at = none;
}

abbrev pub fail : String → ℕ → Run → Run
fail error now r = record r {
  status = failed;
  message = "执行失败";
  error = some (text_take 2000 error);
  progress = 100;
  finished_at = some now;
  next_retry_at = none;
}

-- `retry_or_fail_inspection_run`
unfoldable pub retry_or_fail_inspection_run : ℕ → String → String → ℕ → Queue → Queue × Verdict
retry_or_fail_inspection_run now run_id error delay q = elim (find (has_run_id run_id) q.rows) [
  | none ↦ (q, missing)
  | some row ↦
      if ltb row.attempts row.max_attempts
      then (
        record q {
          rows = update_where (has_run_id run_id) (retry_later error (now + delay)) q.rows;
        },
        again_queued,
      )
      else (record q { rows = update_where (has_run_id run_id) (fail error now) q.rows }, for_good)
]

-- `get_inspection_run`
unfoldable pub get_inspection_run : String → Queue → Option Run
get_inspection_run run_id q = find (has_run_id run_id) q.rows
