-- ===== src/Runs/Recovery.antt =====
-- What a restart of the service makes of the runs that it interrupted, and how the queue tells
-- duplicates apart.
use ops_inspection_system.Common.{
  ℕ, suc, ◌≤◌, ◌<◌, String, Bool, true, false, none, some, List, [], ◌∷◌, ◌++◌, ◌≡◌, ◌≢◌, ◌⊎◌,
  arith, update_where, Bool-cases, Option-cases, inl, inr, find, string_eq, if◌then◌else◌,
}
use ops_inspection_system.Runs.{
  Run, Queue, NewRun, running, failed, fresh_row, clashes, create_inspection_run, interrupted,
  requeue, exhausted, give_up, recover_interrupted_inspection_runs, claimable,
}

-- The row that a restart leaves for a row, stated on its own: a running row goes back to the queue
-- while it has attempts left, and has failed otherwise; every other row stays.
abbrev pub Recovered : ℕ → Run → Run → Type 0
Recovered now r r' =
    ((r.status ≢ running) × (r' ≡ r))
    ⊎ ((r.status ≡ running) × (r.attempts < r.max_attempts) × (claimable now r' ≡ true))
    ⊎ ((r.status ≡ running)
        × (r.max_attempts ≤ r.attempts)
        × (r'.status ≡ failed)
        × (r'.error ≡ some "interrupted"))

-- Two tables, row by row.
abbrev pub AllPairs {ℓ} : {A : Type ℓ} → (A → A → Type 0) → List A → List A → Type 0
AllPairs P [] [] = Unit
AllPairs P (x ∷ xs) (y ∷ ys) = P x y × AllPairs P xs ys
AllPairs P _ _ = ⊥

abbrev recovered_row : ℕ → Run → Run
recovered_row now r =
    let again = if interrupted r then requeue now r else r in
    if exhausted again then give_up now again else again

recovered_row_lem : (now : ℕ) (r : Run) → Recovered now r (recovered_row now r)
recovered_row_lem now r = ground arith

recover_rows :
    (now : ℕ) (rows : List Run)
    → AllPairs
        (Recovered now)
        rows
        (update_where exhausted (give_up now) (update_where interrupted (requeue now) rows))
unfolding update_where
recover_rows now [] = tt
recover_rows now (r ∷ rows) = (recovered_row_lem now r, recover_rows now rows)

-- A restart leaves each row as `Recovered` says, and no row running.
pub recover_lem :
    (now : ℕ) (q : Queue)
    → AllPairs (Recovered now) q.rows (recover_interrupted_inspection_runs now q).0.rows
unfolding recover_interrupted_inspection_runs
recover_lem now q = recover_rows now q.rows

find-append_hit :
    (p : Run → Bool) (rows : List Run) (r : Run)
    → p r ≡ true
    → (found : Run) × (find p (rows ++ r ∷ []) ≡ some found)
unfolding find
find-append_hit p [] r hit = (r, ground arith)
find-append_hit p (x ∷ rows) r hit = elim (Bool-cases (p x)) [
  | inl here ↦ (x, ground arith)
  | inr there ↦ let (found, e) = find-append_hit p rows r hit in (found, ground arith)
]

pub create_free :
    (now : ℕ) (n : NewRun) (q : Queue)
    → find (clashes n) q.rows ≡ none
    → create_inspection_run now n q ≡ (
      record q { rows = q.rows ++ fresh_row q.next_id now n ∷ []; next_id = suc q.next_id },
      true,
    )
unfolding create_inspection_run
create_free now n q free = ground arith

pub create_clash :
    (now : ℕ) (n : NewRun) (q : Queue) (r : Run)
    → find (clashes n) q.rows ≡ some r
    → create_inspection_run now n q ≡ (q, false)
unfolding create_inspection_run
create_clash now n q r taken = ground arith

-- Once a run with a dedupe key was put in, a second one with that key is ignored and changes
-- nothing, whatever its run id: the schedule of a task in one minute is queued once.
pub create_twice :
    (now later : ℕ) (n m : NewRun) (key : String) (q : Queue)
    → n.dedupe_key ≡ some key
    → m.dedupe_key ≡ some key
    → (create_inspection_run now n q).1 ≡ true
    → create_inspection_run later m (create_inspection_run now n q).0
      ≡ ((create_inspection_run now n q).0, false)
create_twice now later n m key q p e went = elim (Option-cases (find (clashes n) q.rows)) [
  | inr (r, taken) ↦ absurd (cc (create_clash now n q r taken))
  | inl free ↦
      let hit : clashes m (fresh_row q.next_id now n) ≡ true = ground arith in
      let (found, there) = find-append_hit (clashes m) q.rows (fresh_row q.next_id now n) hit in
      rw (create_free now n q free) (create_clash later m _ found there)
]
