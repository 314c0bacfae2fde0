-- ===== src/Runs/Schedule/Enqueue.antt =====
-- app.py: what one call of `enqueue_inspection` does to the run ids and the keys of the queue.
use ops_inspection_system.Common.{
  ℕ, String, Bool, true, false, Option, none, some, List, [], ◌∷◌, ◌++◌, ◌≡◌, refl, inl, inr, arith,
  ◌⊎◌, ◌||◌, ◌==◌, string_eq, number_eq, any, find, update_where, Bool-cases, Option-cases, ◌∙◌,
}
use ops_inspection_system.Runs.{
  Run, Queue, NewRun, clashes, fresh_row, same_key, has_run_id, coalesce,
  update_inspection_run_progress,
}
use ops_inspection_system.Runs.Recovery.{create_free, create_clash}
use ops_inspection_system.Runs.Schedule.{enqueue_inspection}

any-update_where :
    (p q : Run → Bool) (f : Run → Run) (rows : List Run)
    → ((r : Run) → p (f r) ≡ p r)
    → any p (update_where q f rows) ≡ any p rows
unfolding update_where
any-update_where p q f [] same = refl
any-update_where p q f (r ∷ rows) same = ground (arith, same r, any-update_where p q f rows same)

find-any : (p : Run → Bool) (rows : List Run) → any p rows ≡ false → find p rows ≡ none
unfolding find
find-any p [] h = refl
find-any p (r ∷ rows) h = ground (arith, find-any p rows (ground arith))

any-find :
    (p : Run → Bool) (rows : List Run) → any p rows ≡ true → (r : Run) × (find p rows ≡ some r)
unfolding find
any-find p [] h = absurd (ground arith)
any-find p (r ∷ rows) h = elim (Bool-cases (p r)) [
  | inl here ↦ (r, ground arith)
  | inr there ↦ let (found, e) = any-find p rows (ground arith) in (found, ground arith)
]

abbrev pub has_key : String → Run → Bool
has_key key r = same_key r.dedupe_key (some key)

any-or :
    (p q : Run → Bool) (rows : List Run) → any (λ r. p r || q r) rows ≡ (any p rows || any q rows)
any-or p q [] = refl
any-or p q (r ∷ rows) = ground (arith, any-or p q rows)

any-last :
    (p : Run → Bool) (rows : List Run) (r : Run) → any p (rows ++ r ∷ []) ≡ (any p rows || p r)
any-last p [] r = ground arith
any-last p (x ∷ rows) r = ground (arith, any-last p rows r)

module _ (now : ℕ) (run_id name source payload : String) (task_id : Option ℕ) (key : String)
    (q : Queue) where
  abbrev new_run : NewRun
  new_run = record {
    run_id = run_id;
    task_name = name;
    source = source;
    payload = payload;
    task_id = task_id;
    dedupe_key = some key;
    max_attempts = 2;
  }

  abbrev pub queued : Queue × Bool
  queued = enqueue_inspection now run_id name source payload task_id key q

  -- Nothing is put in, since the run id or the key is taken; or a run with both is put in.
  abbrev pub Outcome : Type 0
  Outcome =
      ((queued ≡ (q, false))
        × ((any (has_run_id run_id) q.rows || any (has_key key) q.rows) ≡ true))
      ⊎ ((queued.1 ≡ true)
          × ((j : String) → any (has_key j) queued.0.rows ≡ (any (has_key j) q.rows || key == j))
          × ((x : String)
              → any (has_run_id x) queued.0.rows ≡ (any (has_run_id x) q.rows || run_id == x)))

  enqueue_taken : (r : Run) → find (clashes new_run) q.rows ≡ some r → queued ≡ (q, false)
  unfolding enqueue_inspection
  enqueue_taken r found = rw (create_clash now new_run q r found, enqueue_inspection) refl

  put_in_any :
      (p : Run → Bool)
      → find (clashes new_run) q.rows ≡ none
      → ((r : Run) (m : String) (n : ℕ)
          → p (record r { message = m; progress = n; report_path = coalesce none r.report_path })
            ≡ p r)
      → any p queued.0.rows ≡ (any p q.rows || p (fresh_row q.next_id now new_run))
  unfolding enqueue_inspection update_inspection_run_progress
  put_in_any p free same =
      rw (create_free now new_run q free, enqueue_inspection)
        (any-update_where p (has_run_id run_id) _ (q.rows ++ fresh_row q.next_id now new_run ∷ [])
            (λ r. same r _ _)
          ∙ any-last p q.rows (fresh_row q.next_id now new_run))

  put_in_true : find (clashes new_run) q.rows ≡ none → queued.1 ≡ true
  unfolding enqueue_inspection
  put_in_true free = rw (create_free now new_run q free, enqueue_inspection) refl

  pub enqueue_lem : Outcome
  enqueue_lem = elim (Option-cases (find (clashes new_run) q.rows)) [
    | inl free ↦ inr (
      put_in_true free,
      (λ j. put_in_any (has_key j) free (λ r m n. refl)),
      (λ x. put_in_any (has_run_id x) free (λ r m n. refl)),
    )
    | inr (r, found) ↦ inl (
      enqueue_taken r found,
      elim (Bool-cases (any (clashes new_run) q.rows)) [
        | inl yes_any ↦ ground (arith, yes_any, any-or (has_run_id run_id) (has_key key) q.rows)
        | inr no_any ↦ absurd (cc (find-any (clashes new_run) q.rows no_any, found))
      ],
    )
  ]

pub enqueue_there :
    (now : ℕ) (run_id name source payload : String) (task_id : Option ℕ) (key : String) (q : Queue)
    → any (has_key key) q.rows ≡ true
    → enqueue_inspection now run_id name source payload task_id key q ≡ (q, false)
enqueue_there now run_id name source payload task_id key q h =
    let n = new_run now run_id name source payload task_id key q in
    let (r, found) =
      any-find (clashes n) q.rows
        (ground (arith, any-or (has_run_id run_id) (has_key key) q.rows)) in
    enqueue_taken now run_id name source payload task_id key q r found
