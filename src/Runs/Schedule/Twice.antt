-- ===== src/Runs/Schedule/Twice.antt =====
-- app.py: a minute's schedule is put into the queue once.
use ops_inspection_system.Common.{
  ℕ, String, Bool, true, false, some, List, [], ◌∷◌, ◌≡◌, refl, sym, subst, inl, inr, arith, ◌⊎◌,
  ◌||◌, ◌==◌, string_eq, number_eq, any, All, All-map, All-update_hit, All-All, Bool-cases, ◌∙◌,
}
use ops_inspection_system.Runs.{Queue, has_run_id}
use ops_inspection_system.Runs.Schedule.{
  Task, Board, update_task_last_run, is_due, dedupe_key, book, dispatch, dispatch_all,
  dispatch_scheduled_tasks,
}
use ops_inspection_system.Runs.Schedule.Enqueue.{has_key, enqueue_lem, enqueue_there}

-- The run ids that are drawn for the tasks are new in the queue, and no two are the same.
abbrev pub AreFresh : (Task → String) → List Task → Queue → Type 0
AreFresh token [] q = Unit
AreFresh token (t ∷ ts) q =
    (any (has_run_id (token t)) q.rows ≡ false)
    × All (λ u. (token t == token u) ≡ false) ts
    × AreFresh token ts q

module _ (minute clock : ℕ → String) (show : ℕ → String) (payload : Task → String) where
  abbrev key_of : ℕ → Task → String
  key_of = dedupe_key minute clock show payload

  abbrev due : ℕ → Task → Bool
  due = is_due minute clock show payload

  abbrev step : ℕ → (Task → String) → Task → Board → Board
  step = dispatch minute clock show payload

  -- A turn of the loop leaves everything as it is, or puts in a run with the task's key.
  abbrev Turn : ℕ → (Task → String) → Task → Board → Board → Type 0
  Turn now token t b b₁ =
      ((b₁ ≡ b)
        × (due now t ≡ true
            → (any (has_run_id (token t)) b.queue.rows || any (has_key (key_of now t)) b.queue.rows)
              ≡ true))
      ⊎ ((b₁.tasks ≡ update_task_last_run now t.id b.tasks)
          × ((j : String)
              → any (has_key j) b₁.queue.rows ≡ (any (has_key j) b.queue.rows || key_of now t == j))
          × ((x : String)
              → any (has_run_id x) b₁.queue.rows
                ≡ (any (has_run_id x) b.queue.rows || token t == x)))

  book_taken :
      (t : Task) (now : ℕ) (b : Board) (o : Queue × Bool)
      → o ≡ (b.queue, false)
      → book minute clock show payload t now o b ≡ b
  unfolding book
  book_taken t now b o e = rw e refl

  book_new :
      (t : Task) (now : ℕ) (b : Board) (o : Queue × Bool)
      → o.1 ≡ true
      → ((book minute clock show payload t now o b).tasks ≡ update_task_last_run now t.id b.tasks)
        × ((book minute clock show payload t now o b).queue ≡ o.0)
  unfolding book
  book_new t now b (q, true) e = (refl, refl)
  book_new t now b (q, false) e = absurd (ground arith)

  step-Turn :
      (now : ℕ) (token : Task → String) (t : Task) (b : Board)
      → Turn now token t b (step now token t b)
  unfolding dispatch
  step-Turn now token t b = elim (Bool-cases (due now t)) [
    | inr idle ↦ simp (idle, dispatch) (inl (refl, (λ h. absurd (cc h))))
    | inl yes_due ↦
        simp (yes_due, dispatch)
          (elim (enqueue_lem now (token t) t.name "scheduled" (payload t) (some t.id) (key_of now t)
            b.queue) [
              | inl (same, taken) ↦ inl (book_taken t now b _ same, (λ _. taken))
              | inr (went, keys, ids) ↦
                  let (tasks, queue) = book_new t now b _ went in
                  inr (tasks, (λ j. rw queue (keys j)), (λ x. rw queue (ids x)))
            ])
  ]

  -- The keys that are there stay there.
  step-keys :
      (now : ℕ) (token : Task → String) (t : Task) (b : Board) (j : String)
      → any (has_key j) b.queue.rows ≡ true
      → any (has_key j) (step now token t b).queue.rows ≡ true
  step-keys now token t b j h = elim (step-Turn now token t b) [
    | inl (same, _) ↦ rw same h
    | inr (tasks, keys, ids) ↦ ground (arith, keys j)
  ]

  -- A due task whose run id is not taken has its key in the queue after its turn.
  step-key :
      (now : ℕ) (token : Task → String) (t : Task) (b : Board)
      → due now t ≡ true
      → any (has_run_id (token t)) b.queue.rows ≡ false
      → any (has_key (key_of now t)) (step now token t b).queue.rows ≡ true
  step-key now token t b now_due free = elim (step-Turn now token t b) [
    | inl (same, taken) ↦ rw same (ground (arith, taken now_due))
    | inr (tasks, keys, ids) ↦ ground (arith, keys (key_of now t))
  ]

  step-free :
      (now : ℕ) (token : Task → String) (t : Task) (b : Board) (x : String)
      → any (has_run_id x) b.queue.rows ≡ false
      → (token t == x) ≡ false
      → any (has_run_id x) (step now token t b).queue.rows ≡ false
  step-free now token t b x h differ = elim (step-Turn now token t b) [
    | inl (same, _) ↦ rw same h
    | inr (tasks, keys, ids) ↦ ground (arith, ids x)
  ]

  abbrev loop : ℕ → (Task → String) → List Task → Board → Board
  loop = dispatch_all minute clock show payload

  loop-keys :
      (now : ℕ) (token : Task → String) (ts : List Task) (b : Board) (j : String)
      → any (has_key j) b.queue.rows ≡ true
      → any (has_key j) (loop now token ts b).queue.rows ≡ true
  unfolding dispatch_all
  loop-keys now token [] b j h = h
  loop-keys now token (t ∷ ts) b j h =
      loop-keys now token ts (step now token t b) j (step-keys now token t b j h)

  step-AreFresh :
      (now : ℕ) (token : Task → String) (t : Task) (b : Board) (ts : List Task)
      → All (λ u. (token t == token u) ≡ false) ts
      → AreFresh token ts b.queue
      → AreFresh token ts (step now token t b).queue
  step-AreFresh now token t b [] d h = tt
  step-AreFresh now token t b (u ∷ ts) (d, ds) (h, apart, hs) =
      (step-free now token t b (token u) h d, apart, step-AreFresh now token t b ts ds hs)

  -- What a dispatch later in the same minute would put in is there.
  abbrev Settled : ℕ → Queue → Task → Type 0
  Settled now q t = due now t ≡ true → any (has_key (key_of now t)) q.rows ≡ true

  loop-Settled :
      (now : ℕ) (token : Task → String) (ts : List Task) (b : Board)
      → AreFresh token ts b.queue
      → All (Settled now (loop now token ts b).queue) ts
  unfolding dispatch_all
  loop-Settled now token [] b fresh = tt
  loop-Settled now token (t ∷ ts) b (free, apart, fresh) = (
    (λ now_due.
        loop-keys now token ts (step now token t b) (key_of now t)
          (step-key now token t b now_due free)),
    loop-Settled now token ts (step now token t b) (step-AreFresh now token t b ts apart fresh),
  )

  key_of-id : (now : ℕ) (r t : Task) → (r.id == t.id) ≡ true → key_of now r ≡ key_of now t
  unfolding dedupe_key
  key_of-id now r t h = let same : r.id ≡ t.id = ground arith in rw same refl

  update-Settled :
      (now : ℕ) (q : Queue) (t : Task) (tasks : List Task)
      → any (has_key (key_of now t)) q.rows ≡ true
      → All (Settled now q) tasks
      → All (Settled now q) (update_task_last_run now t.id tasks)
  unfolding update_task_last_run
  update-Settled now q t tasks there h =
      All-update_hit (Settled now q) (λ (r : Task). r.id == t.id)
        (λ (r : Task). record r { last_run = some now }) tasks
        (All-All
          (λ (r : Task).
            (r.id == t.id) ≡ true
            → Settled now q r
            → Settled now q (record r { last_run = some now }))
          (λ r same _ _.
            subst (λ k. any (has_key k) q.rows ≡ true)
              (sym (key_of-id now (record r { last_run = some now }) t same)) there)
          tasks)
        h

  loop-tasks :
      (now : ℕ) (token : Task → String) (ts : List Task) (b : Board) (q : Queue)
      → ((j : String)
          → any (has_key j) (loop now token ts b).queue.rows ≡ true
          → any (has_key j) q.rows ≡ true)
      → All (Settled now q) b.tasks
      → All (Settled now q) (loop now token ts b).tasks
  unfolding dispatch_all
  loop-tasks now token [] b q inside h = h
  loop-tasks now token (t ∷ ts) b q inside h =
      loop-tasks now token ts (step now token t b) q inside (elim (step-Turn now token t b) [
        | inl (same, _) ↦ rw same h
        | inr (tasks, keys, ids) ↦
            let here : any (has_key (key_of now t)) (step now token t b).queue.rows ≡ true =
              ground (arith, keys (key_of now t)) in
            rw tasks (
              update-Settled now q t b.tasks
                (inside (key_of now t)
                  (loop-keys now token ts (step now token t b) (key_of now t) here))
                h)
      ])

  step-idle :
      (now : ℕ) (token : Task → String) (t : Task) (b : Board)
      → Settled now b.queue t
      → step now token t b ≡ b
  unfolding dispatch
  step-idle now token t b settled = elim (Bool-cases (due now t)) [
    | inr idle ↦ simp (idle, dispatch) refl
    | inl yes_due ↦
        simp (yes_due, dispatch)
          (book_taken t now b _ (
            enqueue_there now (token t) t.name "scheduled" (payload t) (some t.id) (key_of now t)
              b.queue (settled yes_due)))
  ]

  loop-idle :
      (now : ℕ) (token : Task → String) (ts : List Task) (b : Board)
      → All (Settled now b.queue) ts
      → loop now token ts b ≡ b
  unfolding dispatch_all
  loop-idle now token [] b _ = refl
  loop-idle now token (t ∷ ts) b (h, hs) =
      rw (step-idle now token t b h) (loop-idle now token ts b hs)

  later_due_same :
      (now later : ℕ) (t : Task)
      → minute later ≡ minute now
      → clock later ≡ clock now
      → due later t ≡ due now t
  unfolding is_due
  later_due_same now later t minutes clocks = rw (minutes, clocks) refl

  later_key : (now later : ℕ) (t : Task) → minute later ≡ minute now → key_of later t ≡ key_of now t
  unfolding dedupe_key
  later_key now later t minutes = rw minutes refl

  later-Settled :
      (now later : ℕ) (q : Queue) (ts : List Task)
      → minute later ≡ minute now
      → clock later ≡ clock now
      → All (Settled now q) ts
      → All (Settled later q) ts
  later-Settled now later q ts minutes clocks h =
      All-map (Settled now q) (Settled later q)
        (λ t settled later_due.
          rw (later_key now later t minutes)
            (settled (sym (later_due_same now later t minutes clocks) ∙ later_due)))
        ts h

  -- When the run ids of a dispatch are new, another dispatch in the same minute, whatever run ids it
  -- draws, puts nothing in and changes neither the tasks nor the queue.
  pub dispatch_twice :
      (now later : ℕ) (token again : Task → String) (tasks : List Task) (q : Queue)
      → AreFresh token tasks q
      → minute later ≡ minute now
      → clock later ≡ clock now
      → dispatch_scheduled_tasks minute clock show payload later again
          (dispatch_scheduled_tasks minute clock show payload now token tasks q).tasks
          (dispatch_scheduled_tasks minute clock show payload now token tasks q).queue
        ≡ record {
          tasks = (dispatch_scheduled_tasks minute clock show payload now token tasks q).tasks;
          queue = (dispatch_scheduled_tasks minute clock show payload now token tasks q).queue;
          dispatched = 0;
        }
  unfolding dispatch_scheduled_tasks
  dispatch_twice now later token again tasks q fresh minutes clocks =
      let b : Board = record { tasks = tasks; queue = q; dispatched = 0 } in
      let after = (loop now token tasks b).queue in
      loop-idle later again _ _ (
        later-Settled now later after _ minutes clocks
          (loop-tasks now token tasks b after (λ j h. h) (loop-Settled now token tasks b fresh)))
