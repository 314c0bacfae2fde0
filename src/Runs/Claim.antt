-- ===== src/Runs/Claim.antt =====
-- Which run a worker claims.
use ops_inspection_system.Common.{
  ℕ, suc, ◌+◌, ◌≤◌, Bool, true, false, none, some, List, [], ◌∷◌, ◌≡◌, ◌≢◌, refl, ap, arith, subst,
  All, All-map, All-at, Memᴰ, ◌⊎◌, update_where, count, Bool-cases, Option-cases, inl, inr, ◌&&◌,
  number_eq,
}
use ops_inspection_system.Runs.{
  Run, Queue, claimable, before, earlier, first_claimable, has_id, is_queued, start,
  claim_next_inspection_run, running,
}
use ops_inspection_system.Runs.Table.{Ascending, Ascending-above}

-- `job` heads the claimable rows in the order of the query.
pub record IsFirst (now : ℕ) (rows : List Run) (job : Run) : Type 0 where
  pub listed : Memᴰ job rows
  pub ready : claimable now job ≡ true
  pub least : All (λ r. claimable now r ≡ true → before job r ≡ true) rows

before_refl : (a : Run) → before a a ≡ true
before_refl a = ground arith

before_trans : (a b c : Run) → before a b ≡ true → before b c ≡ true → before a c ≡ true
before_trans a b c p q = ground arith

before_total : (a b : Run) → before a b ≡ false → before b a ≡ true
before_total a b p = ground arith

none-claimable :
    (now : ℕ) (rows : List Run)
    → first_claimable now rows ≡ none
    → All (λ r. claimable now r ≡ false) rows
unfolding first_claimable
none-claimable now [] e = tt
none-claimable now (r ∷ rows) e = (ground arith, none-claimable now rows (ground arith))

IsFirst-skip :
    (now : ℕ) (r : Run) (rows : List Run) (job : Run)
    → claimable now r ≡ false
    → IsFirst now rows job
    → IsFirst now (r ∷ rows) job
IsFirst-skip now r rows job miss f = record {
  listed = Memᴰ.tail f.listed;
  ready = f.ready;
  least = (λ h. cc, f.least);
}

IsFirst-only :
    (now : ℕ) (r : Run) (rows : List Run)
    → claimable now r ≡ true
    → All (λ x. claimable now x ≡ false) rows
    → IsFirst now (r ∷ rows) r
IsFirst-only now r rows hit others = record {
  listed = Memᴰ.head refl;
  ready = hit;
  least = (
    λ _. before_refl r,
    All-map (λ x. claimable now x ≡ false) (λ x. claimable now x ≡ true → before r x ≡ true)
        (λ x off on. cc) rows others,
  );
}

IsFirst-earlier :
    (now : ℕ) (r : Run) (rows : List Run) (best : Run)
    → claimable now r ≡ true
    → IsFirst now rows best
    → IsFirst now (r ∷ rows) (earlier r (some best))
IsFirst-earlier now r rows best hit f = elim (Bool-cases (before r best)) [
  | inl first ↦ rw first (record {
    listed = Memᴰ.head refl;
    ready = hit;
    least = (
      λ _. before_refl r,
      All-map (λ x. claimable now x ≡ true → before best x ≡ true)
          (λ x. claimable now x ≡ true → before r x ≡ true)
          (λ x least on. before_trans r best x first (least on)) rows f.least,
    );
  })
  | inr later ↦ rw later (record {
    listed = Memᴰ.tail f.listed;
    ready = f.ready;
    least = (λ _. before_total r best later, f.least);
  })
]

pub first_claimable-IsFirst :
    (now : ℕ) (rows : List Run) (job : Run)
    → first_claimable now rows ≡ some job
    → IsFirst now rows job
unfolding first_claimable
first_claimable-IsFirst now [] job e = absurd (cc)
first_claimable-IsFirst now (r ∷ rows) job e = elim (Bool-cases (claimable now r)) [
  | inr miss ↦
      IsFirst-skip now r rows job miss (first_claimable-IsFirst now rows job (ground arith))
  | inl hit ↦ elim (Option-cases (first_claimable now rows)) [
    | inl alone ↦
        let same : r ≡ job = ground arith in
        subst (IsFirst now (r ∷ rows)) same
          (IsFirst-only now r rows hit (none-claimable now rows alone))
    | inr (best, found) ↦
        let same : earlier r (some best) ≡ job = ground arith in
        subst (IsFirst now (r ∷ rows)) same
          (IsFirst-earlier now r rows best hit (first_claimable-IsFirst now rows best found))
  ]
]

abbrev pub chosen : Run → Run → Bool
chosen job r = has_id job.id r && is_queued r.status

queued_of_claimable : (now : ℕ) (r : Run) → claimable now r ≡ true → is_queued r.status ≡ true
queued_of_claimable now r h = ground arith

count-none : (p : Run → Bool) (rows : List Run) → All (λ r. p r ≡ false) rows → count p rows ≡ 0
unfolding count
count-none p [] h = refl
count-none p (r ∷ rows) (h, hs) = ground (arith, count-none p rows hs)

chosen_ne : (job r : Run) → r.id ≢ job.id → chosen job r ≡ false
chosen_ne job r h = ground arith

chosen_self : (job : Run) → is_queued job.status ≡ true → chosen job job ≡ true
chosen_self job q = ground arith

-- An id that stands in the table is hit once.
count-chosen :
    (lo : ℕ) (rows : List Run) (hi : ℕ) (job : Run)
    → Ascending lo rows hi
    → Memᴰ job rows
    → is_queued job.status ≡ true
    → count (chosen job) rows ≡ 1
unfolding count
count-chosen lo [] hi job a m q = elim m [ ]
count-chosen lo (r ∷ rows) hi job (b, a) (Memᴰ.head e) q =
    let none_later = count-none (chosen job) rows (
      All-map (λ x. suc r.id ≤ x.id) (λ x. chosen job x ≡ false)
        (λ x above. chosen_ne job x (λ same. omega (arith, ap (λ (t : Run). t.id) e))) rows
        (Ascending-above (suc r.id) rows hi a)) in
    let hit = subst (λ x. chosen job x ≡ true) e (chosen_self job q) in
    rw (hit, none_later) (omega arith)
count-chosen lo (r ∷ rows) hi job (b, a) (Memᴰ.tail m) q =
    let above = All-at (λ x. suc r.id ≤ x.id) rows (Ascending-above (suc r.id) rows hi a) m in
    let miss = chosen_ne job r (λ same. omega arith) in
    rw (miss, count-chosen (suc r.id) rows hi job a m q) (omega arith)

-- The claim's answer for the run that it took.
abbrev pub taken : ℕ → Run → Run
taken now job = record job { status = running; started_at = some now; attempts = job.attempts + 1 }

-- With ids in order the claim fails only where no run may be claimed. Otherwise it starts the first
-- claimable one, and that alone.
pub claim_lem :
    (now : ℕ) (q : Queue)
    → Ascending 0 q.rows q.next_id
    → (All (λ r. claimable now r ≡ false) q.rows × (claim_next_inspection_run now q ≡ (q, none)))
      ⊎ ((job : Run) × IsFirst now q.rows job
          × (claim_next_inspection_run now q ≡ (
            record q { rows = update_where (chosen job) (start now) q.rows },
            some (taken now job),
          )))
unfolding claim_next_inspection_run
claim_lem now q a = elim (Option-cases (first_claimable now q.rows)) [
  | inl nothing ↦ inl (none-claimable now q.rows nothing, ground arith)
  | inr (job, found) ↦
      let first = first_claimable-IsFirst now q.rows job found in
      let once =
        count-chosen 0 q.rows q.next_id job a first.listed
          (queued_of_claimable now job first.ready) in
      inr (job, first, ground arith)
]
