-- ===== src/Actions/Once.antt =====
-- An action is claimed at most once, in any interleaving of the table's operations.
use ops_inspection_system.Common.{
  ℕ, suc, ◌+◌, ◌≤◌, ◌<◌, String, Bool, true, false, List, [], ◌∷◌, ◌≡◌, refl, arith, All, All-map,
  All-append, All-update_where, update_where, count, Bool-cases, inl, inr, ◌==◌, ◌&&◌, number_eq,
  if◌then◌else◌,
}
use ops_inspection_system.Actions.{
  Action, Table, NewAction, Status, is_pending, has_id, open_with_id, add_ai_action,
  claim_ai_action, approve, finish_ai_action, close, expire_ai_actions, overdue, lapse,
}

-- The operations that change the table, with the time of each. `finish` takes the status that its
-- callers write: none of them writes `pending`.
pub data Step : Type 0 where
  add : ℕ → NewAction → Step
  claim : ℕ → ℕ → String → Step
  finish : ℕ → ℕ → (status : Status) → is_pending status ≡ false → String → String → String → Step
  expire : ℕ → Step

unfoldable pub step : Step → Table → Table
step (add now n) t = (add_ai_action now n t).0
step (claim now id by) t = (claim_ai_action now id by t).0
step (finish now id status _ result error by) t = finish_ai_action now id status result error by t
step (expire now) t = (expire_ai_actions now t).0

-- Whether a step claims the action with success.
unfoldable pub claims : ℕ → Step → Table → Bool
claims id (claim now other by) t = other == id && (claim_ai_action now other by t).1
claims id _ t = false

-- How often a sequence of steps claims the action with success.
unfoldable pub count_claims : ℕ → List Step → Table → ℕ
count_claims id [] t = 0
count_claims id (s ∷ rest) t = (if claims id s t then 1 else 0) + count_claims id rest (step s t)

-- The id was handed out and no row of it is pending any more.
pub record IsDecided (id : ℕ) (t : Table) : Type 0 where
  pub issued : id < t.next_id
  pub closed : All (λ a. open_with_id id a ≡ false) t.rows

count-none :
    (p : Action → Bool) (rows : List Action) → All (λ a. p a ≡ false) rows → count p rows ≡ 0
unfolding count
count-none p [] h = refl
count-none p (a ∷ rows) (h, hs) = ground (arith, count-none p rows hs)

-- A decided action stays decided.
IsDecided-step : (id : ℕ) (s : Step) (t : Table) → IsDecided id t → IsDecided id (step s t)
unfolding step add_ai_action claim_ai_action finish_ai_action expire_ai_actions
IsDecided-step id (add now n) t d = record {
  issued = let h = d.issued in omega arith;
  closed =
      All-append (λ a. open_with_id id a ≡ false) t.rows _ d.closed (ground (arith, d.issued), tt);
}
IsDecided-step id (claim now other by) t d = record {
  issued = d.issued;
  closed =
      All-update_where (λ a. open_with_id id a ≡ false) (open_with_id other) (approve now by) t.rows
        (λ a hit h. ground arith) d.closed;
}
IsDecided-step id (finish now other status final result error by) t d = record {
  issued = d.issued;
  closed =
      All-update_where (λ a. open_with_id id a ≡ false) (has_id other)
        (close now status result error by) t.rows (λ a hit h. ground arith) d.closed;
}
IsDecided-step id (expire now) t d = record {
  issued = d.issued;
  closed =
      All-update_where (λ a. open_with_id id a ≡ false) (overdue now) (lapse now) t.rows
        (λ a hit h. ground arith) d.closed;
}

claims-decided : (id : ℕ) (s : Step) (t : Table) → IsDecided id t → claims id s t ≡ false
unfolding claims claim_ai_action
claims-decided id (claim now other by) t d = elim (Bool-cases (other == id)) [
  | inl same ↦ ground (arith, count-none (open_with_id id) t.rows d.closed)
  | inr differ ↦ rw differ
]
claims-decided id _ t d = refl

-- Nobody claims a decided action.
count_claims-decided :
    (id : ℕ) (steps : List Step) (t : Table) → IsDecided id t → count_claims id steps t ≡ 0
unfolding count_claims
count_claims-decided id [] t d = refl
count_claims-decided id (s ∷ rest) t d =
    rw (claims-decided id s t d)
      (omega (arith, count_claims-decided id rest (step s t) (IsDecided-step id s t d)))

update_closes :
    (now id : ℕ) (by : String) (rows : List Action)
    → All (λ a. open_with_id id a ≡ false) (update_where (open_with_id id) (approve now by) rows)
unfolding update_where
update_closes now id by [] = tt
update_closes now id by (a ∷ rows) = (ground arith, update_closes now id by rows)

-- The ids in the table were handed out.
abbrev pub IsIssued : Table → Type 0
IsIssued t = All (λ a. a.id < t.next_id) t.rows

issued_of_hit :
    (id next : ℕ) (rows : List Action)
    → All (λ a. a.id < next) rows
    → count (open_with_id id) rows ≡ 1
    → id < next
unfolding count
issued_of_hit id next [] h e = absurd (omega arith)
issued_of_hit id next (a ∷ rows) (h, hs) e = elim (Bool-cases (open_with_id id a)) [
  | inl hit ↦ ground arith
  | inr miss ↦ issued_of_hit id next rows hs (ground arith)
]

-- A successful claim decides its action.
claims-IsDecided :
    (id : ℕ) (s : Step) (t : Table) → IsIssued t → claims id s t ≡ true → IsDecided id (step s t)
unfolding claims step claim_ai_action
claims-IsDecided id (claim now other by) t i e =
    let same : other ≡ id = ground arith in
    let once : count (open_with_id other) t.rows ≡ 1 = ground arith in
    rw (← same) (record {
      issued = issued_of_hit other t.next_id t.rows i once;
      closed = update_closes now other by t.rows;
    })
claims-IsDecided id _ t i e = absurd (cc)

IsIssued-step : (s : Step) (t : Table) → IsIssued t → IsIssued (step s t)
unfolding step add_ai_action claim_ai_action finish_ai_action expire_ai_actions
IsIssued-step (add now n) t i =
    All-append (λ a. a.id < suc t.next_id) t.rows _
      (All-map (λ a. a.id < t.next_id) (λ a. a.id < suc t.next_id) (λ a h. omega arith) t.rows i)
      (omega arith, tt)
IsIssued-step (claim now other by) t i =
    All-update_where (λ a. a.id < t.next_id) (open_with_id other) (approve now by) t.rows
      (λ a _ h. h) i
IsIssued-step (finish now other status final result error by) t i =
    All-update_where (λ a. a.id < t.next_id) (has_id other) (close now status result error by)
      t.rows (λ a _ h. h) i
IsIssued-step (expire now) t i =
    All-update_where (λ a. a.id < t.next_id) (overdue now) (lapse now) t.rows (λ a _ h. h) i

-- In any sequence of the table's operations, by any number of callers, an action is claimed with
-- success at most once.
pub count_claims-le-one :
    (id : ℕ) (steps : List Step) (t : Table) → IsIssued t → count_claims id steps t ≤ 1
unfolding count_claims
count_claims-le-one id [] t i = omega arith
count_claims-le-one id (s ∷ rest) t i = elim (Bool-cases (claims id s t)) [
  | inl taken ↦
      rw taken
        (omega (arith, count_claims-decided id rest (step s t) (claims-IsDecided id s t i taken)))
  | inr other ↦
      rw other (omega (arith, count_claims-le-one id rest (step s t) (IsIssued-step s t i)))
]
