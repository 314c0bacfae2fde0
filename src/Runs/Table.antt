-- ===== src/Runs/Table.antt =====
-- The table as a whole: ids ascend, and the two UNIQUE columns hold no value twice.
use ops_inspection_system.Common.{
  ℕ, suc, ◌≤◌, Bool, false, none, List, [], ◌∷◌, ◌++◌, ◌≡◌, ◌≢◌, arith, All, All-map, All-at,
  All-append, All-update_where, sym, ap, Memᴰ, update_where, find, Bool-cases, inl, inr, string_eq,
}
use ops_inspection_system.Runs.{Run, NewRun, clashes, fresh_row, same_key}

-- The ids of `rows` ascend from `lo` on and stay below `hi`.
abbrev pub Ascending : ℕ → List Run → ℕ → Type 0
Ascending lo [] hi = lo ≤ hi
Ascending lo (r ∷ rows) hi = (lo ≤ r.id) × Ascending (suc r.id) rows hi

pub Ascending-weaken :
    (lo lo' : ℕ) (rows : List Run) (hi : ℕ)
    → lo' ≤ lo
    → Ascending lo rows hi
    → Ascending lo' rows hi
Ascending-weaken lo lo' [] hi h a = omega arith
Ascending-weaken lo lo' (r ∷ rows) hi h (b, a) = (omega arith, a)

pub Ascending-above :
    (lo : ℕ) (rows : List Run) (hi : ℕ) → Ascending lo rows hi → All (λ r. lo ≤ r.id) rows
Ascending-above lo [] hi a = tt
Ascending-above lo (r ∷ rows) hi (b, a) =
    (b, Ascending-above lo rows hi (Ascending-weaken (suc r.id) lo rows hi (omega arith) a))

pub Ascending-append :
    (lo : ℕ) (rows : List Run) (hi : ℕ) (r : Run)
    → r.id ≡ hi
    → Ascending lo rows hi
    → Ascending lo (rows ++ r ∷ []) (suc hi)
Ascending-append lo [] hi r e a = (omega arith, omega arith)
Ascending-append lo (x ∷ rows) hi r e (b, a) = (b, Ascending-append (suc x.id) rows hi r e a)

pub Ascending-update_where :
    (p : Run → Bool) (f : Run → Run) (lo : ℕ) (rows : List Run) (hi : ℕ)
    → ((r : Run) → (f r).id ≡ r.id)
    → Ascending lo rows hi
    → Ascending lo (update_where p f rows) hi
unfolding update_where
Ascending-update_where p f lo [] hi same a = a
Ascending-update_where p f lo (r ∷ rows) hi same (b, a) =
    let rest = Ascending-update_where p f (suc r.id) rows hi same a in
    elim (Bool-cases (p r)) [
      | inl hit ↦ rw hit (rw (same r) (b, rest))
      | inr miss ↦ rw miss (b, rest)
    ]

-- An id names one row.
pub unique_id :
    (lo : ℕ) (rows : List Run) (hi : ℕ) (j : Run)
    → Ascending lo rows hi
    → Memᴰ j rows
    → All (λ r. r.id ≡ j.id → r ≡ j) rows
unique_id lo [] hi j _ m = elim m [ ]
unique_id lo (r ∷ rows) hi j (b, a) (Memᴰ.head e) = (
  λ _. sym e,
  All-map (λ x. suc r.id ≤ x.id) (λ x. x.id ≡ j.id → x ≡ j)
      (λ x above same. absurd (omega (arith, ap (λ (t : Run). t.id) e))) rows
      (Ascending-above (suc r.id) rows hi a),
)
unique_id lo (r ∷ rows) hi j (b, a) (Memᴰ.tail m) = (
  λ same.
      let above = All-at (λ x. suc r.id ≤ x.id) rows (Ascending-above (suc r.id) rows hi a) m in
      absurd (omega arith),
  unique_id (suc r.id) rows hi j a m,
)

-- Two rows that may stand in one table: UNIQUE(run_id), UNIQUE(dedupe_key).
abbrev pub Apart : Run → Run → Type 0
Apart r x = (x.run_id ≢ r.run_id) × (same_key r.dedupe_key x.dedupe_key ≡ false)

abbrev pub Distinct : List Run → Type 0
Distinct [] = Unit
Distinct (r ∷ rows) = All (Apart r) rows × Distinct rows

All-Apart_update :
    (r : Run) (p : Run → Bool) (f : Run → Run) (rows : List Run)
    → ((x : Run) → ((f x).run_id ≡ x.run_id) × ((f x).dedupe_key ≡ x.dedupe_key))
    → All (Apart r) rows
    → All (Apart r) (update_where p f rows)
All-Apart_update r p f rows same h =
    All-update_where (Apart r) p f rows (λ x _ apart. rw (same x).0 (rw (same x).1 apart)) h

pub Distinct-update_where :
    (p : Run → Bool) (f : Run → Run) (rows : List Run)
    → ((x : Run) → ((f x).run_id ≡ x.run_id) × ((f x).dedupe_key ≡ x.dedupe_key))
    → Distinct rows
    → Distinct (update_where p f rows)
unfolding update_where
Distinct-update_where p f [] same d = tt
Distinct-update_where p f (r ∷ rows) same (h, d) =
    let rest = Distinct-update_where p f rows same d in
    let here = All-Apart_update r p f rows same h in
    elim (Bool-cases (p r)) [
      | inl hit ↦ rw hit (rw (same r).0 (rw (same r).1 (here, rest)))
      | inr miss ↦ rw miss (here, rest)
    ]

-- A row that clashes with none is apart from all, and may be added.
pub Distinct-append :
    (id now : ℕ) (n : NewRun) (rows : List Run)
    → find (clashes n) rows ≡ none
    → Distinct rows
    → Distinct (rows ++ fresh_row id now n ∷ [])
unfolding find
Distinct-append id now n [] e d = (tt, tt)
Distinct-append id now n (r ∷ rows) e (h, d) =
    let later : find (clashes n) rows ≡ none = ground arith in
    (
      All-append (Apart r) rows (fresh_row id now n ∷ []) h ((ground arith, ground arith), tt),
      Distinct-append id now n rows later d,
    )
