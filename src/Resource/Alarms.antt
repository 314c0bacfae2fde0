-- ===== src/Resource/Alarms.antt =====
-- A change that nobody accepted is reported, and an accepted configuration is not.
use ops_inspection_system.Common.{
  ℕ, String, true, false, none, some, List, [], ◌∷◌, ◌≡◌, ◌≢◌, refl, sym, ◌∙◌, arith, Option-cases,
  inl, inr, string_eq, number_eq, ◌==◌, length,
}
use ops_inspection_system.Resource.{Payload, normalize_payload, compare_resource_payload}
use ops_inspection_system.Resource.Expected.{payload_matches}
use ops_inspection_system.Resource.Compare.{compare-same}
use ops_inspection_system.Resource.Differs.{Differs, compare-Differs}
use ops_inspection_system.Resource.Store.{
  Baseline, Plan, Status, Store, get_resource_baseline, save_resource_baseline,
  get_active_resource_plan, expire_resource_change_plans,
}
use ops_inspection_system.Resource.Store.Changes.{is_open, get_open_resource_change_event}
use ops_inspection_system.Resource.Evaluate.{
  Result, normal, raised, is_empty, augment, grows, augment_baseline, fingerprint, settle_event,
  raise_event, judge_changes, judge, evaluate_resource_configuration, Finding, result_finding,
}
use ops_inspection_system.Resource.Reports.{IsIssued, IsReported, upsert-IsReported}

events-augment_baseline :
    (at server_id : ℕ) (baseline current : Payload) (row : Baseline) (s : Store)
    → ((augment_baseline at server_id baseline current row s).events ≡ s.events)
      × ((augment_baseline at server_id baseline current row s).next_event ≡ s.next_event)
unfolding augment_baseline save_resource_baseline
events-augment_baseline at server_id baseline current row s = (ground arith, ground arith)

IsIssued-get_active :
    (server_id now : ℕ) (s : Store)
    → IsIssued s
    → IsIssued (get_active_resource_plan server_id now s).0
unfolding get_active_resource_plan expire_resource_change_plans
IsIssued-get_active server_id now s i = i

IsIssued-augment_baseline :
    (at server_id : ℕ) (baseline current : Payload) (row : Baseline) (s : Store)
    → IsIssued s
    → IsIssued (augment_baseline at server_id baseline current row s)
IsIssued-augment_baseline at server_id baseline current row s i =
    let (same, next) = events-augment_baseline at server_id baseline current row s in
    rw (same, next) i

plan-augment_baseline :
    (at server_id now : ℕ) (baseline current : Payload) (row : Baseline) (s : Store)
    → (get_active_resource_plan server_id now
        (augment_baseline at server_id baseline current row s)).1
      ≡ (get_active_resource_plan server_id now s).1
unfolding augment_baseline save_resource_baseline get_active_resource_plan
    expire_resource_change_plans
plan-augment_baseline at server_id now baseline current row s = ground arith

length-ne : (xs : List String) → xs ≢ [] → (length xs == 0) ≡ false
length-ne [] h = absurd (h refl)
length-ne (x ∷ xs) h = ground arith

augment_self : (p : Payload) → augment p p ≡ p
unfolding augment
augment_self p = ground arith

grows_self : (p : Payload) → grows p p ≡ false
unfolding grows
grows_self p = ground arith

module _ (one_decimal : ℕ → ℕ → String) (dump : Payload → String)
    (sha256_hex : String → String) where
  -- What is left when a change is reported, and what the report's finding is made of.
  pub record IsAlarm (server_id : ℕ) (current : Payload) (changes : List String) (s' : Store)
      (r : Result) : Type 0 where
    pub id : ℕ
    pub reported : IsReported server_id id current changes s'
    pub result : r ≡ raised reported.event.status changes id

  raise_event-IsAlarm :
      (at server_id : ℕ) (baseline current : Payload) (changes : List String) (s : Store)
      → IsIssued s
      → IsAlarm server_id current changes
          (raise_event one_decimal dump sha256_hex at server_id baseline current changes s).0
          (raise_event one_decimal dump sha256_hex at server_id baseline current changes s).1
  unfolding raise_event
  raise_event-IsAlarm at server_id baseline current changes s i =
      let reported =
        upsert-IsReported at server_id (fingerprint dump sha256_hex current) baseline current
          changes s i in
      let open_now = reported.newest_open in
      record { id = _; reported = reported; result = ground arith }

  -- No plan that is active for the server expects what is observed.
  abbrev pub IsUnplanned : ℕ → ℕ → Payload → Store → Type 0
  IsUnplanned at server_id current s =
      (p : Plan)
      → (get_active_resource_plan server_id at s).1 ≡ some p
      → payload_matches p.expected_payload current ≡ false

  judge_changes-IsAlarm :
      (at now server_id : ℕ) (baseline current : Payload) (changes : List String) (s : Store)
      → IsIssued s
      → IsUnplanned at server_id current s
      → IsAlarm server_id current changes
          (judge_changes one_decimal dump sha256_hex at now server_id baseline current changes s).0
          (judge_changes one_decimal dump sha256_hex at now server_id baseline current changes s).1
  unfolding judge_changes
  judge_changes-IsAlarm at now server_id baseline current changes s i unplanned =
      let alarm =
        raise_event-IsAlarm at server_id baseline current changes
          (get_active_resource_plan server_id at s).0 (IsIssued-get_active server_id at s i) in
      elim (Option-cases (get_active_resource_plan server_id at s).1) [
        | inl nothing ↦ rw (nothing, judge_changes) alarm
        | inr (p, active) ↦ rw (active, unplanned p active, judge_changes) alarm
      ]

  finding_of_open :
      (show : ℕ → String) (status : Status) (changes : List String) (id : ℕ)
      → is_open status ≡ true
      → (f : Finding) × (result_finding show (raised status changes id) ≡ some f)
  unfolding result_finding
  finding_of_open show status changes id waits =
      elim (Option-cases (result_finding show (raised status changes id))) [
        | inl silent ↦ absurd (ground arith)
        | inr (f, e) ↦ (f, e)
      ]

  module _ (at now server_id : ℕ) (raw : Payload) (s : Store) (row : Baseline)
      (some_sample : is_empty (normalize_payload raw) ≡ false)
      (known : get_resource_baseline server_id s ≡ some row) where
    -- A sample is reported that differs from the server's confirmed configuration, filled up from the
    -- sample where it says nothing, in a field of the hardware that both have, in a mount point or a
    -- disk that only one has, or in the size or the file system of one that both have, and that no
    -- active plan expects: the result carries the changes, of which there is one at least, the newest
    -- open event of the server holds them with the sample, and the report gets a finding.
    pub change_reported :
        (show : ℕ → String)
        → IsIssued s
        → Differs
            (normalize_payload (augment (normalize_payload row.payload) (normalize_payload raw)))
            (normalize_payload (normalize_payload raw))
        → IsUnplanned at server_id (normalize_payload raw) s
        → (compare_resource_payload one_decimal
              (augment (normalize_payload row.payload) (normalize_payload raw))
              (normalize_payload raw)
            ≢ [])
          × IsAlarm server_id
              (normalize_payload raw)
              (compare_resource_payload one_decimal
                (augment (normalize_payload row.payload) (normalize_payload raw))
                (normalize_payload raw))
              (evaluate_resource_configuration one_decimal dump sha256_hex at now server_id raw s).0
              (evaluate_resource_configuration one_decimal dump sha256_hex at now server_id raw s).1
          × ((f : Finding) × (result_finding show
                  (evaluate_resource_configuration one_decimal dump sha256_hex at now server_id raw
                    s).1
                ≡ some f))
    unfolding evaluate_resource_configuration judge
    change_reported show i differs unplanned =
        let current = normalize_payload raw in
        let old = normalize_payload row.payload in
        let changes = compare_resource_payload one_decimal (augment old current) current in
        let named = compare-Differs one_decimal (augment old current) current differs in
        let s₁ = augment_baseline at server_id old current row s in
        let alarm =
          judge_changes-IsAlarm at now server_id (augment old current) current changes s₁
            (IsIssued-augment_baseline at server_id old current row s i)
            (λ p active.
              unplanned p
                (sym (plan-augment_baseline at server_id at old current row s) ∙ active)) in
        let (f, e) =
          finding_of_open show alarm.reported.event.status changes alarm.id alarm.reported.waits in
        rw (some_sample, known, length-ne changes named, evaluate_resource_configuration, judge)
          (named, alarm, (f, rw alarm.result e))

    -- A sample that is the confirmed configuration, once both are normalized, is normal and changes
    -- nothing, as long as no event of the server is open.
    pub accepted_quiet :
        normalize_payload row.payload ≡ normalize_payload raw
        → get_open_resource_change_event server_id s ≡ none
        → evaluate_resource_configuration one_decimal dump sha256_hex at now server_id raw s
          ≡ (s, normal)
    unfolding evaluate_resource_configuration judge settle_event augment_baseline
    accepted_quiet same closed =
        let current = normalize_payload raw in
        ground (
          arith,
          augment_self current,
          grows_self current,
          compare-same one_decimal current current refl,
        )
