-- ===== src/Resource/Events.antt =====
-- What the tables of confirmed configurations and of observed changes hold after an operation.
use ops_inspection_system.Common.{find-update_hit}
use ops_inspection_system.Common.{
  ℕ, ◌+◌, String, Bool, true, Option, none, some, List, [], ◌∷◌, ◌++◌, ◌≡◌, ◌≢◌, refl, sym, subst,
  arith, find, update_where, Bool-cases, Option-cases, inl, inr, string_eq, number_eq, ◌==◌,
}
use ops_inspection_system.Resource.{Payload}
use ops_inspection_system.Resource.Store.{
  Baseline, Event, Status, Store, of_server, get_resource_baseline, accept, first_baseline,
  save_resource_baseline,
}
use ops_inspection_system.Resource.Store.Changes.{
  is_open, has_id, get_resource_change_event, decide, decided_status, write_decision,
  decide_resource_change_event,
}

find-append_last {ℓ} :
    {A : Type ℓ} (p : A → Bool) (xs : List A) (x : A)
    → find p xs ≡ none
    → p x ≡ true
    → find p (xs ++ x ∷ []) ≡ some x
unfolding find
find-append_last p [] x e h = ground arith
find-append_last p (y ∷ xs) x e h = ground (arith, find-append_last p xs x)

-- The version that a server's next confirmed configuration bears.
abbrev pub next_version : Option Baseline → ℕ
next_version none = 1
next_version (some b) = b.version + 1

-- What is saved is what is read, one version on.
pub baseline_saved :
    (at server_id : ℕ) (payload : Payload) (source by reason : String) (s : Store)
    → (b : Baseline) × (get_resource_baseline server_id
          (save_resource_baseline at server_id payload source by reason s)
        ≡ some b)
      × (b.payload ≡ payload)
      × (b.version ≡ next_version (get_resource_baseline server_id s))
unfolding save_resource_baseline get_resource_baseline
baseline_saved at server_id payload source by reason s =
    elim (Option-cases (find (of_server server_id) s.baselines)) [
      | inl first ↦ (
        first_baseline at server_id payload source by reason,
        rw (first, save_resource_baseline)
            (find-append_last (of_server server_id) s.baselines
              (first_baseline at server_id payload source by reason) first (ground arith)),
        refl,
        ground arith,
      )
      | inr (b, there) ↦ (
        accept at payload source by reason b,
        rw (there, save_resource_baseline)
            (find-update_hit (of_server server_id) (accept at payload source by reason) s.baselines
              b (λ c. refl) there),
        refl,
        ground arith,
      )
    ]

normal_ne_abnormal : ◌≢◌ {A = String} "normal" "abnormal"
normal_ne_abnormal = cc

normal_ne_resolved : ◌≢◌ {A = String} "normal" "resolved"
normal_ne_resolved = cc

-- What a decision that took effect has done: the event was open and bears its conclusion; one that is
-- found normal made its observed payload the confirmed configuration, one version on, and any other
-- conclusion left the confirmed configurations alone.
pub record IsDecision (id : ℕ) (decision : String) (s s' : Store) : Type 0 where
  pub event : Event
  pub found : get_resource_change_event id s ≡ some event
  pub was_open : is_open event.status ≡ true
  pub status : Status
  pub meant : decided_status decision ≡ some status
  pub after : Event
  pub there : get_resource_change_event id s' ≡ some after
  pub concluded : after.status ≡ status
  pub accepted :
      decision ≡ "normal"
      → (b : Baseline) × (get_resource_baseline event.server_id s' ≡ some b)
        × (b.payload ≡ event.observed_payload)
        × (b.version ≡ next_version (get_resource_baseline event.server_id s))
  pub kept : decision ≢ "normal" → s'.baselines ≡ s.baselines

pub id_of_event :
    (id : ℕ) (events : List Event) (e : Event) → find (has_id id) events ≡ some e → e.id ≡ id
unfolding find
id_of_event id [] e h = absurd (cc)
id_of_event id (x ∷ events) e h = ground (arith, id_of_event id events e)

pub events-save :
    (at server_id : ℕ) (payload : Payload) (source by reason : String) (s : Store)
    → (save_resource_baseline at server_id payload source by reason s).events ≡ s.events
unfolding save_resource_baseline
events-save at server_id payload source by reason s = ground arith

pub events-write_decision :
    (now : ℕ) (e : Event) (decision : String) (status : Status) (reason by : String) (s : Store)
    → (write_decision now e decision status reason by s).events
      ≡ update_where (has_id e.id) (decide now status reason by) s.events
unfolding write_decision
events-write_decision now e decision status reason by s = elim (Bool-cases (decision == "normal")) [
  | inl accepts ↦
      rw (accepts, write_decision)
        (events-save now e.server_id e.observed_payload "manual" by reason _)
  | inr other ↦ rw (other, write_decision) refl
]

event-write_decision :
    (now id : ℕ) (e : Event) (decision : String) (status : Status) (reason by : String) (s : Store)
    → get_resource_change_event id s ≡ some e
    → get_resource_change_event id (write_decision now e decision status reason by s)
      ≡ some (decide now status reason by e)
unfolding get_resource_change_event
event-write_decision now id e decision status reason by s found =
    rw (events-write_decision now e decision status reason by s) (
      subst
        (λ n.
          find (has_id id) (update_where (has_id n) (decide now status reason by) s.events)
          ≡ some (decide now status reason by e))
        (sym (id_of_event id s.events e found))
        (find-update_hit (has_id id) (decide now status reason by) s.events e (λ x. refl) found))

pub decide_open :
    (now id : ℕ) (decision reason by : String) (s s' : Store)
    → decide_resource_change_event now id decision reason by s ≡ (s', true)
    → (e : Event) × (status : Status) × (decided_status decision ≡ some status)
      × (get_resource_change_event id s ≡ some e)
      × (is_open e.status ≡ true)
      × (s' ≡ write_decision now e decision status reason by s)
unfolding decide_resource_change_event
decide_open now id decision reason by s s' e = elim (Option-cases (decided_status decision)) [
  | inl unknown ↦ absurd (ground arith)
  | inr (status, meant) ↦ elim (Option-cases (get_resource_change_event id s)) [
    | inl missing ↦ absurd (ground arith)
    | inr (row, found) ↦ (row, status, meant, found, ground arith, ground arith)
  ]
]

accepted_by_normal :
    (now : ℕ) (e : Event) (decision : String) (status : Status) (reason by : String) (s : Store)
    → decision ≡ "normal"
    → (b : Baseline) × (get_resource_baseline e.server_id
          (write_decision now e decision status reason by s)
        ≡ some b)
      × (b.payload ≡ e.observed_payload)
      × (b.version ≡ next_version (get_resource_baseline e.server_id s))
unfolding write_decision get_resource_baseline
accepted_by_normal now e decision status reason by s normal =
    let on : (decision == "normal") ≡ true = ground arith in
    rw (on, write_decision)
      (baseline_saved now e.server_id e.observed_payload "manual" by reason
        (record s { events = update_where (has_id e.id) (decide now status reason by) s.events }))

kept_otherwise :
    (now : ℕ) (e : Event) (decision : String) (status : Status) (reason by : String) (s : Store)
    → decision ≢ "normal"
    → (write_decision now e decision status reason by s).baselines ≡ s.baselines
unfolding write_decision
kept_otherwise now e decision status reason by s other = ground arith

-- A decision that is answered with success is one in the sense of `IsDecision`: the conclusion and
-- the confirmed configuration change together.
pub decide_sound :
    (now id : ℕ) (decision reason by : String) (s s' : Store)
    → decide_resource_change_event now id decision reason by s ≡ (s', true)
    → IsDecision id decision s s'
decide_sound now id decision reason by s s' e =
    let (row, status, meant, found, was_open, after) =
      decide_open now id decision reason by s s' e in
    rw after (record {
      event = row;
      found = found;
      was_open = was_open;
      status = status;
      meant = meant;
      after = decide now status reason by row;
      there = event-write_decision now id row decision status reason by s found;
      concluded = refl;
      accepted = accepted_by_normal now row decision status reason by s;
      kept = kept_otherwise now row decision status reason by s;
    })
