-- ===== src/Resource/Closed.antt =====
-- models.py: an observed change that a decision closed stays closed, whatever the tables go through.
use ops_inspection_system.Common.{
  ℕ, ◌<◌, String, Bool, true, false, some, List, [], ◌∷◌, ◌≡◌, ◌≢◌, sym, subst, arith, All,
  All-append, find, update_where, select, Bool-cases, Option-cases, inl, inr, string_eq, number_eq,
  ◌==◌,
}
use ops_inspection_system.Resource.{Payload}
use ops_inspection_system.Resource.Store.{
  Status, Event, Store, save_resource_baseline, add_resource_change_plan,
  update_resource_change_plan, expire_resource_change_plans, get_active_resource_plan,
  finish_resource_change_plan,
}
use ops_inspection_system.Resource.Store.Changes.{
  is_open, has_id, see_again, same_fingerprint, get_resource_change_event,
  get_open_resource_change_event, upsert_resource_change_event, mark_resource_event_recovered,
  decided_status, decide, write_decision, decide_resource_change_event,
  reset_resource_configuration,
}
use ops_inspection_system.Resource.Events.{
  id_of_event, events-save, events-write_decision, decide_open,
}
use ops_inspection_system.Resource.Reports.{IsIssued}
use ops_inspection_system.Resource.Operations.{
  Op, observe, recover, judge, save, add_plan, update_plan, expire_plans, find_plan, finish_plan,
  reset, step, steps,
}

-- The event is closed or gone.
abbrev IsShutIn : ℕ → Event → Type 0
IsShutIn id e = e.id ≡ id → is_open e.status ≡ false

-- The id was handed out, and no event that bears it is open.
abbrev IsShut : ℕ → Store → Type 0
IsShut id s = (id < s.next_event) × All (IsShutIn id) s.events

update-IsShutIn :
    (id : ℕ) (p : Event → Bool) (f : Event → Event) (es : List Event)
    → ((e : Event) → p e ≡ true → IsShutIn id e → IsShutIn id (f e))
    → All (IsShutIn id) es
    → All (IsShutIn id) (update_where p f es)
unfolding update_where
update-IsShutIn id p f [] keeps h = tt
update-IsShutIn id p f (e ∷ es) keeps (h, hs) = elim (Bool-cases (p e)) [
  | inl hit ↦ rw (hit, update_where) (keeps e hit h, update-IsShutIn id p f es keeps hs)
  | inr miss ↦ rw (miss, update_where) (h, update-IsShutIn id p f es keeps hs)
]

select-IsShutIn :
    (id : ℕ) (p : Event → Bool) (es : List Event)
    → All (IsShutIn id) es
    → All (IsShutIn id) (select p es)
select-IsShutIn id p [] h = tt
select-IsShutIn id p (e ∷ es) (h, hs) = elim (Bool-cases (p e)) [
  | inl kept ↦ rw (kept, select) (h, select-IsShutIn id p es hs)
  | inr dropped ↦ rw (dropped, select) (select-IsShutIn id p es hs)
]

found-IsShutIn :
    (id : ℕ) (es : List Event) (e : Event)
    → All (IsShutIn id) es
    → find (has_id id) es ≡ some e
    → is_open e.status ≡ false
unfolding find
found-IsShutIn id [] e h found = absurd (cc)
found-IsShutIn id (x ∷ es) e (h, hs) found = elim (Bool-cases (x.id == id)) [
  | inl here ↦ let same : x.id ≡ id = ground arith in let shut = h same in ground arith
  | inr there ↦ found-IsShutIn id es e hs (ground arith)
]

-- A closed event is refused.
refused :
    (id now : ℕ) (decision reason by : String) (s : Store)
    → IsShut id s
    → decide_resource_change_event now id decision reason by s ≡ (s, false)
unfolding decide_resource_change_event get_resource_change_event
refused id now decision reason by s (issued, shut) = elim (Option-cases (decided_status decision)) [
  | inl unknown ↦ ground arith
  | inr (status, meant) ↦ elim (Option-cases (find (has_id id) s.events)) [
    | inl gone ↦ ground arith
    | inr (e, there) ↦ let closed = found-IsShutIn id s.events e shut there in ground arith
  ]
]

observe-IsShut :
    (id at server_id : ℕ) (fingerprint : String) (baseline observed : Payload)
    (changes : List String) (s : Store)
    → IsShut id s
    → IsShut id
        (upsert_resource_change_event at server_id fingerprint baseline observed changes s).0
unfolding upsert_resource_change_event
observe-IsShut id at server_id fingerprint baseline observed changes s (issued, shut) =
    elim (Option-cases
      (same_fingerprint fingerprint (get_open_resource_change_event server_id s))) [
        | inl fresh ↦
            rw (fresh, upsert_resource_change_event)
              (
                omega (arith, issued),
                All-append (IsShutIn id) s.events _ shut
                    (λ same. absurd (omega (arith, issued, same)), tt),
              )
        | inr (e, known) ↦
            rw (known, upsert_resource_change_event)
              (
                issued,
                update-IsShutIn id (has_id e.id) (see_again at observed changes) s.events
                    (λ x hit h same. let closed = h same in ground arith) shut,
              )
      ]

next-save :
    (at server_id : ℕ) (payload : Payload) (source by reason : String) (s : Store)
    → (save_resource_baseline at server_id payload source by reason s).next_event ≡ s.next_event
unfolding save_resource_baseline
next-save at server_id payload source by reason s = ground arith

next-write_decision :
    (now : ℕ) (e : Event) (decision : String) (status : Status) (reason by : String) (s : Store)
    → (write_decision now e decision status reason by s).next_event ≡ s.next_event
unfolding write_decision
next-write_decision now e decision status reason by s = ground (
  arith,
  next-save now e.server_id e.observed_payload "manual" by reason
      (record s { events = update_where (has_id e.id) (decide now status reason by) s.events }),
)

-- A decision on another event.
written-IsShut :
    (id now : ℕ) (e : Event) (decision : String) (status : Status) (reason by : String) (s : Store)
    → e.id ≢ id
    → IsShut id s
    → IsShut id (write_decision now e decision status reason by s)
written-IsShut id now e decision status reason by s other (issued, shut) =
    rw
      (
        next-write_decision now e decision status reason by s,
        events-write_decision now e decision status reason by s,
      )
      (
        issued,
        update-IsShutIn id (has_id e.id) (decide now status reason by) s.events
            (λ x hit h same. absurd (ground (arith, other))) shut,
      )

judge-IsShut :
    (id now other : ℕ) (decision reason by : String) (s : Store)
    → IsShut id s
    → IsShut id (decide_resource_change_event now other decision reason by s).0
unfolding decide_resource_change_event get_resource_change_event
judge-IsShut id now other decision reason by s (issued, shut) = elim (Bool-cases (other == id)) [
  | inl here ↦
      let same : id ≡ other = ground arith in
      subst (λ n. IsShut id (decide_resource_change_event now n decision reason by s).0) same
        (rw (refused id now decision reason by s (issued, shut)) (issued, shut))
  | inr there ↦ elim (Option-cases (decided_status decision)) [
    | inl unknown ↦ rw (unknown, decide_resource_change_event) (issued, shut)
    | inr (status, meant) ↦ elim (Option-cases (find (has_id other) s.events)) [
      | inl gone ↦ rw (meant, gone, decide_resource_change_event) (issued, shut)
      | inr (e, found) ↦ elim (Bool-cases (is_open e.status)) [
        | inr closed ↦ rw (meant, found, closed, decide_resource_change_event) (issued, shut)
        | inl waits ↦
            rw (meant, found, waits, decide_resource_change_event)
              (written-IsShut id now e decision status reason by s
                (λ same. absurd (ground (arith, id_of_event other s.events e found, same)))
                (issued, shut))
      ]
    ]
  ]
]

step-IsShut : (id : ℕ) (op : Op) (s : Store) → IsShut id s → IsShut id (step op s)
unfolding mark_resource_event_recovered add_resource_change_plan update_resource_change_plan
    expire_resource_change_plans get_active_resource_plan finish_resource_change_plan
    reset_resource_configuration
step-IsShut id (observe at server_id fingerprint baseline observed changes) s h =
    observe-IsShut id at server_id fingerprint baseline observed changes s h
step-IsShut id (recover at other) s (issued, shut) = (
  issued,
  update-IsShutIn id _ _ s.events (λ x hit h same. let closed = h same in ground arith) shut,
)
step-IsShut id (judge now other decision reason by) s h =
    judge-IsShut id now other decision reason by s h
step-IsShut id (save at server_id payload source by reason) s (issued, shut) =
    rw
      (
        next-save at server_id payload source by reason s,
        events-save at server_id payload source by reason s,
      )
      (issued, shut)
step-IsShut id (add_plan now server_id expected window_start window_end reason ticket_no by) s h = h
step-IsShut id (update_plan other expected window_start window_end reason ticket_no) s h = h
step-IsShut id (expire_plans now) s h = h
step-IsShut id (find_plan server_id now) s h = h
step-IsShut id (finish_plan at other status) s h = h
step-IsShut id (reset server_id) s (issued, shut) = (issued, select-IsShutIn id _ s.events shut)

steps-IsShut : (id : ℕ) (ops : List Op) (s : Store) → IsShut id s → IsShut id (steps ops s)
steps-IsShut id [] s h = h
steps-IsShut id (op ∷ ops) s h = steps-IsShut id ops (step op s) (step-IsShut id op s h)

closed_status :
    (decision : String) (status : Status)
    → decided_status decision ≡ some status
    → decision ≢ "abnormal"
    → is_open status ≡ false
unfolding decided_status
closed_status decision status e h = ground arith

closing-IsShutIn :
    (id now : ℕ) (status : Status) (reason by : String) (es : List Event)
    → is_open status ≡ false
    → All (IsShutIn id) (update_where (has_id id) (decide now status reason by) es)
unfolding update_where
closing-IsShutIn id now status reason by [] closed = tt
closing-IsShutIn id now status reason by (e ∷ es) closed = elim (Bool-cases (has_id id e)) [
  | inl hit ↦
      rw (hit, update_where) (λ same. closed, closing-IsShutIn id now status reason by es closed)
  | inr miss ↦
      rw (miss, update_where)
        (λ same. absurd (ground arith), closing-IsShutIn id now status reason by es closed)
]

issued_found :
    (next id : ℕ) (es : List Event) (e : Event)
    → All (λ (x : Event). x.id < next) es
    → find (has_id id) es ≡ some e
    → e.id < next
unfolding find
issued_found next id [] e h found = absurd (cc)
issued_found next id (x ∷ es) e (h, hs) found = elim (Bool-cases (x.id == id)) [
  | inl here ↦ ground (arith, h)
  | inr there ↦ issued_found next id es e hs (ground arith)
]

decided-IsShut :
    (now id : ℕ) (decision reason by : String) (s s' : Store)
    → IsIssued s
    → decision ≢ "abnormal"
    → decide_resource_change_event now id decision reason by s ≡ (s', true)
    → IsShut id s'
unfolding get_resource_change_event
decided-IsShut now id decision reason by s s' i other e =
    let (row, status, meant, found, was_open, after) =
      decide_open now id decision reason by s s' e in
    let same = id_of_event id s.events row found in
    rw
      (
        after,
        next-write_decision now row decision status reason by s,
        events-write_decision now row decision status reason by s,
      )
      (
        subst (λ n. n < s.next_event) same (issued_found s.next_event id s.events row i found),
        subst
            (λ n.
              All (IsShutIn id) (update_where (has_id n) (decide now status reason by) s.events))
            (sym same)
            (closing-IsShutIn id now status reason by s.events
              (closed_status decision status meant other)),
      )

-- An event that was found normal or resolved cannot be decided again: after any sequence of operations
-- of the tables of configurations, plans and events, every decision on it is refused and changes
-- nothing. The ids of the events before were handed out by the table.
pub decided_once :
    (now later id : ℕ) (decision reason by again reason' by' : String) (ops : List Op)
    (s s' : Store)
    → IsIssued s
    → decision ≢ "abnormal"
    → decide_resource_change_event now id decision reason by s ≡ (s', true)
    → decide_resource_change_event later id again reason' by' (steps ops s') ≡ (steps ops s', false)
decided_once now later id decision reason by again reason' by' ops s s' i other e =
    refused id later again reason' by' (steps ops s')
      (steps-IsShut id ops s' (decided-IsShut now id decision reason by s s' i other e))
