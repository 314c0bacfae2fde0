-- ===== src/Resource/Store/Changes.antt =====
-- models.py: the operations on observed changes, with the decision that closes one.
use ops_inspection_system.Common.{
  ℕ, suc, String, Bool, true, false, Option, none, some, List, [], ◌∷◌, ◌++◌, ◌&&◌, ◌==◌, string_eq,
  number_eq, not, if◌then◌else◌, update_where, find, select,
}
use ops_inspection_system.Resource.{Payload}
use ops_inspection_system.Resource.Store.{
  Plan, Status, pending, confirmed_abnormal, recovered_pending, confirmed_normal, resolved, Event,
  Store, newest, of_server, save_resource_baseline,
}

-- RESOURCE_EVENT_OPEN_STATUSES
abbrev pub is_open : Status → Bool
is_open pending = true
is_open confirmed_abnormal = true
is_open recovered_pending = true
is_open _ = false

abbrev pub open_at : ℕ → Event → Bool
open_at server_id e = e.server_id == server_id && is_open e.status

abbrev pub event_id : Event → ℕ
event_id e = e.id

unfoldable pub get_open_resource_change_event : ℕ → Store → Option Event
get_open_resource_change_event server_id s = newest event_id (open_at server_id) s.events

abbrev pub has_id : ℕ → Event → Bool
has_id id e = e.id == id

unfoldable pub get_resource_change_event : ℕ → Store → Option Event
get_resource_change_event id s = find (has_id id) s.events

-- CASE WHEN status='recovered_pending' THEN 'pending' ELSE status END
abbrev pub reopened : Status → Status
reopened recovered_pending = pending
reopened status = status

abbrev pub see_again : ℕ → Payload → List String → Event → Event
see_again at observed changes e = record e {
  observed_payload = observed;
  change_detail = changes;
  last_seen_at = at;
  status = reopened e.status;
}

abbrev pub fresh_event : ℕ → ℕ → ℕ → String → Payload → Payload → List String → Event
fresh_event id at server_id fingerprint baseline observed changes = record {
  id = id;
  server_id = server_id;
  fingerprint = fingerprint;
  baseline_payload = baseline;
  observed_payload = observed;
  change_detail = changes;
  status = pending;
  first_seen_at = at;
  last_seen_at = at;
  decided_by = none;
  decision_reason = none;
  decided_at = none;
}

abbrev pub same_fingerprint : String → Option Event → Option Event
same_fingerprint fingerprint none = none
same_fingerprint fingerprint (some e) = if e.fingerprint == fingerprint then some e else none

-- `upsert_resource_change_event`, with the id of the event.
unfoldable pub upsert_resource_change_event :
    ℕ → ℕ → String → Payload → Payload → List String → Store → Store × ℕ
upsert_resource_change_event at server_id fingerprint baseline observed changes s =
    elim (same_fingerprint fingerprint (get_open_resource_change_event server_id s)) [
      | some e ↦ (
        record s { events = update_where (has_id e.id) (see_again at observed changes) s.events },
        e.id,
      )
      | none ↦ (
        record s {
          events =
              s.events
              ++ fresh_event s.next_event at server_id fingerprint baseline observed changes ∷ [];
          next_event = suc s.next_event;
        },
        s.next_event,
      )
    ]

abbrev pub unsettled : Status → Bool
unsettled pending = true
unsettled confirmed_abnormal = true
unsettled _ = false

-- `mark_resource_event_recovered`
unfoldable pub mark_resource_event_recovered : ℕ → ℕ → Store → Store
mark_resource_event_recovered at id s = record s {
  events =
      update_where (λ e. has_id id e && unsettled e.status)
        (λ e. record e { status = recovered_pending; last_seen_at = at }) s.events;
}

-- The dict `statuses` of `decide_resource_change_event`.
unfoldable pub decided_status : String → Option Status
decided_status decision =
    if decision == "normal"
    then some confirmed_normal
    else if decision == "abnormal"
    then some confirmed_abnormal
    else if decision == "resolved"
    then some resolved
    else none

abbrev pub decide : ℕ → Status → String → String → Event → Event
decide now status reason by e = record e {
  status = status;
  decided_by = some by;
  decision_reason = some reason;
  decided_at = some now;
}

-- The part of the transaction after the checks.
unfoldable pub write_decision : ℕ → Event → String → Status → String → String → Store → Store
write_decision now e decision status reason by s =
    let s₁ = record s {
      events = update_where (has_id e.id) (decide now status reason by) s.events;
    } in
    if decision == "normal"
    then save_resource_baseline now e.server_id e.observed_payload "manual" by reason s₁
    else s₁

-- `decide_resource_change_event`; the two statements stand in one transaction.
unfoldable pub decide_resource_change_event :
    ℕ → ℕ → String → String → String → Store → Store × Bool
decide_resource_change_event now id decision reason by s = elim (decided_status decision) [
  | none ↦ (s, false)
  | some status ↦ elim (get_resource_change_event id s) [
    | none ↦ (s, false)
    | some e ↦
        if is_open e.status
        then (write_decision now e decision status reason by s, true)
        else (s, false)
  ]
]

-- `reset_resource_configuration`, the three tables of this model.
unfoldable pub reset_resource_configuration : ℕ → Store → Store
reset_resource_configuration server_id s = record s {
  baselines = select (λ b. not (of_server server_id b)) s.baselines;
  plans = select (λ (p : Plan). not (p.server_id == server_id)) s.plans;
  events = select (λ (e : Event). not (e.server_id == server_id)) s.events;
}
