-- ===== src/Resource/Tests.antt =====
-- Resource: tests and instances. The parameters are small functions of the right types.
use ops_inspection_system.Common.{
  ℕ, String, ◌<>◌, true, false, none, some, List, [], ◌∷◌, ◌≡◌, ◌≢◌, refl, inl, sym, ◌∙◌, ◌==◌,
  arith, string_eq, number_eq, strip, contains, find, update_where, count,
}
use ops_inspection_system.Resource.{
  Disk, Payload, clean_text, normalize_payload, compare_resource_payload, hardware_change,
  mount_change, mount_changes, device_change, device_changes, disk_changes, only_in, in_both,
  item_at, for_each,
}
use ops_inspection_system.Resource.Order.{text_leb, insert, sort, unique}
use ops_inspection_system.Resource.Store.{
  Baseline, Event, Status, pending, Store, newest, get_resource_baseline, save_resource_baseline,
  get_active_resource_plan, expire_resource_change_plans,
}
use ops_inspection_system.Resource.Store.Changes.{
  get_open_resource_change_event, get_resource_change_event, decide_resource_change_event,
  write_decision, decided_status,
}
use ops_inspection_system.Resource.Evaluate.{
  normal, is_empty, augment, evaluate_resource_configuration, Finding, result_finding,
}
use ops_inspection_system.Resource.Events.{IsDecision, decide_sound}
use ops_inspection_system.Resource.Operations.{Op, observe, recover, judge, steps}
use ops_inspection_system.Resource.Closed.{decided_once}
use ops_inspection_system.Common.{text_length}
use ops_inspection_system.Web.{answer}
use ops_inspection_system.Resource.Request.{
  Decider, Desk, api_decide_resource_event, decide_checked, decide_event, write_event_decision,
  is_safe_display_text, IsDecided, api_decide_resource_event_sound,
}
use ops_inspection_system.Resource.Differs.{TextDiffers, Differs}
use ops_inspection_system.Resource.Alarms.{IsAlarm, change_reported, accepted_quiet}

abbrev one_decimal : ℕ → ℕ → String
one_decimal a b = "1.0"

abbrev dump : Payload → String
dump p = p.cpu <> p.memory

abbrev digest : String → String
digest s = "sha256:" <> s

abbrev show : ℕ → String
show n = "n"

abbrev disk : ℕ → Disk
disk size = record {
  mounts = record { mount = "/data"; device = "/dev/sdb"; fstype = "xfs"; size_kb = size } ∷ [];
  devices = record { name = "sda"; uuid = ""; size_bytes = 1000000000 } ∷ [];
}

abbrev payload : String → Payload
payload cpu = record { cpu = cpu; memory = "16 GB"; storage = "未知"; disk = some (disk 1048576) }

abbrev baseline : Baseline
baseline = record {
  server_id = 7;
  payload = payload "4 核";
  version = 3;
  source = "initial";
  accepted_by = "";
  accepted_reason = "";
  accepted_at = 10;
  updated_at = 10;
}

abbrev event_with : Status → Event
event_with status = record {
  id = 1;
  server_id = 7;
  fingerprint = "f";
  baseline_payload = payload "4 核";
  observed_payload = payload "8 核";
  change_detail = "CPU 4 核 → 8 核" ∷ [];
  status = status;
  first_seen_at = 50;
  last_seen_at = 50;
  decided_by = none;
  decision_reason = none;
  decided_at = none;
}

abbrev store : List Event → ℕ → Store
store events next = record {
  baselines = baseline ∷ [];
  plans = [];
  next_plan = 1;
  events = events;
  next_event = next;
}

tables : Unit {0}
unfolding normalize_payload compare_resource_payload hardware_change mount_change mount_changes
    device_change device_changes disk_changes only_in in_both item_at for_each text_leb insert sort
    unique clean_text strip contains string_eq number_eq find update_where count newest
    get_resource_baseline save_resource_baseline get_active_resource_plan
    expire_resource_change_plans get_open_resource_change_event get_resource_change_event
    decide_resource_change_event write_decision decided_status augment
tables = tt

compare_test :
    compare_resource_payload one_decimal (payload "4 核") (payload "8 核") ≡ "CPU 4 核 → 8 核" ∷ []
unfolding tables
compare_test = refl

same_payload : normalize_payload (payload "4 核") ≡ normalize_payload (payload " 4 核 ")
unfolding tables
same_payload = refl

abbrev settled : Store
settled =
    (decide_resource_change_event 90 1 "normal" "扩容" "li" (store (event_with pending ∷ []) 2)).0

decision_taken :
    decide_resource_change_event 90 1 "normal" "扩容" "li" (store (event_with pending ∷ []) 2)
    ≡ (settled, true)
unfolding tables
decision_taken = refl

decide_sound_example : IsDecision 1 "normal" (store (event_with pending ∷ []) 2) settled
decide_sound_example =
    decide_sound 90 1 "normal" "扩容" "li" (store (event_with pending ∷ []) 2) settled decision_taken

normal_ne_abnormal : ◌≢◌ {A = String} "normal" "abnormal"
normal_ne_abnormal = cc

-- The change is seen again, goes away and is judged again.
abbrev since : List Op
since =
    observe 91 7 "f" (payload "8 核") (payload "4 核") ("CPU 8 核 → 4 核" ∷ [])
    ∷ recover 92 1
    ∷ judge 93 2 "abnormal" "误判" "wu"
    ∷ []

decided_once_example :
    decide_resource_change_event 95 1 "abnormal" "误判" "wu" (steps since settled)
    ≡ (steps since settled, false)
decided_once_example =
    decided_once 90 95 1 "normal" "扩容" "li" "abnormal" "误判" "wu" since
      (store (event_with pending ∷ []) 2) settled (omega arith, tt) normal_ne_abnormal
      decision_taken

sampled : (cpu : String) → is_empty (normalize_payload (payload cpu)) ≡ false
unfolding normalize_payload clean_text strip string_eq
sampled cpu = ground arith

known : get_resource_baseline 7 (store [] 1) ≡ some baseline
unfolding tables
known = refl

four_said : ◌≢◌ {A = String} "4 核" ""
four_said = cc

eight_said : ◌≢◌ {A = String} "8 核" ""
eight_said = cc

unequal : (s t : String) → (s == t) ≡ false → s ≢ t
unequal s t e p = absurd (ground arith)

eight_is_other : ◌==◌ {A = String} "4 核" "8 核" ≡ false
unfolding string_eq
eight_is_other = refl

cpu_differs : (s t : String) → s ≡ "4 核" → t ≡ "8 核" → TextDiffers s t
cpu_differs s t e f = (
  λ p. four_said (sym e ∙ p),
  λ p. eight_said (sym f ∙ p),
  λ p. unequal "4 核" "8 核" eight_is_other (sym e ∙ (p ∙ f)),
)

was :
    (normalize_payload
      (augment (normalize_payload (payload "4 核")) (normalize_payload (payload "8 核")))).cpu
    ≡ "4 核"
unfolding tables
was = refl

is_now : (normalize_payload (normalize_payload (payload "8 核"))).cpu ≡ "8 核"
unfolding tables
is_now = refl

differs :
    Differs
      (normalize_payload
        (augment (normalize_payload (payload "4 核")) (normalize_payload (payload "8 核"))))
      (normalize_payload (normalize_payload (payload "8 核")))
differs = inl (cpu_differs _ _ was is_now)

no_plan : (get_active_resource_plan 7 60 (store [] 1)).1 ≡ none
unfolding tables
no_plan = refl

change_reported_example :
    (compare_resource_payload one_decimal
        (augment (normalize_payload (payload "4 核")) (normalize_payload (payload "8 核")))
        (normalize_payload (payload "8 核"))
      ≢ [])
    × IsAlarm one_decimal dump digest 7
        (normalize_payload (payload "8 核"))
        (compare_resource_payload one_decimal
          (augment (normalize_payload (payload "4 核")) (normalize_payload (payload "8 核")))
          (normalize_payload (payload "8 核")))
        (evaluate_resource_configuration one_decimal dump digest 60 61 7
          (payload "8 核")
          (store [] 1)).0
        (evaluate_resource_configuration one_decimal dump digest 60 61 7
          (payload "8 核")
          (store [] 1)).1
    × ((f : Finding) × (result_finding show
            (evaluate_resource_configuration one_decimal dump digest 60 61 7
              (payload "8 核")
              (store [] 1)).1
          ≡ some f))
change_reported_example =
    change_reported one_decimal dump digest 60 61 7 (payload "8 核") (store [] 1) baseline
      (sampled "8 核") known show tt differs (λ p active. absurd (cc (no_plan, active)))

none_open : get_open_resource_change_event 7 (store [] 1) ≡ none
unfolding tables
none_open = refl

accepted_quiet_example :
    evaluate_resource_configuration one_decimal dump digest 60 61 7 (payload " 4 核 ") (store [] 1)
    ≡ (store [] 1, normal)
accepted_quiet_example =
    accepted_quiet one_decimal dump digest 60 61 7 (payload " 4 核 ") (store [] 1) baseline
      (sampled " 4 核 ") known same_payload none_open

abbrev decider : Decider
decider = record { username = "li"; client_ip = "10.0.0.1" }

abbrev desk : Desk
desk = record { store = store (event_with pending ∷ []) 2; audits = [] }

abbrev desk_after : Desk
desk_after = (api_decide_resource_event show 90 1 " normal " "按计划扩容" decider desk).0

requests : Unit {0}
unfolding tables api_decide_resource_event decide_checked decide_event write_event_decision
    is_safe_display_text text_length
requests = tt

is_accepted :
    api_decide_resource_event show 90 1 " normal " "按计划扩容" decider desk
    ≡ (desk_after, answer 200 true "")
unfolding requests
is_accepted = refl

api_decide_resource_event_sound_example :
    IsDecided show 1 (strip " normal ") (strip "按计划扩容") desk desk_after
api_decide_resource_event_sound_example =
    api_decide_resource_event_sound show 90 1 " normal " "按计划扩容" decider desk desk_after ""
      is_accepted

-- A change that is still there cannot be closed as resolved.
not_gone_test :
    (api_decide_resource_event show 90 1 "resolved" "已恢复" decider desk).1
    ≡ answer 409 false "只有已恢复待确认的记录才能关闭"
unfolding requests
not_gone_test = refl
