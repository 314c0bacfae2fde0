-- ===== src/Resource/Evaluate.antt =====
-- resource_audit.py: `evaluate_resource_configuration` and `result_finding`. Parameters: `one_decimal`
-- as in Resource; `dump` the JSON text of a payload with sorted keys; `sha256_hex` the digest; `show`
-- the decimal text of a number. `at` is the time that the caller gives, `now` the clock's.
use ops_inspection_system.Common.{
  ℕ, ◌-◌, String, ◌<>◌, Bool, true, false, Option, none, some, List, [], ◌∷◌, ◌==◌, ltb, length,
  take, not, ◌&&◌, string_eq, number_eq, if◌then◌else◌,
}
use ops_inspection_system.Resource.{
  Payload, Disk, normalize_payload, has_hardware, compare_resource_payload,
}
use ops_inspection_system.Resource.Expected.{payload_matches}
use ops_inspection_system.Resource.Store.{
  Baseline, Plan, matched, Status, pending, confirmed_abnormal, recovered_pending, Event, Store,
  get_resource_baseline, save_resource_baseline, get_active_resource_plan,
  finish_resource_change_plan,
}
use ops_inspection_system.Resource.Store.Changes.{
  get_open_resource_change_event, upsert_resource_change_event, mark_resource_event_recovered,
  decide_resource_change_event, is_open,
}

-- The dict that is returned. `raised` has the status of an event.
pub data Result : Type 0 where
  normal initial : Result
  planned : List String → ℕ → Result
  raised : Status → List String → ℕ → Result

abbrev pub has_disk : Option Disk → Bool
has_disk none = false
has_disk (some _) = true

-- `not payload`
abbrev pub is_empty : Payload → Bool
is_empty p = not (has_hardware p) && not (has_disk p.disk)

abbrev fill_hardware : Payload → Payload → Payload
fill_hardware p q =
    if has_hardware p then p else record p { cpu = q.cpu; memory = q.memory; storage = q.storage }

abbrev fill_disk : Payload → Payload → Payload
fill_disk p q = if has_disk p.disk then p else record p { disk = q.disk }

-- The components that the baseline lacks are taken from the sample.
unfoldable pub augment : Payload → Payload → Payload
augment baseline current = fill_disk (fill_hardware baseline current) current

-- `changed_baseline`
unfoldable pub grows : Payload → Payload → Bool
grows baseline current =
    if not (has_hardware baseline) && has_hardware current
    then true
    else not (has_disk baseline.disk) && has_disk current.disk

abbrev or_default : String → String → String
or_default text other = if text == "" then other else text

unfoldable pub augment_baseline : ℕ → ℕ → Payload → Payload → Baseline → Store → Store
augment_baseline at server_id baseline current row s =
    if grows baseline current
    then save_resource_baseline at server_id (augment baseline current)
        (or_default row.source "initial") row.accepted_by row.accepted_reason s
    else s

unfoldable pub fingerprint : (Payload → String) → (String → String) → Payload → String
fingerprint dump sha256_hex p = sha256_hex (dump (normalize_payload p))

abbrev status_of : Option Event → Status
status_of none = pending
status_of (some e) = e.status

-- No change: an event that is open waits for a person to close it.
unfoldable pub settle_event : ℕ → ℕ → Store → Store × Result
settle_event at server_id s = elim (get_open_resource_change_event server_id s) [
  | none ↦ (s, normal)
  | some e ↦
      (mark_resource_event_recovered at e.id s, raised recovered_pending e.change_detail e.id)
]

unfoldable pub close_event : ℕ → Option Event → Plan → Store → Store
close_event now none plan s = s
close_event now (some e) plan s =
    (decide_resource_change_event now e.id "normal" (or_default plan.reason "计划变更匹配")
      plan.created_by s).0

-- A change that a plan expects.
unfoldable pub accept_plan :
    ℕ → ℕ → ℕ → Payload → List String → Option Event → Plan → Store → Store × Result
accept_plan at now server_id current changes active plan s = (
  finish_resource_change_plan at plan.id matched (
      save_resource_baseline at server_id current "planned" plan.created_by plan.reason
        (close_event now active plan s)),
  planned changes plan.id,
)

module _ (one_decimal : ℕ → ℕ → String) (dump : Payload → String)
    (sha256_hex : String → String) where
  -- A change that nothing expects.
  unfoldable pub raise_event : ℕ → ℕ → Payload → Payload → List String → Store → Store × Result
  raise_event at server_id baseline current changes s =
      let (s₁, id) =
        upsert_resource_change_event at server_id (fingerprint dump sha256_hex current) baseline
          current changes s in
      (s₁, raised (status_of (get_open_resource_change_event server_id s₁)) changes id)

  unfoldable pub judge_changes :
      ℕ → ℕ → ℕ → Payload → Payload → List String → Store → Store × Result
  judge_changes at now server_id baseline current changes s =
      let active = get_open_resource_change_event server_id s in
      let (s₁, plan) = get_active_resource_plan server_id at s in
      elim plan [
        | none ↦ raise_event at server_id baseline current changes s₁
        | some p ↦
            if payload_matches p.expected_payload current
            then accept_plan at now server_id current changes active p s₁
            else raise_event at server_id baseline current changes s₁
      ]

  -- From the comparison on.
  unfoldable pub judge : ℕ → ℕ → ℕ → Payload → Payload → Store → Store × Result
  judge at now server_id baseline current s =
      let changes = compare_resource_payload one_decimal baseline current in
      if length changes == 0
      then settle_event at server_id s
      else judge_changes at now server_id baseline current changes s

  unfoldable pub evaluate_resource_configuration : ℕ → ℕ → ℕ → Payload → Store → Store × Result
  evaluate_resource_configuration at now server_id raw s =
      let current = normalize_payload raw in
      if is_empty current then (s, normal) else elim (get_resource_baseline server_id s) [
        | none ↦ (save_resource_baseline at server_id current "initial" "" "" s, initial)
        | some row ↦
            let baseline = normalize_payload row.payload in
            judge at now server_id (augment baseline current) current
              (augment_baseline at server_id baseline current row s)
      ]

-- `sep.join(texts)`
unfoldable pub join : String → List String → String
join sep [] = ""
join sep (x ∷ []) = x
join sep (x ∷ xs) = x <> sep <> join sep xs

pub record Finding : Type 0 where
  pub severity : String
  pub category : String
  pub text : String

unfoldable pub finding_detail : (ℕ → String) → List String → String
finding_detail show changes =
    or_default (join "；" (take 8 changes)) "资源配置与已确认基线不一致"
    <> (if ltb 8 (length changes) then "；另有 " <> show (length changes - 8) <> " 项变化" else "")

unfoldable pub finding_text : Status → String → String
finding_text recovered_pending detail = "此前的资源配置变化已恢复，但尚未人工确认关闭：" <> detail <> "。"
finding_text confirmed_abnormal detail = "资源配置变化已人工确认为异常，尚未解决：" <> detail <> "。"
finding_text _ detail = "检测到未经确认的资源配置变化：" <> detail <> "。确认并填写理由前按异常处理。"

unfoldable pub result_finding : (ℕ → String) → Result → Option Finding
result_finding show (raised status changes id) =
    if is_open status
    then some (record {
      severity = "severe";
      category = "资源配置变更";
      text = finding_text status (finding_detail show changes);
    })
    else none
result_finding show _ = none
