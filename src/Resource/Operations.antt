-- ===== src/Resource/Operations.antt =====
-- models.py: the operations of the tables of configurations, plans and observed changes, as steps.
use ops_inspection_system.Common.{ℕ, String, List, [], ◌∷◌, string_eq, number_eq}
use ops_inspection_system.Resource.{Payload}
use ops_inspection_system.Resource.Expected.{Expected}
use ops_inspection_system.Resource.Store.{
  PlanStatus, Store, save_resource_baseline, add_resource_change_plan, update_resource_change_plan,
  expire_resource_change_plans, get_active_resource_plan, finish_resource_change_plan,
}
use ops_inspection_system.Resource.Store.Changes.{
  upsert_resource_change_event, mark_resource_event_recovered, decide_resource_change_event,
  reset_resource_configuration,
}

-- An operation of the tables.
pub data Op : Type 0 where
  observe :
      (at server_id : ℕ)
      → (fingerprint : String) → (baseline observed : Payload) → (changes : List String) → Op
  recover : (at id : ℕ) → Op
  judge : (now id : ℕ) → (decision reason by : String) → Op
  save : (at server_id : ℕ) → (payload : Payload) → (source by reason : String) → Op
  add_plan :
      (now server_id : ℕ)
      → (expected : Expected) → (window_start window_end : ℕ) → (reason ticket_no by : String) → Op
  update_plan :
      (id : ℕ)
      → (expected : Expected) → (window_start window_end : ℕ) → (reason ticket_no : String) → Op
  expire_plans : (now : ℕ) → Op
  find_plan : (server_id now : ℕ) → Op
  finish_plan : (at id : ℕ) → (status : PlanStatus) → Op
  reset : (server_id : ℕ) → Op

abbrev pub step : Op → Store → Store
step (observe at server_id fingerprint baseline observed changes) s =
    (upsert_resource_change_event at server_id fingerprint baseline observed changes s).0
step (recover at id) s = mark_resource_event_recovered at id s
step (judge now id decision reason by) s =
    (decide_resource_change_event now id decision reason by s).0
step (save at server_id payload source by reason) s =
    save_resource_baseline at server_id payload source by reason s
step (add_plan now server_id expected window_start window_end reason ticket_no by) s =
    (add_resource_change_plan now server_id expected window_start window_end reason ticket_no by
      s).0
step (update_plan id expected window_start window_end reason ticket_no) s =
    (update_resource_change_plan id expected window_start window_end reason ticket_no s).0
step (expire_plans now) s = (expire_resource_change_plans now s).0
step (find_plan server_id now) s = (get_active_resource_plan server_id now s).0
step (finish_plan at id status) s = finish_resource_change_plan at id status s
step (reset server_id) s = reset_resource_configuration server_id s

abbrev pub steps : List Op → Store → Store
steps [] s = s
steps (op ∷ ops) s = steps ops (step op s)
