-- ===== src/Resource/Store.antt =====
-- models.py: the tables of confirmed configurations, planned changes and observed changes. Times are
-- the seconds that the tables' texts stand for. A payload column is JSON text in the table and the
-- value that it parses to here. Each operation is one transaction.
pub mod Changes
use ops_inspection_system.Common.{
  ℕ, suc, ◌+◌, String, Bool, true, false, Option, none, some, List, [], ◌∷◌, ◌++◌, ◌&&◌, ◌==◌, ltb,
  leb, string_eq, number_eq, not, if◌then◌else◌, update_where, count, find, select,
}
use ops_inspection_system.Resource.{Payload}
use ops_inspection_system.Resource.Expected.{Expected}

pub record Baseline : Type 0 where
  pub server_id : ℕ
  pub payload : Payload
  pub version : ℕ
  pub source : String
  pub accepted_by : String
  pub accepted_reason : String
  pub accepted_at : ℕ
  pub updated_at : ℕ

pub data PlanStatus : Type 0 where
  planned matched cancelled expired : PlanStatus

pub record Plan : Type 0 where
  pub id : ℕ
  pub server_id : ℕ
  pub expected_payload : Expected
  pub window_start : ℕ
  pub window_end : ℕ
  pub reason : String
  pub ticket_no : String
  pub status : PlanStatus
  pub created_by : String
  pub created_at : ℕ
  pub matched_at : Option ℕ
  pub cancelled_at : Option ℕ

pub data Status : Type 0 where
  pending confirmed_abnormal recovered_pending confirmed_normal resolved : Status

pub record Event : Type 0 where
  pub id : ℕ
  pub server_id : ℕ
  pub fingerprint : String
  pub baseline_payload : Payload
  pub observed_payload : Payload
  pub change_detail : List String
  pub status : Status
  pub first_seen_at : ℕ
  pub last_seen_at : ℕ
  pub decided_by : Option String
  pub decision_reason : Option String
  pub decided_at : Option ℕ

pub record Store : Type 0 where
  pub baselines : List Baseline
  pub plans : List Plan
  pub next_plan : ℕ
  pub events : List Event
  pub next_event : ℕ

-- `ORDER BY id DESC LIMIT 1` of the rows that satisfy `p`.
unfoldable pub newest {ℓ} : {A : Type ℓ} → (A → ℕ) → (A → Bool) → List A → Option A
newest id p [] = none
newest id p (x ∷ xs) =
    let best = newest id p xs in
    if p x
    then elim best [ none ↦ some x | some y ↦ if ltb (id x) (id y) then some y else some x ]
    else best

abbrev pub of_server : ℕ → Baseline → Bool
of_server server_id b = b.server_id == server_id

unfoldable pub get_resource_baseline : ℕ → Store → Option Baseline
get_resource_baseline server_id s = find (of_server server_id) s.baselines

abbrev pub accept : ℕ → Payload → String → String → String → Baseline → Baseline
accept at payload source by reason b = record b {
  payload = payload;
  version = b.version + 1;
  source = source;
  accepted_by = by;
  accepted_reason = reason;
  accepted_at = at;
  updated_at = at;
}

abbrev pub first_baseline : ℕ → ℕ → Payload → String → String → String → Baseline
first_baseline at server_id payload source by reason = record {
  server_id = server_id;
  payload = payload;
  version = 1;
  source = source;
  accepted_by = by;
  accepted_reason = reason;
  accepted_at = at;
  updated_at = at;
}

-- `save_resource_baseline`: INSERT … ON CONFLICT(server_id) DO UPDATE.
unfoldable pub save_resource_baseline : ℕ → ℕ → Payload → String → String → String → Store → Store
save_resource_baseline at server_id payload source by reason s =
    elim (get_resource_baseline server_id s) [
      | some _ ↦ record s {
        baselines =
            update_where (of_server server_id) (accept at payload source by reason) s.baselines;
      }
      | none ↦ record s {
        baselines = s.baselines ++ first_baseline at server_id payload source by reason ∷ [];
      }
    ]

-- `add_resource_change_plan`, with the new id.
unfoldable pub add_resource_change_plan :
    ℕ → ℕ → Expected → ℕ → ℕ → String → String → String → Store → Store × ℕ
add_resource_change_plan now server_id expected window_start window_end reason ticket_no by s = (
  record s {
    plans =
        s.plans
        ++ record {
          id = s.next_plan;
          server_id = server_id;
          expected_payload = expected;
          window_start = window_start;
          window_end = window_end;
          reason = reason;
          ticket_no = ticket_no;
          status = planned;
          created_by = by;
          created_at = now;
          matched_at = none;
          cancelled_at = none;
        }
          ∷ [];
    next_plan = suc s.next_plan;
  },
  s.next_plan,
)

abbrev pub is_planned : PlanStatus → Bool
is_planned planned = true
is_planned _ = false

abbrev pub planned_with_id : ℕ → Plan → Bool
planned_with_id id p = p.id == id && is_planned p.status

-- `update_resource_change_plan`, with whether one row was hit.
unfoldable pub update_resource_change_plan :
    ℕ → Expected → ℕ → ℕ → String → String → Store → Store × Bool
update_resource_change_plan id expected window_start window_end reason ticket_no s = (
  record s {
    plans =
        update_where (planned_with_id id)
          (λ p. record p {
            expected_payload = expected;
            window_start = window_start;
            window_end = window_end;
            reason = reason;
            ticket_no = ticket_no;
          })
          s.plans;
  },
  count (planned_with_id id) s.plans == 1,
)

abbrev pub over : ℕ → Plan → Bool
over now p = is_planned p.status && ltb p.window_end now

-- `expire_resource_change_plans`, with the number of rows.
unfoldable pub expire_resource_change_plans : ℕ → Store → Store × ℕ
expire_resource_change_plans now s = (
  record s { plans = update_where (over now) (λ p. record p { status = expired }) s.plans },
  count (over now) s.plans,
)

abbrev pub is_active : ℕ → ℕ → Plan → Bool
is_active server_id now p =
    p.server_id == server_id
    && is_planned p.status
    && leb p.window_start now
    && leb now p.window_end

-- `get_active_resource_plan` expires the plans that are over first.
unfoldable pub get_active_resource_plan : ℕ → ℕ → Store → Store × Option Plan
get_active_resource_plan server_id now s =
    let s₁ = (expire_resource_change_plans now s).0 in
    (s₁, newest (λ (p : Plan). p.id) (is_active server_id now) s₁.plans)

abbrev pub end_plan : ℕ → PlanStatus → Plan → Plan
end_plan at matched p = record p { status = matched; matched_at = some at }
end_plan at status p = record p { status = status; cancelled_at = some at }

-- `finish_resource_change_plan`
unfoldable pub finish_resource_change_plan : ℕ → ℕ → PlanStatus → Store → Store
finish_resource_change_plan at id status s = record s {
  plans = update_where (planned_with_id id) (end_plan at status) s.plans;
}
