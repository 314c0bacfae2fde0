-- ===== src/Actions/Tests.antt =====
-- Actions: tests and instances.
use ops_inspection_system.Common.{
  ◌≤◌, some, List, [], ◌∷◌, ◌≡◌, refl, string_eq, number_eq, update_where, count,
}
use ops_inspection_system.Json.{end}
use ops_inspection_system.Actions.{
  Table, NewAction, failed, add_ai_action, claim_ai_action, finish_ai_action, expire_ai_actions,
}
use ops_inspection_system.Actions.Once.{
  Step, add, claim, finish, expire, step, claims, count_claims, count_claims-le-one,
}

abbrev empty : Table
empty = record { rows = []; next_id = 1 }

abbrev restart : NewAction
restart = record {
  conversation_id = 4;
  action_type = "restart_registered_service";
  payload = end;
  summary = "重启服务";
  risk_level = "high";
  message_id = some 9;
  requested_by = "li";
  ttl_seconds = 600;
}

-- Two callers confirm the same action; the service fails; then a third caller.
abbrev steps : List Step
steps =
    add 100 restart
    ∷ claim 120 1 "li"
    ∷ claim 120 1 "wu"
    ∷ finish 130 1 failed refl "" "boom" "li"
    ∷ claim 140 1 "wu"
    ∷ expire 2000
    ∷ []

count_claims-le-one_example : count_claims 1 steps empty ≤ 1
count_claims-le-one_example = count_claims-le-one 1 steps empty tt

count_claims_test : count_claims 1 steps empty ≡ 1
unfolding count_claims claims step add_ai_action claim_ai_action finish_ai_action expire_ai_actions
    update_where count string_eq number_eq
count_claims_test = refl
