-- ===== src/Chat/Tests.antt =====
-- Chat: instances. The parameters are small functions of the right types.
use ops_inspection_system.Common.{
  ℕ, String, true, none, some, List, [], false, ◌∷◌, ◌≡◌, refl, inr, string_eq, number_eq, ◌==◌,
  if◌then◌else◌, find,
}
use ops_inspection_system.Json.{Json, obj, str, field, end}
use ops_inspection_system.Actions.{Action, get_ai_action, Status, pending}
use ops_inspection_system.Stream.{Mode, limited, change, full, new_stream}
use ops_inspection_system.Tools.{Context, returned, raised, Handlers, spec_for}
use ops_inspection_system.Chat.{handle_tool_call}
use ops_inspection_system.Chat.Store.{World, ToolCall, Executors, always_confirms}
use ops_inspection_system.Chat.Access.{limited_runs_nothing, executors_need_full}
use ops_inspection_system.Chat.Approve.{Caller, may_decide, approve_action, reject_action}
use ops_inspection_system.Chat.Approve.Decision.{IsClosed, decision_final}
use ops_inspection_system.Chat.Approve.Again.{
  Decision, approves, rejects, take_all, decided_for_good,
}
use ops_inspection_system.Chat.Approve.Leave.{may_run, approval_needs_leave}

abbrev lower : String → String
lower s = s

abbrev dumps : Json → String
dumps (str s) = s
dumps _ = "{}"

abbrev handlers : Handlers
handlers = record {
  run = λ name fields c. returned (true, name, c.username, "");
  normalize = λ name fields c. returned (fields, "重启服务", "high");
}

abbrev broken : Handlers
broken = record {
  run = λ name fields c. raised "boom";
  normalize = λ name fields c. returned (fields, "重启服务", "high");
}

abbrev executors : Executors
executors name =
    if name == "restart_registered_service"
    then some (λ fields c.
      returned (record { ok = true; output = "done"; error = ""; value = str "done" }))
    else none

abbrev no_executors : Executors
no_executors name = none

abbrev owner : ℕ → String
owner id = "li"

abbrev row_of : Status → Action
row_of status = record {
  id = 1;
  conversation_id = 4;
  message_id = some 9;
  action_type = "restart_registered_service";
  payload = field "service_id" (str "7") end;
  risk_level = "high";
  summary = "重启服务";
  status = status;
  requested_by = "li";
  result = none;
  error = none;
  decided_by = none;
  created_at = 100;
  decided_at = none;
  executed_at = none;
  expires_at = some 700;
}

abbrev world : Mode → Status → World
world mode status = record {
  actions = record { rows = row_of status ∷ []; next_id = 2 };
  messages = [];
  next_message = 1;
  audits = [];
  stream = new_stream 100 60 "s1" "chat" "li" "operator" (some 4) mode;
}

abbrev caller : String → Caller
caller name = record {
  username = name;
  role = "operator";
  client_ip = "10.0.0.1";
  secure_input = none;
}

abbrev asked : ToolCall
asked = record { id = "c1"; name = "list_servers"; args = obj end }

abbrev restart : ToolCall
restart = record { id = "c2"; name = "upsert_server"; args = obj (field "ip" (str "10.0.0.7") end) }

abbrev context : Context
context = record {
  username = "li";
  role = "operator";
  client_ip = "";
  source_action_id = none;
  secure_input = none;
}

is_limited_world : (world limited pending).stream.access_mode ≡ limited
unfolding new_stream
is_limited_world = refl

limited_runs_nothing_example :
    handle_tool_call lower dumps handlers executors 100 600 4 context asked (world limited pending)
    ≡ handle_tool_call lower dumps broken no_executors 100 600 4 context asked
        (world limited pending)
limited_runs_nothing_example =
    limited_runs_nothing lower dumps handlers broken executors no_executors 100 600 4 context asked
      (world limited pending) refl is_limited_world

upsert_confirms : always_confirms (spec_for restart.name) ≡ true
unfolding spec_for string_eq
upsert_confirms = refl

executors_need_full_example :
    handle_tool_call lower dumps handlers executors 100 600 4 context restart (world full pending)
    ≡ handle_tool_call lower dumps handlers no_executors 100 600 4 context restart
        (world full pending)
executors_need_full_example =
    executors_need_full lower dumps handlers executors no_executors 100 600 4 context restart
      (world full pending) (inr upsert_confirms)

there : (status : Status) → get_ai_action 1 (world change status).actions ≡ some (row_of status)
unfolding get_ai_action find number_eq
there status = refl

may_li : (status : Status) → may_decide owner (row_of status) (caller "li") ≡ true
unfolding string_eq
may_li status = refl

decision_final_example :
    IsClosed 1
      (approve_action lower dumps true handlers executors owner 500 1
        (caller "li")
        (world change pending)).0.actions
    × IsClosed 1
        (reject_action lower dumps true owner 500 1
          (caller "li")
          "不需要"
          (world change pending)).0.actions
decision_final_example =
    decision_final lower dumps handlers executors owner 500 1 (caller "li") "不需要"
      (world change pending) (row_of pending) (there pending) (may_li pending)

-- An approval with tools that fail, a rejection while the chat is switched off, and an approval.
abbrev later : List Decision
later =
    approves true broken no_executors 510 (caller "li")
    ∷ rejects false 520 (caller "lisa") "不需要"
    ∷ approves true handlers executors 900 (caller "li")
    ∷ []

decided_for_good_example :
    take_all lower dumps owner 1
      (approves true handlers executors 500 (caller "li") ∷ later)
      (world change pending)
    ≡ take_all lower dumps owner 1
        (approves true handlers executors 500 (caller "li") ∷ [])
        (world change pending)
decided_for_good_example =
    decided_for_good lower dumps owner 1 (approves true handlers executors 500 (caller "li")) later
      (world change pending) (row_of pending) (there pending) refl (may_li pending)

too_late : may_run owner 900 (caller "li") (get_ai_action 1 (world change pending).actions) ≡ false
unfolding get_ai_action find number_eq string_eq
too_late = refl

approval_needs_leave_example :
    approve_action lower dumps true handlers executors owner 900 1
      (caller "li")
      (world change pending)
    ≡ approve_action lower dumps true broken no_executors owner 900 1
        (caller "li")
        (world change pending)
approval_needs_leave_example =
    approval_needs_leave lower dumps true handlers broken executors no_executors owner 900 1
      (caller "li") (world change pending) too_late
