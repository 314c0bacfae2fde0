-- ===== src/Tools/Tests.antt =====
-- Tools: instances. The handlers say what they were asked.
use ops_inspection_system.Common.{true, none, ◌≡◌, refl, string_eq}
use ops_inspection_system.Json.{obj, str, field, end}
use ops_inspection_system.Tools.{
  Context, returned, act, Handlers, execute, spec_for, handle, handle_dict, action_handler,
}
use ops_inspection_system.Tools.Laws.{IsCall, execute_sound}

abbrev handlers : Handlers
handlers = record {
  run = λ name fields c. returned (true, name, c.username, "");
  normalize = λ name fields c. returned (fields, "重启服务", "high");
}

abbrev admin : Context
admin = record {
  username = "root";
  role = "admin";
  client_ip = "";
  source_action_id = none;
  secure_input = none;
}

proposed :
    execute handlers "restart_registered_service" (obj (field "service_id" (str "7") end)) admin
    ≡ returned (act "restart_registered_service" (field "service_id" (str "7") end) "重启服务" "high")
unfolding execute spec_for handle handle_dict action_handler string_eq
proposed = refl

execute_sound_example :
    IsCall handlers "restart_registered_service"
      (obj (field "service_id" (str "7") end))
      admin
      (act "restart_registered_service" (field "service_id" (str "7") end) "重启服务" "high")
execute_sound_example =
    execute_sound handlers "restart_registered_service" (obj (field "service_id" (str "7") end))
      admin (act "restart_registered_service" (field "service_id" (str "7") end) "重启服务" "high")
      proposed
