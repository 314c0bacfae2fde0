-- ===== src/Tools.antt =====
-- ai_tools.py: the tools that the model may call, and `execute`. The table TOOL_SPECS is given by
-- the columns that decide what happens. A tool of level `action` is built by
-- `_make_action_handler` around its normalizer; the normalizers and the handlers of the other
-- tools, which read tables and reach servers, are the parameter `Handlers`.
pub mod Laws
mod Tests
use ops_inspection_system.Common.{
  ℕ, String, ◌<>◌, Bool, true, false, Option, none, some, List, [], ◌∷◌, ◌&&◌, not, ◌==◌, string_eq,
  if◌then◌else◌,
}
use ops_inspection_system.Json.{Json, null, bool, num, str, arr, obj, nil, Fields, end}

pub data Level : Type 0 where
  read remote action unknown : Level

pub record Spec : Type 0 where
  pub name : String
  pub level : Level
  pub title : String
  pub admin_only : Bool
  pub always_confirm : Bool

abbrev open_tool : String → Level → String → Spec
open_tool name level title = record {
  name = name;
  level = level;
  title = title;
  admin_only = false;
  always_confirm = false;
}

abbrev admin_tool : String → Level → String → Bool → Spec
admin_tool name level title always = record {
  name = name;
  level = level;
  title = title;
  admin_only = true;
  always_confirm = always;
}

-- TOOL_SPECS
abbrev pub tool_specs : List Spec
tool_specs =
    open_tool "list_servers" read "查询服务器清单"
    ∷ open_tool "list_groups" read "查询服务器分组"
    ∷ open_tool "get_server_hardware" read "查询硬件参数记录"
    ∷ open_tool "list_services" read "查询服务台账"
    ∷ open_tool "list_inspection_runs" read "查询巡检记录列表"
    ∷ open_tool "get_run_summary" read "读取巡检结果明细"
    ∷ open_tool "list_disk_findings" read "读取磁盘审计发现"
    ∷ admin_tool "list_audit_logs" read "查询审计日志" false
    ∷ admin_tool "upsert_server" action "新增或更新服务器" true
    ∷ open_tool "discover_server_services" remote "发现服务器运行服务"
    ∷ admin_tool "import_discovered_services" action "导入发现的服务" true
    ∷ open_tool "run_remote_command" action "执行远程命令"
    ∷ open_tool "start_inspection" action "发起一次巡检"
    ∷ open_tool "refresh_server_hardware" action "重新采集硬件参数"
    ∷ open_tool "test_server_connection" action "测试服务器连通性"
    ∷ admin_tool "restart_registered_service" action "重启已登记服务" false
    ∷ open_tool "list_local_skills" read "查询本地 Skills"
    ∷ open_tool "read_local_skill" read "读取本地 Skill"
    ∷ admin_tool "create_local_skill" action "创建本地 Skill" false
    ∷ admin_tool "list_mcp_servers" read "查询 MCP 配置" false
    ∷ admin_tool "list_mcp_tools" read "查询 MCP 工具清单" false
    ∷ admin_tool "call_mcp_tool" action "调用 MCP 工具" false
    ∷ []

find_spec : List Spec → String → Option Spec
find_spec [] name = none
find_spec (s ∷ specs) name = if s.name == name then some s else find_spec specs name

-- `spec_for`
unfoldable pub spec_for : String → Option Spec
unfolding find_spec
spec_for name = find_spec tool_specs name

abbrev pub level_or_unknown : Option Spec → Level
level_or_unknown none = unknown
level_or_unknown (some s) = s.level

-- `level_of`
unfoldable pub level_of : String → Level
level_of name = level_or_unknown (spec_for name)

-- The dict of `default_context`, with what `approve_action` adds.
-- `mask_ip` is left out: only the handlers read it.
pub record Context : Type 0 where
  pub username : String
  pub role : String
  pub client_ip : String
  pub source_action_id : Option ℕ
  pub secure_input : Option Fields

unfoldable pub default_context : String → String → Context
default_context username role = record {
  username = username;
  role = role;
  client_ip = "";
  source_action_id = none;
  secure_input = none;
}

-- `available_specs`
unfoldable pub available_specs : Context → List Spec → List Spec
available_specs c [] = []
available_specs c (s ∷ specs) =
    let rest = available_specs c specs in
    if s.admin_only && not (c.role == "admin") then rest else s ∷ rest

-- A call that may raise a `ToolError` or any other exception, each with its text.
pub data Try {ℓ} (A : Type ℓ) : Type ℓ where
  returned : A → Try A
  tool_error : String → Try A
  raised : String → Try A

-- What `execute` returns: a result, or an action that waits for a person.
pub data Outcome : Type 0 where
  result : (ok : Bool) → (content summary error : String) → Outcome
  act : (action_type : String) → (payload : Fields) → (summary risk : String) → Outcome

pub record Handlers : Type 0 where
  pub run : String → Fields → Context → Try (Bool × String × String × String)
  pub normalize : String → Fields → Context → Try (Fields × String × String)

-- The handler that `_make_action_handler` builds: it normalizes, and has no effect.
unfoldable pub action_handler : Handlers → String → Fields → Context → Try Outcome
action_handler h action_type args c = elim (h.normalize action_type args c) [
  | returned (payload, summary, risk) ↦ returned (act action_type payload summary risk)
  | tool_error e ↦ tool_error e
  | raised e ↦ raised e
]

unfoldable pub result_handler : Handlers → String → Fields → Context → Try Outcome
result_handler h name args c = elim (h.run name args c) [
  | returned (ok, content, summary, error) ↦ returned (result ok content summary error)
  | tool_error e ↦ tool_error e
  | raised e ↦ raised e
]

abbrev pub is_action : Level → Bool
is_action action = true
is_action _ = false

-- `spec["handler"](args, context)`
unfoldable pub handle : Handlers → Spec → Fields → Context → Try Outcome
handle h s args c =
    if is_action s.level then action_handler h s.name args c else result_handler h s.name args c

-- `isinstance(args, dict)`
unfoldable pub handle_dict : Handlers → Spec → Json → Context → Try Outcome
handle_dict h s (obj args) c = handle h s args c
handle_dict h s _ c = tool_error "工具参数格式不正确"

-- `execute`
unfoldable pub execute : Handlers → String → Json → Context → Try Outcome
execute h name args c = elim (spec_for name) [
  | none ↦ tool_error ("未知工具：" <> name)
  | some s ↦
      if s.admin_only && not (c.role == "admin")
      then tool_error "当前角色无权使用该工具"
      else handle_dict h s args c
]
