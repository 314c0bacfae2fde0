-- ===== src/Chat/Worker/Tests.antt =====
-- Chat: instances of the loop, the thread, the history and the start. The model calls a tool in every
-- round, and never stops by itself.
use ops_inspection_system.Common.{
  ℕ, ◌≤◌, String, true, false, Option, none, some, List, [], ◌∷◌, ◌≡◌, refl, All, string_eq,
  number_eq, ◌==◌, if◌then◌else◌, flat_map, contains, strip, text_length, find,
}
use ops_inspection_system.Json.{Json, str, arr, obj, nil, cons, end, field, get}
use ops_inspection_system.Stream.{change, new_stream}
use ops_inspection_system.Tools.{Context, Try, returned, Handlers}
use ops_inspection_system.Chat.Store.{World, ToolCall, Executors}
use ops_inspection_system.Chat.History.{
  HistoryRow, Turn, plain, calling, answering, load_call, load_calls, load_tool_calls, answered_ids,
  fill_in, assistant_turns, turns_of, history_messages,
}
use ops_inspection_system.Chat.History.Answered.{IsAnswered, history_messages-All}
use ops_inspection_system.Chat.Loop.{reply, Outside, Limits, Loop, Ending, run_rounds, start_loop}
use ops_inspection_system.Chat.Loop.Stops.{run_rounds_lem}
use ops_inspection_system.Chat.Provider.{
  Provider, AiConfig, unchosen, resolve_provider_or_traditional, resolve_provider, pick_provider,
  require_enabled, role_allowed, first_usable, cloud_allowed, env_provider, use_first, use_env,
  with_key, tools_enabled, traditional_provider, over_daily_limit,
}
use ops_inspection_system.Chat.Provider.Allowed.{
  IsAllowed, resolve_provider_or_traditional-IsAllowed,
}
use ops_inspection_system.Chat.Start.{
  Conversation, Service, ChatRequest, Started, StartReply, refused, failed, begun, start_chat,
  admit, check_caller, check_access, check_message, acquire, choose, check_quota, launch, prepare,
  begin_stream, choice_or, engine_of, get_ai_conversation, job_of,
}
use ops_inspection_system.Chat.Start.Ends.{start_chat-ends}
use ops_inspection_system.Chat.Start.Admits.{IsRight, start_chat-IsRight}
use ops_inspection_system.Chat.Worker.{with_tools, worker}
use ops_inspection_system.Chat.Worker.Finishes.{has_ended}

abbrev lower : String → String
lower s = s

abbrev dumps : Json → String
dumps (str s) = s
dumps _ = "{}"

abbrev show : ℕ → String
show n = "n"

abbrev chars : List Turn → ℕ
chars turns = 40

abbrev handlers : Handlers
handlers = record {
  run = λ name fields c. returned (true, name, c.username, "");
  normalize = λ name fields c. returned (fields, "重启服务", "high");
}

abbrev no_executors : Executors
no_executors name = none

abbrev limits : Limits
limits = record { max_tool_rounds = 3; total_deadline = 60; action_ttl = 600 }

abbrev call : ToolCall
call = record { id = "c1"; name = "list_local_skills"; args = obj end }

-- It streams a text and calls the same tool, whatever it is told.
abbrev outside : Outside
outside = record {
  model = λ n messages offered. reply ("看看" ∷ []) "看看" (call ∷ []) (some 10) (some 5);
  cancelled = λ n. false;
  clock = λ n. 100;
  fault = λ n.
      if n == 1 then some (record { calls = 0; writes = 1; text = "database is locked" }) else none;
}

abbrev context : Context
context = record {
  username = "li";
  role = "operator";
  client_ip = "10.0.0.7";
  source_action_id = none;
  secure_input = none;
}

abbrev world : World
world = record {
  actions = record { rows = []; next_id = 1 };
  messages = [];
  next_message = 1;
  audits = [];
  stream = new_stream 100 60 "s1" "chat" "li" "operator" (some 4) change;
}

abbrev fresh_loop : Loop
fresh_loop = record { world = world; messages = []; capped = false; prompt_chars = 0 }

is_fresh : fresh_loop.world.stream.rounds ≡ 0
unfolding new_stream
is_fresh = refl

run_rounds_lem_example :
    (out : Loop × Ending) × (run_rounds lower dumps show chars handlers no_executors limits outside
        4 context 4 fresh_loop
      ≡ some out)
    × (out.0.world.stream.rounds ≤ 4)
run_rounds_lem_example =
    run_rounds_lem lower dumps show chars handlers no_executors limits outside 4 context fresh_loop
      is_fresh

abbrev explain : String → String → String
explain kind text = text

abbrev fixed_reply : String → Try String
fixed_reply reason = returned "规则引擎"

-- What is stored of two calls, of which the first is answered.
abbrev stored_call : String → Json
stored_call id = obj (
    field "id" (str id) (
      field "function" (obj (field "name" (str "list_servers") (field "arguments" (str "{}") end)))
        end))

abbrev loads : String → Option Json
loads text =
    if text == "two calls"
    then some (arr (cons (stored_call "c1") (cons (stored_call "c2") nil)))
    else none

abbrev rows : List HistoryRow
rows =
    record { role = "user"; content = "磁盘"; tool_call_id = ""; tool_calls = "" }
    ∷ record { role = "assistant"; content = "看看"; tool_call_id = ""; tool_calls = "two calls" }
    ∷ record { role = "tool"; content = "满"; tool_call_id = "c1"; tool_calls = "" }
    ∷ []

shown :
    history_messages loads dumps rows
    ≡ plain "user" "磁盘"
      ∷ calling "看看" (
          record { id = "c1"; name = "list_servers"; arguments = "{}" }
          ∷ record { id = "c2"; name = "list_servers"; arguments = "{}" }
          ∷ [])
      ∷ answering "c2" "{}"
      ∷ answering "c1" "满"
      ∷ []
unfolding history_messages turns_of flat_map answered_ids assistant_turns load_tool_calls load_calls
    load_call fill_in contains get string_eq strip
shown = refl

history_messages-All_example :
    All (IsAnswered (history_messages loads dumps rows)) (history_messages loads dumps rows)
history_messages-All_example = history_messages-All loads dumps rows

abbrev decrypt : String → Option String
decrypt text = none

abbrev cloud : Provider
cloud = record {
  id = some 1;
  name = "cloud";
  base_url = "https://ai.example";
  model = "big";
  enc_api_key = "";
  deployment = "cloud";
  supports_tools = true;
  enabled = true;
  traditional_fallback = false;
  fallback_reason = "";
}

abbrev config : AiConfig
config = record {
  enabled = true;
  roles = "operator" ∷ [];
  allow_cloud = false;
  base_url = "";
  model = "";
  api_key = "";
  daily_token_limit = 0;
  traditional_fallback = true;
  tool_mode = "auto";
  input_max_chars = 4000;
  max_concurrency = 2;
}

resolve_provider_or_traditional-IsAllowed_example :
    IsAllowed config
      (resolve_provider_or_traditional decrypt lower show config (cloud ∷ []) unchosen)
resolve_provider_or_traditional-IsAllowed_example =
    resolve_provider_or_traditional-IsAllowed decrypt lower show config (cloud ∷ []) unchosen

abbrev conversation : Conversation
conversation = record { id = 4; username = "li"; title = "新会话"; provider_id = none }

abbrev service : Service
service = record { world = world; conversations = conversation ∷ []; streams = []; free = 2 }

abbrev request : ChatRequest
request = record {
  conversation_id = 4;
  user_message = "磁盘还够吗";
  username = "li";
  role = "operator";
  provider_id = unchosen;
  resume = false;
  access_mode = change;
}

start_chat-IsRight_example :
    IsRight config request service
      (start_chat decrypt lower show config 60 300 (cloud ∷ []) 0 4 100 "s2" request service)
start_chat-IsRight_example =
    start_chat-IsRight decrypt lower show config 60 300 (cloud ∷ []) 0 4 100 "s2" request service

-- The cloud model answers, with tools.
abbrev open_config : AiConfig
open_config = record config { allow_cloud = true }

abbrev begun_now : Service × StartReply
begun_now =
    start_chat decrypt lower show open_config 60 300 (cloud ∷ []) 0 4 100 "s2" request service

abbrev nothing : Started
nothing = record {
  stream = world.stream;
  message_id = 0;
  engine = with_tools;
  provider = cloud;
  api_key = "";
}

abbrev reply_now : Started
reply_now = elim begun_now.1 [
  | refused code text ↦ nothing
  | failed ↦ nothing
  | begun started ↦ started
]

begun_there : begun_now ≡ (begun_now.0, begun reply_now)
unfolding start_chat admit check_caller check_access check_message acquire choose check_quota launch
    prepare begin_stream choice_or resolve_provider_or_traditional resolve_provider pick_provider
    require_enabled role_allowed first_usable cloud_allowed env_provider use_first use_env
    traditional_provider over_daily_limit get_ai_conversation with_key engine_of tools_enabled
    contains find string_eq number_eq strip text_length
begun_there = refl

start_chat-ends_example :
    (w : World) × (worker lower dumps show chars handlers no_executors limits outside context true
        explain lower fixed_reply 0 130 30
        (job_of request conversation "10.0.0.7" reply_now)
        (start_loop "系统提示" [] begun_now.0.world)
        begun_now.0.free
      ≡ some (w, service.free))
    × (has_ended w.stream.status ≡ true)
    × (w.stream.finished_at ≡ some 130)
start_chat-ends_example =
    start_chat-ends decrypt lower show open_config 60 300 lower dumps chars handlers no_executors
      limits outside context true explain lower fixed_reply (cloud ∷ []) 0 4 100 "s2" request
      service begun_now.0 reply_now conversation "10.0.0.7" "系统提示" [] 0 130 30 begun_there
