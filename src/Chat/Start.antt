-- ===== src/Chat/Start.antt =====
-- ai_service.py: `start_chat`, the request that begins a generation. Parameters: as in Chat.Provider;
-- `uuid` is the new stream's id; `writes` the number of steps that write to the database before one
-- raises, of the four of a start. The start of the thread does not fail. The
-- conversation's time and model are left out.
pub mod Admits
pub mod Ends
use ops_inspection_system.Common.{
  ℕ, ◌+◌, ◌-◌, suc, zero, String, ◌<>◌, Bool, true, false, Option, none, some, List, [], ◌∷◌, ◌++◌,
  ◌&&◌, ◌||◌, not, ◌==◌, ltb, leb, find, update_where, string_eq, number_eq, if◌then◌else◌, strip,
  text_length, text_take,
}
use ops_inspection_system.Stream.{Stream, Mode, Answer, answer, refuse, new_stream, cleanup_streams}
use ops_inspection_system.Chat.Store.{World, add_ai_message, limit}
use ops_inspection_system.Chat.Provider.{
  Provider, AiConfig, Choice, unchosen, zero_text, chosen, malformed, role_allowed, require_enabled,
  over_daily_limit, resolve_provider_or_traditional, tools_enabled,
}
use ops_inspection_system.Chat.Worker.{Engine, traditional, with_tools, plain_chat, Job, release}

pub record Conversation : Type 0 where
  pub id : ℕ
  pub username : String
  pub title : String
  pub provider_id : Option ℕ

-- The module's state: the places of the semaphore that are free, and the dict of the streams, with the
-- tables.
pub record Service : Type 0 where
  pub world : World
  pub conversations : List Conversation
  pub streams : List Stream
  pub free : ℕ

pub record ChatRequest : Type 0 where
  pub conversation_id : ℕ
  pub user_message : String
  pub username : String
  pub role : String
  pub provider_id : Choice
  pub resume : Bool
  pub access_mode : Mode

-- What the answer and the thread are given.
pub record Started : Type 0 where
  pub stream : Stream
  pub message_id : ℕ
  pub engine : Engine
  pub provider : Provider
  pub api_key : String

-- What comes of a request: an `AiServiceError`, another exception, or a generation that has begun.
pub data StartReply : Type 0 where
  refused : (code : ℕ) → (text : String) → StartReply
  failed : StartReply
  begun : Started → StartReply

-- `models.get_ai_conversation`
unfoldable pub get_ai_conversation : ℕ → List Conversation → Option Conversation
get_ai_conversation id conversations = find (λ k. k.id == id) conversations

-- `provider_id or conversation.get("provider_id")`
unfoldable pub choice_or : Choice → Option ℕ → Choice
choice_or unchosen none = unchosen
choice_or unchosen (some zero) = unchosen
choice_or unchosen (some (suc id)) = chosen (suc id)
choice_or zero_text _ = zero_text
choice_or (chosen id) _ = chosen id
choice_or malformed _ = malformed

-- The choice of the thread's branch in `_worker`.
unfoldable pub engine_of : AiConfig → Provider → Engine
engine_of config p =
    if p.traditional_fallback
    then traditional p.fallback_reason
    else if tools_enabled config p
    then with_tools
    else plain_chat

-- `models.rename_ai_conversation`, where the title is still the one of a new conversation.
unfoldable pub rename_ai_conversation : ℕ → String → List Conversation → List Conversation
rename_ai_conversation id title conversations =
    update_where (λ k. k.id == id) (λ k. record k { title = text_take 80 title }) conversations

-- `models.touch_ai_conversation`, with a model
unfoldable pub touch_ai_conversation : ℕ → Option ℕ → List Conversation → List Conversation
touch_ai_conversation id provider_id conversations =
    update_where (λ k. k.id == id) (λ k. record k { provider_id = provider_id }) conversations

abbrev pub or_text : String → String → String
or_text text other = if text == "" then other else text

unfoldable pub retitle : Conversation → String → List Conversation → List Conversation
retitle k message conversations =
    if or_text k.title "新会话" == "新会话"
    then rename_ai_conversation k.id (or_text (limit message 24) "新会话") conversations
    else conversations

module _ (decrypt : String → Option String) (hostname : String → String) (show : ℕ → String)
    (config : AiConfig) (total_deadline keep_seconds : ℕ) where
  -- The checks of the conversation and of the text.
  unfoldable pub check_message : ChatRequest → Answer (Unit {0})
  check_message r =
      let message = strip r.user_message in
      if r.resume
      then answer tt
      else if message == ""
      then refuse 400 "请输入内容"
      else if ltb config.input_max_chars (text_length message)
      then refuse 400 ("提问过长，最多 " <> show config.input_max_chars <> " 字")
      else answer tt

  unfoldable pub check_access : ChatRequest → Option Conversation → Answer Conversation
  check_access r none = refuse 404 "会话不存在"
  check_access r (some k) =
      if not (k.username == r.username) && not (r.role == "admin")
      then refuse 403 "无权访问该会话"
      else elim (check_message r) [ refuse code text ↦ refuse code text | answer _ ↦ answer k ]

  -- `check_daily_limit`, but for the rule engine, with the tokens used today.
  unfoldable pub check_quota : ℕ → Provider × String → Answer (Provider × String)
  check_quota used (p, key) =
      if not p.traditional_fallback && over_daily_limit config used
      then refuse 429 (
          "今日已用 "
          <> show used
          <> " tokens，达到上限 "
          <> show config.daily_token_limit
          <> "（OPS_AI_DAILY_TOKEN_LIMIT），请明天再试或联系管理员调整限额")
      else answer (p, key)

  -- The steps before the row of the answer is written, as far as they come.
  unfoldable pub prepare : ℕ → ℕ → ChatRequest → Conversation → Provider → Service → Service
  prepare writes now r k p s =
      let message = strip r.user_message in
      let touched =
        if leb 2 writes then touch_ai_conversation k.id p.id s.conversations else s.conversations in
      record s {
        world =
            if not r.resume && leb 1 writes
            then (add_ai_message k.id "user" message "done" "" "" "" s.world).0
            else s.world;
        conversations = if not r.resume && leb 3 writes then retitle k message touched else touched;
        streams = cleanup_streams false keep_seconds now s.streams;
      }

  -- The row of the answer, the stream and what the thread is given.
  unfoldable pub begin_stream :
      ℕ → String → ChatRequest → Conversation → Provider × String → Service → Service × StartReply
  begin_stream now uuid r k (p, key) s =
      let (w, id) = add_ai_message k.id "assistant" "" "streaming" "" "" "" s.world in
      let stream =
        new_stream now total_deadline uuid "chat" (or_text k.username r.username) r.role (some k.id)
          r.access_mode in
      (
        record s { world = record w { stream = stream }; streams = s.streams ++ stream ∷ [] },
        begun (record {
          stream = stream;
          message_id = id;
          engine = engine_of config p;
          provider = p;
          api_key = key;
        }),
      )

  -- From the acquired place to the start of the thread. An exception gives the place back.
  unfoldable pub launch :
      ℕ
      → ℕ
      → String
      → ChatRequest
      → Conversation
      → Provider × String
      → Service
      → Service × StartReply
  launch writes now uuid r k (p, key) s =
      let s₁ = prepare writes now r k p s in
      if leb 4 writes
      then begin_stream now uuid r k (p, key) s₁
      else (record s₁ { free = release s₁.free }, failed)

  -- The place of the semaphore, or the refusal.
  unfoldable pub acquire :
      ℕ
      → ℕ
      → String
      → ChatRequest
      → Conversation
      → Answer (Provider × String)
      → Service
      → Service × StartReply
  acquire writes now uuid r k (refuse code text) s = (s, refused code text)
  acquire writes now uuid r k (answer found) s =
      if s.free == 0
      then (s, refused 429 ("当前正在生成中（并发上限 " <> show config.max_concurrency <> "），请稍后再试"))
      else launch writes now uuid r k found (record s { free = s.free - 1 })

  unfoldable pub choose :
      List Provider → ℕ → ChatRequest → Conversation → Answer (Provider × String)
  choose providers used r k =
      elim (resolve_provider_or_traditional decrypt hostname show config providers
        (choice_or r.provider_id k.provider_id)) [
          | refuse code text ↦ refuse code text
          | answer found ↦ check_quota used found
        ]

  -- After the checks of the caller.
  unfoldable pub admit :
      List Provider
      → ℕ
      → ℕ
      → ℕ
      → String
      → ChatRequest
      → Answer Conversation
      → Service
      → Service × StartReply
  admit providers used writes now uuid r (refuse code text) s = (s, refused code text)
  admit providers used writes now uuid r (answer k) s =
      acquire writes now uuid r k (choose providers used r k) s

  unfoldable pub check_caller : ChatRequest → Service → Answer Conversation
  check_caller r s = require_enabled config (
      if role_allowed config r.role
      then check_access r (get_ai_conversation r.conversation_id s.conversations)
      else refuse 403 "当前角色无权使用 AI 智能运维")

  -- `start_chat`; `used` is `ai_usage_today`.
  unfoldable pub start_chat :
      List Provider → ℕ → ℕ → ℕ → String → ChatRequest → Service → Service × StartReply
  start_chat providers used writes now uuid r s =
      admit providers used writes now uuid r (check_caller r s) s

-- What the thread is given of a generation that has begun.
unfoldable pub job_of : ChatRequest → Conversation → String → Started → Job
job_of r k client_ip started = record {
  engine = started.engine;
  model = or_text started.provider.model "-";
  message_id = started.message_id;
  conversation_id = k.id;
  client_ip = client_ip;
  resume = r.resume;
}
