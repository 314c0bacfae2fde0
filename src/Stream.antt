-- ===== src/Stream.antt =====
-- ai_service.py: the buffer of one generation (`_Stream`), and the functions that read and cancel
-- it. Every method runs under the stream's lock, so each is one step.
pub mod Polling
mod Tests
use ops_inspection_system.Common.{
  ℕ, ◌+◌, ◌*◌, ◌-◌, min, max, String, ◌<>◌, Bool, true, false, Option, none, some, List, [], ◌∷◌,
  ◌++◌, ◌&&◌, ◌||◌, not, ◌==◌, ltb, length, string_eq, number_eq, contains, if◌then◌else◌, select,
  find, leb, option_eq, ends_with, strip, text_length, text_drop,
}
use ops_inspection_system.Resource.Order.{sort}
use ops_inspection_system.Actions.{Action}

pub data Mode : Type 0 where
  limited change full : Mode

-- `normalize_access_mode`; `lower` is `str.lower`, `none` is Python's None.
unfoldable pub normalize_access_mode : (String → String) → Option String → Mode
normalize_access_mode lower none = change
normalize_access_mode lower (some value) =
    let text = lower (strip value) in
    if value == ""
    then change
    else if text == "limited"
    then limited
    else if text == "full"
    then full
    else change

pub data State : Type 0 where
  streaming done failed canceled : State

pub record Usage : Type 0 where
  pub prompt_tokens : ℕ
  pub completion_tokens : ℕ

-- The dict of a tool event, but its title, label and clock time.
pub record ToolEvent : Type 0 where
  pub name : String
  pub level : String
  pub summary : String
  pub status : String

-- A pending action is the row that `serialize_action` shows. The ids of the message, the provider, the
-- model and the run, the number of prompt characters and the list of tool calls are left out.
pub record Stream : Type 0 where
  pub stream_id : String
  pub kind : String
  pub username : String
  pub role : String
  pub conversation_id : Option ℕ
  pub access_mode : Mode
  pub status : State
  pub content : String
  pub tool_events : List ToolEvent
  pub pending_actions : List Action
  pub usage : Usage
  pub error : String
  pub cancel : Bool
  pub created_at : ℕ
  pub finished_at : Option ℕ
  pub deadline : ℕ
  pub rounds : ℕ
  pub round_pending : Bool

-- The constructor of the class.
unfoldable pub new_stream : ℕ → ℕ → String → String → String → String → Option ℕ → Mode → Stream
new_stream now total_deadline stream_id kind username role conversation_id mode = record {
  stream_id = stream_id;
  kind = kind;
  username = username;
  role = role;
  conversation_id = conversation_id;
  access_mode = mode;
  status = streaming;
  content = "";
  tool_events = [];
  pending_actions = [];
  usage = record { prompt_tokens = 0; completion_tokens = 0 };
  error = "";
  cancel = false;
  created_at = now;
  finished_at = none;
  deadline = now + max 10 total_deadline;
  rounds = 0;
  round_pending = false;
}

unfoldable pub begin_round : Stream → Stream
begin_round s = record s { round_pending = true; rounds = s.rounds + 1 }

-- The blank line between two rounds.
abbrev gap : Stream → String
gap s =
    if s.round_pending && not (s.content == "") && not (ends_with s.content "\n")
    then "\n\n"
    else ""

unfoldable pub append_delta : String → Stream → Stream
append_delta text s =
    if text == ""
    then s
    else record s { round_pending = false; content = (s.content <> gap s) <> text }

unfoldable pub append_text : String → Stream → Stream
append_text text s = record s { round_pending = false; content = s.content <> text }

unfoldable pub add_tool_event : ToolEvent → Stream → Stream
add_tool_event event s =
    if ltb (length s.tool_events) 30
    then record s { tool_events = s.tool_events ++ event ∷ [] }
    else s

unfoldable pub add_pending_action : Action → Stream → Stream
add_pending_action item s = record s { pending_actions = s.pending_actions ++ item ∷ [] }

-- `none` where the value of a key is no number; the key is then left alone.
abbrev plus : ℕ → Option ℕ → ℕ
plus n none = n
plus n (some k) = n + k

unfoldable pub add_usage : Option ℕ → Option ℕ → Stream → Stream
add_usage prompt completion s = record s {
  usage = record {
    prompt_tokens = plus s.usage.prompt_tokens prompt;
    completion_tokens = plus s.usage.completion_tokens completion;
  };
}

unfoldable pub finish : ℕ → State → String → Stream → Stream
finish now status error s = record s { status = status; error = error; finished_at = some now }

-- What a poll returns of the content: its length, and the part from the offset on.
pub record Snapshot : Type 0 where
  pub stream_id : String
  pub kind : String
  pub conversation_id : Option ℕ
  pub status : State
  pub total : ℕ
  pub content : String
  pub tool_events : List ToolEvent
  pub pending_actions : List Action
  pub usage : Usage
  pub rounds : ℕ
  pub error : Option String

unfoldable pub snapshot : ℕ → Stream → Snapshot
snapshot offset s =
    let total = text_length s.content in
    record {
      stream_id = s.stream_id;
      kind = s.kind;
      conversation_id = s.conversation_id;
      status = s.status;
      total = total;
      content = text_drop (min offset total) s.content;
      tool_events = s.tool_events;
      pending_actions = s.pending_actions;
      usage = s.usage;
      rounds = s.rounds;
      error = if s.error == "" then none else some s.error;
    }

-- `get_stream`: the dict `_streams` holds each stream under its id.
unfoldable pub get_stream : String → List Stream → Option Stream
get_stream stream_id [] = none
get_stream stream_id (s ∷ streams) =
    if s.stream_id == stream_id then some s else get_stream stream_id streams

-- An `AiServiceError` with its status, or the result.
pub data Answer {ℓ} (A : Type ℓ) : Type ℓ where
  answer : A → Answer A
  refuse : ℕ → String → Answer A

abbrev pub may_use : String → String → Stream → Bool
may_use username role s = s.username == username || role == "admin"

unfoldable pub read_stream : String → ℕ → String → String → List Stream → Answer Snapshot
read_stream stream_id offset username role streams = elim (get_stream stream_id streams) [
  | none ↦ refuse 404 "生成任务不存在或已过期，请刷新页面重试"
  | some s ↦
      if role == "viewer" && not (s.kind == "insight")
      then refuse 403 "当前角色只能访问巡检解读"
      else if not (may_use username role s)
      then refuse 403 "无权查看该生成任务"
      else answer (snapshot offset s)
]

abbrev is_streaming : State → Bool
is_streaming streaming = true
is_streaming _ = false

-- `active_stream_for`: the newest stream of a conversation that still runs and that the caller may use.
unfoldable pub active_stream_for : ℕ → String → String → List Stream → Option String
active_stream_for conversation_id username role streams =
    let candidates =
      select (λ (s : Stream). s.conversation_id == some conversation_id && is_streaming s.status)
        streams in
    let newest_first = λ (a b : Stream). leb b.created_at a.created_at in
    elim (find (may_use username role) (sort newest_first candidates)) [
      | none ↦ none
      | some s ↦ some s.stream_id
    ]

set_cancel : String → List Stream → List Stream
set_cancel stream_id [] = []
set_cancel stream_id (s ∷ streams) =
    if s.stream_id == stream_id
    then record s { cancel = true } ∷ streams
    else s ∷ set_cancel stream_id streams

unfoldable pub request_cancel : String → String → String → List Stream → List Stream × Answer State
unfolding set_cancel
request_cancel stream_id username role streams = elim (get_stream stream_id streams) [
  | none ↦ (streams, refuse 404 "生成任务不存在或已结束")
  | some s ↦
      if role == "viewer" && not (s.kind == "insight")
      then (streams, refuse 403 "当前角色只能访问巡检解读")
      else if not (may_use username role s)
      then (streams, refuse 403 "无权停止该生成任务")
      else (set_cancel stream_id streams, answer s.status)
]

abbrev ended : State → Bool
ended streaming = false
ended _ = true

abbrev reference : Stream → ℕ
reference s = elim s.finished_at [ none ↦ s.created_at | some at ↦ at ]

-- Whether `_cleanup_streams` drops a stream; `keep` is `max(30, AI_STREAM_KEEP_SECONDS)`.
abbrev stale : Bool → ℕ → ℕ → Stream → Bool
stale force keep now s =
    ended s.status && (force || ltb keep (now - reference s))
    || ltb (max (keep * 6) 3600) (now - s.created_at)

unfoldable pub cleanup_streams : Bool → ℕ → ℕ → List Stream → List Stream
cleanup_streams force keep_seconds now [] = []
cleanup_streams force keep_seconds now (s ∷ streams) =
    let rest = cleanup_streams force keep_seconds now streams in
    if stale force (max 30 keep_seconds) now s then rest else s ∷ rest
