-- ===== src/Chat/Store.antt =====
-- ai_service.py and models.py: what tool calls and confirmations write, and the small texts of both.
use ops_inspection_system.Common.{
  ℕ, suc, String, ◌<>◌, Bool, true, false, Option, none, some, List, [], ◌∷◌, ◌++◌, ◌==◌, ltb,
  string_eq, number_eq, if◌then◌else◌, text_take, text_length, update_where,
}
use ops_inspection_system.Json.{Json, bool, str, obj, Fields, end, field, put}
use ops_inspection_system.Json.Redact.{redact}
use ops_inspection_system.Actions.{Action, Table}
use ops_inspection_system.Stream.{
  Mode, limited, change, full, Stream, add_tool_event, add_pending_action,
}
use ops_inspection_system.Tools.{Level, read, remote, action, unknown, Spec, Context, Try}

-- A row of `ai_messages`, the columns that tool calls write.
pub record Message : Type 0 where
  pub id : ℕ
  pub conversation_id : ℕ
  pub role : String
  pub content : String
  pub status : String
  pub tool_name : String
  pub tool_call_id : String
  pub tool_args : String

-- A row of `audit_logs` but its id and time.
pub record Audit : Type 0 where
  pub client_ip : String
  pub username : String
  pub action : String
  pub result : String
  pub target_type : String
  pub target_id : ℕ
  pub target_name : String
  pub detail : String

-- The tables that tool calls and confirmations write, and the stream of the generation.
pub record World : Type 0 where
  pub actions : Table
  pub messages : List Message
  pub next_message : ℕ
  pub audits : List Audit
  pub stream : Stream

pub record ToolCall : Type 0 where
  pub id : String
  pub name : String
  pub args : Json

-- What an executor returns: `ok`, `result` and `error`, and the whole dict.
pub record Done : Type 0 where
  pub ok : Bool
  pub output : String
  pub error : String
  pub value : Json

abbrev pub Executors : Type 0
Executors = String → Option (Fields → Context → Try Done)

-- `models.add_ai_message`
unfoldable pub add_ai_message :
    ℕ → String → String → String → String → String → String → World → World × ℕ
add_ai_message conversation_id role content status tool_name tool_call_id tool_args w = (
  record w {
    messages =
        w.messages
        ++ record {
          id = w.next_message;
          conversation_id = conversation_id;
          role = role;
          content = content;
          status = status;
          tool_name = tool_name;
          tool_call_id = tool_call_id;
          tool_args = tool_args;
        }
          ∷ [];
    next_message = suc w.next_message;
  },
  w.next_message,
)

-- `models.record_audit`
unfoldable pub record_audit :
    String → String → String → String → String → ℕ → String → String → World → World
record_audit client_ip username deed outcome target_type target_id target_name detail w = record w {
  audits =
      w.audits
      ++ record {
        client_ip = client_ip;
        username = username;
        action = deed;
        result = outcome;
        target_type = target_type;
        target_id = target_id;
        target_name = target_name;
        detail = detail;
      }
        ∷ [];
}

-- `_limit`
abbrev pub limit : String → ℕ → String
limit text size = if ltb size (text_length text) then text_take size text <> "…" else text

abbrev pub level_text : Level → String
level_text read = "read"
level_text remote = "remote"
level_text action = "action"
level_text unknown = "unknown"

-- `models.finish_ai_message`, the two columns of this model; it also sets the error, the tokens and the
-- duration.
unfoldable pub finish_ai_message : ℕ → String → String → World → World
finish_ai_message id content status w = record w {
  messages =
      update_where (λ m. m.id == id) (λ m. record m { content = content; status = status })
        w.messages;
}

-- A tool event on the stream.
unfoldable pub note_event : String → Level → String → String → World → World
note_event name level summary status w = record w {
  stream =
      add_tool_event
        (record {
          name = name;
          level = level_text level;
          summary = limit summary 200;
          status = status;
        })
        w.stream;
}

-- `{"ok": False, "error": …}`
abbrev pub failure : String → Json
failure error = obj (field "ok" (bool false) (field "error" (str error) end))

abbrev pub title_or : Option Spec → String → String
title_or none name = name
title_or (some s) name = s.title

abbrev pub always_confirms : Option Spec → Bool
always_confirms none = false
always_confirms (some s) = s.always_confirm

abbrev pub is_full : Mode → Bool
is_full full = true
is_full _ = false

abbrev pub is_limited : Mode → Bool
is_limited limited = true
is_limited _ = false

abbrev pub is_remote : Level → Bool
is_remote remote = true
is_remote _ = false

abbrev pub mode_text : Mode → String
mode_text limited = "limited"
mode_text change = "change"
mode_text full = "full"

abbrev pub fields_or_end : Json → Fields
fields_or_end (obj d) = d
fields_or_end _ = end

-- The payload that is stored: redacted, and the mode beside it; anything but a dict is dropped.
unfoldable pub stored_payload : (String → String) → Mode → Json → Fields
stored_payload lower mode payload =
    put (fields_or_end (redact lower payload)) "_access_mode" (str (mode_text mode))

-- `stream.add_pending_action(serialize_action(…))`
abbrev pub show_pending : Option Action → Stream → Stream
show_pending none s = s
show_pending (some a) s = add_pending_action a s
