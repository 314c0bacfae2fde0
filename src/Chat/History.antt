-- ===== src/Chat/History.antt =====
-- ai_service.py: what the model is told of a conversation's earlier messages. Parameters: `loads` is
-- `json.loads`, `none` where it raises; `dumps` is `json.dumps`. A call that is stored has texts for
-- its id, name and arguments and a dict for its function, as `_wire_calls` writes it.
pub mod Answered
use ops_inspection_system.Common.{
  ℕ, String, ◌<>◌, Bool, true, false, Option, none, some, List, [], ◌∷◌, ◌++◌, ◌&&◌, ◌||◌, not,
  ◌==◌, string_eq, if◌then◌else◌, map, select, contains, flat_map, strip,
}
use ops_inspection_system.Json.{
  Json, str, bool, arr, obj, Items, nil, cons, Fields, end, field, get,
}
use ops_inspection_system.Json.Redact.{redact}
use ops_inspection_system.Chat.Store.{ToolCall}

-- A call in the form that is stored and sent.
pub record WireCall : Type 0 where
  pub id : String
  pub name : String
  pub arguments : String

-- A message for the model: a plain one with its role, one of the model's that calls tools, and the
-- answer to a call.
pub data Turn : Type 0 where
  plain : (role content : String) → Turn
  calling : (content : String) → (calls : List WireCall) → Turn
  answering : (tool_call_id content : String) → Turn

-- A row of `ai_messages`, the columns that are read here; `tool_calls` is its JSON text.
pub record HistoryRow : Type 0 where
  pub role : String
  pub content : String
  pub tool_call_id : String
  pub tool_calls : String

abbrev text_of : Option Json → String
text_of (some (str s)) = s
text_of _ = ""

abbrev dict_of : Option Json → Fields
dict_of (some (obj d)) = d
dict_of _ = end

abbrev or_text : String → String → String
or_text text other = if text == "" then other else text

-- One item of the list that is loaded.
unfoldable pub load_call : Json → List WireCall
load_call (obj item) =
    let function = dict_of (get item "function") in
    if text_of (get item "id") == ""
    then []
    else record {
      id = text_of (get item "id");
      name = or_text (text_of (get function "name")) (text_of (get item "name"));
      arguments = or_text (text_of (get function "arguments")) "{}";
    }
      ∷ []
load_call _ = []

unfoldable pub load_calls : Items → List WireCall
load_calls nil = []
load_calls (cons item items) = load_call item ++ load_calls items

abbrev calls_of : Option Json → List WireCall
calls_of (some (arr items)) = load_calls items
calls_of _ = []

-- `_load_tool_calls`
unfoldable pub load_tool_calls : (String → Option Json) → String → List WireCall
load_tool_calls loads raw = if raw == "" then [] else calls_of (loads raw)

-- The ids of the calls that have an answer.
unfoldable pub answered_ids : List HistoryRow → List String
answered_ids rows =
    map (λ (r : HistoryRow). r.tool_call_id)
      (select (λ (r : HistoryRow). r.role == "tool" && not (r.tool_call_id == "")) rows)

-- The rows that `_context_rows` keeps: an answer without its call does not come first.
unfoldable pub drop_orphans : List HistoryRow → List HistoryRow
drop_orphans [] = []
drop_orphans (r ∷ rows) =
    let rest = drop_orphans rows in if r.role == "tool" then rest else r ∷ rows

module _ (loads : String → Option Json) (dumps : Json → String) where
  abbrev pub pending_note : String
  pending_note = dumps (
      obj (
        field "ok" (bool true) (
          field "status" (str "pending_confirmation")
            (field "note" (str "该操作尚未得到用户确认，因此还没有执行，也没有结果。请明确告诉用户操作在等待确认，不要假设它已经执行成功。") end))))

  -- The calls without an answer are answered with a note.
  unfoldable pub fill_in : List String → List WireCall → List Turn
  fill_in answered [] = []
  fill_in answered (c ∷ calls) =
      let rest = fill_in answered calls in
      if contains answered c.id then rest else answering c.id pending_note ∷ rest

  unfoldable pub assistant_turns : List String → String → List WireCall → List Turn
  assistant_turns answered content [] =
      if strip content == "" then [] else plain "assistant" content ∷ []
  assistant_turns answered content (c ∷ calls) =
      calling content (c ∷ calls) ∷ fill_in answered (c ∷ calls)

  -- The body of the loop.
  unfoldable pub turns_of : List String → HistoryRow → List Turn
  turns_of answered r =
      if r.role == "assistant"
      then assistant_turns answered r.content (load_tool_calls loads r.tool_calls)
      else if r.role == "tool"
      then if r.tool_call_id == "" then [] else answering r.tool_call_id r.content ∷ []
      else if r.role == "user" || r.role == "system"
      then if strip r.content == "" then [] else plain r.role r.content ∷ []
      else []

  -- `history_messages`
  unfoldable pub history_messages : List HistoryRow → List Turn
  history_messages rows = flat_map (turns_of (answered_ids rows)) rows

-- `_wire_calls`
abbrev pub dict_or_end : Json → Json
dict_or_end (obj d) = obj d
dict_or_end _ = obj end

unfoldable pub wire_calls : (String → String) → (Json → String) → List ToolCall → List WireCall
wire_calls lower dumps calls =
    map
      (λ (c : ToolCall). record {
        id = c.id;
        name = c.name;
        arguments = dumps (redact lower (dict_or_end c.args));
      })
      calls
