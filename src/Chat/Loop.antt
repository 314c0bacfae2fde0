-- ===== src/Chat/Loop.antt =====
-- ai_service.py: `_run_chat`, the rounds of a conversation with the model. A round is one call of the
-- model and the tool calls that it asks for. `Outside` is what the code cannot know: what the model
-- answers (`AiClient.chat`), whether a cancellation has come, the clock, and which write to the
-- database raises, each by the number of the rounds before. Parameters: as in Chat; `chars` is the
-- length of `json.dumps` of the messages.
pub mod Rounds
pub mod Stops
use ops_inspection_system.Common.{
  ℕ, ◌+◌, suc, zero, String, ◌<>◌, Bool, true, false, Option, none, some, List, [], ◌∷◌, ◌++◌, ◌&&◌,
  ◌||◌, not, ◌==◌, ltb, leb, string_eq, number_eq, if◌then◌else◌,
}
use ops_inspection_system.Json.{Json}
use ops_inspection_system.Stream.{Stream, begin_round, append_delta, add_usage}
use ops_inspection_system.Tools.{Context, Handlers}
use ops_inspection_system.Chat.{handle_tool_call}
use ops_inspection_system.Chat.Store.{World, ToolCall, Executors}
use ops_inspection_system.Chat.History.{Turn, plain, calling, answering, wire_calls}

-- What a call of the model comes to: a reply, an `AiClientError` with its kind, or another exception;
-- in each case after the pieces of text that were streamed.
pub data Completion : Type 0 where
  reply :
      (deltas : List String)
      → (content : String) → (calls : List ToolCall) → (prompt completion : Option ℕ) → Completion
  broken : (deltas : List String) → (kind text : String) → Completion
  crashed : (deltas : List String) → (text : String) → Completion

-- A write that raises: how many calls of the round are handled before, how many writes of the next
-- one succeed, and the text of the exception.
pub record Fault : Type 0 where
  pub calls : ℕ
  pub writes : ℕ
  pub text : String

pub record Outside : Type 0 where
  pub model : ℕ → List Turn → Bool → Completion
  pub cancelled : ℕ → Bool
  pub clock : ℕ → ℕ
  pub fault : ℕ → Option Fault

-- config.py: `AI_MAX_TOOL_ROUNDS`, `AI_TOTAL_DEADLINE` and `AI_ACTION_TTL`.
pub record Limits : Type 0 where
  pub max_tool_rounds : ℕ
  pub total_deadline : ℕ
  pub action_ttl : ℕ

-- The variables of the loop; the tools are offered until it is capped.
pub record Loop : Type 0 where
  pub world : World
  pub messages : List Turn
  pub capped : Bool
  pub prompt_chars : ℕ

-- How the function ends: it returns, or raises.
pub data Ending : Type 0 where
  returns : Ending
  client_error : (kind text : String) → Ending
  other_error : (text : String) → Ending

pub data Next : Type 0 where
  again : Loop → Next
  stop : Loop → Ending → Next

unfoldable pub append_deltas : List String → Stream → Stream
append_deltas [] s = s
append_deltas (text ∷ texts) s = append_deltas texts (append_delta text s)

abbrev pub on_stream : (Stream → Stream) → World → World
on_stream f w = record w { stream = f w.stream }

-- A cancellation that has come sets the flag of the stream.
unfoldable pub hear : Outside → Loop → Loop
hear outside l = record l {
  world = on_stream (λ s. record s { cancel = s.cancel || outside.cancelled s.rounds }) l.world;
}

-- A call that is broken off: the tool message is the first write, the action that waits for
-- confirmation the second where there is one, the audit the last; the stream is changed before the audit.
unfoldable pub interrupted : ℕ → World → World × String × Bool → World
interrupted zero w (w₁, content, waits) = w
interrupted (suc zero) w (w₁, content, waits) =
    if waits
    then record w { messages = w₁.messages; next_message = w₁.next_message }
    else record w₁ { audits = w.audits }
interrupted (suc (suc n)) w (w₁, content, waits) = record w₁ { audits = w.audits }

module _ (show : ℕ → String) (limits : Limits) (outside : Outside) where
  -- The note that ends the use of tools; the empty text where there is none.
  unfoldable pub cap_note : Stream → String
  cap_note s =
      if leb limits.max_tool_rounds s.rounds
      then "已达到工具调用轮数上限（" <> show limits.max_tool_rounds <> "），请停止调用工具，直接给出当前结论。"
      else if ltb s.deadline (outside.clock s.rounds)
      then "本轮对话已超过总时长上限（" <> show limits.total_deadline <> " 秒），请停止调用工具，直接给出当前结论。"
      else ""

  unfoldable pub cap : Loop → Loop
  cap l =
      let note = cap_note l.world.stream in
      if l.capped || note == ""
      then l
      else record l { capped = true; messages = l.messages ++ plain "system" note ∷ [] }

module _ (lower : String → String) (dumps : Json → String) (show : ℕ → String)
    (chars : List Turn → ℕ) (h : Handlers) (executors : Executors) (limits : Limits)
    (outside : Outside) (conversation_id : ℕ) (c : Context) where
  -- The loop over the calls of a round: the last part says whether one of them stops it.
  unfoldable pub handle_calls : ℕ → List ToolCall → World × List Turn → World × List Turn × Bool
  handle_calls now [] (w, messages) = (w, messages, false)
  handle_calls now (call ∷ calls) (w, messages) =
      let (w₁, content, stops) =
        handle_tool_call lower dumps h executors now limits.action_ttl conversation_id c call w in
      let (w₂, messages₁, later) =
        handle_calls now calls (w₁, messages ++ answering call.id content ∷ []) in
      (w₂, messages₁, stops || later)

  -- The calls of a round up to the write that raises; `none` where the round does not come to it.
  unfoldable pub break_off : ℕ → ℕ → ℕ → List ToolCall → World → Option World
  break_off now n writes [] w = none
  break_off now zero writes (call ∷ calls) w = some (
      interrupted writes w
        (handle_tool_call lower dumps h executors now limits.action_ttl conversation_id c call w))
  break_off now (suc n) writes (call ∷ calls) w =
      break_off now n writes calls
        (handle_tool_call lower dumps h executors now limits.action_ttl conversation_id c call w).0

  abbrev pub broken_world : ℕ → List ToolCall → World → Option Fault → Option (World × String)
  broken_world now calls w none = none
  broken_world now calls w (some f) = elim (break_off now f.calls f.writes calls w) [
    | none ↦ none
    | some w₁ ↦ some (w₁, f.text)
  ]

  -- After a reply that calls tools.
  unfoldable pub run_tools : ℕ → Loop → String → List ToolCall → Next
  run_tools now l content calls =
      let asked = l.messages ++ calling content (wire_calls lower dumps calls) ∷ [] in
      let (w, messages, stops) = handle_calls now calls (l.world, asked) in
      let next = record l { world = w; messages = messages } in
      elim (broken_world now calls l.world (outside.fault l.world.stream.rounds)) [
        | some (w₁, text) ↦ stop (record l { world = w₁ }) (other_error text)
        | none ↦ if stops then stop next returns else again next
      ]

  -- `_start_round`, up to the call of the model.
  unfoldable pub begin : Loop → Loop
  begin l = record l { world = on_stream begin_round l.world; prompt_chars = chars l.messages }

  -- What follows the call of the model.
  unfoldable pub take_answer : ℕ → Loop → Completion → Next
  take_answer now l (broken deltas kind text) =
      stop (record l { world = on_stream (append_deltas deltas) l.world }) (client_error kind text)
  take_answer now l (crashed deltas text) =
      stop (record l { world = on_stream (append_deltas deltas) l.world }) (other_error text)
  take_answer now l (reply deltas content [] prompt completion) =
      stop
        (record l {
          world = on_stream (λ s. add_usage prompt completion (append_deltas deltas s)) l.world;
        })
        returns
  take_answer now l (reply deltas content (call ∷ calls) prompt completion) =
      let heard = record l {
        world = on_stream (λ s. add_usage prompt completion (append_deltas deltas s)) l.world;
      } in
      if l.capped then stop heard returns else run_tools now heard content (call ∷ calls)

  -- One turn of the loop, from its first test on.
  unfoldable pub round_heard : Loop → Next
  round_heard l =
      let n = l.world.stream.rounds in
      let l₁ = cap show limits outside l in
      if l.world.stream.cancel
      then stop l (client_error "canceled" "已取消")
      else take_answer (outside.clock n) (begin l₁) (outside.model n l₁.messages (not l₁.capped))

  unfoldable pub round : Loop → Next
  round l = round_heard (hear outside l)

  -- The loop, on fuel; `none` where that is used up.
  unfoldable pub run_rounds : ℕ → Loop → Option (Loop × Ending)
  run_rounds zero l = none
  run_rounds (suc fuel) l = elim (round l) [
    | again next ↦ run_rounds fuel next
    | stop last ending ↦ some (last, ending)
  ]

-- `_run_chat`: the messages are the system prompt and the history.
unfoldable pub start_loop : String → List Turn → World → Loop
start_loop system_prompt history w = record {
  world = w;
  messages = plain "system" system_prompt ∷ history;
  capped = false;
  prompt_chars = 0;
}
