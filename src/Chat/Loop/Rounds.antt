-- ===== src/Chat/Loop/Rounds.antt =====
-- ai_service.py: handling a tool call leaves the number of rounds alone.
use ops_inspection_system.Common.{
  ℕ, String, Option, none, some, List, [], ◌∷◌, ◌≡◌, refl, inl, inr, arith, ◌&&◌, not, string_eq,
  number_eq, Bool-cases, Option-cases, ◌∙◌,
}
use ops_inspection_system.Json.{Json, obj, Fields}
use ops_inspection_system.Actions.{Action}
use ops_inspection_system.Stream.{
  Stream, append_text, append_delta, add_tool_event, add_pending_action,
}
use ops_inspection_system.Tools.{
  Level, Try, returned, tool_error, raised, Outcome, result, act, Context, Handlers, spec_for,
  level_of, is_action,
}
use ops_inspection_system.Chat.{
  answer_call, answer_failure, submit_confirmation, submit_access, execute_action_now,
  after_execute, conclude, handle_tool_call,
}
use ops_inspection_system.Chat.Store.{
  World, ToolCall, Executors, add_ai_message, record_audit, note_event, show_pending, is_limited,
  is_full, always_confirms,
}
use ops_inspection_system.Chat.Loop.{append_deltas}

abbrev rounds_of : World → ℕ
rounds_of w = w.stream.rounds

note_event-rounds :
    (name : String) (level : Level) (summary status : String) (w : World)
    → rounds_of (note_event name level summary status w) ≡ rounds_of w
unfolding note_event add_tool_event
note_event-rounds name level summary status w = ground arith

show_pending-rounds : (a : Option Action) (s : Stream) → (show_pending a s).rounds ≡ s.rounds
unfolding add_pending_action
show_pending-rounds none s = refl
show_pending-rounds (some a) s = refl

pub append_deltas-rounds :
    (texts : List String) (s : Stream) → (append_deltas texts s).rounds ≡ s.rounds
unfolding append_deltas append_delta
append_deltas-rounds [] s = refl
append_deltas-rounds (text ∷ texts) s =
    ground (arith, append_deltas-rounds texts (append_delta text s))

module _ (lower : String → String) (dumps : Json → String) where
  answer_call-rounds :
      (id : ℕ) (call : ToolCall) (name args_text content : String) (level : Level)
      (summary status : String) (w : World)
      → rounds_of (answer_call lower dumps id call name args_text content level summary status w)
        ≡ rounds_of w
  unfolding answer_call add_ai_message
  answer_call-rounds id call name args_text content level summary status w =
      note_event-rounds name level summary status _

  answer_failure-rounds :
      (id : ℕ) (call : ToolCall) (args_text : String) (level : Level) (error shown : String)
      (w : World)
      → rounds_of (answer_failure lower dumps id call args_text level error shown w).0 ≡ rounds_of w
  unfolding answer_failure
  answer_failure-rounds id call args_text level error shown w =
      answer_call-rounds id call call.name args_text _ level shown "error" w

  submit_confirmation-rounds :
      (now ttl id : ℕ) (call : ToolCall) (kind args_text : String) (payload : Json)
      (summary risk : String) (level : Level) (w : World)
      → rounds_of
          (submit_confirmation lower dumps now ttl id call kind args_text payload summary risk level
            w).0
        ≡ rounds_of w
  unfolding submit_confirmation record_audit append_text add_ai_message
  submit_confirmation-rounds now ttl id call kind args_text payload summary risk level w =
      note_event-rounds kind level summary "pending" _ ∙ show_pending-rounds _ w.stream

  submit_access-rounds :
      (now ttl id : ℕ) (call : ToolCall) (args_text : String) (w : World)
      → rounds_of (submit_access lower dumps now ttl id call args_text w).0 ≡ rounds_of w
  unfolding submit_access
  submit_access-rounds now ttl id call args_text w = elim (Option-cases (spec_for call.name)) [
    | inl missing ↦ rw (missing, submit_access) (answer_failure-rounds id call args_text _ _ _ w)
    | inr (s, found) ↦
        rw (found, submit_access)
          (submit_confirmation-rounds now ttl id call call.name args_text _ _ _ _ w)
  ]

  execute_action_now-rounds :
      (executors : Executors) (id : ℕ) (call : ToolCall) (args_text kind : String)
      (payload : Fields) (summary : String) (c : Context) (w : World)
      → rounds_of
          (execute_action_now lower dumps executors id call args_text kind payload summary c w).0
        ≡ rounds_of w
  unfolding execute_action_now record_audit
  execute_action_now-rounds executors id call args_text kind payload summary c w =
      elim (Option-cases (executors kind)) [
        | inl missing ↦
            rw (missing, execute_action_now)
              (answer_call-rounds id call kind args_text _ _ summary "error" w)
        | inr (executor, found) ↦
            rw (found, execute_action_now)
              (answer_call-rounds id call kind args_text _ _ summary _ w)
      ]

  after_execute-rounds :
      (executors : Executors) (now ttl id : ℕ) (call : ToolCall) (args_text : String) (c : Context)
      (o : Outcome) (w : World)
      → rounds_of (after_execute lower dumps executors now ttl id call args_text c o w).0
        ≡ rounds_of w
  unfolding after_execute record_audit
  after_execute-rounds executors now ttl id call args_text c (act kind payload summary risk) w =
      elim (Bool-cases
        (is_full w.stream.access_mode && not (always_confirms (spec_for call.name)))) [
          | inl now_full ↦
              rw now_full (execute_action_now-rounds executors id call args_text kind payload _ c w)
          | inr waits ↦
              rw waits
                (submit_confirmation-rounds now ttl id call kind args_text (obj payload) _ _ _ w)
        ]
  after_execute-rounds executors now ttl id call args_text c (result ok content summary error) w =
      answer_call-rounds id call call.name args_text content _ _ "ok" w

  conclude-rounds :
      (executors : Executors) (now ttl id : ℕ) (call : ToolCall) (args_text : String) (c : Context)
      (t : Try Outcome) (w : World)
      → rounds_of (conclude lower dumps executors now ttl id call args_text c t w).0 ≡ rounds_of w
  unfolding conclude record_audit
  conclude-rounds executors now ttl id call args_text c (returned o) w =
      after_execute-rounds executors now ttl id call args_text c o w
  conclude-rounds executors now ttl id call args_text c (tool_error e) w =
      answer_failure-rounds id call args_text _ e e w
  conclude-rounds executors now ttl id call args_text c (raised e) w =
      answer_failure-rounds id call args_text _ _ e w

  pub handle_tool_call-rounds :
      (h : Handlers) (executors : Executors) (now ttl id : ℕ) (c : Context) (call : ToolCall)
      (w : World)
      → rounds_of (handle_tool_call lower dumps h executors now ttl id c call w).0 ≡ rounds_of w
  unfolding handle_tool_call
  handle_tool_call-rounds h executors now ttl id c call w =
      elim (Bool-cases (is_limited w.stream.access_mode && not (is_action (level_of call.name)))) [
        | inl waits ↦ rw waits (submit_access-rounds now ttl id call _ w)
        | inr runs ↦ rw runs (conclude-rounds executors now ttl id call _ c _ w)
      ]
