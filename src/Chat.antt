-- ===== src/Chat.antt =====
-- ai_service.py: what a tool call of the model leads to, by the access mode of the stream, and how
-- a person approves or rejects what waits for confirmation. Parameters: `lower` is `str.lower`,
-- `dumps` is `json.dumps`, `handlers` and `executors` are the functions behind the tools and the
-- action types. Clock times in tool events and the UI's display of an action are left out.
mod Tests
pub mod Store
pub mod Access
pub mod History
pub mod Loop
pub mod Provider
pub mod Worker
pub mod Start
pub mod Approve
use ops_inspection_system.Common.{
  ℕ, String, ◌<>◌, Bool, true, false, Option, none, some, List, [], ◌∷◌, ◌&&◌, not, ◌==◌, string_eq,
  number_eq, if◌then◌else◌, text_take,
}
use ops_inspection_system.Json.{Json, null, bool, num, str, arr, obj, nil, Fields, end, field}
use ops_inspection_system.Json.Redact.{redact}
use ops_inspection_system.Actions.{add_ai_action, get_ai_action}
use ops_inspection_system.Stream.{full, append_text}
use ops_inspection_system.Tools.{
  Level, read, remote, action, unknown, Spec, spec_for, level_of, Context, Try, returned,
  tool_error, raised, Outcome, result, act, Handlers, execute, is_action,
}
use Store.{
  World, ToolCall, Done, Executors, add_ai_message, record_audit, limit, level_text, note_event,
  failure, title_or, always_confirms, is_full, is_limited, is_remote, stored_payload, show_pending,
}

-- What a tool call leaves: the world, the content for the model, and whether the round stops.
abbrev pub Handled : Type 0
Handled = World × String × Bool

-- `call.get("args") or {}`: a falsy value is the empty dict.
abbrev pub or_dict : Json → Json
or_dict null = obj end
or_dict (bool false) = obj end
or_dict (num n) = if n == 0 then obj end else num n
or_dict (str s) = if s == "" then obj end else str s
or_dict (arr nil) = obj end
or_dict v = v

-- `executor(…) or {}`, where an exception becomes a failure with its text.
abbrev pub done_or_error : Try Done → Done
done_or_error (returned d) = d
done_or_error (tool_error e) = record { ok = false; output = ""; error = e; value = failure e }
done_or_error (raised e) = record { ok = false; output = ""; error = e; value = failure e }

-- `text or other`
abbrev pub or_text : String → String → String
or_text text other = if text == "" then other else text

-- The detail of the audit of an action that ran at once.
abbrev pub full_detail : (Json → String) → String → Done → String
full_detail dumps action_type done = dumps (
    obj (
      field "access_mode" (str "full")
        (field "action" (str action_type) (field "result" done.value end))))

module _ (lower : String → String) (dumps : Json → String) where
  -- A tool message and an event, the common end of the branches that go on.
  unfoldable pub answer_call :
      ℕ → ToolCall → String → String → String → Level → String → String → World → World
  answer_call conversation_id call name args_text content level summary status w =
      note_event name level summary status
        (add_ai_message conversation_id "tool" content "done" name call.id args_text w).0

  -- `_submit_confirmation`
  unfoldable pub submit_confirmation :
      ℕ → ℕ → ℕ → ToolCall → String → String → Json → String → String → Level → World → Handled
  submit_confirmation now ttl conversation_id call action_type args_text payload summary risk level
        w =
      let note = dumps (
        obj (
          field "ok" (bool true) (
            field "status" (str "pending_confirmation") (
              field "action" (str action_type) (
                field "summary" (str summary) (
                  field "risk" (str risk)
                    (field "note" (str "已提交人工确认，确认前不会访问或执行。请告诉用户在界面上确认或拒绝。") end))))))) in
      let (w₁, message_id) =
        add_ai_message conversation_id "tool" note "pending" action_type call.id args_text w in
      let (actions, action_id) =
        add_ai_action now
          (record {
            conversation_id = conversation_id;
            action_type = action_type;
            payload = stored_payload lower w.stream.access_mode payload;
            summary = summary;
            risk_level = risk;
            message_id = some message_id;
            requested_by = w.stream.username;
            ttl_seconds = ttl;
          })
          w₁.actions in
      let shown = show_pending (get_ai_action action_id actions) w₁.stream in
      let w₂ =
        note_event action_type level summary "pending"
          (record w₁ { actions = actions; stream = shown }) in
      let w₃ = record w₂ {
        stream =
            append_text ("\n\n⏸ 已提交确认：" <> summary <> "。请在下方卡片里点「确认」或「拒绝」；确认前不会访问或执行。\n") w₂.stream;
      } in
      (
        record_audit "" w.stream.username "ai_action_request" "pending" "ai_action" action_id
            summary
            (text_take 1000 (
              dumps (
                obj (
                  field "action" (str action_type) (
                    field "level" (str (level_text level))
                      (field "payload" (redact lower payload) end))))))
            w₃,
        note,
        true,
      )

  -- The end of a branch that refuses or fails: the content is `{"ok": False, "error": …}`.
  unfoldable pub answer_failure : ℕ → ToolCall → String → Level → String → String → World → Handled
  answer_failure conversation_id call args_text level error shown w =
      let content = dumps (failure error) in
      (
        answer_call conversation_id call call.name args_text content level shown "error" w,
        content,
        false,
      )

  -- The first block of `_handle_tool_call`, for a tool of another level than `action` in limited
  -- mode: it is not run but submitted.
  unfoldable pub submit_access : ℕ → ℕ → ℕ → ToolCall → String → World → Handled
  submit_access now ttl conversation_id call args_text w =
      let level = level_of call.name in
      elim (spec_for call.name) [
        | none ↦
            answer_failure conversation_id call args_text level ("未知工具：" <> call.name)
              ("未知工具：" <> call.name) w
        | some s ↦
            submit_confirmation now ttl conversation_id call call.name args_text (or_dict call.args)
              ("允许 AI 访问：" <> (if s.title == "" then call.name else s.title))
              (if is_remote level then "medium" else "low") level w
      ]

  -- `_execute_action_now`
  unfoldable pub execute_action_now :
      Executors → ℕ → ToolCall → String → String → Fields → String → Context → World → Handled
  execute_action_now executors conversation_id call args_text action_type payload summary c w =
      elim (executors action_type) [
        | none ↦
            let content = dumps (failure "该操作暂不支持执行") in
            (
              answer_call conversation_id call action_type args_text content action summary "error"
                  w,
              content,
              false,
            )
        | some executor ↦
            let done = done_or_error (executor payload c) in
            let content = text_take 4000 (dumps done.value) in
            let w₁ =
              answer_call conversation_id call action_type args_text content action summary
                (if done.ok then "ok" else "error") w in
            (
              record_audit "" w.stream.username "ai_action_execute"
                  (if done.ok then "ok" else "failed") "ai_conversation" conversation_id summary
                  (text_take 1000 (full_detail dumps action_type done)) w₁,
              content,
              false,
            )
      ]

  -- What follows a call of `execute` that returned.
  unfoldable pub after_execute :
      Executors → ℕ → ℕ → ℕ → ToolCall → String → Context → Outcome → World → Handled
  after_execute executors now ttl conversation_id call args_text c (act kind payload summary risk)
        w =
      if is_full w.stream.access_mode && not (always_confirms (spec_for call.name))
      then execute_action_now executors conversation_id call args_text kind payload
          (or_text summary kind) c w
      else submit_confirmation now ttl conversation_id call kind args_text (obj payload)
          (or_text summary call.name) (or_text risk "medium") action w
  after_execute executors now ttl conversation_id call args_text c (result ok content summary error)
        w =
      let level = level_of call.name in
      let shown = if summary == "" then "调用 " <> call.name else summary in
      (
        record_audit "" w.stream.username "ai_tool_call" "ok" "ai_conversation" conversation_id
            call.name ("工具=" <> call.name <> " 级别=" <> level_text level <> " " <> shown)
            (answer_call conversation_id call call.name args_text content level shown "ok" w),
        content,
        false,
      )

  -- The `try` around `execute`, by what came of it.
  unfoldable pub conclude :
      Executors → ℕ → ℕ → ℕ → ToolCall → String → Context → Try Outcome → World → Handled
  conclude executors now ttl conversation_id call args_text c (returned outcome) w =
      after_execute executors now ttl conversation_id call args_text c outcome w
  conclude executors now ttl conversation_id call args_text c (tool_error e) w =
      let level = level_of call.name in
      let (w₁, content, stop) = answer_failure conversation_id call args_text level e e w in
      (
        record_audit "" w.stream.username "ai_tool_call" "rejected" "ai_conversation"
            conversation_id call.name
            ("工具=" <> call.name <> " 级别=" <> level_text level <> " 拒绝：" <> e) w₁,
        content,
        stop,
      )
  conclude executors now ttl conversation_id call args_text c (raised e) w =
      answer_failure conversation_id call args_text (level_of call.name) ("工具执行异常：" <> e) e w

  -- `_handle_tool_call`
  unfoldable pub handle_tool_call :
      Handlers → Executors → ℕ → ℕ → ℕ → Context → ToolCall → World → Handled
  handle_tool_call h executors now ttl conversation_id c call w =
      let args_text = limit (dumps (redact lower (or_dict call.args))) 1500 in
      if is_limited w.stream.access_mode && not (is_action (level_of call.name))
      then submit_access now ttl conversation_id call args_text w
      else conclude executors now ttl conversation_id call args_text c
          (execute h call.name (or_dict call.args) c) w
