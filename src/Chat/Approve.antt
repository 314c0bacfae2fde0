-- ===== src/Chat/Approve.antt =====
-- ai_service.py: `approve_action` and `reject_action`. `owner` is the user of an action's
-- conversation: the foreign key, which deletes the actions of a conversation with it, keeps there
-- being one. A call takes place at one time of the clock, with the steps of others before or after.
pub mod Decision
pub mod Again
pub mod Leave
use ops_inspection_system.Common.{
  ℕ, String, ◌<>◌, Bool, true, false, Option, none, some, ◌&&◌, ◌||◌, not, ◌==◌, ltb, string_eq,
  if◌then◌else◌, text_take,
}
use ops_inspection_system.Json.{Json, bool, str, obj, Fields, end, field, get, pop}
use ops_inspection_system.Actions.{
  Action, Status, pending, approved, executed, failed, rejected, expired, is_pending, is_past,
  get_ai_action, claim_ai_action, finish_ai_action,
}
use ops_inspection_system.Stream.{Mode, change, normalize_access_mode}
use ops_inspection_system.Tools.{
  Level, read, remote, action, unknown, Spec, spec_for, Context, default_context, Try, returned,
  tool_error, raised, Outcome, result, act, Handlers, execute,
}
use ops_inspection_system.Chat.{done_or_error}
use ops_inspection_system.Chat.Store.{
  World, Done, Executors, record_audit, finish_ai_message, failure, limit,
}

-- What a caller gets: an `AiServiceError`; that the action was handled before, with its status; that
-- it is too late; or the status that it has now, with the result, the error and the access mode.
pub data Reply : Type 0 where
  refuse : ℕ → String → Reply
  handled : Status → Reply
  lapsed : Reply
  unsupported : Reply
  settled : (ok : Bool) → Status → (result error : String) → Mode → Reply

-- `_write_action_result`
unfoldable pub write_action_result : Action → String → World → World
write_action_result a content w = elim a.message_id [
  | none ↦ w
  | some id ↦ finish_ai_message id content "done" w
]

-- Who confirms, from where, and what was typed into the card.
pub record Caller : Type 0 where
  pub username : String
  pub role : String
  pub client_ip : String
  pub secure_input : Option Fields

abbrev pub text_of : Option Json → Option String
text_of (some (str s)) = some s
text_of _ = none

-- `payload.pop("_access_mode", ACCESS_CHANGE)`
abbrev pub mode_of : (String → String) → Fields → Mode
mode_of lower payload = normalize_access_mode lower (text_of (get payload "_access_mode"))

abbrev pub is_access : Level → Bool
is_access read = true
is_access remote = true
is_access _ = false

-- `spec and spec.get("level") in (LEVEL_READ, LEVEL_REMOTE)`
abbrev pub asks_access : Option Spec → Bool
asks_access none = false
asks_access (some s) = is_access s.level

-- `outcome.get("ok")`, the text of the result and of the error, for a tool run after confirmation.
pub record Ran : Type 0 where
  pub ok : Bool
  pub text : String
  pub error : String

abbrev pub error_or : String → String
error_or e = if e == "" then "执行失败" else e

abbrev pub settled_status : Bool → Status
settled_status true = executed
settled_status false = failed

abbrev pub status_word : Bool → String
status_word true = "ok"
status_word false = "failed"

-- `_owned_conversation`
abbrev pub may_decide : (ℕ → String) → Action → Caller → Bool
may_decide owner a who = owner a.conversation_id == who.username || who.role == "admin"

-- The `content` that `_make_action_handler` gives.
proposal_note : String → String → String → Json
proposal_note kind summary risk = obj (
    field "status" (str "pending_confirmation") (
      field "action" (str kind) (
        field "summary" (str summary)
          (field "risk" (str risk) (field "note" (str "已提交人工确认，确认前不会执行任何动作。请用一句话告诉用户去点确认。") end)))))

module _ (lower : String → String) (dumps : Json → String) where
  -- `ai_tools.execute(…) or {}` with its `except`. The content of a result is the dump of a dict and
  -- never empty, so the fallback to the dump of the outcome is not reached. A proposal of an action
  -- tool bears its note as content; the tools of the two levels that get here make none.
  unfoldable pub ran_of : Try Outcome → Ran
  unfolding proposal_note
  ran_of (returned (result ok content summary error)) = record {
    ok = ok;
    text = content;
    error = error;
  }
  ran_of (returned (act kind payload summary risk)) = record {
    ok = true;
    text = dumps (proposal_note kind summary risk);
    error = "";
  }
  ran_of (tool_error e) = record { ok = false; text = dumps (failure e); error = e }
  ran_of (raised e) = record { ok = false; text = dumps (failure e); error = e }

  -- The common end: the status is written, the waiting message filled in, the audit kept.
  unfoldable pub settle :
      ℕ → Action → Caller → String → String → Mode → Ran → String → World → World × Reply
  settle now a who deed detail mode ran shown w =
      let text = text_take 4000 ran.text in
      let status = settled_status ran.ok in
      let w₁ = record w {
        actions =
            finish_ai_action now a.id status (if ran.ok then text else "")
              (if ran.ok then "" else error_or ran.error) who.username w.actions;
      } in
      (
        record_audit who.client_ip who.username deed (status_word ran.ok) "ai_action" a.id a.summary
            detail (write_action_result a text w₁),
        settled ran.ok status shown ran.error mode,
      )

  -- A tool that reads or reaches a server, confirmed in limited mode.
  unfoldable pub run_access :
      Handlers → (ℕ → String) → ℕ → Action → Fields → Mode → Caller → World → World × Reply
  run_access h owner now a payload mode who w =
      let asker = owner a.conversation_id in
      let c = default_context (if asker == "" then who.username else asker) who.role in
      let ran = ran_of (execute h a.action_type (obj payload) c) in
      settle now a who "ai_tool_call" ("确认后执行工具=" <> a.action_type) mode ran
        (if ran.ok then text_take 4000 ran.text else "") w

  -- After the claim, for an action type with no executor.
  unfoldable pub run_without_executor :
      Handlers → (ℕ → String) → ℕ → Action → Fields → Mode → Caller → World → World × Reply
  run_without_executor h owner now a payload mode who w =
      if asks_access (spec_for a.action_type)
      then run_access h owner now a payload mode who w
      else let w₁ = record w {
        actions = finish_ai_action now a.id failed "" "没有对应的执行器" who.username w.actions;
      } in
        (
          record_audit who.client_ip who.username "ai_action_execute" "failed" "ai_action" a.id
              a.summary "没有注册执行器" (write_action_result a (dumps (failure "该操作暂不支持执行")) w₁),
          unsupported,
        )

  -- After the claim, for an action type with an executor.
  unfoldable pub run_executor :
      (Fields → Context → Try Done) → ℕ → Action → Fields → Mode → Caller → World → World × Reply
  run_executor executor now a payload mode who w =
      let w₁ =
        record_audit who.client_ip who.username "ai_action_approve" "ok" "ai_action" a.id a.summary
          ("确认人=" <> who.username) w in
      let c : Context = record {
        username = who.username;
        role = who.role;
        client_ip = who.client_ip;
        source_action_id = some a.id;
        secure_input = if a.action_type == "upsert_server" then who.secure_input else none;
      } in
      let done = done_or_error (executor payload c) in
      let text = dumps done.value in
      settle now a who "ai_action_execute" (limit (text_take 4000 text) 1000) mode
        (record { ok = done.ok; text = text; error = done.error }) done.output w₁

  unfoldable pub run_claimed :
      Handlers
      → Executors
      → (ℕ → String)
      → ℕ
      → Action
      → Fields
      → Mode
      → Caller
      → World
      → World × Reply
  run_claimed h executors owner now a payload mode who w = elim (executors a.action_type) [
    | none ↦ run_without_executor h owner now a payload mode who w
    | some executor ↦ run_executor executor now a payload mode who w
  ]

  -- From the status check on.
  unfoldable pub approve_owned :
      Handlers → Executors → (ℕ → String) → ℕ → Action → Caller → World → World × Reply
  approve_owned h executors owner now a who w =
      if not (is_pending a.status)
      then (w, handled a.status)
      else if is_past now a.expires_at
      then (
        write_action_result a (dumps (failure "操作已过期，未执行"))
            (record w { actions = finish_ai_action now a.id expired "" "" who.username w.actions }),
        lapsed,
      )
      else let (actions, claimed) = claim_ai_action now a.id who.username w.actions in
        if claimed
        then run_claimed h executors owner now a (pop a.payload "_access_mode")
            (mode_of lower a.payload) who (record w { actions = actions })
        else (record w { actions = actions }, handled approved)

  unfoldable pub approve_action :
      Bool → Handlers → Executors → (ℕ → String) → ℕ → ℕ → Caller → World → World × Reply
  approve_action enabled h executors owner now action_id who w =
      if not enabled
      then (w, refuse 403 "AI 智能运维功能未启用（OPS_AI_ENABLED=0）")
      else elim (get_ai_action action_id w.actions) [
        | none ↦ (w, refuse 404 "操作不存在")
        | some a ↦
            if may_decide owner a who
            then approve_owned h executors owner now a who w
            else (w, refuse 403 "无权处理该操作")
      ]

  -- The note that the model reads in place of a result.
  pub rejection : String → Json
  rejection reason = obj (
      field "ok" (bool true) (
        field "status" (str "rejected") (
          field "note"
            (str (
              "用户拒绝执行该操作，操作没有执行，也没有结果。请尊重用户决定，不要再次发起同一操作，除非用户明确要求。"
              <> (if reason == "" then "" else " 用户备注：" <> reason)))
            end)))

  unfoldable pub reject_claimed : ℕ → Action → Caller → String → World → World × Reply
  unfolding rejection
  reject_claimed now a who reason w =
      let text = dumps (rejection reason) in
      let w₁ = record w {
        actions = finish_ai_action now a.id rejected text "" who.username w.actions;
      } in
      (
        record_audit who.client_ip who.username "ai_action_reject" "ok" "ai_action" a.id a.summary
            ("拒绝人=" <> who.username <> " 备注=" <> limit reason 200) (write_action_result a text w₁),
        settled true rejected "" "" (mode_of lower a.payload),
      )

  unfoldable pub reject_owned : ℕ → Action → Caller → String → World → World × Reply
  reject_owned now a who reason w =
      if not (is_pending a.status)
      then (w, handled a.status)
      else let (actions, claimed) = claim_ai_action now a.id who.username w.actions in
        if claimed
        then reject_claimed now a who reason (record w { actions = actions })
        else (record w { actions = actions }, handled approved)

  unfoldable pub reject_action :
      Bool → (ℕ → String) → ℕ → ℕ → Caller → String → World → World × Reply
  reject_action enabled owner now action_id who reason w =
      if not enabled
      then (w, refuse 403 "AI 智能运维功能未启用（OPS_AI_ENABLED=0）")
      else elim (get_ai_action action_id w.actions) [
        | none ↦ (w, refuse 404 "操作不存在")
        | some a ↦
            if may_decide owner a who
            then reject_owned now a who reason w
            else (w, refuse 403 "无权处理该操作")
      ]
