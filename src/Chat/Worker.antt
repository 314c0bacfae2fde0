-- ===== src/Chat/Worker.antt =====
-- ai_service.py: `_worker`, the thread of one generation, from the call of the model to the end of the
-- stream and the release of its place. Parameters: as in Chat.Loop; `explain` is the redacted text of
-- an `AiClientError` with its hint, `redact_text` the redacted text of another exception;
-- `traditional_reply` what `build_traditional_reply` says for a reason, or the exception it raises.
-- The time and the model in the conversation's row (`touch_ai_conversation`) are left out.
pub mod Finishes
mod Tests
use ops_inspection_system.Common.{
  ℕ, ◌+◌, ◌/◌, max, suc, String, ◌<>◌, Bool, true, false, Option, none, some, List, [], ◌∷◌, ◌++◌,
  ◌&&◌, ◌||◌, not, ◌==◌, leb, string_eq, number_eq, if◌then◌else◌, contains, text_length,
}
use ops_inspection_system.Json.{Json}
use ops_inspection_system.Stream.{
  Stream, State, streaming, done, failed, canceled, begin_round, append_delta, append_text,
  add_usage, finish,
}
use ops_inspection_system.Tools.{read, Context, Handlers, Try, returned, tool_error, raised}
use ops_inspection_system.Chat.Store.{World, Executors, finish_ai_message, record_audit, note_event}
use ops_inspection_system.Chat.History.{Turn}
use ops_inspection_system.Chat.Loop.{
  Completion, reply, broken, crashed, Outside, Limits, Loop, Ending, returns, client_error,
  other_error, append_deltas, on_stream, run_rounds,
}

-- `_is_traditional`, else whether `_tools_enabled`.
pub data Engine : Type 0 where
  traditional : (reason : String) → Engine
  with_tools plain_chat : Engine

-- The model's name as the row and the audit have it, and what the thread knows of the generation.
pub record Job : Type 0 where
  pub engine : Engine
  pub model : String
  pub message_id : ℕ
  pub conversation_id : ℕ
  pub client_ip : String
  pub resume : Bool

-- `_client_error_can_fallback`
unfoldable pub client_error_can_fallback : String → Bool
client_error_can_fallback kind =
    contains ("network" ∷ "timeout" ∷ "not_found" ∷ "rate_limit" ∷ "server" ∷ "protocol" ∷ []) kind

abbrev pub state_text : State → String
state_text streaming = "streaming"
state_text done = "done"
state_text failed = "failed"
state_text canceled = "canceled"

-- How the generation came out.
pub record Verdict : Type 0 where
  pub world : World
  pub prompt_chars : ℕ
  pub status : State
  pub error : String
  pub model : String

module _ (fallback_enabled : Bool) (explain : String → String → String)
    (redact_text : String → String) (traditional_reply : String → Try String) where
  -- `_run_traditional`
  unfoldable pub run_traditional : String → Loop → Loop × Ending
  run_traditional reason l =
      let w =
        note_event "traditional_fallback" read "使用传统运维规则引擎" "ok" (on_stream begin_round l.world) in
      elim (traditional_reply (if reason == "" then "未配置可用大模型" else reason)) [
        | tool_error e ↦ (record l { world = w }, other_error e)
        | raised e ↦ (record l { world = w }, other_error e)
        | returned text ↦ (record l { world = on_stream (append_delta text) w }, returns)
      ]

  -- `_run_plain`, after the snapshot's prompt is among the messages: one round without tools.
  unfoldable pub run_plain : (List Turn → ℕ) → Outside → Loop → Loop × Ending
  run_plain chars outside l =
      let n = l.world.stream.rounds in
      let l₁ = record l {
        world = on_stream begin_round l.world;
        prompt_chars = chars l.messages;
      } in
      elim (outside.model n l.messages false) [
        | reply deltas content calls prompt completion ↦ (
          record l₁ {
            world = on_stream (λ s. add_usage prompt completion (append_deltas deltas s)) l₁.world;
          },
          returns,
        )
        | broken deltas kind text ↦ (
          record l₁ { world = on_stream (append_deltas deltas) l₁.world },
          client_error kind text,
        )
        | crashed deltas text ↦
            (record l₁ { world = on_stream (append_deltas deltas) l₁.world }, other_error text)
      ]

  -- The model failed and nothing was written yet: the rule engine answers instead. Where it raises in
  -- turn, the status is still the one that the thread began with.
  unfoldable pub fall_back : String → Job → Loop → Verdict
  fall_back reason job l =
      let w = note_event "traditional_fallback" read "大模型调用失败，已切换传统运维规则引擎" "ok" l.world in
      record {
        world = on_stream (reply_or_nothing (traditional_reply reason)) w;
        prompt_chars = l.prompt_chars;
        status = done;
        error = "";
        model = "传统运维规则引擎";
      }
    where
      reply_or_nothing : Try String → Stream → Stream
      reply_or_nothing (returned text) s = append_text text s
      reply_or_nothing _ s = s

  -- The `except` clauses of `_worker`.
  unfoldable pub judge : Job → Loop → Ending → Verdict
  judge job l returns = record {
    world = l.world;
    prompt_chars = l.prompt_chars;
    status = done;
    error = "";
    model = job.model;
  }
  judge job l (client_error kind text) =
      if kind == "canceled" || l.world.stream.cancel
      then record {
        world = l.world;
        prompt_chars = l.prompt_chars;
        status = canceled;
        error = "已取消";
        model = job.model;
      }
      else if fallback_enabled && l.world.stream.content == "" && client_error_can_fallback kind
      then fall_back (explain kind text) job l
      else record {
        world = l.world;
        prompt_chars = l.prompt_chars;
        status = failed;
        error = explain kind text;
        model = job.model;
      }
  judge job l (other_error text) = record {
    world = l.world;
    prompt_chars = l.prompt_chars;
    status = failed;
    error = redact_text ("生成失败：" <> text);
    model = job.model;
  }

-- The numbers of tokens, and whether they are an estimate.
unfoldable pub tokens : ℕ → Stream → ℕ × ℕ × Bool
tokens prompt_chars s =
    if s.usage.prompt_tokens == 0 && s.usage.completion_tokens == 0 && not (s.content == "")
    then (max 1 (prompt_chars / 4), max 1 (text_length s.content / 4), true)
    else (s.usage.prompt_tokens, s.usage.completion_tokens, false)

-- The detail of the audit.
unfoldable pub chat_detail : (ℕ → String) → ℕ → Job → Verdict → String
chat_detail show elapsed_ms job v =
    let (prompt, completion, estimated) = tokens v.prompt_chars v.world.stream in
    "模型="
    <> v.model
    <> " 轮数="
    <> show v.world.stream.rounds
    <> " tokens="
    <> show (prompt + completion)
    <> (if estimated then "(估算)" else "")
    <> " 耗时="
    <> show elapsed_ms
    <> "ms"
    <> (if job.resume then " 续跑" else "")

-- `_semaphore.release()`
unfoldable pub release : ℕ → ℕ
release free = suc free

-- `_finalize` of a chat. `writes` is how many of the two writes succeed before one raises; the stream
-- ends in any case.
unfoldable pub finalize : (ℕ → String) → ℕ → ℕ → ℕ → Job → Verdict → World
finalize show writes now elapsed_ms job v =
    let s = v.world.stream in
    let w =
      if leb 1 writes
      then finish_ai_message job.message_id s.content (state_text v.status) v.world
      else v.world in
    let w₁ =
      if leb 2 writes
      then record_audit job.client_ip s.username "ai_chat" (state_text v.status) "ai_conversation"
          job.conversation_id "" (chat_detail show elapsed_ms job v) w
      else w in
    on_stream (finish now v.status v.error) w₁

module _ (lower : String → String) (dumps : Json → String) (show : ℕ → String)
    (chars : List Turn → ℕ) (h : Handlers) (executors : Executors) (limits : Limits)
    (outside : Outside) (c : Context) (fallback_enabled : Bool) (explain : String → String → String)
    (redact_text : String → String) (traditional_reply : String → Try String) where
  -- The body of the `try`; `none` only where the fuel of the loop did not do.
  unfoldable pub run_engine : Job → Engine → Loop → Option (Loop × Ending)
  run_engine job (traditional reason) l =
      some (run_traditional fallback_enabled explain redact_text traditional_reply reason l)
  run_engine job with_tools l =
      run_rounds lower dumps show chars h executors limits outside job.conversation_id c
        (suc limits.max_tool_rounds) l
  run_engine job plain_chat l =
      some (run_plain fallback_enabled explain redact_text traditional_reply chars outside l)

  -- `_worker`: the world, and the number of free places of the semaphore.
  unfoldable pub worker : ℕ → ℕ → ℕ → Job → Loop → ℕ → Option (World × ℕ)
  worker writes now elapsed_ms job l free = elim (run_engine job job.engine l) [
    | none ↦ none
    | some (last, ending) ↦ some (
      finalize show writes now elapsed_ms job
          (judge fallback_enabled explain redact_text traditional_reply job last ending),
      release free,
    )
  ]
