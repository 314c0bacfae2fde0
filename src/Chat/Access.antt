-- ===== src/Chat/Access.antt =====
-- What each access mode lets a tool call do. The functions behind the tools and the actions are
-- parameters, so that a call cannot reach one of them is said by exchanging it: the outcome stays.
use ops_inspection_system.Common.{
  ℕ, String, Bool, true, false, ◌≡◌, ◌≢◌, ◌∙◌, refl, arith, Bool-cases, Option-cases, inl, inr,
  string_eq, not, ◌&&◌, ◌⊎◌, ap,
}
use ops_inspection_system.Json.{Json, obj, Fields}
use ops_inspection_system.Stream.{limited, full}
use ops_inspection_system.Tools.{
  Spec, spec_for, level_of, Context, Try, returned, tool_error, raised, Outcome, result, act,
  Handlers, execute, is_action, action_handler, handle, handle_dict,
}
use ops_inspection_system.Json.Redact.{redact}
use ops_inspection_system.Chat.{handle_tool_call, conclude, after_execute, or_dict}
use ops_inspection_system.Chat.Store.{World, ToolCall, Executors, limit, is_full, always_confirms}

-- The handler of an action uses the normalizers alone.
action_handler_run :
    (h : Handlers) (run : String → Fields → Context → Try (Bool × String × String × String))
    (name : String) (fields : Fields) (c : Context)
    → action_handler h name fields c
      ≡ action_handler (record { run = run; normalize = h.normalize }) name fields c
unfolding action_handler
action_handler_run h run name fields c = refl

module _ (h h' : Handlers) (same : h.normalize ≡ h'.normalize) where
  action_handler_same :
      (name : String) (fields : Fields) (c : Context)
      → action_handler h name fields c ≡ action_handler h' name fields c
  unfolding action_handler
  action_handler_same name fields c =
      action_handler_run h h'.run name fields c
      ∙ ap (λ n. action_handler (record { run = h'.run; normalize = n }) name fields c) same

  handle_same :
      (s : Spec) (args : Json) (c : Context)
      → is_action s.level ≡ true
      → handle_dict h s args c ≡ handle_dict h' s args c
  unfolding handle_dict handle
  handle_same s (obj fields) c on = rw on (action_handler_same s.name fields c)
  handle_same s _ c on = refl

  -- A tool of level `action` runs nothing but its normalizer.
  execute_same :
      (name : String) (args : Json) (c : Context)
      → is_action (level_of name) ≡ true
      → execute h name args c ≡ execute h' name args c
  unfolding execute level_of
  execute_same name args c on = elim (Option-cases (spec_for name)) [
    | inl missing ↦ ground arith
    | inr (s, listed) ↦
        let level : is_action s.level ≡ true = ground arith in
        ground (arith, handle_same s args c level)
  ]

module _ (lower : String → String) (dumps : Json → String) where
  -- Unless the mode is full and the tool does not always ask, no executor is reached.
  after_execute_same :
      (executors executors' : Executors) (now ttl conversation_id : ℕ) (call : ToolCall)
      (args_text : String) (c : Context) (o : Outcome) (w : World)
      → (is_full w.stream.access_mode && not (always_confirms (spec_for call.name))) ≡ false
      → after_execute lower dumps executors now ttl conversation_id call args_text c o w
        ≡ after_execute lower dumps executors' now ttl conversation_id call args_text c o w
  unfolding after_execute
  after_execute_same executors executors' now ttl conversation_id call args_text c
        (act kind payload summary risk) w off =
      rw off
  after_execute_same executors executors' now ttl conversation_id call args_text c
        (result ok content summary error) w off =
      refl

  conclude_same :
      (executors executors' : Executors) (now ttl conversation_id : ℕ) (call : ToolCall)
      (args_text : String) (c : Context) (t : Try Outcome) (w : World)
      → (is_full w.stream.access_mode && not (always_confirms (spec_for call.name))) ≡ false
      → conclude lower dumps executors now ttl conversation_id call args_text c t w
        ≡ conclude lower dumps executors' now ttl conversation_id call args_text c t w
  unfolding conclude
  conclude_same executors executors' now ttl conversation_id call args_text c (returned o) w off =
      after_execute_same executors executors' now ttl conversation_id call args_text c o w off
  conclude_same executors executors' now ttl conversation_id call args_text c (tool_error e) w off =
      refl
  conclude_same executors executors' now ttl conversation_id call args_text c (raised e) w off =
      refl

  -- In limited mode no call reaches a handler that reads or acts, nor an executor: whatever they
  -- are, the outcome is the same. Only the normalizers of the actions are run.
  pub limited_runs_nothing :
      (h h' : Handlers) (executors executors' : Executors) (now ttl conversation_id : ℕ)
      (c : Context) (call : ToolCall) (w : World)
      → h.normalize ≡ h'.normalize
      → w.stream.access_mode ≡ limited
      → handle_tool_call lower dumps h executors now ttl conversation_id c call w
        ≡ handle_tool_call lower dumps h' executors' now ttl conversation_id c call w
  unfolding handle_tool_call
  limited_runs_nothing h h' executors executors' now ttl conversation_id c call w same mode =
      elim (Bool-cases (is_action (level_of call.name))) [
        | inr off ↦ simp (mode, off)
        | inl on ↦
            let closed : (is_full w.stream.access_mode
                  && not (always_confirms (spec_for call.name)))
                ≡ false =
              ground arith in
            simp (mode, on, execute_same h h' same call.name (or_dict call.args) c on)
              (conclude_same executors executors' now ttl conversation_id call _ c _ w closed)
      ]

  -- Outside full mode, and in full mode for a tool that always asks, a call reaches no executor.
  pub executors_need_full :
      (h : Handlers) (executors executors' : Executors) (now ttl conversation_id : ℕ) (c : Context)
      (call : ToolCall) (w : World)
      → (w.stream.access_mode ≢ full) ⊎ (always_confirms (spec_for call.name) ≡ true)
      → handle_tool_call lower dumps h executors now ttl conversation_id c call w
        ≡ handle_tool_call lower dumps h executors' now ttl conversation_id c call w
  unfolding handle_tool_call
  executors_need_full h executors executors' now ttl conversation_id c call w closed =
      let off : (is_full w.stream.access_mode && not (always_confirms (spec_for call.name)))
          ≡ false =
        ground arith in
      ground (
        arith,
        conclude_same executors executors' now ttl conversation_id call
            (limit (dumps (redact lower (or_dict call.args))) 1500) c
            (execute h call.name (or_dict call.args) c) w off,
      )
