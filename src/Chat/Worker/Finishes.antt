-- ===== src/Chat/Worker/Finishes.antt =====
-- ai_service.py: whatever happens in a generation, its stream ends and its place becomes free.
use ops_inspection_system.Common.{
  ℕ, suc, String, Bool, true, false, some, List, ◌≡◌, refl, arith, string_eq, number_eq,
}
use ops_inspection_system.Json.{Json}
use ops_inspection_system.Stream.{State, streaming, finish}
use ops_inspection_system.Tools.{Context, Handlers, Try}
use ops_inspection_system.Chat.Store.{World, Executors}
use ops_inspection_system.Chat.History.{Turn}
use ops_inspection_system.Chat.Loop.{
  Outside, Limits, Loop, Ending, returns, client_error, other_error,
}
use ops_inspection_system.Chat.Loop.Stops.{run_rounds_lem}
use ops_inspection_system.Chat.Worker.{
  Engine, traditional, with_tools, plain_chat, Job, Verdict, fall_back, judge, finalize, run_engine,
  release, worker,
}

abbrev pub has_ended : State → Bool
has_ended streaming = false
has_ended _ = true

fall_back-has_ended :
    (fallback_enabled : Bool) (explain : String → String → String) (redact_text : String → String)
    (traditional_reply : String → Try String) (reason : String) (job : Job) (l : Loop)
    → has_ended
        (fall_back fallback_enabled explain redact_text traditional_reply reason job l).status
      ≡ true
unfolding fall_back
fall_back-has_ended fallback_enabled explain redact_text traditional_reply reason job l = refl

judge-has_ended :
    (fallback_enabled : Bool) (explain : String → String → String) (redact_text : String → String)
    (traditional_reply : String → Try String) (job : Job) (l : Loop) (ending : Ending)
    → has_ended (judge fallback_enabled explain redact_text traditional_reply job l ending).status
      ≡ true
unfolding judge
judge-has_ended fallback_enabled explain redact_text traditional_reply job l returns = refl
judge-has_ended fallback_enabled explain redact_text traditional_reply job l (other_error text) =
    refl
judge-has_ended fallback_enabled explain redact_text traditional_reply job l
      (client_error kind text) =
    ground (
      arith,
      fall_back-has_ended fallback_enabled explain redact_text traditional_reply (explain kind text)
          job l,
    )

finalize-stream :
    (show : ℕ → String) (writes now elapsed_ms : ℕ) (job : Job) (v : Verdict)
    → ((finalize show writes now elapsed_ms job v).stream.status ≡ v.status)
      × ((finalize show writes now elapsed_ms job v).stream.finished_at ≡ some now)
unfolding finalize finish
finalize-stream show writes now elapsed_ms job v = (refl, refl)

module _ (lower : String → String) (dumps : Json → String) (show : ℕ → String)
    (chars : List Turn → ℕ) (h : Handlers) (executors : Executors) (limits : Limits)
    (outside : Outside) (c : Context) (fallback_enabled : Bool) (explain : String → String → String)
    (redact_text : String → String) (traditional_reply : String → Try String) where
  run_engine_total :
      (job : Job) (engine : Engine) (l : Loop)
      → l.world.stream.rounds ≡ 0
      → (out : Loop × Ending) × (run_engine lower dumps show chars h executors limits outside c
            fallback_enabled explain redact_text traditional_reply job engine l
          ≡ some out)
  unfolding run_engine
  run_engine_total job (traditional reason) l fresh = (_, refl)
  run_engine_total job with_tools l fresh =
      let (out, found, small) =
        run_rounds_lem lower dumps show chars h executors limits outside job.conversation_id c l
          fresh in
      (out, found)
  run_engine_total job plain_chat l fresh = (_, refl)

  -- A generation that has not begun a round ends, whatever the model answers and whichever write of a
  -- tool call or of the end fails: its stream has left the state `streaming`, and its place is free
  -- again.
  pub worker_finishes :
      (writes now elapsed_ms : ℕ) (job : Job) (l : Loop) (free : ℕ)
      → l.world.stream.rounds ≡ 0
      → (w : World) × (worker lower dumps show chars h executors limits outside c fallback_enabled
            explain redact_text traditional_reply writes now elapsed_ms job l free
          ≡ some (w, suc free))
        × (has_ended w.stream.status ≡ true)
        × (w.stream.finished_at ≡ some now)
  unfolding worker finalize finish release
  worker_finishes writes now elapsed_ms job l free fresh =
      let ((last, ending), found) = run_engine_total job job.engine l fresh in
      let v = judge fallback_enabled explain redact_text traditional_reply job last ending in
      (
        finalize show writes now elapsed_ms job v,
        rw (found, worker) refl,
        judge-has_ended fallback_enabled explain redact_text traditional_reply job last ending,
        refl,
      )
