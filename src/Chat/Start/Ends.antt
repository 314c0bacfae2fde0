-- ===== src/Chat/Start/Ends.antt =====
-- ai_service.py: `start_chat` and the thread that it starts, to the end of the generation.
use ops_inspection_system.Common.{
  ℕ, String, Bool, true, Option, some, List, ◌≡◌, refl, subst, ◌==◌, leb, number_eq, Bool-cases,
  inl, inr,
}
use ops_inspection_system.Json.{Json}
use ops_inspection_system.Stream.{Answer, answer, refuse, new_stream}
use ops_inspection_system.Tools.{Context, Handlers, Try}
use ops_inspection_system.Chat.Store.{World, Executors}
use ops_inspection_system.Chat.History.{Turn}
use ops_inspection_system.Chat.Loop.{Outside, Limits, start_loop}
use ops_inspection_system.Chat.Provider.{Provider, AiConfig}
use ops_inspection_system.Chat.Worker.{worker}
use ops_inspection_system.Chat.Worker.Finishes.{has_ended, worker_finishes}
use ops_inspection_system.Chat.Start.{
  Conversation, Service, ChatRequest, Started, StartReply, begun, begin_stream, launch, acquire,
  admit, check_caller, start_chat, job_of,
}
use ops_inspection_system.Chat.Start.Admits.{IsRight, start_chat-IsRight}

-- A generation that has begun has taken no round.
abbrev IsFresh : Service × StartReply → Type 0
IsFresh (s, begun started) = s.world.stream.rounds ≡ 0
IsFresh _ = Unit

module _ (decrypt : String → Option String) (hostname : String → String) (show : ℕ → String)
    (config : AiConfig) (total_deadline keep_seconds : ℕ) where
  acquire-IsFresh :
      (writes now : ℕ) (uuid : String) (r : ChatRequest) (k : Conversation)
      (found : Answer (Provider × String)) (s : Service)
      → IsFresh (
          acquire decrypt hostname show config total_deadline keep_seconds writes now uuid r k found
            s)
  unfolding acquire launch begin_stream new_stream
  acquire-IsFresh writes now uuid r k (refuse code text) s = tt
  acquire-IsFresh writes now uuid r k (answer (p, key)) s = elim (Bool-cases (s.free == 0)) [
    | inl full ↦ simp full tt
    | inr place ↦ elim (Bool-cases (leb 4 writes)) [
      | inl done ↦ simp (place, done) refl
      | inr broken ↦ simp (place, broken) tt
    ]
  ]

  start_chat-IsFresh :
      (providers : List Provider) (used writes now : ℕ) (uuid : String) (r : ChatRequest)
      (s : Service)
      → IsFresh (
          start_chat decrypt hostname show config total_deadline keep_seconds providers used writes
            now uuid r s)
  unfolding start_chat admit
  start_chat-IsFresh providers used writes now uuid r s =
      admitted (check_caller decrypt hostname show config total_deadline keep_seconds r s)
    where
      admitted :
          (a : Answer Conversation)
          → IsFresh (
              admit decrypt hostname show config total_deadline keep_seconds providers used writes
                now uuid r a s)
      admitted (refuse code text) = tt
      admitted (answer k) = acquire-IsFresh writes now uuid r k _ s

  module _ (lower : String → String) (dumps : Json → String) (chars : List Turn → ℕ) (h : Handlers)
      (executors : Executors) (limits : Limits) (outside : Outside) (c : Context)
      (fallback_enabled : Bool) (explain : String → String → String) (redact_text : String → String)
      (traditional_reply : String → Try String) where
    pub start_chat-ends :
        (providers : List Provider) (used writes now : ℕ) (uuid : String) (r : ChatRequest)
        (s s₁ : Service) (started : Started) (k : Conversation) (client_ip prompt : String)
        (history : List Turn) (last_writes later elapsed_ms : ℕ)
        → start_chat decrypt hostname show config total_deadline keep_seconds providers used writes
            now uuid r s
          ≡ (s₁, begun started)
        → (w : World) × (worker lower dumps show chars h executors limits outside c fallback_enabled
              explain redact_text traditional_reply last_writes later elapsed_ms
              (job_of r k client_ip started)
              (start_loop prompt history s₁.world)
              s₁.free
            ≡ some (w, s.free))
          × (has_ended w.stream.status ≡ true)
          × (w.stream.finished_at ≡ some later)
    unfolding start_loop
    start_chat-ends providers used writes now uuid r s s₁ started k client_ip prompt history
          last_writes later elapsed_ms e =
        let fresh = subst IsFresh e (start_chat-IsFresh providers used writes now uuid r s) in
        let (place, due) = subst (IsRight config r s) e (
          start_chat-IsRight decrypt hostname show config total_deadline keep_seconds providers used
            writes now uuid r s) in
        let (w, runs, ended, finished) =
          worker_finishes lower dumps show chars h executors limits outside c fallback_enabled
            explain redact_text traditional_reply last_writes later elapsed_ms
            (job_of r k client_ip started) (start_loop prompt history s₁.world) s₁.free fresh in
        (
          w,
          subst
              (λ n.
                worker lower dumps show chars h executors limits outside c fallback_enabled explain
                  redact_text traditional_reply last_writes later elapsed_ms
                  (job_of r k client_ip started) (start_loop prompt history s₁.world) s₁.free
                ≡ some (w, n))
              place runs,
          ended,
          finished,
        )
