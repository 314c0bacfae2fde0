-- ===== src/Chat/Start/Admits.antt =====
-- ai_service.py: who gets a generation started, and what a refused start leaves behind.
use ops_inspection_system.Common.{
  ℕ, suc, String, Bool, true, false, Option, none, some, List, ◌≡◌, refl, inl, inr, arith, ◌&&◌,
  ◌||◌, not, ◌==◌, ltb, leb, string_eq, number_eq, Bool-cases, Option-cases, strip, text_length,
}
use ops_inspection_system.Stream.{Answer, answer, refuse}
use ops_inspection_system.Chat.Provider.{Provider, AiConfig, role_allowed, require_enabled}
use ops_inspection_system.Chat.Worker.{release}
use ops_inspection_system.Chat.Start.{
  Conversation, Service, ChatRequest, StartReply, refused, failed, begun, get_ai_conversation,
  check_message, check_access, prepare, begin_stream, launch, acquire, admit, check_caller,
  start_chat,
}

-- The caller's own conversation, or any for an administrator.
abbrev pub owns : ChatRequest → Option Conversation → Bool
owns r none = false
owns r (some k) = k.username == r.username || r.role == "admin"

-- A text, unless a former turn is resumed, that is not too long.
abbrev pub fits_input : AiConfig → ChatRequest → Bool
fits_input config r =
    r.resume
    || not (strip r.user_message == "")
      && not (ltb config.input_max_chars (text_length (strip r.user_message)))

-- What a start asks of the caller and the request.
abbrev pub IsDue : AiConfig → ChatRequest → Service → Type 0
IsDue config r s =
    (config.enabled ≡ true)
    × (role_allowed config r.role ≡ true)
    × (owns r (get_ai_conversation r.conversation_id s.conversations) ≡ true)
    × (fits_input config r ≡ true)

-- A refused start changes nothing. One that is granted was for a caller who may, and takes a place. One
-- that an exception ends was for such a caller too, and has given the place back.
abbrev pub IsRight : AiConfig → ChatRequest → Service → Service × StartReply → Type 0
IsRight config r s (s₁, refused code text) = s₁ ≡ s
IsRight config r s (s₁, failed) = (s₁.free ≡ s.free) × IsDue config r s
IsRight config r s (s₁, begun started) = (suc s₁.free ≡ s.free) × IsDue config r s

module _ (decrypt : String → Option String) (hostname : String → String) (show : ℕ → String)
    (config : AiConfig) (total_deadline keep_seconds : ℕ) where
  abbrev caller : ChatRequest → Service → Answer Conversation
  caller = check_caller decrypt hostname show config total_deadline keep_seconds

  -- What the checks of the caller grant.
  abbrev Grants : ChatRequest → Service → Answer Conversation → Type 0
  Grants r s (refuse code text) = Unit
  Grants r s (answer k) = IsDue config r s

  check_access-Grants :
      (r : ChatRequest) (s : Service)
      → config.enabled ≡ true
      → role_allowed config r.role ≡ true
      → Grants r s (
          check_access decrypt hostname show config total_deadline keep_seconds r
            (get_ai_conversation r.conversation_id s.conversations))
  unfolding check_access check_message
  check_access-Grants r s on allowed =
      elim (Option-cases (get_ai_conversation r.conversation_id s.conversations)) [
        | inl missing ↦ rw missing tt
        | inr (k, found) ↦ ground (arith, found, on, allowed)
      ]

  check_caller-Grants : (r : ChatRequest) (s : Service) → Grants r s (caller r s)
  unfolding check_caller require_enabled
  check_caller-Grants r s = elim (Bool-cases config.enabled) [
    | inl on ↦ elim (Bool-cases (role_allowed config r.role)) [
      | inl allowed ↦ simp (on, allowed) (check_access-Grants r s on allowed)
      | inr denied ↦ simp (on, denied) tt
    ]
    | inr off ↦ simp off tt
  ]

  acquire-IsRight :
      (writes now : ℕ) (uuid : String) (r : ChatRequest) (k : Conversation)
      (found : Answer (Provider × String)) (s : Service)
      → Grants r s (answer k)
      → IsRight config r s (
          acquire decrypt hostname show config total_deadline keep_seconds writes now uuid r k found
            s)
  unfolding acquire launch prepare begin_stream release
  acquire-IsRight writes now uuid r k (refuse code text) s h = refl
  acquire-IsRight writes now uuid r k (answer (p, key)) s (on, allowed, own, fits) =
      elim (Bool-cases (s.free == 0)) [
        | inl full ↦ simp full refl
        | inr place ↦ elim (Bool-cases (leb 4 writes)) [
          | inl done ↦ simp (place, done) (ground arith, (on, allowed, own, fits))
          | inr broken ↦ simp (place, broken) (ground arith, (on, allowed, own, fits))
        ]
      ]

  pub start_chat-IsRight :
      (providers : List Provider) (used writes now : ℕ) (uuid : String) (r : ChatRequest)
      (s : Service)
      → IsRight config r s (
          start_chat decrypt hostname show config total_deadline keep_seconds providers used writes
            now uuid r s)
  unfolding start_chat admit
  start_chat-IsRight providers used writes now uuid r s =
      granted (caller r s) (check_caller-Grants r s)
    where
      granted :
          (a : Answer Conversation)
          → Grants r s a
          → IsRight config r s (
              admit decrypt hostname show config total_deadline keep_seconds providers used writes
                now uuid r a s)
      granted (refuse code text) h = refl
      granted (answer k) h = acquire-IsRight writes now uuid r k _ s h
