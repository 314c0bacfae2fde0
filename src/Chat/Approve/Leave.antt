-- ===== src/Chat/Approve/Leave.antt =====
-- ai_service.py: when an approval runs a tool or an executor at all.
use ops_inspection_system.Common.{
  ℕ, String, Bool, false, Option, none, some, ◌≡◌, inl, inr, arith, ◌&&◌, ◌||◌, not, ◌==◌,
  string_eq, Option-cases,
}
use ops_inspection_system.Json.{Json}
use ops_inspection_system.Actions.{Action, is_pending, is_past, get_ai_action}
use ops_inspection_system.Tools.{Handlers}
use ops_inspection_system.Chat.Store.{World, Executors}
use ops_inspection_system.Chat.Approve.{Caller, approve_owned, approve_action}

-- The action is there and waits, its time is not over, and the caller is the user of its conversation or
-- an administrator.
abbrev pub may_run : (ℕ → String) → ℕ → Caller → Option Action → Bool
may_run owner now who none = false
may_run owner now who (some a) =
    (who.username == owner a.conversation_id || who.role == "admin")
    && is_pending a.status
    && not (is_past now a.expires_at)

module _ (lower : String → String) (dumps : Json → String) where
  -- What an approval leaves and answers does not depend on the tools and the executors, unless the chat
  -- is switched on, the action is there, pending and not past its time, and the caller is the user of its
  -- conversation or an administrator.
  pub approval_needs_leave :
      (enabled : Bool) (h h' : Handlers) (executors executors' : Executors) (owner : ℕ → String)
      (now id : ℕ) (who : Caller) (w : World)
      → (enabled && may_run owner now who (get_ai_action id w.actions)) ≡ false
      → approve_action lower dumps enabled h executors owner now id who w
        ≡ approve_action lower dumps enabled h' executors' owner now id who w
  unfolding approve_action approve_owned
  approval_needs_leave enabled h h' executors executors' owner now id who w denied =
      elim (Option-cases (get_ai_action id w.actions)) [
        | inl missing ↦ ground arith
        | inr (a, there) ↦ ground arith
      ]
