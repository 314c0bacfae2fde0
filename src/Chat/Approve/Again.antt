-- ===== src/Chat/Approve/Again.antt =====
-- ai_service.py: what follows a decision on an action, by the same person or by others.
use ops_inspection_system.Common.{
  ℕ, String, Bool, true, false, some, List, [], ◌∷◌, ◌≡◌, refl, arith, string_eq,
}
use ops_inspection_system.Json.{Json}
use ops_inspection_system.Actions.{Action, get_ai_action}
use ops_inspection_system.Tools.{Handlers}
use ops_inspection_system.Chat.Store.{World, Executors}
use ops_inspection_system.Chat.Approve.{
  Caller, may_decide, approve_owned, approve_action, reject_owned, reject_action,
}
use ops_inspection_system.Chat.Approve.Decision.{IsClosed, decision_final, reject_action-IsClosed}

-- A request of a person for a decision, with whether the chat is switched on and the tools and
-- executors that there are at the time.
pub data Decision : Type 0 where
  approves :
      (enabled : Bool)
      → (h : Handlers) → (executors : Executors) → (now : ℕ) → (who : Caller) → Decision
  rejects : (enabled : Bool) → (now : ℕ) → (who : Caller) → (reason : String) → Decision

abbrev pub person : Decision → Caller
person (approves enabled h executors now who) = who
person (rejects enabled now who reason) = who

abbrev pub is_on : Decision → Bool
is_on (approves enabled h executors now who) = enabled
is_on (rejects enabled now who reason) = enabled

module _ (lower : String → String) (dumps : Json → String) (owner : ℕ → String) (id : ℕ) where
  abbrev pub take : Decision → World → World
  take (approves enabled h executors now who) w =
      (approve_action lower dumps enabled h executors owner now id who w).0
  take (rejects enabled now who reason) w =
      (reject_action lower dumps enabled owner now id who reason w).0

  abbrev pub take_all : List Decision → World → World
  take_all [] w = w
  take_all (d ∷ ds) w = take_all ds (take d w)

  take_closed : (d : Decision) (w : World) → IsClosed id w.actions → take d w ≡ w
  unfolding approve_action approve_owned reject_action reject_owned
  take_closed (approves enabled h executors now who) w closed =
      let there = closed.there in let decided = closed.decided in ground arith
  take_closed (rejects enabled now who reason) w closed =
      let there = closed.there in let decided = closed.decided in ground arith

  take_all_closed : (ds : List Decision) (w : World) → IsClosed id w.actions → take_all ds w ≡ w
  take_all_closed [] w closed = refl
  take_all_closed (d ∷ ds) w closed = rw (take_closed d w closed) (take_all_closed ds w closed)

  first-IsClosed :
      (d : Decision) (w : World) (a : Action)
      → get_ai_action id w.actions ≡ some a
      → is_on d ≡ true
      → may_decide owner a (person d) ≡ true
      → IsClosed id (take d w).actions
  first-IsClosed (approves true h executors now who) w a there on may =
      (decision_final lower dumps h executors owner now id who "" w a there may).0
  first-IsClosed (approves false h executors now who) w a there on may = absurd (cc)
  first-IsClosed (rejects true now who reason) w a there on may =
      reject_action-IsClosed lower dumps owner now id who reason w a there may
  first-IsClosed (rejects false now who reason) w a there on may = absurd (cc)

  -- Once someone who may decide has approved or rejected an action with the chat switched on, no approval or rejection that
  -- follows, by whomever, changes anything: after any number of them the tables and the stream are as
  -- the first decision left them.
  pub decided_for_good :
      (first : Decision) (later : List Decision) (w : World) (a : Action)
      → get_ai_action id w.actions ≡ some a
      → is_on first ≡ true
      → may_decide owner a (person first) ≡ true
      → take_all (first ∷ later) w ≡ take_all (first ∷ []) w
  decided_for_good first later w a there on may =
      take_all_closed later (take first w) (first-IsClosed first w a there on may)
