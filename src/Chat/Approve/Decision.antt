-- ===== src/Chat/Approve/Decision.antt =====
-- What the two decisions of a person come to: they are final.
use ops_inspection_system.Common.{
  ℕ, String, Bool, true, false, some, List, [], ◌∷◌, ◌≡◌, refl, arith, subst, sym, Bool-cases,
  Option-cases, inl, inr, string_eq, number_eq, find, update_where, if◌then◌else◌, text_take,
}
use ops_inspection_system.Json.{Json, Fields, pop}
use ops_inspection_system.Actions.{
  Action, Table, Status, failed, rejected, expired, is_pending, is_past, has_id, get_ai_action,
  claim_ai_action, finish_ai_action, open_with_id, approve, close,
}
use ops_inspection_system.Stream.{Mode}
use ops_inspection_system.Tools.{Handlers, Context, Try, spec_for}
use ops_inspection_system.Chat.Store.{
  World, Done, Executors, record_audit, finish_ai_message, failure,
}
use ops_inspection_system.Chat.Approve.{
  Caller, may_decide, Ran, settled_status, write_action_result, settle, run_access,
  run_without_executor, run_executor, run_claimed, approve_owned, approve_action, reject_claimed,
  reject_owned, reject_action, mode_of, asks_access, rejection,
}

-- The action is there and waits no longer.
pub record IsClosed (id : ℕ) (t : Table) : Type 0 where
  pub row : Action
  pub there : get_ai_action id t ≡ some row
  pub decided : is_pending row.status ≡ false

find-update_where :
    (id : ℕ) (p : Action → Bool) (f : Action → Action) (rows : List Action) (a : Action)
    → ((b : Action) → (f b).id ≡ b.id)
    → find (has_id id) rows ≡ some a
    → find (has_id id) (update_where p f rows) ≡ some (if p a then f a else a)
unfolding find update_where
find-update_where id p f [] a same e = absurd (cc)
find-update_where id p f (b ∷ rows) a same e = elim (Bool-cases (has_id id b)) [
  | inl here ↦ ground (arith, same b)
  | inr there ↦ ground (arith, same b, find-update_where id p f rows a same (ground arith))
]

id_of_get :
    (id : ℕ) (rows : List Action) (a : Action) → find (has_id id) rows ≡ some a → has_id id a ≡ true
unfolding find
id_of_get id [] a e = absurd (cc)
id_of_get id (b ∷ rows) a e = ground (arith, id_of_get id rows a)

id_of_action : (id : ℕ) (t : Table) (a : Action) → get_ai_action id t ≡ some a → has_id id a ≡ true
unfolding get_ai_action
id_of_action id t a e = id_of_get id t.rows a e

finish-IsClosed :
    (now id : ℕ) (status : Status) (result error by : String) (t : Table) (a : Action)
    → is_pending status ≡ false
    → get_ai_action id t ≡ some a
    → IsClosed id (finish_ai_action now id status result error by t)
unfolding finish_ai_action get_ai_action
finish-IsClosed now id status result error by t a final e = record {
  row = close now status result error by a;
  there = ground (
    arith,
    id_of_get id t.rows a e,
    find-update_where id (has_id id) (close now status result error by) t.rows a (λ b. refl) e,
  );
  decided = final;
}

claim-IsClosed :
    (now id : ℕ) (by : String) (t : Table) (a : Action)
    → get_ai_action id t ≡ some a
    → IsClosed id (claim_ai_action now id by t).0
unfolding claim_ai_action get_ai_action
claim-IsClosed now id by t a e = record {
  row = if open_with_id id a then approve now by a else a;
  there = find-update_where id (open_with_id id) (approve now by) t.rows a (λ b. refl) e;
  decided = ground (arith, id_of_get id t.rows a e);
}

final_settled : (ok : Bool) → is_pending (settled_status ok) ≡ false
final_settled true = refl
final_settled false = refl

actions-write_action_result :
    (a : Action) (content : String) (w : World)
    → (write_action_result a content w).actions ≡ w.actions
unfolding write_action_result finish_ai_message
actions-write_action_result a content w = ground arith

module _ (lower : String → String) (dumps : Json → String) where
  settle-IsClosed :
      (now : ℕ) (a b : Action) (who : Caller) (deed detail : String) (mode : Mode) (ran : Ran)
      (shown : String) (w : World)
      → get_ai_action a.id w.actions ≡ some b
      → IsClosed a.id (settle lower dumps now a who deed detail mode ran shown w).0.actions
  unfolding settle record_audit
  settle-IsClosed now a b who deed detail mode ran shown w e =
      rw (actions-write_action_result a (text_take 4000 ran.text) _) (
        finish-IsClosed now a.id (settled_status ran.ok) _ _ who.username w.actions b
          (final_settled ran.ok) e)

  module _ (h : Handlers) (executors : Executors) (owner : ℕ → String) (now : ℕ) (a b : Action)
      (payload : Fields) (mode : Mode) (who : Caller) (w : World)
      (e : get_ai_action a.id w.actions ≡ some b) where
    run_access-IsClosed :
        IsClosed a.id (run_access lower dumps h owner now a payload mode who w).0.actions
    unfolding run_access
    run_access-IsClosed = settle-IsClosed now a b who _ _ mode _ _ w e

    run_executor-IsClosed :
        (executor : Fields → Context → Try Done)
        → IsClosed a.id (run_executor lower dumps executor now a payload mode who w).0.actions
    unfolding run_executor record_audit
    run_executor-IsClosed executor = settle-IsClosed now a b who _ _ mode _ _ _ e

    run_without_executor-IsClosed :
        IsClosed a.id (run_without_executor lower dumps h owner now a payload mode who w).0.actions
    unfolding run_without_executor record_audit
    run_without_executor-IsClosed = elim (Bool-cases (asks_access (spec_for a.action_type))) [
      | inl asks ↦ rw asks run_access-IsClosed
      | inr silent ↦ rw silent (
          rw (actions-write_action_result a (dumps (failure "该操作暂不支持执行")) _)
            (finish-IsClosed now a.id failed "" "没有对应的执行器" who.username w.actions b refl e))
    ]

    run_claimed-IsClosed :
        IsClosed a.id (run_claimed lower dumps h executors owner now a payload mode who w).0.actions
    unfolding run_claimed
    run_claimed-IsClosed = elim (Option-cases (executors a.action_type)) [
      | inl missing ↦ rw (missing, run_claimed) run_without_executor-IsClosed
      | inr (executor, there) ↦ rw (there, run_claimed) (run_executor-IsClosed executor)
    ]

  reject_claimed-IsClosed :
      (now : ℕ) (a b : Action) (who : Caller) (reason : String) (w : World)
      → get_ai_action a.id w.actions ≡ some b
      → IsClosed a.id (reject_claimed lower dumps now a who reason w).0.actions
  unfolding reject_claimed record_audit
  reject_claimed-IsClosed now a b who reason w e =
      rw (actions-write_action_result a (dumps (rejection lower dumps reason)) _) (
        finish-IsClosed now a.id rejected (dumps (rejection lower dumps reason)) "" who.username
          w.actions b refl e)

  approve_owned-IsClosed :
      (h : Handlers) (executors : Executors) (owner : ℕ → String) (now : ℕ) (a : Action)
      (who : Caller) (w : World)
      → get_ai_action a.id w.actions ≡ some a
      → IsClosed a.id (approve_owned lower dumps h executors owner now a who w).0.actions
  unfolding approve_owned
  approve_owned-IsClosed h executors owner now a who w e = elim (Bool-cases (is_pending a.status)) [
    | inr closed ↦ rw (closed, approve_owned) (record { row = a; there = e; decided = closed })
    | inl waiting ↦ elim (Bool-cases (is_past now a.expires_at)) [
      | inl late ↦
          rw (waiting, late, approve_owned)
            (rw (actions-write_action_result a (dumps (failure "操作已过期，未执行")) _)
              (finish-IsClosed now a.id expired "" "" who.username w.actions a refl e))
      | inr timely ↦
          let c = claim-IsClosed now a.id who.username w.actions a e in
          elim (Bool-cases (claim_ai_action now a.id who.username w.actions).1) [
            | inl won ↦
                rw (waiting, timely, won, approve_owned)
                  (run_claimed-IsClosed h executors owner now a c.row (pop a.payload "_access_mode")
                    (mode_of lower a.payload) who _ c.there)
            | inr lost ↦ rw (waiting, timely, lost, approve_owned) c
          ]
    ]
  ]

  reject_owned-IsClosed :
      (now : ℕ) (a : Action) (who : Caller) (reason : String) (w : World)
      → get_ai_action a.id w.actions ≡ some a
      → IsClosed a.id (reject_owned lower dumps now a who reason w).0.actions
  unfolding reject_owned
  reject_owned-IsClosed now a who reason w e = elim (Bool-cases (is_pending a.status)) [
    | inr closed ↦ rw (closed, reject_owned) (record { row = a; there = e; decided = closed })
    | inl waiting ↦
        let c = claim-IsClosed now a.id who.username w.actions a e in
        elim (Bool-cases (claim_ai_action now a.id who.username w.actions).1) [
          | inl won ↦
              rw (waiting, won, reject_owned)
                (reject_claimed-IsClosed now a c.row who reason _ c.there)
          | inr lost ↦ rw (waiting, lost, reject_owned) c
        ]
  ]

  pub reject_action-IsClosed :
      (owner : ℕ → String) (now id : ℕ) (who : Caller) (reason : String) (w : World) (a : Action)
      → get_ai_action id w.actions ≡ some a
      → may_decide owner a who ≡ true
      → IsClosed id (reject_action lower dumps true owner now id who reason w).0.actions
  unfolding reject_action
  reject_action-IsClosed owner now id who reason w a there may =
      let same : a.id ≡ id = ground (arith, id_of_action id w.actions a there) in
      let found : get_ai_action a.id w.actions ≡ some a =
        subst (λ n. get_ai_action n w.actions ≡ some a) (sym same) there in
      rw (there, may, reject_action)
        (subst (λ n. IsClosed n (reject_owned lower dumps now a who reason w).0.actions) same
          (reject_owned-IsClosed now a who reason w found))

  module _ (h : Handlers) (executors : Executors) (owner : ℕ → String) (now id : ℕ) (who : Caller)
      (reason : String) (w : World) (a : Action) (there : get_ai_action id w.actions ≡ some a) where
    -- Both decisions of a person who may decide on an action leave it decided: it is in the table
    -- and no longer pending, whatever the executors and the tools do, and whether they fail.
    pub decision_final :
        may_decide owner a who ≡ true
        → IsClosed id (approve_action lower dumps true h executors owner now id who w).0.actions
          × IsClosed id (reject_action lower dumps true owner now id who reason w).0.actions
    unfolding approve_action
    decision_final may =
        let same : a.id ≡ id = ground (arith, id_of_action id w.actions a there) in
        let found : get_ai_action a.id w.actions ≡ some a =
          subst (λ n. get_ai_action n w.actions ≡ some a) (sym same) there in
        (
          rw (there, may, approve_action)
              (subst
                (λ n.
                  IsClosed n (approve_owned lower dumps h executors owner now a who w).0.actions)
                same (approve_owned-IsClosed h executors owner now a who w found)),
          reject_action-IsClosed owner now id who reason w a there may,
        )
