-- ===== src/Resource/Request.antt =====
-- app.py: `api_decide_resource_event`, the request by which a person decides on an observed change.
use Prim.Native.Char.{Char, code}
use Prim.Native.String.{String, ◌++◌ as ◌<>◌}
use ops_inspection_system.Common.{
  ℕ, ◌≤◌, Bool, true, false, none, some, List, [], ◌∷◌, ◌++◌, ◌≡◌, ◌&&◌, ◌||◌, not, ◌==◌, ltb, leb,
  refl, arith, contains, string_eq, number_eq, if◌then◌else◌, strip, text_length, Option-cases, inl,
  inr,
}
use ops_inspection_system.Web.{Entry, Reply, answer}
use ops_inspection_system.Resource.Store.{Status, recovered_pending, Event, Store}
use ops_inspection_system.Resource.Store.Changes.{
  get_resource_change_event, decide_resource_change_event,
}
use ops_inspection_system.Resource.Events.{IsDecision, decide_sound}

-- `[<>&\x00-\x1f]`
abbrev unsafe_char : Char → Bool
unsafe_char c = ltb (code c) 32 || code c == 60 || code c == 62 || code c == 38

no_unsafe : String → Bool
no_unsafe String.[] = true
no_unsafe (String.◌∷◌ c s) = not (unsafe_char c) && no_unsafe s

unfoldable pub is_safe_display_text : String → ℕ → Bool
unfolding no_unsafe
is_safe_display_text value max_length = leb (text_length value) max_length && no_unsafe value

abbrev pub decisions : List String
decisions = "normal" ∷ "abnormal" ∷ "resolved" ∷ []

abbrev pub is_recovered : Status → Bool
is_recovered recovered_pending = true
is_recovered _ = false

-- Who asks, by the session and the address.
pub record Decider : Type 0 where
  pub username : String
  pub client_ip : String

-- The tables of changes and the audit.
pub record Desk : Type 0 where
  pub store : Store
  pub audits : List Entry

abbrev pub decision_entry : Decider → ℕ → String → String → String → Entry
decision_entry who event_id decision server_text reason = record {
  username = who.username;
  action = "resource.event." <> decision;
  result = "ok";
  target_type = "resource_event";
  target_id = event_id;
  target_name = server_text;
  detail = reason;
  client_ip = who.client_ip;
}

-- `show` is `str` of a number.
module _ (show : ℕ → String) where
  unfoldable pub write_event_decision :
      ℕ → ℕ → String → String → Decider → Event → Desk → Desk × Reply
  write_event_decision now event_id decision reason who e d =
      let (s, ok) =
        decide_resource_change_event now event_id decision reason who.username d.store in
      if ok
      then (
        record {
          store = s;
          audits = d.audits ++ decision_entry who event_id decision (show e.server_id) reason ∷ [];
        },
        answer 200 true "",
      )
      else (record d { store = s }, answer 409 false "该变更已处理，请刷新页面")

  unfoldable pub decide_event : ℕ → ℕ → String → String → Decider → Desk → Desk × Reply
  decide_event now event_id decision reason who d =
      elim (get_resource_change_event event_id d.store) [
        | none ↦ (d, answer 404 false "变更记录不存在")
        | some e ↦
            if decision == "resolved" && not (is_recovered e.status)
            then (d, answer 409 false "只有已恢复待确认的记录才能关闭")
            else write_event_decision now event_id decision reason who e d
      ]

  unfoldable pub decide_checked : ℕ → ℕ → String → String → Decider → Desk → Desk × Reply
  decide_checked now event_id decision reason who d =
      if not (contains decisions decision)
      then (d, answer 400 false "确认结论无效")
      else if ltb (text_length reason) 2 || ltb 500 (text_length reason)
      then (d, answer 400 false "确认理由必须为 2 至 500 个字符")
      else if not (is_safe_display_text reason 500)
      then (d, answer 400 false "确认理由包含非法控制字符")
      else decide_event now event_id decision reason who d

  unfoldable pub api_decide_resource_event : ℕ → ℕ → String → String → Decider → Desk → Desk × Reply
  api_decide_resource_event now event_id decision reason who d =
      decide_checked now event_id (strip decision) (strip reason) who d

  -- What an accepted request has done: the reason has 2 to 500 characters, the event was decided in
  -- the sense of `IsDecision`, "resolved" only after the change had gone away, and one entry of the
  -- audit bears the reason.
  pub record IsDecided (event_id : ℕ) (decision reason : String) (d d' : Desk) : Type 0 where
    pub long_enough : 2 ≤ text_length reason
    pub short_enough : text_length reason ≤ 500
    pub decided : IsDecision event_id decision d.store d'.store
    pub event : Event
    pub found : get_resource_change_event event_id d.store ≡ some event
    pub gone : decision ≡ "resolved" → is_recovered event.status ≡ true
    pub entry : Entry
    pub audited : d'.audits ≡ d.audits ++ entry ∷ []
    pub reason_kept : entry.detail ≡ reason

  decide_event-IsDecided :
      (now event_id : ℕ) (decision reason : String) (who : Decider) (d d' : Desk) (message : String)
      → 2 ≤ text_length reason
      → text_length reason ≤ 500
      → decide_event now event_id decision reason who d ≡ (d', answer 200 true message)
      → IsDecided event_id decision reason d d'
  unfolding decide_event write_event_decision
  decide_event-IsDecided now event_id decision reason who d d' message low high e =
      elim (Option-cases (get_resource_change_event event_id d.store)) [
        | inl missing ↦ absurd (ground arith)
        | inr (row, found) ↦ record {
          long_enough = low;
          short_enough = high;
          decided =
              decide_sound now event_id decision reason who.username d.store d'.store
                (ground arith);
          event = row;
          found = found;
          gone = λ closing. ground arith;
          entry = decision_entry who event_id decision (show row.server_id) reason;
          audited = ground arith;
          reason_kept = refl;
        }
      ]

  -- A request that is answered with success is one in the sense of `IsDecided`, for the texts as
  -- stripped.
  pub api_decide_resource_event_sound :
      (now event_id : ℕ) (decision reason : String) (who : Decider) (d d' : Desk) (message : String)
      → api_decide_resource_event now event_id decision reason who d ≡ (d', answer 200 true message)
      → IsDecided event_id (strip decision) (strip reason) d d'
  unfolding api_decide_resource_event decide_checked
  api_decide_resource_event_sound now event_id decision reason who d d' message e =
      decide_event-IsDecided now event_id (strip decision) (strip reason) who d d' message
        (ground arith) (ground arith) (ground arith)
