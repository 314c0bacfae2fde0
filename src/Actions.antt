-- ===== src/Actions.antt =====
-- The table `ai_actions` of models.py: operations that wait for a person to confirm them. Times are
-- the seconds that the table's texts stand for; each operation is one transaction.
pub mod Once
mod Tests
use ops_inspection_system.Common.{
  ℕ, suc, ◌+◌, max, String, Bool, true, false, Option, none, some, List, [], ◌∷◌, ◌++◌, ◌&&◌, ◌||◌,
  ◌==◌, ltb, string_eq, number_eq, if◌then◌else◌, update_where, count, find, text_take,
}
use ops_inspection_system.Json.{Fields}

pub data Status : Type 0 where
  pending approved executed failed rejected expired : Status

-- `payload` is the JSON text as the value that it parses to.
pub record Action : Type 0 where
  pub id : ℕ
  pub conversation_id : ℕ
  pub message_id : Option ℕ
  pub action_type : String
  pub payload : Fields
  pub risk_level : String
  pub summary : String
  pub status : Status
  pub requested_by : String
  pub result : Option String
  pub error : Option String
  pub decided_by : Option String
  pub created_at : ℕ
  pub decided_at : Option ℕ
  pub executed_at : Option ℕ
  pub expires_at : Option ℕ

-- The rows in the order of insertion, and the number that AUTOINCREMENT gives next.
pub record Table : Type 0 where
  pub rows : List Action
  pub next_id : ℕ

pub record NewAction : Type 0 where
  pub conversation_id : ℕ
  pub action_type : String
  pub payload : Fields
  pub summary : String
  pub risk_level : String
  pub message_id : Option ℕ
  pub requested_by : String
  pub ttl_seconds : ℕ

-- `int(ttl_seconds or 600)`
abbrev pub ttl_or_default : ℕ → ℕ
ttl_or_default ttl = if ttl == 0 then 600 else ttl

-- `add_ai_action`, with the new id.
unfoldable pub add_ai_action : ℕ → NewAction → Table → Table × ℕ
add_ai_action now n t =
    let row : Action = record {
      id = t.next_id;
      conversation_id = n.conversation_id;
      message_id = n.message_id;
      action_type = n.action_type;
      payload = n.payload;
      risk_level = n.risk_level;
      summary = n.summary;
      status = pending;
      requested_by = n.requested_by;
      result = none;
      error = none;
      decided_by = none;
      created_at = now;
      decided_at = none;
      executed_at = none;
      expires_at = some (now + max 30 (ttl_or_default n.ttl_seconds));
    } in
    (record t { rows = t.rows ++ row ∷ []; next_id = suc t.next_id }, t.next_id)

abbrev pub has_id : ℕ → Action → Bool
has_id id a = a.id == id

abbrev pub is_pending : Status → Bool
is_pending pending = true
is_pending _ = false

-- `get_ai_action`
unfoldable pub get_ai_action : ℕ → Table → Option Action
get_ai_action id t = find (has_id id) t.rows

abbrev pub open_with_id : ℕ → Action → Bool
open_with_id id a = has_id id a && is_pending a.status

abbrev pub approve : ℕ → String → Action → Action
approve now by a = record a { status = approved; decided_by = some by; decided_at = some now }

-- `claim_ai_action`: UPDATE … WHERE id=? AND status='pending', and whether it hit one row.
unfoldable pub claim_ai_action : ℕ → ℕ → String → Table → Table × Bool
claim_ai_action now id by t = (
  record t { rows = update_where (open_with_id id) (approve now by) t.rows },
  count (open_with_id id) t.rows == 1,
)

-- `(text or '')[:limit] or None`
abbrev pub cut_or_none : ℕ → String → Option String
cut_or_none limit text = let cut = text_take limit text in if cut == "" then none else some cut

-- The `if status in ('rejected', 'expired')` of `finish_ai_action`.
abbrev pub is_decision : Status → Bool
is_decision rejected = true
is_decision expired = true
is_decision _ = false

-- The SET clause of `finish_ai_action`.
abbrev pub close : ℕ → Status → String → String → String → Action → Action
close now status result error by a = record a {
  status = status;
  result = cut_or_none 4000 result;
  error = cut_or_none 500 error;
  decided_by = if by == "" then a.decided_by else some by;
  decided_at = if is_decision status then some now else a.decided_at;
  executed_at = if is_decision status then a.executed_at else some now;
}

-- `finish_ai_action`: UPDATE … WHERE id=?
unfoldable pub finish_ai_action : ℕ → ℕ → Status → String → String → String → Table → Table
finish_ai_action now id status result error by t = record t {
  rows = update_where (has_id id) (close now status result error by) t.rows;
}

abbrev pub is_past : ℕ → Option ℕ → Bool
is_past now none = false
is_past now (some at) = ltb at now

abbrev pub overdue : ℕ → Action → Bool
overdue now a = is_pending a.status && is_past now a.expires_at

abbrev pub lapse : ℕ → Action → Action
lapse now a = record a { status = expired; decided_at = some now }

-- `expire_ai_actions`, with the number of rows.
unfoldable pub expire_ai_actions : ℕ → Table → Table × ℕ
expire_ai_actions now t =
    (record t { rows = update_where (overdue now) (lapse now) t.rows }, count (overdue now) t.rows)
