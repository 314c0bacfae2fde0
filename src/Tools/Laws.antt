-- ===== src/Tools/Laws.antt =====
-- What a call of a tool can lead to.
use ops_inspection_system.Common.{
  String, Bool, true, false, some, ◌≡◌, ◌≢◌, ◌⊎◌, refl, arith, Option-cases, Bool-cases, inl, inr,
  string_eq,
}
use ops_inspection_system.Json.{Json, obj, Fields}
use ops_inspection_system.Tools.{
  Level, action, Spec, spec_for, Context, Try, returned, tool_error, raised, Outcome, result, act,
  Handlers, action_handler, result_handler, is_action, handle, handle_dict, execute,
}

-- A call that returns came from a tool of the table that the role may use, with a dict of arguments.
-- It is an action exactly for a tool of that level, and the action bears the tool's name: no other
-- tool asks for confirmation by itself, and none of that level runs at once.
pub record IsCall (h : Handlers) (name : String) (args : Json) (c : Context) (o : Outcome)
    : Type 0 where
  pub spec : Spec
  pub listed : spec_for name ≡ some spec
  pub allowed : (spec.admin_only ≡ false) ⊎ (c.role ≡ "admin")
  pub fields : Fields
  pub dict : args ≡ obj fields
  pub kind :
      ((spec.level ≡ action)
        × ((payload : Fields) × (summary : String) × (risk : String) × (h.normalize spec.name fields
                c
              ≡ returned (payload, summary, risk))
            × (o ≡ act spec.name payload summary risk)))
      ⊎ ((spec.level ≢ action)
          × ((ok : Bool) × (content : String) × (summary : String) × (error : String) × (h.run
                  spec.name fields c
                ≡ returned (ok, content, summary, error))
              × (o ≡ result ok content summary error)))

Try-cases {ℓ} :
    {A : Type ℓ} (t : Try A)
    → ((a : A) × (t ≡ returned a)) ⊎ ((e : String) × ((t ≡ tool_error e) ⊎ (t ≡ raised e)))
Try-cases (returned a) = inl (a, refl)
Try-cases (tool_error e) = inr (e, inl refl)
Try-cases (raised e) = inr (e, inr refl)

module _ (h : Handlers) (name : String) (fields : Fields) (c : Context) (o : Outcome) where
  action_handler_sound :
      action_handler h name fields c ≡ returned o
      → (payload : Fields) × (summary : String) × (risk : String) × (h.normalize name fields c
          ≡ returned (payload, summary, risk))
        × (o ≡ act name payload summary risk)
  unfolding action_handler
  action_handler_sound e = elim (Try-cases (h.normalize name fields c)) [
    | inl ((payload, summary, risk), ran) ↦ (payload, summary, risk, ran, ground arith)
    | inr (x, inl failed) ↦ absurd (ground arith)
    | inr (x, inr failed) ↦ absurd (ground arith)
  ]

  result_handler_sound :
      result_handler h name fields c ≡ returned o
      → (ok : Bool) × (content : String) × (summary : String) × (error : String) × (h.run name
            fields c
          ≡ returned (ok, content, summary, error))
        × (o ≡ result ok content summary error)
  unfolding result_handler
  result_handler_sound e = elim (Try-cases (h.run name fields c)) [
    | inl ((ok, content, summary, error), ran) ↦ (ok, content, summary, error, ran, ground arith)
    | inr (x, inl failed) ↦ absurd (ground arith)
    | inr (x, inr failed) ↦ absurd (ground arith)
  ]

-- Only a dict of arguments gets to a handler.
dict_of_returned :
    (h : Handlers) (s : Spec) (args : Json) (c : Context) (o : Outcome)
    → handle_dict h s args c ≡ returned o
    → (fields : Fields) × (args ≡ obj fields) × (handle h s fields c ≡ returned o)
unfolding handle_dict
dict_of_returned h s (obj fields) c o e = (fields, refl, e)
dict_of_returned h s _ c o e = absurd (cc)

is_action-true : (l : Level) → is_action l ≡ true → l ≡ action
is_action-true l e = ground arith

is_action-false : (l : Level) → is_action l ≡ false → l ≢ action
is_action-false l e = ground arith

-- Every call that returns is one in the sense of `IsCall`.
pub execute_sound :
    (h : Handlers) (name : String) (args : Json) (c : Context) (o : Outcome)
    → execute h name args c ≡ returned o
    → IsCall h name args c o
unfolding execute handle
execute_sound h name args c o e = elim (Option-cases (spec_for name)) [
  | inl missing ↦ absurd (ground arith)
  | inr (s, listed) ↦
      let (fields, dict, ran) = dict_of_returned h s args c o (ground arith) in
      record {
        spec = s;
        listed = listed;
        allowed = ground arith;
        fields = fields;
        dict = dict;
        kind = elim (Bool-cases (is_action s.level)) [
          | inl on ↦
              inl
                (is_action-true s.level on, action_handler_sound h s.name fields c o (ground arith))
          | inr off ↦
              inr (
                is_action-false s.level off,
                result_handler_sound h s.name fields c o (ground arith),
              )
        ];
      }
]
