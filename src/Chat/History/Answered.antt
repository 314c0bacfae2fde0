-- ===== src/Chat/History/Answered.antt =====
-- ai_service.py: in what the model is told, every call of a tool has an answer.
use ops_inspection_system.Common.{
  String, Bool, true, false, Option, List, [], ◌∷◌, ◌≡◌, ◌≢◌, inl, inr, arith, ◌&&◌, ◌||◌, not,
  ◌==◌, string_eq, if◌then◌else◌, contains, flat_map, strip, any, All, All-map, All-append,
  any-append_left, any-append_right, Bool-cases,
}
use ops_inspection_system.Json.{Json}
use ops_inspection_system.Chat.History.{
  WireCall, Turn, plain, calling, answering, HistoryRow, load_tool_calls, answered_ids, fill_in,
  assistant_turns, turns_of, history_messages,
}

abbrev pub answers : String → Turn → Bool
answers id (answering call content) = id == call
answers id _ = false

-- The calls of a message have an answer among the turns.
abbrev pub IsAnswered : List Turn → Turn → Type 0
IsAnswered turns (calling content calls) =
    All (λ (c : WireCall). any (answers c.id) turns ≡ true) calls
IsAnswered turns _ = Unit

roles_differ : ◌≢◌ {A = String} "assistant" "tool"
roles_differ = cc

module _ (loads : String → Option Json) (dumps : Json → String) where
  -- A row that answers gives the turn that answers.
  answered-turn :
      (ids : List String) (rows : List HistoryRow) (id : String)
      → contains (answered_ids rows) id ≡ true
      → any (answers id) (flat_map (turns_of loads dumps ids) rows) ≡ true
  unfolding answered_ids contains flat_map turns_of
  answered-turn ids [] id h = absurd (ground arith)
  answered-turn ids (r ∷ rows) id h =
      elim (Bool-cases (r.role == "tool" && not (r.tool_call_id == "") && id == r.tool_call_id)) [
        | inl here ↦
            any-append_left (answers id) (turns_of loads dumps ids r)
              (flat_map (turns_of loads dumps ids) rows) (ground (arith, roles_differ))
        | inr there ↦
            any-append_right (answers id) (turns_of loads dumps ids r)
              (flat_map (turns_of loads dumps ids) rows) (answered-turn ids rows id (ground arith))
      ]

  -- Each call is answered elsewhere or filled in.
  fill_in_lem :
      (ids : List String) (calls : List WireCall)
      → All
          (λ (c : WireCall).
            (contains ids c.id || any (answers c.id) (fill_in loads dumps ids calls)) ≡ true)
          calls
  unfolding fill_in
  fill_in_lem ids [] = tt
  fill_in_lem ids (c ∷ calls) = (
    ground arith,
    All-map
        (λ (d : WireCall).
          (contains ids d.id || any (answers d.id) (fill_in loads dumps ids calls)) ≡ true)
        (λ (d : WireCall).
          (contains ids d.id || any (answers d.id) (fill_in loads dumps ids (c ∷ calls))) ≡ true)
        (λ d h. ground arith) calls (fill_in_lem ids calls),
  )

  fill_in-All :
      (whole : List Turn) (ids : List String) (calls : List WireCall)
      → All (IsAnswered whole) (fill_in loads dumps ids calls)
  unfolding fill_in
  fill_in-All whole ids [] = tt
  fill_in-All whole ids (c ∷ calls) = elim (Bool-cases (contains ids c.id)) [
    | inl there ↦ rw (there, fill_in) (fill_in-All whole ids calls)
    | inr missing ↦ rw (missing, fill_in) (tt, fill_in-All whole ids calls)
  ]

  module _ (whole : List Turn) (ids : List String)
      (reach : (id : String) → contains ids id ≡ true → any (answers id) whole ≡ true) where
    assistant_turns-All :
        (content : String) (calls : List WireCall)
        → ((id : String)
            → any (answers id) (assistant_turns loads dumps ids content calls) ≡ true
            → any (answers id) whole ≡ true)
        → All (IsAnswered whole) (assistant_turns loads dumps ids content calls)
    unfolding assistant_turns
    assistant_turns-All content [] inside = elim (Bool-cases (strip content == "")) [
      | inl blank ↦ rw blank tt
      | inr text ↦ rw text (tt, tt)
    ]
    assistant_turns-All content (c ∷ calls) inside = (
      All-map
          (λ (d : WireCall).
            (contains ids d.id || any (answers d.id) (fill_in loads dumps ids (c ∷ calls))) ≡ true)
          (λ (d : WireCall). any (answers d.id) whole ≡ true)
          (λ d h. elim (Bool-cases (contains ids d.id)) [
            | inl there ↦ reach d.id there
            | inr missing ↦ inside d.id (ground arith)
          ])
          (c ∷ calls) (fill_in_lem ids (c ∷ calls)),
      fill_in-All whole ids (c ∷ calls),
    )

    turns_of-All :
        (r : HistoryRow)
        → ((id : String)
            → any (answers id) (turns_of loads dumps ids r) ≡ true
            → any (answers id) whole ≡ true)
        → All (IsAnswered whole) (turns_of loads dumps ids r)
    unfolding turns_of
    turns_of-All r inside = elim (Bool-cases (r.role == "assistant")) [
      | inl yes_assistant ↦ rw yes_assistant (
          assistant_turns-All r.content (load_tool_calls loads r.tool_calls)
            (rw (yes_assistant, turns_of) at inside))
      | inr no_assistant ↦ rw no_assistant (others r)
    ]
      where
        others :
            (r : HistoryRow)
            → All (IsAnswered whole) (
                if r.role == "tool"
                then if r.tool_call_id == "" then [] else answering r.tool_call_id r.content ∷ []
                else if r.role == "user" || r.role == "system"
                then if strip r.content == "" then [] else plain r.role r.content ∷ []
                else [])
        others r = ground arith

    rows-All :
        (rows : List HistoryRow)
        → ((id : String)
            → any (answers id) (flat_map (turns_of loads dumps ids) rows) ≡ true
            → any (answers id) whole ≡ true)
        → All (IsAnswered whole) (flat_map (turns_of loads dumps ids) rows)
    unfolding flat_map
    rows-All [] inside = tt
    rows-All (r ∷ rows) inside =
        let here = turns_of loads dumps ids r in
        let rest = flat_map (turns_of loads dumps ids) rows in
        All-append (IsAnswered whole) here rest
          (turns_of-All r (λ id h. inside id (any-append_left (answers id) here rest h)))
          (rows-All rows (λ id h. inside id (any-append_right (answers id) here rest h)))

  -- Every call of a message that the model is shown has an answer among the messages.
  pub history_messages-All :
      (rows : List HistoryRow)
      → All (IsAnswered (history_messages loads dumps rows)) (history_messages loads dumps rows)
  unfolding history_messages
  history_messages-All rows =
      rows-All (flat_map (turns_of loads dumps (answered_ids rows)) rows) (answered_ids rows)
        (answered-turn (answered_ids rows) rows) rows (λ id h. h)
