-- ===== src/Chat/Loop/Stops.antt =====
-- ai_service.py: the loop of `_run_chat` ends, whatever the model answers, in the rounds it is given.
use mathlib.Core.Option.{some-injective}
use ops_inspection_system.Common.{
  ℕ, ◌+◌, ◌≤◌, ◌<◌, suc, zero, String, ◌<>◌, true, false, Option, some, List, [], ◌∷◌, ◌++◌, ◌≡◌,
  refl, inl, inr, arith, ◌==◌, ltb, none, Bool, subst, string_eq, Bool-cases, Option-cases, ◌∙◌, ap,
  text_length, text_length-append,
}
use ops_inspection_system.Json.{Json}
use ops_inspection_system.Stream.{begin_round, add_usage}
use ops_inspection_system.Tools.{Context, Handlers}
use ops_inspection_system.Chat.Store.{World, ToolCall, Executors}
use ops_inspection_system.Chat.History.{Turn, calling, wire_calls}
use ops_inspection_system.Chat.Loop.{
  Completion, reply, broken, crashed, Outside, Fault, Limits, Loop, Ending, Next, again, stop, hear,
  cap_note, cap, handle_calls, interrupted, break_off, broken_world, run_tools, begin, take_answer,
  round_heard, round, run_rounds,
}
use ops_inspection_system.Chat.Loop.Rounds.{append_deltas-rounds, handle_tool_call-rounds}

append-nonempty : (s t : String) → ltb 0 (text_length s) ≡ true → ((s <> t) == "") ≡ false
unfolding text_length
append-nonempty s t h =
    let short = λ (p : (s <> t) ≡ ""). ap text_length p in
    ground (arith, text_length-append s t, short)

module _ (show : ℕ → String) (limits : Limits) (outside : Outside) where
  -- The tools are offered only before the last round.
  cap-open :
      (l : Loop)
      → (cap show limits outside l).capped ≡ false
      → l.world.stream.rounds < limits.max_tool_rounds
  unfolding cap cap_note text_length
  cap-open l h = ground (
    arith,
    append-nonempty "已达到工具调用轮数上限（" (show limits.max_tool_rounds <> "），请停止调用工具，直接给出当前结论。") refl,
  )

  cap-world : (l : Loop) → (cap show limits outside l).world ≡ l.world
  unfolding cap
  cap-world l = ground arith

module _ (lower : String → String) (dumps : Json → String) (show : ℕ → String)
    (chars : List Turn → ℕ) (h : Handlers) (executors : Executors) (limits : Limits)
    (outside : Outside) (conversation_id : ℕ) (c : Context) where
  handle_calls-rounds :
      (now : ℕ) (calls : List ToolCall) (w : World) (messages : List Turn)
      → (handle_calls lower dumps show chars h executors limits outside conversation_id c now calls
          (w, messages)).0.stream.rounds
        ≡ w.stream.rounds
  unfolding handle_calls
  handle_calls-rounds now [] w messages = refl
  handle_calls-rounds now (call ∷ calls) w messages =
      handle_calls-rounds now calls _ _
      ∙ handle_tool_call-rounds lower dumps h executors now limits.action_ttl conversation_id c call
          w

  interrupted-rounds :
      (writes : ℕ) (w : World) (out : World × String × Bool)
      → out.0.stream.rounds ≡ w.stream.rounds
      → (interrupted writes w out).stream.rounds ≡ w.stream.rounds
  unfolding interrupted
  interrupted-rounds zero w (w₁, content, waits) same = refl
  interrupted-rounds (suc zero) w (w₁, content, waits) same = ground (arith, same)
  interrupted-rounds (suc (suc n)) w (w₁, content, waits) same = same

  break_off-rounds :
      (now n writes : ℕ) (calls : List ToolCall) (w w₁ : World)
      → break_off lower dumps show chars h executors limits outside conversation_id c now n writes
          calls w
        ≡ some w₁
      → w₁.stream.rounds ≡ w.stream.rounds
  unfolding break_off
  break_off-rounds now n writes [] w w₁ e = absurd (cc)
  break_off-rounds now zero writes (call ∷ calls) w w₁ e =
      subst (λ (v : World). v.stream.rounds ≡ w.stream.rounds) (some-injective _ w₁ e)
        (interrupted-rounds writes w _ (
          handle_tool_call-rounds lower dumps h executors now limits.action_ttl conversation_id c
            call w))
  break_off-rounds now (suc n) writes (call ∷ calls) w w₁ e =
      break_off-rounds now n writes calls _ w₁ e
      ∙ handle_tool_call-rounds lower dumps h executors now limits.action_ttl conversation_id c call
          w

  broken_world-rounds :
      (now : ℕ) (calls : List ToolCall) (w : World) (f : Option Fault) (out : World × String)
      → broken_world lower dumps show chars h executors limits outside conversation_id c now calls w
          f
        ≡ some out
      → out.0.stream.rounds ≡ w.stream.rounds
  broken_world-rounds now calls w none out e = absurd (cc)
  broken_world-rounds now calls w (some f) out e =
      elim (Option-cases (
        break_off lower dumps show chars h executors limits outside conversation_id c now f.calls
          f.writes calls w)) [
            | inl past ↦ absurd (ground arith)
            | inr (w₁, hit) ↦ ground (arith, break_off-rounds now f.calls f.writes calls w w₁ hit)
          ]

  -- A round that is not the last had a place left and takes one; the last takes one at most.
  abbrev Fits : ℕ → Next → Type 0
  Fits n (again next) = (n < limits.max_tool_rounds) × (next.world.stream.rounds ≡ suc n)
  Fits n (stop last ending) = last.world.stream.rounds ≤ suc n

  run_tools-Fits :
      (now n : ℕ) (l : Loop) (content : String) (calls : List ToolCall)
      → l.world.stream.rounds ≡ suc n
      → n < limits.max_tool_rounds
      → Fits n (
          run_tools lower dumps show chars h executors limits outside conversation_id c now l
            content calls)
  unfolding run_tools
  run_tools-Fits now n l content calls same room =
      elim (Option-cases (
        broken_world lower dumps show chars h executors limits outside conversation_id c now calls
          l.world (outside.fault l.world.stream.rounds))) [
            | inl whole ↦
                rw (whole, run_tools)
                  (ground (
                    arith,
                    handle_calls-rounds now calls l.world
                        (l.messages ++ calling content (wire_calls lower dumps calls) ∷ []),
                  ))
            | inr (out, hit) ↦
                rw (hit, run_tools)
                  (ground (arith, broken_world-rounds now calls l.world _ out hit))
          ]

  take_answer-Fits :
      (now n : ℕ) (l : Loop) (a : Completion)
      → l.world.stream.rounds ≡ suc n
      → (l.capped ≡ false → n < limits.max_tool_rounds)
      → Fits n
          (take_answer lower dumps show chars h executors limits outside conversation_id c now l a)
  unfolding take_answer add_usage
  take_answer-Fits now n l (broken deltas kind text) same room =
      ground (arith, append_deltas-rounds deltas l.world.stream)
  take_answer-Fits now n l (crashed deltas text) same room =
      ground (arith, append_deltas-rounds deltas l.world.stream)
  take_answer-Fits now n l (reply deltas content [] prompt completion) same room =
      ground (arith, append_deltas-rounds deltas l.world.stream)
  take_answer-Fits now n l (reply deltas content (call ∷ calls) prompt completion) same room =
      elim (Bool-cases l.capped) [
        | inl last ↦ rw last (ground (arith, append_deltas-rounds deltas l.world.stream))
        | inr offered ↦ rw offered (
            run_tools-Fits now n _ content (call ∷ calls)
              (append_deltas-rounds deltas l.world.stream ∙ same) (room offered))
      ]

  round_heard-Fits :
      (l : Loop)
      → Fits l.world.stream.rounds
          (round_heard lower dumps show chars h executors limits outside conversation_id c l)
  unfolding round_heard begin begin_round
  round_heard-Fits l = elim (Bool-cases l.world.stream.cancel) [
    | inl cancelled ↦ rw cancelled (omega arith)
    | inr live ↦ simp live (
        take_answer-Fits _ l.world.stream.rounds _ _
          (ground (arith, cap-world show limits outside l)) (cap-open show limits outside l))
  ]

  round-Fits :
      (l : Loop)
      → Fits l.world.stream.rounds
          (round lower dumps show chars h executors limits outside conversation_id c l)
  unfolding round hear
  round-Fits l = round_heard-Fits (hear outside l)

  abbrev runs : ℕ → Loop → Option (Loop × Ending)
  runs = run_rounds lower dumps show chars h executors limits outside conversation_id c

  abbrev Ends : ℕ → Loop → Type 0
  Ends fuel l =
      (out : Loop × Ending) × (runs fuel l ≡ some out)
      × (out.0.world.stream.rounds ≤ suc limits.max_tool_rounds)

  Ends-after :
      (fuel n : ℕ) (l : Loop) (next : Next)
      → round lower dumps show chars h executors limits outside conversation_id c l ≡ next
      → Fits n next
      → n ≤ limits.max_tool_rounds
      → ((m : Loop) → m.world.stream.rounds ≡ suc n → suc n ≤ limits.max_tool_rounds → Ends fuel m)
      → Ends (suc fuel) l
  unfolding run_rounds
  Ends-after fuel n l (stop last ending) e fits within rest =
      ((last, ending), rw (e, run_rounds) refl, omega (arith, fits))
  Ends-after fuel n l (again next) e (room, taken) within rest =
      let (out, found, small) = rest next taken (omega (arith, room)) in
      (out, rw (e, run_rounds) found, small)

  -- Fuel for one round more than are left is enough.
  run_rounds-Ends :
      (fuel : ℕ) (l : Loop)
      → l.world.stream.rounds ≤ limits.max_tool_rounds
      → limits.max_tool_rounds < l.world.stream.rounds + fuel
      → Ends fuel l
  unfolding hear
  run_rounds-Ends zero l within enough = absurd (omega (arith, within, enough))
  run_rounds-Ends (suc fuel) l within enough =
      Ends-after fuel l.world.stream.rounds l
        (round lower dumps show chars h executors limits outside conversation_id c l) refl
        (round-Fits l) within
        (λ m same room.
          run_rounds-Ends fuel m (omega (arith, same, room)) (omega (arith, same, enough)))

  -- A conversation's loop ends on fuel for one round more than the limit, and takes no more rounds.
  pub run_rounds_lem :
      (l : Loop)
      → l.world.stream.rounds ≡ 0
      → (out : Loop × Ending) × (run_rounds lower dumps show chars h executors limits outside
            conversation_id c
            (suc limits.max_tool_rounds)
            l
          ≡ some out)
        × (out.0.world.stream.rounds ≤ suc limits.max_tool_rounds)
  run_rounds_lem l fresh =
      run_rounds-Ends (suc limits.max_tool_rounds) l (omega (arith, fresh)) (omega (arith, fresh))
