-- ===== src/Stream/Polling.antt =====
-- A client that polls by offset sees the whole content, whatever is appended between its polls.
use package.text.Mathlib.TextLemmas.{append_assoc, append-nil, nil-append}
use ops_inspection_system.Common.{
  ℕ, min, String, ◌<>◌, List, [], ◌∷◌, ◌≡◌, ◌⊎◌, ◌∙◌, refl, sym, ap, arith, text_length,
  text_drop-append, text_length-append, Option, some, string_eq, ◌==◌, Bool-cases, Option-cases,
  inl, inr,
}
use ops_inspection_system.Stream.{
  Stream, ToolEvent, Snapshot, State, begin_round, append_delta, append_text, add_tool_event,
  add_pending_action, add_usage, finish, snapshot, gap, get_stream, read_stream, answer,
}
use ops_inspection_system.Actions.{Action}

-- What happens to a stream between two polls, and a poll.
pub data Event : Type 0 where
  round : Event
  delta words : String → Event
  tool : ToolEvent → Event
  ask : Action → Event
  used : Option ℕ → Option ℕ → Event
  ended : ℕ → State → String → Event
  poll : Event

-- The client keeps the text so far; its next offset is the last total.
pub record Client : Type 0 where
  pub text : String
  pub offset : ℕ

pub poll_once : Client → Stream → Client
poll_once c s =
    let shot = snapshot c.offset s in record { text = c.text <> shot.content; offset = shot.total }

pub happens : Event → Stream × Client → Stream × Client
happens round (s, c) = (begin_round s, c)
happens (delta t) (s, c) = (append_delta t s, c)
happens (words t) (s, c) = (append_text t s, c)
happens (tool e) (s, c) = (add_tool_event e s, c)
happens (ask a) (s, c) = (add_pending_action a s, c)
happens (used p k) (s, c) = (add_usage p k s, c)
happens (ended now state error) (s, c) = (finish now state error s, c)
happens poll (s, c) = (s, poll_once c s)

pub happen_all : List Event → Stream × Client → Stream × Client
happen_all [] sc = sc
happen_all (e ∷ rest) sc = happen_all rest (happens e sc)

-- The client holds what the content begins with, and its offset is the length of that.
pub record InStep (sc : Stream × Client) : Type 0 where
  pub rest : String
  pub prefix : sc.0.content ≡ sc.1.text <> rest
  pub offset : sc.1.offset ≡ text_length sc.1.text

InStep-grow :
    (s s' : Stream) (c : Client) (more : String)
    → s'.content ≡ s.content <> more
    → InStep (s, c)
    → InStep (s', c)
InStep-grow s s' c more e i = record {
  rest = i.rest <> more;
  prefix = e ∙ rw i.prefix (append_assoc c.text i.rest more);
  offset = i.offset;
}

InStep-same : (s s' : Stream) (c : Client) → s'.content ≡ s.content → InStep (s, c) → InStep (s', c)
InStep-same s s' c e i = record { rest = i.rest; prefix = e ∙ i.prefix; offset = i.offset }

-- After a poll the client has the content.
poll_once_lem : (s : Stream) (c : Client) → InStep (s, c) → (poll_once c s).text ≡ s.content
unfolding poll_once snapshot
poll_once_lem s c i =
    let width = text_length-append c.text i.rest in
    let all : text_length s.content ≡ text_length (c.text <> i.rest) = ap text_length i.prefix in
    let start : min c.offset (text_length s.content) ≡ text_length c.text =
      omega (arith, i.offset) in
    rw (start, i.prefix, text_drop-append c.text i.rest)

InStep-poll : (s : Stream) (c : Client) → InStep (s, c) → InStep (s, poll_once c s)
unfolding poll_once text_length snapshot
InStep-poll s c i = record {
  rest = "";
  prefix = sym (append-nil (poll_once c s).text ∙ poll_once_lem s c i);
  offset = ap text_length (sym (poll_once_lem s c i));
}

-- What a delta adds to the content: nothing, or the gap and the text.
append_delta_lem :
    (t : String) (s : Stream) → (more : String) × ((append_delta t s).content ≡ s.content <> more)
unfolding append_delta
append_delta_lem t s = elim (Bool-cases (t == "")) [
  | inl empty ↦ ("", rw (empty, append-nil))
  | inr full ↦ (gap s <> t, rw full (append_assoc s.content (gap s) t))
]

InStep-happens : (e : Event) (s : Stream) (c : Client) → InStep (s, c) → InStep (happens e (s, c))
unfolding happens begin_round append_delta append_text add_tool_event add_pending_action add_usage
    finish
InStep-happens round s c i = InStep-same s (begin_round s) c refl i
InStep-happens (delta t) s c i =
    let (more, e) = append_delta_lem t s in InStep-grow s (append_delta t s) c more e i
InStep-happens (words t) s c i = InStep-grow s (append_text t s) c t refl i
InStep-happens (tool e) s c i = InStep-same s (add_tool_event e s) c (ground arith) i
InStep-happens (ask a) s c i = InStep-same s (add_pending_action a s) c refl i
InStep-happens (used p k) s c i = InStep-same s (add_usage p k s) c refl i
InStep-happens (ended now state error) s c i = InStep-same s (finish now state error s) c refl i
InStep-happens poll s c i = InStep-poll s c i

InStep-happen_all :
    (events : List Event) (s : Stream) (c : Client)
    → InStep (s, c)
    → InStep (happen_all events (s, c))
unfolding happen_all
InStep-happen_all [] s c i = i
InStep-happen_all (e ∷ rest) s c i =
    let next = happens e (s, c) in InStep-happen_all rest next.0 next.1 (InStep-happens e s c i)

abbrev pub new_client : Client
new_client = record { text = ""; offset = 0 }

-- A client that starts with nothing and polls now and then, while rounds begin, text is appended,
-- events come in and the generation ends, holds the whole content after each poll: nothing is
-- lost and nothing comes twice.
pub polling_complete :
    (events : List Event) (s : Stream)
    → let (now, client) = happen_all events (s, new_client) in
      (poll_once client now).text ≡ now.content
unfolding text_length
polling_complete events s =
    let (now, client) = happen_all events (s, new_client) in
    poll_once_lem now client (
      InStep-happen_all events s new_client
        (record { rest = s.content; prefix = sym (nil-append s.content); offset = refl }))

-- Who gets an answer from `read_stream` is the owner of the stream or an administrator, and a viewer
-- gets one of an insight alone; the answer is the snapshot of that stream.
pub read_stream_owner :
    (stream_id : String) (offset : ℕ) (username role : String) (streams : List Stream)
    (shot : Snapshot)
    → read_stream stream_id offset username role streams ≡ answer shot
    → (s : Stream) × (get_stream stream_id streams ≡ some s)
      × (shot ≡ snapshot offset s)
      × ((s.username ≡ username) ⊎ (role ≡ "admin"))
      × (role ≡ "viewer" → s.kind ≡ "insight")
unfolding read_stream
read_stream_owner stream_id offset username role streams shot e =
    elim (Option-cases (get_stream stream_id streams)) [
      | inl missing ↦ absurd (ground arith)
      | inr (s, found) ↦ (s, found, ground arith, ground arith, ground arith)
    ]
