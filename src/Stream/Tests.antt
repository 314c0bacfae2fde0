-- ===== src/Stream/Tests.antt =====
-- Stream: tests and instances.
use ops_inspection_system.Common.{some, List, [], ◌∷◌, ◌≡◌, refl, string_eq, number_eq}
use ops_inspection_system.Stream.{
  Stream, change, done, new_stream, snapshot, get_stream, read_stream, answer,
}
use ops_inspection_system.Stream.Polling.{
  Event, round, delta, poll, ended, words, happen_all, poll_once, new_client, polling_complete,
}

abbrev stream : Stream
stream = new_stream 100 60 "s1" "chat" "li" "operator" (some 4) change

abbrev events : List Event
events = round ∷ delta "ab" ∷ poll ∷ round ∷ delta "cd" ∷ poll ∷ words "e" ∷ ended 120 done "" ∷ []

polling_complete_example :
    (poll_once
      (happen_all events (stream, new_client)).1
      (happen_all events (stream, new_client)).0).text
    ≡ (happen_all events (stream, new_client)).0.content
polling_complete_example = polling_complete events stream

answered : read_stream "s1" 0 "li" "operator" (stream ∷ []) ≡ answer (snapshot 0 stream)
unfolding read_stream get_stream string_eq new_stream
answered = refl
