-- ===== src/Bodies/Tests.antt =====
-- Runs of the body stores.
use sippin_soda.Base.{arith, ◌≤◌, refl, [], ◌∷◌, List}
use sippin_soda.Base.Assoc.{lookup}
use sippin_soda.Text.{text}
use sippin_soda.Bodies.{Storage, reserve}
use sippin_soda.Bodies.Store.{done, replacement_errors, write_reserved}
use sippin_soda.Bodies.Worker.{
  Chunk, bytes, all_written, cut_off, ready, recording_entry, record_loop,
}
use sippin_soda.Bodies.Completion.{IsCompleted, record_loop-IsCompleted}
use sippin_soda.Bodies.Recording.{stream_bytes, IsRecording, IsRecorded, record_loop-IsRecorded}
use sippin_soda.Bodies.Steps.{
  Event, writes, abandons, installs, records, clears, requests, responses, reserves, commits,
  shared_pair, step, run, after_write, pick, System,
}
use sippin_soda.Bodies.Leak.{IsAccounted, run-IsAccounted, abandoned_never_returned}

abbrev events : List Event
events =
    records responses 1 (text "identity") ready
    ∷ reserves 0 2
    ∷ commits 0 (1 ∷ 2 ∷ []) all_written
    ∷ writes (3 ∷ 4 ∷ 5 ∷ []) done replacement_errors
    ∷ installs requests 1 (text "identity") 0
    ∷ []

run-IsAccounted_example : IsAccounted 4096 (run 4096 shared_pair events)
run-IsAccounted_example = run-IsAccounted 4096 events

-- One worker under way, with three bytes.
abbrev under_way : System
under_way = run 4096 shared_pair (writes (3 ∷ 4 ∷ 5 ∷ []) done replacement_errors ∷ [])

abandoned_never_returned_example :
    3
    ≤ (run 4096
        (step 4096 under_way (abandons 0))
        (clears requests ∷ clears responses ∷ [])).storage.used
unfolding run step after_write write_reserved reserve shared_pair pick
abandoned_never_returned_example =
    abandoned_never_returned 4096 under_way 0 (3 ∷ 4 ∷ 5 ∷ []) []
      (clears requests ∷ clears responses ∷ [])
      (run-IsAccounted 4096 (writes (3 ∷ 4 ∷ 5 ∷ []) done replacement_errors ∷ [])) refl

abbrev storage : Storage
storage = record {
  used = 0;
  heap = (0, recording_entry 4096 (text "identity")) ∷ [];
  next_handle = 1;
}

storage-IsRecording : IsRecording storage 0 []
unfolding lookup
storage-IsRecording = record {
  entry = recording_entry 4096 (text "identity");
  found = refl;
  live = refl;
  open_state = refl;
  file = refl;
  total = refl;
}

abbrev stream : List Chunk
stream = bytes (1 ∷ 2 ∷ []) all_written ∷ bytes (3 ∷ []) all_written ∷ []

-- The second write breaks after a byte.
abbrev broken_stream : List Chunk
broken_stream = bytes (1 ∷ 2 ∷ []) all_written ∷ bytes (3 ∷ 4 ∷ []) (cut_off 1) ∷ []

record_loop-IsRecorded_example :
    IsRecorded (record_loop storage 0 4096 broken_stream) 0 [] broken_stream
record_loop-IsRecorded_example =
    record_loop-IsRecorded storage 0 4096 [] broken_stream storage-IsRecording

record_loop-IsCompleted_example : IsCompleted (record_loop storage 0 4096 stream) 0 (1 ∷ 2 ∷ 3 ∷ [])
unfolding stream_bytes
record_loop-IsCompleted_example =
    record_loop-IsCompleted storage 0 4096 [] stream storage-IsRecording (refl, (refl, tt))
      (omega arith) (omega arith)
