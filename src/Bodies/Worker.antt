-- ===== src/Bodies/Worker.antt =====
-- `BodyStore::record`, the task that it spawns, and `Tap`. The task reads decoded chunks; reserving
-- a chunk and writing it are two steps, between which other threads may run.
use mathlib.Core.Option
use sippin_soda.Base.{
  ℕ, ◌+◌, ◌++◌, Bool, true, false, none, some, List, [], ◌∷◌, if◌then◌else◌, String, length, ok,
  err, any, take,
}
use sippin_soda.Base.Assoc.{lookup, insert}
use sippin_soda.Text.{Text, text, text_eq}
use sippin_soda.Bodies.{
  Bytes, Entry, Storage, recording, complete, partial, unavailable, default_json_view, reserve,
  with_entry, finish, allocate,
}
use sippin_soda.Bodies.Store.{BodyStore, Outcome}

abbrev pub recording_entry : ℕ → Text → Entry
recording_entry limit encoding = record {
  json = default_json_view;
  limit = limit;
  file = some [];
  aborted = false;
  reserved = 0;
  total = 0;
  cancelled = false;
  state = recording;
  error = none;
  encoding = encoding;
}

-- What creating the temporary file comes to.
pub data FileSetup : Type 0 where
  not_started not_created not_reopened ready : FileSetup

-- `record`: the handle that the `Tap` and the task share. The entry that the map held before, if
-- any, is not cancelled; it goes when its last owner does.
unfoldable pub record_body : Storage → BodyStore → ℕ → Text → ℕ → FileSetup → Outcome ℕ
unfolding allocate
record_body s b id encoding limit setup = elim setup [
  | not_started ↦ (s, b, err "Cannot start body storage.")
  | not_created ↦ (s, b, err "Cannot create body storage.")
  | not_reopened ↦ (s, b, err "Cannot open body writer.")
  | ready ↦ (
    allocate s (recording_entry limit encoding),
    record { entries = insert id s.next_handle b.entries },
    ok s.next_handle,
  )
]

-- The encodings that the task has a decoder for.
unfoldable pub is_decodable : Text → Bool
unfolding any text_eq
is_decodable encoding =
    any (λ known. text_eq encoding known)
      ([] ∷ text "identity" ∷ text "gzip" ∷ text "deflate" ∷ text "br" ∷ [])

-- `entry.cancelled.load()`; an entry that is gone has no task.
unfoldable pub is_cancelled : Storage → ℕ → Bool
is_cancelled s handle = elim (lookup handle s.heap) [ none ↦ true | some e ↦ e.cancelled ]

abbrev budget_error : String
budget_error =
    "Session disk budget reached. Increase the budget before retrying; forwarding continues."

abbrev pub full_entry : Entry → Entry
full_entry e = record e { state = partial; error = some budget_error }

-- What reserving a chunk, under the lock of `result`, comes to.
pub data Reserved : Type 0 where
  stopped full taken : Reserved

unfoldable pub reserve_chunk : Storage → ℕ → ℕ → ℕ → Storage × Reserved
unfolding is_cancelled reserve with_entry
reserve_chunk s handle limit count =
    if is_cancelled s handle then (s, stopped) else elim (reserve s.used count limit) [
      | none ↦ (with_entry s handle full_entry, full)
      | some used ↦ (
        record (with_entry s handle (λ e. record e { reserved = e.reserved + count })) {
          used = used;
        },
        taken,
      )
    ]

abbrev pub grown_entry : Bytes → Entry → Entry
grown_entry bytes e = record e {
  file = Option.map (λ f. f ++ bytes) e.file;
  total = e.total + length bytes;
}

-- How writing and flushing a chunk ends: with all of it in the file, or by an error, which leaves so
-- many of its first bytes there.
pub data ChunkWrite : Type 0 where
  all_written : ChunkWrite
  cut_off : ℕ → ChunkWrite

-- What a broken write leaves in the file, where nothing of it is advertised.
abbrev pub spilled_entry : Bytes → Entry → Entry
spilled_entry bytes e = record e { file = Option.map (λ f. f ++ bytes) e.file }

-- Writing and flushing the chunk, and advertising its length.
unfoldable pub commit_chunk : Storage → ℕ → Bytes → ChunkWrite → Storage
unfolding with_entry finish
commit_chunk s handle bytes all_written = with_entry s handle (grown_entry bytes)
commit_chunk s handle bytes (cut_off count) =
    finish (with_entry s handle (spilled_entry (take count bytes))) handle partial
      (some "Body storage write failed; forwarding continues.")

-- What the decoder yields: a chunk, with how its write ends, or a failure; the list ends where
-- the stream does.
pub data Chunk : Type 0 where
  bytes : Bytes → ChunkWrite → Chunk
  failed : Chunk

-- The loop of the task, when nothing else runs between its steps.
unfoldable pub record_loop : Storage → ℕ → ℕ → List Chunk → Storage
record_loop s handle limit [] = if is_cancelled s handle then s else finish s handle complete none
record_loop s handle limit (failed ∷ chunks) =
    if is_cancelled s handle
    then s
    else finish s handle partial (some "Body decoding or transport failed.")
record_loop s handle limit (bytes b written ∷ chunks) =
    let (s', reserved) = reserve_chunk s handle limit (length b) in
    let rest = record_loop (commit_chunk s' handle b all_written) handle limit chunks in
    if is_cancelled s handle then s else elim reserved [
      | stopped ↦ s'
      | full ↦ s'
      | taken ↦ elim written [
        | all_written ↦ rest
        | cut_off count ↦ commit_chunk s' handle b (cut_off count)
      ]
    ]

-- The whole task.
unfoldable pub record_task : Storage → ℕ → ℕ → Text → List Chunk → Storage
unfolding is_decodable record_loop finish
record_task s handle limit encoding chunks =
    if is_decodable encoding
    then record_loop s handle limit chunks
    else finish s handle unavailable
        (some "Unsupported Content-Encoding; response forwarding is unchanged.")

-- `Drop for Tap`.
unfoldable pub drop_tap : Storage → ℕ → Storage
unfolding finish with_entry
drop_tap s handle =
    with_entry (finish s handle partial (some "Body capture interrupted.")) handle
      (λ e. record e { aborted = true })
