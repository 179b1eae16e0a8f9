-- ===== src/Bodies/Store.antt =====
-- The operations of `BodyStore`.
use sippin_soda.Base.{
  ℕ, ◌-◌, ◌*◌, ◌++◌, Bool, true, false, not, ◌||◌, Option, none, some, List, [], ◌∷◌, ltb, leb,
  ◌==◌, if◌then◌else◌, String, length, Result, ok, err, ok_or, ◌>>=◌, refuse_if, ◌>>◌, min, take,
  drop,
}
use sippin_soda.Base.Assoc.{lookup, insert, remove}
use sippin_soda.Text.{Text, text, text_eq}
use sippin_soda.Bodies.{
  Bytes, Entry, Storage, BodyState, complete, default_json_view, reserve, cancel, allocate,
}

-- `struct BodyStore`: the map from capture ids to entries. `used` is in the shared storage.
pub record BodyStore : Type 0 where
  pub entries : List (ℕ × ℕ)

-- A call's effect: the storage, the store and the result.
abbrev pub Outcome : Type 0 → Type 0
Outcome A = Storage × BodyStore × Result String A

abbrev pub not_recorded : String
not_recorded = "Body not recorded, cleared or evicted."

abbrev pub not_complete : String
not_complete = "Only a complete body can be exported; wait for recording to finish."

-- `self.entries.lock().get(&id).cloned()`, through to the entry.
unfoldable pub entry_of : Storage → BodyStore → ℕ → Option Entry
entry_of s b id = elim (lookup id b.entries) [ none ↦ none | some handle ↦ lookup handle s.heap ]

-- `struct BodyInfo`.
pub record BodyInfo : Type 0 where
  pub total : ℕ
  pub state : BodyState
  pub error : Option String
  pub encoding : Text

unfoldable pub info : Storage → BodyStore → ℕ → Result String BodyInfo
unfolding entry_of
info s b id = do
  e ← ok_or (entry_of s b id) not_recorded
  ok (record { total = e.total; state = e.state; error = e.error; encoding = e.encoding })

abbrev pub is_complete : BodyState → Bool
is_complete complete = true
is_complete _ = false

abbrev unwrap_or : Option String → String → String
unwrap_or none e = e
unwrap_or (some e) _ = e

-- The files of the computer, by their paths.
abbrev pub Files : Type 0
Files = Text → Option Bytes

abbrev pub write_file : Files → Text → Bytes → Files
write_file files place bytes path = if text_eq path place then some bytes else files path

-- What opening the two files, copying and flushing come to; a copy that fails has written so many
-- bytes.
pub data ExportFile : Type 0 where
  unopened uncreated flush_failed written : ExportFile
  copy_failed : ℕ → ExportFile

-- The bytes that `export` copies.
unfoldable pub export_source : Storage → BodyStore → ℕ → Result String Bytes
unfolding entry_of
export_source s b id = do
  e ← ok_or (entry_of s b id) not_recorded
  refuse_if (not (is_complete e.state)) (unwrap_or e.error not_complete)
  ok_or e.file "Body cleared or evicted."

-- The files after the copy to the destination, and how many bytes were copied.
unfoldable pub copy_to : Bytes → Text → ExportFile → Files → Files × Result String ℕ
copy_to bytes destination unopened files = (files, err "Cannot open the recorded body for export.")
copy_to bytes destination uncreated files = (files, err "Cannot create the selected export file.")
copy_to bytes destination (copy_failed count) files = (
  write_file files destination (take count bytes),
  err "Body export failed; the destination file may be incomplete.",
)
copy_to bytes destination flush_failed files =
    (write_file files destination bytes, err "Cannot flush the exported body.")
copy_to bytes destination written files = (write_file files destination bytes, ok (length bytes))

-- `export`.
unfoldable pub export :
    Storage → BodyStore → ℕ → Text → ExportFile → Files → Files × Result String ℕ
export s b id destination outcome files = elim (export_source s b id) [
  | err cause ↦ (files, err cause)
  | ok bytes ↦ copy_to bytes destination outcome files
]

-- `entries.insert(id, entry)`, and the previous entry is cancelled.
unfoldable pub install : Storage → BodyStore → ℕ → Entry → Storage × BodyStore
unfolding allocate cancel
install s b id e =
    let handle = s.next_handle in
    let b' : BodyStore = record { entries = insert id handle b.entries } in
    elim (lookup id b.entries) [
      | none ↦ (allocate s e, b')
      | some previous ↦ (cancel (allocate s e) previous, b')
    ]

abbrev pub complete_entry : Bytes → ℕ → Text → Entry
complete_entry bytes limit encoding = record {
  json = default_json_view;
  limit = limit;
  file = some bytes;
  aborted = false;
  reserved = length bytes;
  total = length bytes;
  cancelled = false;
  state = complete;
  error = none;
  encoding = encoding;
}

-- What creating, writing and flushing the temporary file comes to; the errors of the two stores
-- of finished bodies differ in their words only.
pub data FileWrite : Type 0 where
  create_failed write_failed flush_failed done : FileWrite

pub record StoreErrors : Type 0 where
  pub over_budget : String
  pub create : String
  pub write : String
  pub flush : String

abbrev write_result : FileWrite → StoreErrors → Result String (Unit {0})
write_result create_failed e = err e.create
write_result write_failed e = err e.write
write_result flush_failed e = err e.flush
write_result done e = ok tt

-- The blocking part of `store_complete` and `store_redacted_json`: it reserves, writes, and gives
-- back what it reserved if the file cannot be written.
unfoldable pub write_reserved :
    Storage → Bytes → ℕ → FileWrite → StoreErrors → Storage × Result String (Unit {0})
unfolding reserve
write_reserved s bytes limit write errors = elim (reserve s.used (length bytes) limit) [
  | none ↦ (s, err errors.over_budget)
  | some used ↦ elim (write_result write errors) [
    | ok _ ↦ (record s { used = used }, ok tt)
    | err e ↦ (record s { used = used - length bytes }, err e)
  ]
]

unfoldable pub store_bytes :
    Storage → BodyStore → ℕ → Bytes → ℕ → Text → FileWrite → StoreErrors → Outcome (Unit {0})
unfolding write_reserved install
store_bytes s b id bytes limit encoding write errors =
    let (s', result) = write_reserved s bytes limit write errors in
    elim result [
      | err e ↦ (s', b, err e)
      | ok _ ↦
          let (s'', b') = install s' b id (complete_entry bytes limit encoding) in (s'', b', ok tt)
    ]

abbrev pub replacement_errors : StoreErrors
replacement_errors = record {
  over_budget = "Session disk budget reached; replacement body was not recorded.";
  create = "Cannot create replacement body storage.";
  write = "Cannot write replacement body storage.";
  flush = "Cannot flush replacement body storage.";
}

unfoldable pub store_complete : Storage → BodyStore → ℕ → Bytes → ℕ → FileWrite → Outcome (Unit {0})
unfolding store_bytes
store_complete s b id bytes limit write =
    store_bytes s b id bytes limit (text "identity") write replacement_errors

abbrev pub redacted_errors : StoreErrors
redacted_errors = record {
  over_budget = "Session disk budget reached; redacted request body was not recorded.";
  create = "Cannot create redacted request storage.";
  write = "Cannot write redacted request storage.";
  flush = "Cannot flush redacted request storage.";
}

-- `store_redacted_json`, from what parsing, redacting and printing the bytes gave.
unfoldable pub store_redacted_json :
    Storage → BodyStore → ℕ → Result String Bytes → Text → ℕ → FileWrite → Outcome (Unit {0})
unfolding store_bytes
store_redacted_json s b id (err e) content_type limit write = (s, b, err e)
store_redacted_json s b id (ok safe) content_type limit write =
    store_bytes s b id safe limit (text "redacted " ++ content_type) write redacted_errors

-- `remove`.
unfoldable pub remove_body : Storage → BodyStore → ℕ → Storage × BodyStore
unfolding cancel
remove_body s b id = elim (lookup id b.entries) [
  | none ↦ (s, b)
  | some handle ↦ (cancel s handle, record { entries = remove id b.entries })
]

unfoldable pub cancel_all : Storage → List (ℕ × ℕ) → Storage
unfolding cancel
cancel_all s [] = s
cancel_all s ((id, handle) ∷ entries) = cancel_all (cancel s handle) entries

-- `clear`.
unfoldable pub clear : Storage → BodyStore → Storage × BodyStore
unfolding cancel_all
clear s b = (cancel_all s b.entries, record { entries = [] })

abbrev pub page_size : ℕ
page_size = 64 * 1024

-- `struct BodyPage`.
pub record BodyPage : Type 0 where
  pub offset : ℕ
  pub total : ℕ
  pub bytes : Bytes
  pub state : BodyState
  pub error : Option String
  pub encoding : Text

-- `read_exact` of so many bytes from the offset on: it fails if the file is shorter.
unfoldable pub read_exact_at : Bytes → ℕ → ℕ → Option Bytes
read_exact_at file offset count =
    if leb count (length (drop offset file)) then some (take count (drop offset file)) else none

-- `page`, where the file can be opened and its position set.
unfoldable pub page : Storage → BodyStore → ℕ → ℕ → ℕ → Result String BodyPage
unfolding entry_of read_exact_at
page s b id offset count = do
  refuse_if ((count == 0) || ltb page_size count) "Read size must be between 1 and 65536 bytes."
  e ← ok_or (entry_of s b id) not_recorded
  refuse_if (ltb e.total offset) "Offset exceeds the recorded body."
  file ← ok_or e.file "Body cleared or evicted."
  bytes ←
      ok_or (read_exact_at file offset (min count (e.total - offset))) "Cannot read recorded body."
  ok (record {
    offset = offset;
    total = e.total;
    bytes = bytes;
    state = e.state;
    error = e.error;
    encoding = e.encoding;
  })
