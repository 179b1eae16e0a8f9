-- ===== src/JsonLayout/View.antt =====
-- `json_view`, the task that it spawns, `json_page`, and `BudgetWriter`, through which a layout takes
-- its bytes from the disk budget. The token of a view is that of its last task, and a view has one
-- task at a time.
use sippin_soda.Base.{
  ℕ, ◌+◌, ◌-◌, Bool, true, false, not, ◌||◌, none, some, List, [], ◌∷◌, ltb, ◌==◌, if◌then◌else◌,
  String, min, Result, ok, err, ok_or, ◌>>=◌, refuse_if, ◌>>◌,
}
use sippin_soda.Base.Assoc.{lookup}
use sippin_soda.Text.{text}
use sippin_soda.Bodies.{
  Bytes, Entry, Storage, JsonStatus, JsonState, building, ready, error, reserve, with_entry,
  complete,
}
use sippin_soda.Bodies.Store.{
  BodyStore, BodyPage, entry_of, is_complete, not_recorded, page_size, read_exact_at,
}

abbrev under_way : JsonState → Bool
under_way building = true
under_way ready = true
under_way _ = false

-- A call's effect: the storage, the result, and whether it spawned a task.
abbrev pub ViewOutcome : Type 0
ViewOutcome = Storage × Result String JsonStatus × Bool

abbrev cancel_view : Entry → Entry
cancel_view e = record e { json = record (e.json) { cancel = true } }

abbrev pub building_status : JsonStatus
building_status = record { state = building; error = none }

abbrev build_view : Entry → Entry
build_view e = record e { json = record (e.json) { cancel = false; status = building_status } }

-- `json_view` on an entry with a handle, where `free` says whether `analysis` has a permit.
unfoldable pub view_entry : Storage → ℕ → Entry → Bool → Bool → Bool → ViewOutcome
unfolding with_entry
view_entry s handle e free start cancel =
    if not (is_complete e.state)
    then (s, err "JSON layout requires a complete recorded body.", false)
    else if cancel
    then (with_entry s handle cancel_view, ok e.json.status, false)
    else if not start || under_way e.json.status.state
    then (s, ok e.json.status, false)
    else if not free
    then (s, err "Body analysis is busy. Try again.", false)
    else (with_entry s handle build_view, ok building_status, true)

unfoldable pub json_view : Storage → BodyStore → ℕ → Bool → Bool → Bool → ViewOutcome
json_view s b id free start cancel = elim (lookup id b.entries) [
  | none ↦ (s, err not_recorded, false)
  | some handle ↦ elim (lookup handle s.heap) [
    | none ↦ (s, err not_recorded, false)
    | some e ↦ view_entry s handle e free start cancel
  ]
]

-- So many bytes more.
abbrev pub grown : Entry → ℕ → Entry
grown e count = record e { reserved = e.reserved + count }

abbrev pub shrunk : Entry → ℕ → Entry
shrunk e count = record e { reserved = e.reserved - count }

abbrev stopped : Entry → Bool
stopped e = e.cancelled || e.json.cancel

-- `BudgetWriter::write`, for a writer that has reserved so many bytes: the storage, the bytes that it
-- has reserved, and the result. `written` says whether the file takes the bytes.
unfoldable pub budget_write : Storage → ℕ → ℕ → ℕ → Bool → Storage × ℕ × Result String (Unit {0})
budget_write s handle taken count written = elim (lookup handle s.heap) [
  | none ↦ (s, taken, err "JSON layout cancelled.")
  | some e ↦
      if stopped e
      then (s, taken, err "JSON layout cancelled.")
      else elim (reserve s.used count e.limit) [
        | none ↦ (s, taken, err "Session disk budget reached; original body remains available.")
        | some used ↦ (
          record (with_entry s handle (λ e. grown e count)) { used = used },
          taken + count,
          (if written then ok tt else err "the file cannot be written"),
        )
      ]
]

-- Gives so many bytes back, unless the entry was cancelled.
unfoldable pub give_back : Storage → ℕ → ℕ → Storage
give_back s handle count = elim (lookup handle s.heap) [
  | none ↦ s
  | some e ↦
      if e.cancelled
      then s
      else record (with_entry s handle (λ e. shrunk e count)) { used = s.used - count }
]

-- What the loop of `format_json` comes to next: a write of its buffer, or a byte that it cannot read.
pub data Stage : Type 0 where
  writes : ℕ → Bool → Stage
  unread : String → Stage

unfoldable pub write_stages : Storage → ℕ → ℕ → List Stage → Storage × ℕ × Result String (Unit {0})
write_stages s handle taken [] = (s, taken, ok tt)
write_stages s handle taken (unread cause ∷ stages) = (s, taken, err cause)
write_stages s handle taken (writes count written ∷ stages) =
    let (s', taken', result) = budget_write s handle taken count written in
    elim result [
      | err cause ↦ (s', taken', err cause)
      | ok _ ↦ write_stages s' handle taken' stages
    ]

-- The second half of `format_json`: the size that is reserved, or the error after the writer is
-- dropped. `last` is what the buffer still writes when it is dropped.
unfoldable pub write_layout : Storage → ℕ → List Stage → ℕ → Bool → Storage × Result String ℕ
write_layout s handle stages last written =
    let (s', taken, result) = write_stages s handle 0 stages in
    elim result [
      | ok _ ↦ (s', ok taken)
      | err cause ↦
          let (s'', taken', _) = budget_write s' handle taken last written in
          (give_back s'' handle taken', err cause)
    ]

abbrev finished_view : Result String (Bytes × ℕ) → Entry → Entry
finished_view (ok (file, total)) e = record e {
  json = record (e.json) {
    file = some file;
    total = total;
    status = record { state = ready; error = none };
  };
}
finished_view (err cause) e = record e {
  json = record (e.json) { status = record { state = error; error = some cause } };
}

-- The bytes of a layout that a cancelled task gives back.
abbrev layout_size : Result String (Bytes × ℕ) → ℕ
layout_size (ok (file, total)) = total
layout_size (err cause) = 0

-- The end of the task.
unfoldable pub finish_view : Storage → ℕ → Result String (Bytes × ℕ) → Storage
unfolding with_entry
finish_view s handle outcome = elim (lookup handle s.heap) [
  | none ↦ s
  | some e ↦
      if stopped e
      then with_entry (give_back s handle (layout_size outcome)) handle
          (finished_view (err "JSON layout cancelled."))
      else with_entry s handle (finished_view outcome)
]

-- `json_page`, where the layout can be opened and its position set.
unfoldable pub json_page : Storage → BodyStore → ℕ → ℕ → ℕ → Result String BodyPage
json_page s b id offset count = do
  refuse_if ((count == 0) || ltb page_size count) "Read size must be between 1 and 65536 bytes."
  e ← ok_or (entry_of s b id) not_recorded
  file ← ok_or e.json.file "JSON layout is not ready."
  refuse_if (ltb e.json.total offset) "Offset exceeds JSON layout."
  bytes ←
      ok_or (read_exact_at file offset (min count (e.json.total - offset)))
        "Cannot read JSON layout."
  refuse_if e.cancelled "Body cleared or evicted."
  ok (record {
    offset = offset;
    total = e.json.total;
    bytes = bytes;
    state = complete;
    error = none;
    encoding = text "JSON layout";
  })
