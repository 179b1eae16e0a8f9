-- ===== src/Bodies.antt =====
-- crates/engine/src/proxy/bodies.rs: the entries of recorded bodies and the disk budget that the
-- two stores share. An `Arc<Entry>` is a handle into a heap; a temporary file is its bytes. Time,
-- files and blocking workers succeed or fail as the arguments say.
pub mod Store
pub mod Worker
pub mod Budget
pub mod Steps
pub mod Leak
pub mod Recording
pub mod Completion
mod Tests
use sippin_soda.Base.{
  ℕ, zero, suc, ◌+◌, ◌-◌, ◌^◌, Bool, true, false, not, ◌&&◌, ◌||◌, Option, none, some, List, [],
  ◌∷◌, ltb, leb, if◌then◌else◌, String, length,
}
use sippin_soda.Base.Assoc.{lookup, update, erase, total}
use sippin_soda.Text.{Text}

abbrev pub Bytes : Type 0
Bytes = List ℕ

-- The first part of `Entry::result`.
pub data BodyState : Type 0 where
  recording complete partial unavailable : BodyState

-- `struct JsonStatus` of inspect.rs, whose states are the words of the first type.
pub data JsonState : Type 0 where
  idle building ready error : JsonState

pub record JsonStatus : Type 0 where
  pub state : JsonState
  pub error : Option String

-- `struct JsonView` of inspect.rs.
pub record JsonView : Type 0 where
  pub file : Option Bytes
  pub total : ℕ
  pub status : JsonStatus
  pub cancel : Bool

-- `JsonView::default()`.
abbrev pub default_json_view : JsonView
default_json_view = record {
  file = none;
  total = 0;
  status = record { state = idle; error = none };
  cancel = false;
}

-- `struct Entry`. Of `worker` it holds whether its task was aborted.
pub record Entry : Type 0 where
  pub json : JsonView
  pub limit : ℕ
  pub file : Option Bytes
  pub aborted : Bool
  pub reserved : ℕ
  pub total : ℕ
  pub cancelled : Bool
  pub state : BodyState
  pub error : Option String
  pub encoding : Text

-- What the two stores share: `used`, and the entries that are alive.
pub record Storage : Type 0 where
  pub used : ℕ
  pub heap : List (ℕ × Entry)
  pub next_handle : ℕ

-- `fetch_update(|used| used.checked_add(count).filter(|next| *next <= limit))`.
unfoldable pub reserve : ℕ → ℕ → ℕ → Option ℕ
reserve used count limit =
    if ltb (used + count) (2 ^ 64) && leb (used + count) limit then some (used + count) else none

-- Changes an entry.
unfoldable pub with_entry : Storage → ℕ → (Entry → Entry) → Storage
with_entry s handle f = record s { heap = update handle f s.heap }

abbrev cancelled_entry : Entry → Entry
cancelled_entry e = record e {
  cancelled = true;
  aborted = true;
  file = none;
  json = record (e.json) { file = none };
  reserved = 0;
}

-- `Entry::cancel`.
unfoldable pub cancel : Storage → ℕ → Storage
unfolding with_entry
cancel s handle = elim (lookup handle s.heap) [
  | none ↦ s
  | some e ↦ record (with_entry s handle cancelled_entry) { used = s.used - e.reserved }
]

abbrev is_recording : BodyState → Bool
is_recording recording = true
is_recording _ = false

abbrev pub finished_entry : BodyState → Option String → Entry → Entry
finished_entry state cause e =
    if is_recording e.state then record e { state = state; error = cause } else e

-- `Entry::finish`.
unfoldable pub finish : Storage → ℕ → BodyState → Option String → Storage
unfolding with_entry
finish s handle state cause = with_entry s handle (finished_entry state cause)

-- `Drop for Entry`, when the last `Arc` goes.
unfoldable pub drop_entry : Storage → ℕ → Storage
drop_entry s handle = elim (lookup handle s.heap) [
  | none ↦ s
  | some e ↦ record s { heap = erase handle s.heap; used = s.used - e.reserved }
]

-- `Arc::new(Entry { … })`.
unfoldable pub allocate : Storage → Entry → Storage
allocate s e = record s { heap = (s.next_handle, e) ∷ s.heap; next_handle = suc s.next_handle }

-- The bytes that the entries of the heap have reserved.
unfoldable pub reserved_total : List (ℕ × Entry) → ℕ
unfolding total
reserved_total heap = total (λ e. e.reserved) heap
