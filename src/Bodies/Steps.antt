-- ===== src/Bodies/Steps.antt =====
-- Both stores, the tasks and the blocking workers as one system: an event is one atomic step of one
-- of them, and a list of events is an interleaving. The layouts of JsonLayout are not among them.
use sippin_soda.Base.{
  ℕ, zero, suc, ◌+◌, Bool, ◌||◌, Option, none, some, List, [], ◌∷◌, if◌then◌else◌, String, length,
  ok, err, any, ◌==◌,
}
use sippin_soda.Text.{Text}
use sippin_soda.Bodies.{Bytes, Storage, BodyState, finish, drop_entry}
use sippin_soda.Bodies.Store.{
  BodyStore, FileWrite, StoreErrors, write_reserved, install, complete_entry, remove_body, clear,
}
use sippin_soda.Bodies.Worker.{
  ChunkWrite, FileSetup, record_body, reserve_chunk, commit_chunk, drop_tap,
}

pub record System : Type 0 where
  pub storage : Storage
  pub request : BodyStore
  pub response : BodyStore
  -- what blocking workers have written and not handed over yet
  pub jobs : List Bytes
  -- bytes of workers whose caller was dropped while they ran
  pub abandoned : ℕ

-- `BodyStore::shared_pair`.
unfoldable pub shared_pair : System
shared_pair = record {
  storage = record { used = 0; heap = []; next_handle = 0 };
  request = record { entries = [] };
  response = record { entries = [] };
  jobs = [];
  abandoned = 0;
}

pub data Side : Type 0 where
  requests responses : Side

abbrev pub store_of : System → Side → BodyStore
store_of y requests = y.request
store_of y responses = y.response

abbrev pub put : System → Side → Storage × BodyStore → System
put y requests (s, b) = record y { storage = s; request = b }
put y responses (s, b) = record y { storage = s; response = b }

abbrev pub put_storage : System → Storage → System
put_storage y s = record y { storage = s }

pub data Event : Type 0 where
  -- the blocking part of `store_complete` or `store_redacted_json`
  writes : Bytes → FileWrite → StoreErrors → Event
  -- the rest of it, for a worker of the list
  installs : Side → ℕ → Text → ℕ → Event
  -- the caller was dropped instead, by its time limit or by Stop
  abandons : ℕ → Event
  records : Side → ℕ → Text → FileSetup → Event
  reserves : ℕ → ℕ → Event
  commits : ℕ → Bytes → ChunkWrite → Event
  finishes : ℕ → BodyState → Option String → Event
  drops_tap : ℕ → Event
  removes : Side → ℕ → Event
  clears : Side → Event
  -- the last owner of an entry goes
  drops : ℕ → Event

-- The job at a place, and the others.
unfoldable pub pick : ℕ → List Bytes → Option (Bytes × List Bytes)
pick k [] = none
pick zero (job ∷ jobs) = some (job, jobs)
pick (suc k) (job ∷ jobs) = elim (pick k jobs) [
  | none ↦ none
  | some (found, others) ↦ some (found, job ∷ others)
]

abbrev pub is_mapped : BodyStore → ℕ → Bool
is_mapped b handle = any (λ entry. entry.1 == handle) b.entries

-- The limit is the disk budget of the proxy's configuration.
module _ (limit : ℕ) where
  unfoldable pub after_write : System → Bytes → FileWrite → StoreErrors → System
  after_write y bytes write errors =
      let (s, result) = write_reserved y.storage bytes limit write errors in
      elim result [
        | ok _ ↦ record y { storage = s; jobs = bytes ∷ y.jobs }
        | err _ ↦ put_storage y s
      ]

  unfoldable pub after_install : System → Side → ℕ → Text → ℕ → System
  unfolding pick
  after_install y side id encoding k = elim (pick k y.jobs) [
    | none ↦ y
    | some (bytes, jobs) ↦
        put (record y { jobs = jobs }) side
          (install y.storage (store_of y side) id (complete_entry bytes limit encoding))
  ]

  unfoldable pub after_abandon : System → ℕ → System
  unfolding pick
  after_abandon y k = elim (pick k y.jobs) [
    | none ↦ y
    | some (bytes, jobs) ↦ record y { jobs = jobs; abandoned = y.abandoned + length bytes }
  ]

  unfoldable pub step : System → Event → System
  step y (writes bytes write errors) = after_write y bytes write errors
  step y (installs side id encoding k) = after_install y side id encoding k
  step y (abandons k) = after_abandon y k
  step y (records side id encoding setup) =
      let (s, b, _) = record_body y.storage (store_of y side) id encoding limit setup in
      put y side (s, b)
  step y (reserves handle count) = put_storage y (reserve_chunk y.storage handle limit count).0
  step y (commits handle bytes written) =
      put_storage y (commit_chunk y.storage handle bytes written)
  step y (finishes handle state cause) = put_storage y (finish y.storage handle state cause)
  step y (drops_tap handle) = put_storage y (drop_tap y.storage handle)
  step y (removes side id) = put y side (remove_body y.storage (store_of y side) id)
  step y (clears side) = put y side (clear y.storage (store_of y side))
  step y (drops handle) =
      if is_mapped y.request handle || is_mapped y.response handle
      then y
      else put_storage y (drop_entry y.storage handle)

  unfoldable pub run : System → List Event → System
  run y [] = y
  run y (e ∷ es) = run (step y e) es
