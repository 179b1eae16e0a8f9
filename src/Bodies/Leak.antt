-- ===== src/Bodies/Leak.antt =====
-- The account of the disk budget over every interleaving.
use sippin_soda.Base.{
  ℕ, zero, suc, ◌+◌, ◌≤◌, ◌≡◌, refl, ap, ◌∙◌, some, List, [], ◌∷◌, arith, inl, inr, Option-cases,
  Bool-cases, length, ◌||◌,
}
use sippin_soda.Base.Assoc.{lookup}
use sippin_soda.Text.{Text}
use sippin_soda.Bodies.{
  Bytes, Entry, Storage, with_entry, cancel, finish, drop_entry, allocate, reserved_total,
}
use sippin_soda.Bodies.Store.{
  BodyStore, FileWrite, StoreErrors, install, complete_entry, remove_body, clear, cancel_all,
}
use sippin_soda.Bodies.Worker.{
  all_written, cut_off, FileSetup, ready, record_body, recording_entry, reserve_chunk, commit_chunk,
  drop_tap,
}
use sippin_soda.Bodies.Budget.{
  IsBalanced, drop_entry-IsBalanced, finish-IsBalanced, install-IsBalanced, allocate-IsBalanced,
  write_reserved_lem, move-IsBalanced, same-IsBalanced, remove_body-IsBalanced, clear-IsBalanced,
  reserve_chunk_lem, reserve_chunk-IsBalanced, commit_chunk-IsBalanced, drop_tap-IsBalanced,
}
use sippin_soda.Bodies.Steps.{
  System, Side, requests, responses, Event, writes, installs, abandons, records, reserves, commits,
  finishes, drops_tap, removes, clears, drops, pick, put, store_of, put_storage, is_mapped,
  after_write, after_install, after_abandon, step, run, shared_pair,
}

-- The bytes of the blocking workers.
unfoldable pub job_total : List Bytes → ℕ
job_total [] = 0
job_total (job ∷ jobs) = length job + job_total jobs

job_total-pick :
    (k : ℕ) (jobs : List Bytes) (job : Bytes) (others : List Bytes)
    → pick k jobs ≡ some (job, others)
    → job_total jobs ≡ length job + job_total others
unfolding pick job_total
job_total-pick k [] job others h = cc
job_total-pick zero (j ∷ jobs) job others h = ground arith
job_total-pick (suc k) (j ∷ jobs) job others h = elim (Option-cases (pick k jobs)) [
  | inl e ↦ ground arith
  | inr ((found, rest), e) ↦ ground (arith, job_total-pick k jobs found rest e)
]

-- `used` counts exactly what live entries have reserved, what blocking workers hold, and what was
-- abandoned; and it is within the limit.
pub record IsAccounted (limit : ℕ) (y : System) : Type 0 where
  pub balanced : IsBalanced (job_total y.jobs + y.abandoned) y.storage
  pub within : y.storage.used ≤ limit

abbrev Shrinks : Storage → Storage → Type 0
Shrinks s s' = s'.used ≤ s.used

cancel-Shrinks : (s : Storage) (handle : ℕ) → Shrinks s (cancel s handle)
unfolding cancel
cancel-Shrinks s handle = ground arith

drop_entry-Shrinks : (s : Storage) (handle : ℕ) → Shrinks s (drop_entry s handle)
unfolding drop_entry
drop_entry-Shrinks s handle = ground arith

install-Shrinks :
    (s : Storage) (b : BodyStore) (id : ℕ) (e : Entry) → Shrinks s (install s b id e).0
unfolding install allocate
install-Shrinks s b id e = elim (Option-cases (lookup id b.entries)) [
  | inl h ↦ ground arith
  | inr (previous, h) ↦ rw (h, install) (cancel-Shrinks (allocate s e) previous)
]

remove_body-Shrinks : (s : Storage) (b : BodyStore) (id : ℕ) → Shrinks s (remove_body s b id).0
unfolding remove_body
remove_body-Shrinks s b id = elim (Option-cases (lookup id b.entries)) [
  | inl h ↦ ground arith
  | inr (handle, h) ↦ rw (h, remove_body) (cancel-Shrinks s handle)
]

cancel_all-Shrinks : (s : Storage) (entries : List (ℕ × ℕ)) → Shrinks s (cancel_all s entries)
unfolding cancel_all
cancel_all-Shrinks s [] = omega arith
cancel_all-Shrinks s ((id, handle) ∷ entries) =
    omega (arith, cancel-Shrinks s handle, cancel_all-Shrinks (cancel s handle) entries)

clear-Shrinks : (s : Storage) (b : BodyStore) → Shrinks s (clear s b).0
unfolding clear
clear-Shrinks s b = cancel_all-Shrinks s b.entries

record_body-IsBalanced :
    (held : ℕ) (s : Storage) (b : BodyStore) (id : ℕ) (encoding : Text) (limit : ℕ)
    (setup : FileSetup)
    → IsBalanced held s
    → IsBalanced held (record_body s b id encoding limit setup).0
      × Shrinks s (record_body s b id encoding limit setup).0
unfolding record_body allocate
record_body-IsBalanced held s b id encoding limit ready v = (
  allocate-IsBalanced held s (recording_entry limit encoding)
      (move-IsBalanced held s s 0 (omega arith) refl v),
  omega arith,
)
record_body-IsBalanced held s b id encoding limit _ v = (v, omega arith)

module _ (limit : ℕ) where
  after_write-IsAccounted :
      (y : System) (bytes : Bytes) (write : FileWrite) (errors : StoreErrors)
      → IsAccounted limit y
      → IsAccounted limit (after_write limit y bytes write errors)
  unfolding after_write job_total
  after_write-IsAccounted y bytes write errors v =
      elim (write_reserved_lem y.storage bytes limit write errors) [
        | inl (r, u, l, h, n) ↦
            rw (r, after_write)
              (record {
                balanced = record {
                  balance = u ∙ omega (arith, v.balanced.balance, ap reserved_total h);
                };
                within = l;
              })
        | inr (e, r, u, h, n) ↦
            rw (r, after_write)
              (record {
                balanced = same-IsBalanced _ y.storage _ u h v.balanced;
                within = omega (arith, u, v.within);
              })
      ]

  put-IsAccounted :
      (y : System) (side : Side) (s : Storage) (b : BodyStore)
      → IsBalanced (job_total y.jobs + y.abandoned) s
      → s.used ≤ limit
      → IsAccounted limit (put y side (s, b))
  put-IsAccounted y requests s b v w = record { balanced = v; within = w }
  put-IsAccounted y responses s b v w = record { balanced = v; within = w }

  after_install-IsAccounted :
      (y : System) (side : Side) (id : ℕ) (encoding : Text) (k : ℕ)
      → IsAccounted limit y
      → IsAccounted limit (after_install limit y side id encoding k)
  unfolding after_install
  after_install-IsAccounted y side id encoding k v = elim (Option-cases (pick k y.jobs)) [
    | inl e ↦ rw (e, after_install) v
    | inr ((bytes, jobs), e) ↦
        let entry = complete_entry bytes limit encoding in
        let store = store_of y side in
        let b : IsBalanced (job_total jobs + y.abandoned + length bytes) y.storage = record {
          balance = v.balanced.balance ∙ omega (arith, job_total-pick k y.jobs bytes jobs e);
        } in
        rw (e, after_install)
          (put-IsAccounted (record y { jobs = jobs }) side (install y.storage store id entry).0
            (install y.storage store id entry).1
            (install-IsBalanced (job_total jobs + y.abandoned) y.storage store id entry b)
            (omega (arith, install-Shrinks y.storage store id entry, v.within)))
  ]

  after_abandon-IsAccounted :
      (y : System) (k : ℕ) → IsAccounted limit y → IsAccounted limit (after_abandon limit y k)
  unfolding after_abandon
  after_abandon-IsAccounted y k v = elim (Option-cases (pick k y.jobs)) [
    | inl e ↦ rw (e, after_abandon) v
    | inr ((bytes, jobs), e) ↦
        rw (e, after_abandon)
          (record {
            balanced = record {
              balance = v.balanced.balance ∙ omega (arith, job_total-pick k y.jobs bytes jobs e);
            };
            within = v.within;
          })
  ]

  -- A step that keeps the account of the storage and does not take more than the limit.
  storage-IsAccounted :
      (y : System) (s : Storage)
      → IsAccounted limit y
      → IsBalanced (job_total y.jobs + y.abandoned) s
      → s.used ≤ limit
      → IsAccounted limit (put_storage y s)
  storage-IsAccounted y s v b w = record { balanced = b; within = w }

  reserve_chunk-within :
      (s : Storage) (handle count : ℕ)
      → s.used ≤ limit
      → (reserve_chunk s handle limit count).0.used ≤ limit
  unfolding with_entry
  reserve_chunk-within s handle count w = ground (arith, reserve_chunk_lem s handle limit count)

  step-IsAccounted :
      (y : System) (e : Event) → IsAccounted limit y → IsAccounted limit (step limit y e)
  unfolding step commit_chunk finish drop_tap with_entry
  step-IsAccounted y (writes bytes write errors) v = after_write-IsAccounted y bytes write errors v
  step-IsAccounted y (installs side id encoding k) v =
      after_install-IsAccounted y side id encoding k v
  step-IsAccounted y (abandons k) v = after_abandon-IsAccounted y k v
  step-IsAccounted y (records side id encoding setup) v =
      let (b, w) =
        record_body-IsBalanced _ y.storage (store_of y side) id encoding limit setup v.balanced in
      put-IsAccounted y side (record_body y.storage (store_of y side) id encoding limit setup).0
        (record_body y.storage (store_of y side) id encoding limit setup).1 b
        (omega (arith, v.within))
  step-IsAccounted y (reserves handle count) v =
      storage-IsAccounted y _ v (reserve_chunk-IsBalanced _ y.storage handle limit count v.balanced)
        (reserve_chunk-within y.storage handle count v.within)
  step-IsAccounted y (commits handle bytes all_written) v =
      storage-IsAccounted y _ v
        (commit_chunk-IsBalanced _ y.storage handle bytes all_written v.balanced) v.within
  step-IsAccounted y (commits handle bytes (cut_off count)) v =
      storage-IsAccounted y _ v
        (commit_chunk-IsBalanced _ y.storage handle bytes (cut_off count) v.balanced) v.within
  step-IsAccounted y (finishes handle state cause) v =
      storage-IsAccounted y _ v (finish-IsBalanced _ y.storage handle state cause v.balanced)
        v.within
  step-IsAccounted y (drops_tap handle) v =
      storage-IsAccounted y _ v (drop_tap-IsBalanced _ y.storage handle v.balanced) v.within
  step-IsAccounted y (removes side id) v =
      put-IsAccounted y side (remove_body y.storage (store_of y side) id).0
        (remove_body y.storage (store_of y side) id).1
        (remove_body-IsBalanced _ y.storage (store_of y side) id v.balanced)
        (omega (arith, remove_body-Shrinks y.storage (store_of y side) id, v.within))
  step-IsAccounted y (clears side) v =
      put-IsAccounted y side (clear y.storage (store_of y side)).0
        (clear y.storage (store_of y side)).1
        (clear-IsBalanced _ y.storage (store_of y side) v.balanced)
        (omega (arith, clear-Shrinks y.storage (store_of y side), v.within))
  step-IsAccounted y (drops handle) v =
      elim (Bool-cases (is_mapped y.request handle || is_mapped y.response handle)) [
        | inl e ↦ rw e v
        | inr e ↦ rw e (
            storage-IsAccounted y _ v (drop_entry-IsBalanced _ y.storage handle v.balanced)
              (omega (arith, drop_entry-Shrinks y.storage handle, v.within)))
      ]

  run_from-IsAccounted :
      (y : System) (es : List Event) → IsAccounted limit y → IsAccounted limit (run limit y es)
  unfolding run
  run_from-IsAccounted y [] v = v
  run_from-IsAccounted y (e ∷ es) v =
      run_from-IsAccounted (step limit y e) es (step-IsAccounted y e v)

  shared_pair-IsAccounted : IsAccounted limit shared_pair
  unfolding shared_pair job_total reserved_total
  shared_pair-IsAccounted = record { balanced = record { balance = refl }; within = omega arith }

  -- From the two empty stores, after every interleaving of the operations of both but for their JSON
  -- layouts, of the recording tasks and of the blocking workers: the bytes in use are exactly those that live entries have
  -- reserved, those of workers under way and those of abandoned workers, and they are within the
  -- disk budget.
  pub run-IsAccounted : (es : List Event) → IsAccounted limit (run limit shared_pair es)
  run-IsAccounted es = run_from-IsAccounted shared_pair es shared_pair-IsAccounted

  put-abandoned :
      (y : System) (side : Side) (s : Storage) (b : BodyStore)
      → (put y side (s, b)).abandoned ≡ y.abandoned
  put-abandoned y requests s b = refl
  put-abandoned y responses s b = refl

  install-abandoned :
      (y : System) (side : Side) (id : ℕ) (encoding : Text) (k : ℕ)
      → (after_install limit y side id encoding k).abandoned ≡ y.abandoned
  unfolding after_install
  install-abandoned y side id encoding k = elim (Option-cases (pick k y.jobs)) [
    | inl e ↦ rw (e, after_install) refl
    | inr ((bytes, jobs), e) ↦
        rw (e, after_install) (put-abandoned (record y { jobs = jobs }) side _ _)
  ]

  abandoned_grows : (y : System) (e : Event) → y.abandoned ≤ (step limit y e).abandoned
  unfolding step after_write after_abandon
  abandoned_grows y (writes bytes write errors) = ground arith
  abandoned_grows y (installs side id encoding k) =
      omega (arith, install-abandoned y side id encoding k)
  abandoned_grows y (abandons k) = ground arith
  abandoned_grows y (records side id encoding setup) =
      let r = record_body y.storage (store_of y side) id encoding limit setup in
      omega (arith, put-abandoned y side r.0 r.1)
  abandoned_grows y (reserves handle count) = omega arith
  abandoned_grows y (commits handle bytes written) = omega arith
  abandoned_grows y (finishes handle state cause) = omega arith
  abandoned_grows y (drops_tap handle) = omega arith
  abandoned_grows y (removes side id) =
      let r = remove_body y.storage (store_of y side) id in
      omega (arith, put-abandoned y side r.0 r.1)
  abandoned_grows y (clears side) =
      let r = clear y.storage (store_of y side) in omega (arith, put-abandoned y side r.0 r.1)
  abandoned_grows y (drops handle) = ground arith

  run-abandoned : (y : System) (es : List Event) → y.abandoned ≤ (run limit y es).abandoned
  unfolding run
  run-abandoned y [] = omega arith
  run-abandoned y (e ∷ es) = omega (arith, abandoned_grows y e, run-abandoned (step limit y e) es)

  abandon-abandoned :
      (y : System) (k : ℕ) (bytes : Bytes) (jobs : List Bytes)
      → pick k y.jobs ≡ some (bytes, jobs)
      → length bytes ≤ (step limit y (abandons k)).abandoned
  unfolding step after_abandon
  abandon-abandoned y k bytes jobs e = ground arith

  -- When the caller of a blocking worker is dropped between the worker's reservation and the
  -- insertion of its entry, the reserved bytes are never given back: whatever happens later, clearing
  -- both stores and dropping every entry included, at least that many bytes stay in use.
  pub abandoned_never_returned :
      (y : System) (k : ℕ) (bytes : Bytes) (jobs : List Bytes) (es : List Event)
      → IsAccounted limit y
      → pick k y.jobs ≡ some (bytes, jobs)
      → length bytes ≤ (run limit (step limit y (abandons k)) es).storage.used
  abandoned_never_returned y k bytes jobs es v e =
      let y' = step limit y (abandons k) in
      omega (
        arith,
        abandon-abandoned y k bytes jobs e,
        run-abandoned y' es,
        (run_from-IsAccounted y' es (step-IsAccounted y (abandons k) v)).balanced.balance,
      )
