-- ===== src/Search/Request.antt =====
-- When a request for a search is answered, and with what.
use sippin_soda.Base.{
  ℕ, ◌^◌, ◌≤◌, ◌<◌, ◌≡◌, refl, ◌∙◌, inl, inr, arith, Bool, true, some, length, drop, Option-cases,
  ok, Result-cases,
}
use sippin_soda.Bodies.{Bytes, Entry, Storage}
use sippin_soda.Bodies.Store.{BodyStore, entry_of}
use sippin_soda.Search.{
  SearchStep, SearchTask, scanning, PageRead, readable, scan, search_file, search_entry, search,
}
use sippin_soda.Search.Resume.{IsStep, scan-IsStep}

-- The request passes the checks of `search`, on the entry and its file.
pub record IsSearchable (needle : Bytes) (start end : ℕ) (e : Entry) (file : Bytes) : Type 0 where
  pub long : 0 < length needle
  pub short : length needle ≤ 4096
  pub forward : start ≤ end
  pub recorded : end ≤ e.total
  pub present : e.file ≡ some file

search_file-lem :
    (e : Entry) (start end : ℕ) (file : Bytes)
    → start ≤ end
    → end ≤ e.total
    → e.file ≡ some file
    → search_file e start end ≡ ok file
unfolding search_file
search_file-lem e start end file le room present = ground arith

search_opened :
    (s : Storage) (b : BodyStore) (id : ℕ) (needle : Bytes) (start end : ℕ) (task : SearchTask)
    (e : Entry)
    → 0 < length needle
    → length needle ≤ 4096
    → entry_of s b id ≡ some e
    → search s b true id needle start end task ≡ search_entry e needle start end task
unfolding search
search_opened s b id needle start end task e long short found = ground arith

search_entry-scan :
    (e : Entry) (needle file : Bytes) (start end : ℕ) (reads : ℕ → PageRead)
    → search_file e start end ≡ ok file
    → search_entry e needle start end (scanning reads)
      ≡ scan needle (drop start file) reads start end
unfolding search_entry
search_entry-scan e needle file start end reads opened = rw (opened, search_entry) refl

-- A request that passes the checks, where a permit is free and the reads succeed, is answered with
-- a step that is right about the recorded bytes.
pub search-IsStep :
    (s : Storage) (b : BodyStore) (id : ℕ) (needle : Bytes) (start end : ℕ) (e : Entry)
    (file : Bytes) (reads : ℕ → PageRead)
    → entry_of s b id ≡ some e
    → IsSearchable needle start end e file
    → e.total ≤ length file
    → length file < 2 ^ 64
    → ((at : ℕ) → reads at ≡ readable)
    → (step : SearchStep) × (search s b true id needle start end (scanning reads) ≡ some (ok step))
      × IsStep needle file start end step
search-IsStep s b id needle start end e file reads found fit whole small read =
    let opened = search_file-lem e start end file fit.forward fit.recorded fit.present in
    let (step, scanned, is_step) =
      scan-IsStep needle file reads start end fit.long fit.forward (omega (arith, fit.recorded))
        (omega (arith, fit.recorded)) read in
    (
      step,
      search_opened s b id needle start end (scanning reads) e fit.long fit.short found
          ∙ search_entry-scan e needle file start end reads opened
          ∙ scanned,
      is_step,
    )

search_file-ok :
    (e : Entry) (start end : ℕ) (file : Bytes)
    → search_file e start end ≡ ok file
    → (start ≤ end) × (end ≤ e.total) × (e.file ≡ some file)
unfolding search_file
search_file-ok e start end file h = (ground arith, ground arith, ground arith)

search_entry-ok :
    (e : Entry) (needle : Bytes) (start end : ℕ) (task : SearchTask) (step : SearchStep)
    → search_entry e needle start end task ≡ some (ok step)
    → (file : Bytes) × (search_file e start end ≡ ok file)
unfolding search_entry
search_entry-ok e needle start end task step h = elim (Result-cases (search_file e start end)) [
  | inl (file, opened) ↦ (file, opened)
  | inr (cause, refused) ↦ ground arith
]

search-ok :
    (s : Storage) (b : BodyStore) (idle : Bool) (id : ℕ) (needle : Bytes) (start end : ℕ)
    (task : SearchTask) (step : SearchStep)
    → search s b idle id needle start end task ≡ some (ok step)
    → (idle ≡ true)
      × (0 < length needle)
      × (length needle ≤ 4096)
      × ((e : Entry) × (entry_of s b id ≡ some e)
          × (search_entry e needle start end task ≡ some (ok step)))
unfolding search
search-ok s b idle id needle start end task step h = elim (Option-cases (entry_of s b id)) [
  | inl missing ↦ ground arith
  | inr (e, found) ↦ (ground arith, ground arith, ground arith, (e, found, ground arith))
]

-- A search gives a step only where a permit is free, the needle has 1 to 4096 bytes, the body is
-- recorded and still there, and the range lies in it; every other request is refused.
pub search-IsSearchable :
    (s : Storage) (b : BodyStore) (idle : Bool) (id : ℕ) (needle : Bytes) (start end : ℕ)
    (task : SearchTask) (step : SearchStep)
    → search s b idle id needle start end task ≡ some (ok step)
    → (e : Entry) × (file : Bytes) × (idle ≡ true)
      × (entry_of s b id ≡ some e)
      × IsSearchable needle start end e file
search-IsSearchable s b idle id needle start end task step h =
    let (is_idle, long, short, (e, found, entered)) =
      search-ok s b idle id needle start end task step h in
    let (file, opened) = search_entry-ok e needle start end task step entered in
    let (forward, recorded, present) = search_file-ok e start end file opened in
    (
      e,
      file,
      is_idle,
      found,
      record {
        long = long;
        short = short;
        forward = forward;
        recorded = recorded;
        present = present;
      },
    )
