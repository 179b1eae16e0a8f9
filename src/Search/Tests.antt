-- ===== src/Search/Tests.antt =====
-- Runs of the search.
use sippin_soda.Base.{ℕ, ◌≡◌, refl, arith, true, none, some, [], ◌∷◌, ok, err, drop}
use sippin_soda.Base.Assoc.{lookup}
use sippin_soda.Text.{text}
use sippin_soda.Bodies.{Bytes, Entry, Storage}
use sippin_soda.Bodies.Store.{BodyStore, complete_entry, entry_of}
use sippin_soda.Search.{
  SearchStep, scan, PageRead, readable, cancelled, prefix_table, fill_prefix, advance, fall_back,
  set_elem, scan_pages, scan_page, scanning, search, search_entry, search_file,
}
use sippin_soda.Search.Resume.{IsStep, scan-IsStep}
use sippin_soda.Search.Repeat.{Answers, search_all, search_all-Answers}
use sippin_soda.Search.Request.{IsSearchable, search-IsStep, search-IsSearchable}

abbrev needle : Bytes
needle = text "abab"

abbrev file : Bytes
file = text "xabaababc"

abbrev all_readable : ℕ → PageRead
all_readable at = readable

prefix_table_test : prefix_table needle ≡ some (0 ∷ 0 ∷ 1 ∷ 2 ∷ [])
unfolding prefix_table fill_prefix advance fall_back set_elem
prefix_table_test = refl

scan_test :
    scan needle file all_readable 0 9
    ≡ some (ok (record { found = some 4; next_offset = 5; scanned_to = 8; done = true }))
unfolding scan scan_pages scan_page prefix_table fill_prefix advance fall_back set_elem
scan_test = refl

scan_missed_test :
    scan needle file all_readable 0 4
    ≡ some (ok (record { found = none; next_offset = 4; scanned_to = 4; done = true }))
unfolding scan scan_pages scan_page prefix_table fill_prefix advance fall_back set_elem
scan_missed_test = refl

scan_cancelled_test :
    scan needle file (λ at. cancelled) 0 4 ≡ some (err "Search cancelled: body cleared or evicted.")
unfolding scan scan_pages scan_page prefix_table fill_prefix advance fall_back set_elem
scan_cancelled_test = refl

scan-IsStep_example :
    (step : SearchStep) × (scan needle (drop 3 file) all_readable 3 9 ≡ some (ok step))
    × IsStep needle file 3 9 step
scan-IsStep_example =
    scan-IsStep needle file all_readable 3 9 (omega arith) (omega arith) (omega arith) (omega arith)
      λ at. refl

search_all-Answers_example :
    Answers needle file all_readable 0 9 (search_all 10 needle file all_readable 0 9)
search_all-Answers_example =
    search_all-Answers needle file all_readable 10 0 9 (omega arith) (omega arith) (omega arith)
      (omega arith) (omega arith) (λ at. refl) (omega arith)

abbrev entry : Entry
entry = complete_entry file 4096 (text "identity")

abbrev storage : Storage
storage = record { used = 9; heap = (0, entry) ∷ []; next_handle = 1 }

abbrev store : BodyStore
store = record { entries = (7, 0) ∷ [] }

stored : entry_of storage store 7 ≡ some entry
unfolding entry_of lookup
stored = refl

entry-IsSearchable : IsSearchable needle 0 9 entry file
entry-IsSearchable = record {
  long = omega arith;
  short = omega arith;
  forward = omega arith;
  recorded = omega arith;
  present = refl;
}

search-IsStep_example :
    (step : SearchStep) × (search storage store true 7 needle 0 9 (scanning all_readable)
      ≡ some (ok step))
    × IsStep needle file 0 9 step
search-IsStep_example =
    search-IsStep storage store 7 needle 0 9 entry file all_readable stored entry-IsSearchable
      (omega arith) (omega arith) λ at. refl

search_test :
    search storage store true 7 needle 0 9 (scanning all_readable)
    ≡ some (ok (record { found = some 4; next_offset = 5; scanned_to = 8; done = true }))
unfolding search search_entry search_file entry_of lookup scan scan_pages scan_page prefix_table
    fill_prefix advance fall_back set_elem
search_test = refl

search-IsSearchable_example :
    (e : Entry) × (file : Bytes) × (true ≡ true)
    × (entry_of storage store 7 ≡ some e)
    × IsSearchable needle 0 9 e file
search-IsSearchable_example =
    search-IsSearchable storage store true 7 needle 0 9 (scanning all_readable)
      (record { found = some 4; next_offset = 5; scanned_to = 8; done = true }) search_test
