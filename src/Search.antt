-- ===== src/Search.antt =====
-- crates/engine/src/proxy/bodies/inspect.rs: the search in a recorded body, `scan` and
-- `BodyStore::search`. An index that is out of range, which panics in the code, makes the result
-- `none` here, and so does a loop that runs out of fuel.
pub mod Ends
pub mod Prefix
pub mod Scan
pub mod Resume
pub mod Repeat
pub mod Request
mod Tests
use sippin_soda.Base.{
  ℕ, zero, suc, ◌+◌, ◌-◌, ◌*◌, ◌^◌, Bool, true, false, not, ◌||◌, Option, none, some, List, [], ◌∷◌,
  ltb, leb, ◌==◌, if◌then◌else◌, String, length, get_elem?, replicate, take, drop, min, Result, ok,
  err, ok_or, ◌>>=◌, refuse_if, ◌>>◌,
}
use sippin_soda.Bodies.{Bytes, Entry, Storage}
use sippin_soda.Bodies.Store.{BodyStore, entry_of, not_recorded, page_size}

abbrev pub scan_bytes : ℕ
scan_bytes = 4 * 1024 * 1024

-- `struct SearchStep`.
pub record SearchStep : Type 0 where
  pub found : Option ℕ
  pub next_offset : ℕ
  pub scanned_to : ℕ
  pub done : Bool

-- `while matched > 0 && byte != needle[matched] { matched = prefix[matched - 1]; }`
unfoldable pub fall_back : ℕ → Bytes → List ℕ → ℕ → ℕ → Option ℕ
fall_back fuel needle prefix byte zero = some zero
fall_back zero needle prefix byte (suc m) = none
fall_back (suc fuel) needle prefix byte (suc m) = elim (get_elem? needle (suc m)) [
  | none ↦ none
  | some expected ↦ elim (byte == expected) [
    | true ↦ some (suc m)
    | false ↦ elim (get_elem? prefix m) [
      | none ↦ none
      | some shorter ↦ fall_back fuel needle prefix byte shorter
    ]
  ]
]

-- The steps that both loops take for a byte: fall back, then extend the match if the byte fits.
unfoldable pub advance : Bytes → List ℕ → ℕ → ℕ → Option ℕ
advance needle prefix byte matched = elim (fall_back matched needle prefix byte matched) [
  | none ↦ none
  | some m ↦ elim (get_elem? needle m) [
    | none ↦ none
    | some expected ↦ some (if byte == expected then suc m else m)
  ]
]

-- `xs[index] = x`.
unfoldable pub set_elem : List ℕ → ℕ → ℕ → List ℕ
set_elem [] index x = []
set_elem (y ∷ ys) zero x = x ∷ ys
set_elem (y ∷ ys) (suc index) x = y ∷ set_elem ys index x

-- `for index in 1..needle.len()`, over the bytes from `index` on.
unfoldable pub fill_prefix : Bytes → Bytes → ℕ → ℕ → List ℕ → Option (List ℕ)
fill_prefix needle [] index matched prefix = some prefix
fill_prefix needle (byte ∷ bytes) index matched prefix = elim (advance needle prefix byte matched) [
  | none ↦ none
  | some m ↦ fill_prefix needle bytes (suc index) m (set_elem prefix index m)
]

unfoldable pub prefix_table : Bytes → Option (List ℕ)
unfolding fill_prefix
prefix_table needle = fill_prefix needle (drop 1 needle) 1 0 (replicate (length needle) 0)

-- How the loop over the bytes of a buffer ends: after the byte that completes a match, or after the
-- last one; with the position, and the bytes that match so far.
pub data PageScan : Type 0 where
  hit : ℕ → PageScan
  rest : ℕ → ℕ → PageScan

-- `for byte in &buffer[..count]`.
unfoldable pub scan_page : Bytes → List ℕ → Bytes → ℕ → ℕ → Option PageScan
scan_page needle prefix [] matched position = some (rest matched position)
scan_page needle prefix (byte ∷ bytes) matched position =
    elim (advance needle prefix byte matched) [
      | none ↦ none
      | some m ↦ elim (m == length needle) [
        | true ↦ some (hit (position + 1))
        | false ↦ scan_page needle prefix bytes m (position + 1)
      ]
    ]

abbrev pub match_ending : Bytes → ℕ → SearchStep
match_ending needle position =
    let found : ℕ = position - length needle in
    record { found = some found; next_offset = found + 1; scanned_to = position; done = true }

abbrev pub no_match : ℕ → ℕ → ℕ → ℕ → SearchStep
no_match stop end matched position = record {
  found = none;
  next_offset = if stop == end then end else position - matched;
  scanned_to = stop;
  done = stop == end;
}

-- What checking for a cancellation and reading the next buffer comes to.
pub data PageRead : Type 0 where
  readable cancelled unreadable : PageRead

-- `while position < stop`, on the bytes of the file from `position` on. `reads` says how the reads
-- go, of which there are no more than bytes.
unfoldable pub scan_pages :
    ℕ → Bytes → List ℕ → Bytes → (ℕ → PageRead) → ℕ → ℕ → ℕ → ℕ → Option (Result String SearchStep)
unfolding scan_page
scan_pages zero needle prefix file reads stop end matched position =
    if ltb position stop then none else some (ok (no_match stop end matched position))
scan_pages (suc fuel) needle prefix file reads stop end matched position =
    elim (ltb position stop) [
      | false ↦ some (ok (no_match stop end matched position))
      | true ↦
          let count : ℕ = min page_size (stop - position) in
          elim (reads position) [
            | cancelled ↦ some (err "Search cancelled: body cleared or evicted.")
            | unreadable ↦ some (err "Cannot read search range.")
            | readable ↦ elim (leb count (length file)) [
              | false ↦ some (err "Cannot read search range.")
              | true ↦ elim (scan_page needle prefix (take count file) matched position) [
                | none ↦ none
                | some (hit at) ↦ some (ok (match_ending needle at))
                | some (rest m at) ↦
                    scan_pages fuel needle prefix (drop count file) reads stop end m at
              ]
            ]
          ]
    ]

-- `start.saturating_add(SCAN_BYTES)` and `end.min(…)`.
abbrev pub stop_of : ℕ → ℕ → ℕ
stop_of start end = min end (min (start + scan_bytes) (2 ^ 64 - 1))

-- `scan`, with the reader at the bytes from `start` on.
unfoldable pub scan : Bytes → Bytes → (ℕ → PageRead) → ℕ → ℕ → Option (Result String SearchStep)
unfolding prefix_table scan_pages
scan needle file reads start end = elim (prefix_table needle) [
  | none ↦ none
  | some prefix ↦
      scan_pages (stop_of start end - start) needle prefix file reads (stop_of start end) end 0
        start
]

-- What becomes of the task that searches.
pub data SearchTask : Type 0 where
  worker_failed open_failed seek_failed : SearchTask
  scanning : (ℕ → PageRead) → SearchTask

-- The checks of the task, and the file that it searches.
unfoldable pub search_file : Entry → ℕ → ℕ → Result String Bytes
search_file e start end = do
  refuse_if (ltb end start || ltb e.total end) "Invalid search range."
  ok_or e.file "Body cleared."

-- The task itself, on the entry.
unfoldable pub search_entry : Entry → Bytes → ℕ → ℕ → SearchTask → Option (Result String SearchStep)
unfolding search_file scan
search_entry e needle start end task = elim task [
  | worker_failed ↦ some (err "Search worker failed.")
  | open_failed ↦ elim (search_file e start end) [
    | err cause ↦ some (err cause)
    | ok file ↦ some (err "Cannot open body.")
  ]
  | seek_failed ↦ elim (search_file e start end) [
    | err cause ↦ some (err cause)
    | ok file ↦ some (err "Cannot seek body.")
  ]
  | scanning reads ↦ elim (search_file e start end) [
    | err cause ↦ some (err cause)
    | ok file ↦ scan needle (drop start file) reads start end
  ]
]

-- `BodyStore::search`, where `idle` says whether `analysis` has a permit.
unfoldable pub search :
    Storage → BodyStore → Bool → ℕ → Bytes → ℕ → ℕ → SearchTask → Option (Result String SearchStep)
unfolding entry_of search_entry
search s b idle id needle start end task =
    if (length needle == 0) || ltb 4096 (length needle)
    then some (err "Search requires 1–4096 UTF-8 bytes.")
    else elim (entry_of s b id) [
      | none ↦ some (err not_recorded)
      | some e ↦
          if not idle
          then some (err "Body analysis is busy. Try again.")
          else search_entry e needle start end task
    ]
