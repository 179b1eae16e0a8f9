-- ===== src/Bodies/Recording.antt =====
-- What the recording task leaves in its entry, when nothing else runs between its steps.
use mathlib.Core.List.{append-nil, append_assoc}
use mathlib.Core.Option
use sippin_soda.Base.{
  ℕ, ◌≤◌, ◌≡◌, take, drop, take-drop, refl, sym, ap, ◌∙◌, false, Option, none, some, List, [], ◌∷◌,
  ◌++◌, arith, inl, inr, ◌⊎◌, length, String, length-append,
}
use sippin_soda.Base.Assoc.{lookup, lookup-update_self}
use sippin_soda.Bodies.{
  Bytes, Entry, Storage, BodyState, recording, complete, partial, with_entry, finish,
  finished_entry,
}
use sippin_soda.Bodies.Worker.{
  ChunkWrite, all_written, cut_off, spilled_entry, Chunk, bytes, failed, is_cancelled,
  reserve_chunk, commit_chunk, record_loop, grown_entry, full_entry, stopped, full, taken,
}
use sippin_soda.Bodies.Budget.{reserve_chunk_lem, reserve_more}

-- The bytes of the stream, up to its end or to its failure.
unfoldable pub stream_bytes : List Chunk → Bytes
stream_bytes [] = []
stream_bytes (failed ∷ chunks) = []
stream_bytes (bytes b written ∷ chunks) = b ++ stream_bytes chunks

-- The stream ends without a failure, and every chunk can be written.
abbrev pub IsSound : List Chunk → Type 0
IsSound [] = Unit
IsSound (failed ∷ chunks) = ⊥
IsSound (bytes b written ∷ chunks) = (written ≡ all_written) × IsSound chunks

-- No write of a chunk breaks.
abbrev pub IsWritten : List Chunk → Type 0
IsWritten [] = Unit
IsWritten (failed ∷ chunks) = Unit
IsWritten (bytes b written ∷ chunks) = (written ≡ all_written) × IsWritten chunks

-- The task of the handle is at work: `f` is in the file.
pub record IsRecording (s : Storage) (handle : ℕ) (f : Bytes) : Type 0 where
  pub entry : Entry
  pub found : lookup handle s.heap ≡ some entry
  pub live : entry.cancelled ≡ false
  pub open_state : entry.state ≡ recording
  pub file : entry.file ≡ some f
  pub total : entry.total ≡ length f

-- The file is what it was and a prefix of the stream; the length advertised is within the file, and
-- is that of the file unless a write broke; and the entry is complete only with all of the stream.
pub record IsRecorded (s : Storage) (handle : ℕ) (f : Bytes) (chunks : List Chunk) : Type 0 where
  pub entry : Entry
  pub written : Bytes
  pub lost : Bytes
  pub found : lookup handle s.heap ≡ some entry
  pub file : entry.file ≡ some (f ++ written)
  pub within : entry.total ≤ length (f ++ written)
  pub total : IsWritten chunks → entry.total ≡ length (f ++ written)
  pub stream : stream_bytes chunks ≡ written ++ lost
  pub all_of_it : entry.state ≡ complete → (lost ≡ []) × IsSound chunks

module _ {handle : ℕ} {f : Bytes} where
  -- The entry ends in a state other than complete, with the file as it was.
  broken_off :
      (s' : Storage) (chunks : List Chunk) (e : Entry)
      → lookup handle s'.heap ≡ some e
      → e.file ≡ some f
      → e.total ≡ length f
      → (e.state ≡ complete → ⊥)
      → IsRecorded s' handle f chunks
  broken_off s' chunks e found file total not_done = record {
    entry = e;
    written = [];
    lost = stream_bytes chunks;
    found = found;
    file = file ∙ ap some (sym (append-nil f));
    within = omega (arith, total, ap length (append-nil f));
    total = λ w. total ∙ ap length (sym (append-nil f));
    stream = refl;
    all_of_it = λ h. absurd (not_done h);
  }

pub not_cancelled :
    (s : Storage) (handle : ℕ) (f : Bytes) → IsRecording s handle f → is_cancelled s handle ≡ false
unfolding is_cancelled
not_cancelled s handle f r = rw (r.found, is_cancelled) r.live

pub record_loop-end :
    (s : Storage) (handle limit : ℕ)
    → is_cancelled s handle ≡ false
    → record_loop s handle limit [] ≡ finish s handle complete none
unfolding record_loop
record_loop-end s handle limit h = rw h

record_loop-failed :
    (s : Storage) (handle limit : ℕ) (chunks : List Chunk)
    → is_cancelled s handle ≡ false
    → record_loop s handle limit (failed ∷ chunks)
      ≡ finish s handle partial (some "Body decoding or transport failed.")
unfolding record_loop
record_loop-failed s handle limit chunks h = rw h

record_loop-stopped :
    (s : Storage) (handle limit : ℕ) (b : Bytes) (w : ChunkWrite) (chunks : List Chunk)
    → is_cancelled s handle ≡ false
    → ((reserve_chunk s handle limit (length b)).1 ≡ stopped)
      ⊎ ((reserve_chunk s handle limit (length b)).1 ≡ full)
    → record_loop s handle limit (bytes b w ∷ chunks) ≡ (reserve_chunk s handle limit (length b)).0
unfolding record_loop
record_loop-stopped s handle limit b w chunks h (inl r) = rw (h, r)
record_loop-stopped s handle limit b w chunks h (inr r) = rw (h, r)

record_loop-unwritten :
    (s : Storage) (handle limit count : ℕ) (b : Bytes) (chunks : List Chunk)
    → is_cancelled s handle ≡ false
    → (reserve_chunk s handle limit (length b)).1 ≡ taken
    → record_loop s handle limit (bytes b (cut_off count) ∷ chunks)
      ≡ commit_chunk (reserve_chunk s handle limit (length b)).0 handle b (cut_off count)
unfolding record_loop
record_loop-unwritten s handle limit count b chunks h r = rw (h, r)

pub record_loop-taken :
    (s : Storage) (handle limit : ℕ) (b : Bytes) (chunks : List Chunk)
    → is_cancelled s handle ≡ false
    → (reserve_chunk s handle limit (length b)).1 ≡ taken
    → record_loop s handle limit (bytes b all_written ∷ chunks)
      ≡ record_loop
          (commit_chunk (reserve_chunk s handle limit (length b)).0 handle b all_written)
          handle
          limit
          chunks
unfolding record_loop
record_loop-taken s handle limit b chunks h r = rw (h, r)

-- The entry behind the handle after a change of it.
with_entry-lookup :
    (s : Storage) (handle : ℕ) (g : Entry → Entry) (e : Entry)
    → lookup handle s.heap ≡ some e
    → lookup handle (with_entry s handle g).heap ≡ some (g e)
unfolding with_entry
with_entry-lookup s handle g e h = lookup-update_self handle g s.heap e h

pub finish-lookup :
    (s : Storage) (handle : ℕ) (state : BodyState) (cause : Option _) (e : Entry)
    → lookup handle s.heap ≡ some e
    → lookup handle (finish s handle state cause).heap ≡ some (finished_entry state cause e)
unfolding finish
finish-lookup s handle state cause e h = with_entry-lookup s handle (finished_entry state cause) e h

-- Writing a chunk to an entry at work makes its file longer.
pub grow :
    (s : Storage) (handle : ℕ) (f b : Bytes) (e : Entry)
    → lookup handle s.heap ≡ some e
    → e.cancelled ≡ false
    → e.state ≡ recording
    → e.file ≡ some f
    → e.total ≡ length f
    → IsRecording (commit_chunk s handle b all_written) handle (f ++ b)
unfolding commit_chunk
grow s handle f b e h live open_state file total = record {
  entry = grown_entry b e;
  found = with_entry-lookup s handle (grown_entry b) e h;
  live = live;
  open_state = open_state;
  file = ap (Option.map (λ g. g ++ b)) file;
  total = omega (arith, total, length-append f b);
}

pub finished_recording :
    (state : BodyState) (cause : Option String) (e : Entry)
    → e.state ≡ recording
    → finished_entry state cause e ≡ record e { state = state; error = cause }
finished_recording state cause e h = rw h refl

recording_ne_complete : recording ≡ complete → ⊥
recording_ne_complete h = cc

-- Finishing an entry at work in any state but complete.
finish_broken :
    (s : Storage) (handle : ℕ) (f : Bytes) (chunks : List Chunk) (state : BodyState)
    (cause : Option String) (e : Entry)
    → lookup handle s.heap ≡ some e
    → e.state ≡ recording
    → e.file ≡ some f
    → e.total ≡ length f
    → (state ≡ complete → ⊥)
    → IsRecorded (finish s handle state cause) handle f chunks
finish_broken s handle f chunks state cause e h open_state file total not_done =
    broken_off _ chunks (record e { state = state; error = cause })
      (finish-lookup s handle state cause e h
        ∙ ap some (finished_recording state cause e open_state))
      file total not_done

-- A longer file that is recorded is the file recorded, with the chunk in front.
prepend :
    (s : Storage) (handle : ℕ) (f b : Bytes) (chunks : List Chunk)
    → IsRecorded s handle (f ++ b) chunks
    → IsRecorded s handle f (bytes b all_written ∷ chunks)
unfolding stream_bytes
prepend s handle f b chunks r = record {
  entry = r.entry;
  written = b ++ r.written;
  lost = r.lost;
  found = r.found;
  file = r.file ∙ ap some (append_assoc f b r.written);
  within = omega (arith, r.within, ap length (append_assoc f b r.written));
  total = λ w. r.total w.1 ∙ ap length (append_assoc f b r.written);
  stream = ap (λ x. b ++ x) r.stream ∙ sym (append_assoc b r.written r.lost);
  all_of_it = λ h. ((r.all_of_it h).0, (refl, (r.all_of_it h).1));
}

-- Either the loop ends without the chunk, or the chunk is reserved and the task is at work.
reserve_at_work :
    (s : Storage) (handle limit : ℕ) (f b : Bytes) (w : ChunkWrite) (chunks : List Chunk)
    → IsRecording s handle f
    → IsRecorded (record_loop s handle limit (bytes b w ∷ chunks)) handle f (bytes b w ∷ chunks)
      ⊎ (((reserve_chunk s handle limit (length b)).1 ≡ taken)
          × (e : Entry) × (lookup handle (reserve_chunk s handle limit (length b)).0.heap ≡ some e)
          × (e.cancelled ≡ false)
          × (e.state ≡ recording)
          × (e.file ≡ some f)
          × (e.total ≡ length f))
reserve_at_work s handle limit f b w chunks r = elim (reserve_chunk_lem s handle limit (length b)) [
  | inl (same, o) ↦ inl (
      rw (record_loop-stopped s handle limit b w chunks (not_cancelled s handle f r) (inl o), same)
        (broken_off _ (bytes b w ∷ chunks) r.entry r.found r.file r.total
          (λ h. recording_ne_complete (sym r.open_state ∙ h))))
  | inr (inl (same, o)) ↦ inl (
      rw (record_loop-stopped s handle limit b w chunks (not_cancelled s handle f r) (inr o), same)
        (broken_off _ (bytes b w ∷ chunks) (full_entry r.entry)
          (with_entry-lookup s handle full_entry r.entry r.found) r.file r.total (λ h. cc)))
  | inr (inr (e, h, live, u, l, heap, n, o)) ↦ inr (
    o,
    reserve_more (length b) r.entry,
    ap (lookup handle) heap
        ∙ lookup-update_self handle (reserve_more (length b)) s.heap r.entry r.found,
    r.live,
    r.open_state,
    r.file,
    r.total,
  )
]

cut_off_ne : (count : ℕ) → cut_off count ≡ all_written → ⊥
cut_off_ne count k = cc

partial_ne : partial ≡ complete → ⊥
partial_ne k = cc

-- A write that breaks leaves a part of its chunk, which is not advertised.
spilled_IsRecorded :
    (s : Storage) (handle count : ℕ) (f b : Bytes) (chunks : List Chunk) (e : Entry)
    → lookup handle s.heap ≡ some e
    → e.state ≡ recording
    → e.file ≡ some f
    → e.total ≡ length f
    → IsRecorded
        (commit_chunk s handle b (cut_off count))
        handle
        f
        (bytes b (cut_off count) ∷ chunks)
unfolding commit_chunk stream_bytes
spilled_IsRecorded s handle count f b chunks e h open_state file total =
    let spilled : Entry = spilled_entry (take count b) e in
    record {
      entry = record spilled {
        state = partial;
        error = some "Body storage write failed; forwarding continues.";
      };
      written = take count b;
      lost = drop count b ++ stream_bytes chunks;
      found =
          finish-lookup (with_entry s handle (spilled_entry (take count b))) handle partial _
            spilled (with_entry-lookup s handle (spilled_entry (take count b)) e h)
          ∙ ap some (finished_recording partial _ spilled open_state);
      file = ap (Option.map (λ g. g ++ take count b)) file;
      within = omega (arith, total, length-append f (take count b));
      total = λ w. absurd (cut_off_ne count w.0);
      stream =
          ap (λ x. x ++ stream_bytes chunks) (sym (take-drop count b))
          ∙ append_assoc (take count b) (drop count b) (stream_bytes chunks);
      all_of_it = λ k. absurd (partial_ne k);
    }

-- When nothing else runs between the steps of the task, it leaves in the file the bytes that were there
-- and a prefix of the stream; the length advertised is within the file, and is that of the file unless
-- a write broke; and the entry is marked complete only if nothing of the stream is missing, no chunk
-- failed to decode and all were written.
pub record_loop-IsRecorded :
    (s : Storage) (handle limit : ℕ) (f : Bytes) (chunks : List Chunk)
    → IsRecording s handle f
    → IsRecorded (record_loop s handle limit chunks) handle f chunks
unfolding stream_bytes
record_loop-IsRecorded s handle limit f [] r =
    rw (record_loop-end s handle limit (not_cancelled s handle f r)) (record {
      entry = record (r.entry) { state = complete; error = none };
      written = [];
      lost = [];
      found =
          finish-lookup s handle complete none r.entry r.found
          ∙ ap some (finished_recording complete none r.entry r.open_state);
      file = r.file ∙ ap some (sym (append-nil f));
      within = omega (arith, r.total, ap length (append-nil f));
      total = λ w. r.total ∙ ap length (sym (append-nil f));
      stream = refl;
      all_of_it = λ h. (refl, tt);
    })
record_loop-IsRecorded s handle limit f (failed ∷ chunks) r =
    rw (record_loop-failed s handle limit chunks (not_cancelled s handle f r)) (
      finish_broken s handle f (failed ∷ chunks) partial _ r.entry r.found r.open_state r.file
        r.total (λ h. cc))
record_loop-IsRecorded s handle limit f (bytes b all_written ∷ chunks) r =
    elim (reserve_at_work s handle limit f b all_written chunks r) [
      | inl done ↦ done
      | inr (o, e, h, live, open_state, file, total) ↦
          rw (record_loop-taken s handle limit b chunks (not_cancelled s handle f r) o) (
            prepend _ handle f b chunks (
              record_loop-IsRecorded
                (commit_chunk (reserve_chunk s handle limit (length b)).0 handle b all_written)
                handle limit (f ++ b) chunks
                (grow (reserve_chunk s handle limit (length b)).0 handle f b e h live open_state
                  file total)))
    ]
record_loop-IsRecorded s handle limit f (bytes b (cut_off count) ∷ chunks) r =
    elim (reserve_at_work s handle limit f b (cut_off count) chunks r) [
      | inl done ↦ done
      | inr (o, e, h, live, open_state, file, total) ↦
          rw (record_loop-unwritten s handle limit count b chunks (not_cancelled s handle f r) o) (
            spilled_IsRecorded (reserve_chunk s handle limit (length b)).0 handle count f b chunks e
              h open_state file total)
    ]
