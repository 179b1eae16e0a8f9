-- ===== src/Bodies/Completion.antt =====
-- The recording task brings a sound stream that fits the budget to its end.
use mathlib.Core.List.{append-nil, append_assoc}
use sippin_soda.Base.{
  ℕ, ◌+◌, ◌^◌, ◌≤◌, ◌<◌, ◌≡◌, refl, sym, ap, subst, ◌∙◌, false, some, none, List, [], ◌∷◌, ◌++◌,
  arith, inl, inr, length, length-append,
}
use sippin_soda.Base.Assoc.{lookup, lookup-update_self}
use sippin_soda.Bodies.{Bytes, Entry, Storage, complete, reserve}
use sippin_soda.Bodies.Worker.{
  all_written, Chunk, bytes, failed, reserve_chunk, commit_chunk, record_loop, taken, stopped, full,
  is_cancelled,
}
use sippin_soda.Bodies.Budget.{reserve_chunk_lem, reserve_more}
use sippin_soda.Bodies.Recording.{
  IsRecording, IsSound, stream_bytes, grow, record_loop-taken, record_loop-end, not_cancelled,
  finish-lookup, finished_recording,
}

-- A chunk within the budget is taken.
reserve_chunk-taken :
    (s : Storage) (handle limit count : ℕ)
    → is_cancelled s handle ≡ false
    → s.used + count ≤ limit
    → limit < 2 ^ 64
    → ((reserve_chunk s handle limit count).1 ≡ taken)
      × ((reserve_chunk s handle limit count).0.used ≡ s.used + count)
unfolding reserve_chunk reserve
reserve_chunk-taken s handle limit count live fits small = ground arith

commit_chunk-used :
    (s : Storage) (handle : ℕ) (b : Bytes) → (commit_chunk s handle b all_written).used ≡ s.used
unfolding commit_chunk
commit_chunk-used s handle b = refl

-- The entry holds the file and the whole stream, and is complete.
pub record IsCompleted (s : Storage) (handle : ℕ) (file : Bytes) : Type 0 where
  pub entry : Entry
  pub found : lookup handle s.heap ≡ some entry
  pub done : entry.state ≡ complete
  pub whole : entry.file ≡ some file

after_taken :
    (s : Storage) (handle limit : ℕ) (f b : Bytes)
    → IsRecording s handle f
    → (reserve_chunk s handle limit (length b)).1 ≡ taken
    → IsRecording
        (commit_chunk (reserve_chunk s handle limit (length b)).0 handle b all_written)
        handle
        (f ++ b)
after_taken s handle limit f b r o = elim (reserve_chunk_lem s handle limit (length b)) [
  | inl (same, o') ↦ absurd (stopped_ne (sym o' ∙ o))
  | inr (inl (same, o')) ↦ absurd (full_ne (sym o' ∙ o))
  | inr (inr (e, h, live, u, l, heap, n, o')) ↦
      grow (reserve_chunk s handle limit (length b)).0 handle f b (reserve_more (length b) r.entry)
        (ap (lookup handle) heap
          ∙ lookup-update_self handle (reserve_more (length b)) s.heap r.entry r.found)
        r.live r.open_state r.file r.total
]
  where
    stopped_ne : stopped ≡ taken → ⊥
    stopped_ne e = cc

    full_ne : full ≡ taken → ⊥
    full_ne e = cc

-- When nothing else runs between the steps of the task, every chunk of the stream decodes and can be
-- written, and the bytes in use and those of the stream are within the budget, the task marks the
-- entry complete, with all of the stream in its file.
pub record_loop-IsCompleted :
    (s : Storage) (handle limit : ℕ) (f : Bytes) (chunks : List Chunk)
    → IsRecording s handle f
    → IsSound chunks
    → s.used + length (stream_bytes chunks) ≤ limit
    → limit < 2 ^ 64
    → IsCompleted (record_loop s handle limit chunks) handle (f ++ stream_bytes chunks)
unfolding stream_bytes
record_loop-IsCompleted s handle limit f [] r sound fits small =
    rw (record_loop-end s handle limit (not_cancelled s handle f r)) (record {
      entry = record (r.entry) { state = complete; error = none };
      found =
          finish-lookup s handle complete none r.entry r.found
          ∙ ap some (finished_recording complete none r.entry r.open_state);
      done = refl;
      whole = r.file ∙ ap some (sym (append-nil f));
    })
record_loop-IsCompleted s handle limit f (failed ∷ chunks) r sound fits small = absurd sound
record_loop-IsCompleted s handle limit f (bytes b w ∷ chunks) r (can_write, sound) fits small =
    let live = not_cancelled s handle f r in
    let (o, used) =
      reserve_chunk-taken s handle limit (length b) live
        (omega (arith, fits, length-append b (stream_bytes chunks))) small in
    let s' : Storage =
      commit_chunk (reserve_chunk s handle limit (length b)).0 handle b all_written in
    rw (can_write, record_loop-taken s handle limit b chunks live o)
      (subst (IsCompleted (record_loop s' handle limit chunks) handle)
        (append_assoc f b (stream_bytes chunks))
        (record_loop-IsCompleted s' handle limit (f ++ b) chunks
          (after_taken s handle limit f b r o) sound
          (omega (
            arith,
            fits,
            used,
            length-append b (stream_bytes chunks),
            commit_chunk-used (reserve_chunk s handle limit (length b)).0 handle b,
          ))
          small))
