-- ===== src/Bodies/Budget.antt =====
-- Every operation keeps the account of the disk budget: what is used is what the live entries have
-- reserved, and what blocking workers hold that have not handed their file over.
use sippin_soda.Base.{
  take, ℕ, ◌+◌, ◌≤◌, ◌≡◌, refl, sym, ap, subst, ◌∙◌, true, false, Option, some, List, [], ◌∷◌,
  arith, inl, inr, Option-cases, length, ok, err, String, ◌⊎◌,
}
use sippin_soda.Base.Assoc.{
  lookup, update, total, total-update, total-erase, weight-le-total, update_missing,
}
use sippin_soda.Text.{Text}
use sippin_soda.Bodies.{
  partial, Bytes, Entry, Storage, BodyState, reserve, with_entry, cancel, cancelled_entry, finish,
  finished_entry, drop_entry, allocate, reserved_total,
}
use sippin_soda.Bodies.Store.{
  BodyStore, install, write_reserved, done, StoreErrors, FileWrite, remove_body, cancel_all, clear,
  store_bytes, complete_entry,
}
use sippin_soda.Bodies.Worker.{
  stopped, full, taken, reserve_chunk, commit_chunk, ChunkWrite, all_written, cut_off,
  spilled_entry, full_entry, grown_entry, drop_tap,
}

-- `held` bytes are reserved by workers outside the heap.
pub record IsBalanced (held : ℕ) (s : Storage) : Type 0 where
  pub balance : s.used ≡ reserved_total s.heap + held

-- A change of one entry that keeps its reservation.
with_entry-IsBalanced :
    (held : ℕ) (s : Storage) (handle : ℕ) (f : Entry → Entry)
    → ((e : Entry) → (f e).reserved ≡ e.reserved)
    → IsBalanced held s
    → IsBalanced held (with_entry s handle f)
unfolding with_entry reserved_total
with_entry-IsBalanced held s handle f same b = elim (Option-cases (lookup handle s.heap)) [
  | inl e ↦ record { balance = rw (update_missing handle f s.heap e) b.balance }
  | inr (e, h) ↦ record {
    balance = omega (arith, total-update (λ x. x.reserved) handle f s.heap e h, same e, b.balance);
  }
]

pub cancel-IsBalanced :
    (held : ℕ) (s : Storage) (handle : ℕ) → IsBalanced held s → IsBalanced held (cancel s handle)
unfolding cancel reserved_total
cancel-IsBalanced held s handle b = elim (Option-cases (lookup handle s.heap)) [
  | inl e ↦ rw (e, cancel) b
  | inr (e, h) ↦
      rw (h, cancel)
        (record {
          balance = omega (
            arith,
            total-update (λ x. x.reserved) handle cancelled_entry s.heap e h,
            weight-le-total (λ x. x.reserved) handle s.heap e h,
            b.balance,
          );
        })
]

pub drop_entry-IsBalanced :
    (held : ℕ) (s : Storage) (handle : ℕ)
    → IsBalanced held s
    → IsBalanced held (drop_entry s handle)
unfolding drop_entry reserved_total
drop_entry-IsBalanced held s handle b = elim (Option-cases (lookup handle s.heap)) [
  | inl e ↦ rw (e, drop_entry) b
  | inr (e, h) ↦
      rw (h, drop_entry)
        (record {
          balance = omega (arith, total-erase (λ x. x.reserved) handle s.heap e h, b.balance);
        })
]

pub finish-IsBalanced :
    (held : ℕ) (s : Storage) (handle : ℕ) (state : BodyState) (cause : Option String)
    → IsBalanced held s
    → IsBalanced held (finish s handle state cause)
unfolding finish
finish-IsBalanced held s handle state cause b =
    with_entry-IsBalanced held s handle (finished_entry state cause) (λ e. ground arith) b

-- A new entry takes over what its worker held.
pub allocate-IsBalanced :
    (held : ℕ) (s : Storage) (e : Entry)
    → IsBalanced (held + e.reserved) s
    → IsBalanced held (allocate s e)
unfolding allocate reserved_total total
allocate-IsBalanced held s e b = record { balance = omega (arith, b.balance) }

pub install-IsBalanced :
    (held : ℕ) (s : Storage) (b : BodyStore) (id : ℕ) (e : Entry)
    → IsBalanced (held + e.reserved) s
    → IsBalanced held (install s b id e).0
unfolding install
install-IsBalanced held s b id e v = elim (Option-cases (lookup id b.entries)) [
  | inl h ↦ rw (h, install) (allocate-IsBalanced held s e v)
  | inr (previous, h) ↦
      rw (h, install)
        (cancel-IsBalanced held (allocate s e) previous (allocate-IsBalanced held s e v))
]

reserve-some :
    (used count limit used' : ℕ)
    → reserve used count limit ≡ some used'
    → (used' ≡ used + count) × (used + count ≤ limit)
unfolding reserve
reserve-some used count limit used' h = ground arith

-- A blocking worker either holds its bytes, within the limit, or leaves the account as it was.
pub write_reserved_lem :
    (s : Storage) (bytes : Bytes) (limit : ℕ) (write : FileWrite) (errors : StoreErrors)
    → let (s', result) = write_reserved s bytes limit write errors in
      ((result ≡ ok tt)
        × (s'.used ≡ s.used + length bytes)
        × (s'.used ≤ limit)
        × (s'.heap ≡ s.heap)
        × (s'.next_handle ≡ s.next_handle))
      ⊎ ((e : String) × (result ≡ err e)
          × (s'.used ≡ s.used)
          × (s'.heap ≡ s.heap)
          × (s'.next_handle ≡ s.next_handle))
unfolding write_reserved
write_reserved_lem s bytes limit done errors = ground arith
write_reserved_lem s bytes limit _ errors = ground arith

pub move-IsBalanced :
    (held : ℕ) (s s' : Storage) (count : ℕ)
    → s'.used ≡ s.used + count
    → s'.heap ≡ s.heap
    → IsBalanced held s
    → IsBalanced (held + count) s'
move-IsBalanced held s s' count u h b = record {
  balance = u ∙ omega (arith, b.balance, ap reserved_total h);
}

pub same-IsBalanced :
    (held : ℕ) (s s' : Storage)
    → s'.used ≡ s.used
    → s'.heap ≡ s.heap
    → IsBalanced held s
    → IsBalanced held s'
same-IsBalanced held s s' u h b = record {
  balance = u ∙ b.balance ∙ ap (λ x. reserved_total x + held) (sym h);
}

store_bytes-IsBalanced :
    (held : ℕ) (s : Storage) (b : BodyStore) (id : ℕ) (bytes : Bytes) (limit : ℕ) (encoding : Text)
    (write : FileWrite) (errors : StoreErrors)
    → IsBalanced held s
    → IsBalanced held (store_bytes s b id bytes limit encoding write errors).0
unfolding store_bytes
store_bytes-IsBalanced held s b id bytes limit encoding write errors v =
    elim (write_reserved_lem s bytes limit write errors) [
      | inl (r, u, l, h, n) ↦
          rw (r, store_bytes)
            (install-IsBalanced held _ b id (complete_entry bytes limit encoding)
              (move-IsBalanced held s _ (length bytes) u h v))
      | inr (e, r, u, h, n) ↦ rw (r, store_bytes) (same-IsBalanced held s _ u h v)
    ]

pub remove_body-IsBalanced :
    (held : ℕ) (s : Storage) (b : BodyStore) (id : ℕ)
    → IsBalanced held s
    → IsBalanced held (remove_body s b id).0
unfolding remove_body
remove_body-IsBalanced held s b id v = elim (Option-cases (lookup id b.entries)) [
  | inl e ↦ rw (e, remove_body) v
  | inr (handle, e) ↦ rw (e, remove_body) (cancel-IsBalanced held s handle v)
]

cancel_all-IsBalanced :
    (held : ℕ) (s : Storage) (entries : List (ℕ × ℕ))
    → IsBalanced held s
    → IsBalanced held (cancel_all s entries)
unfolding cancel_all
cancel_all-IsBalanced held s [] v = v
cancel_all-IsBalanced held s ((id, handle) ∷ entries) v =
    cancel_all-IsBalanced held (cancel s handle) entries (cancel-IsBalanced held s handle v)

pub clear-IsBalanced :
    (held : ℕ) (s : Storage) (b : BodyStore) → IsBalanced held s → IsBalanced held (clear s b).0
unfolding clear
clear-IsBalanced held s b v = cancel_all-IsBalanced held s b.entries v

abbrev pub reserve_more : ℕ → Entry → Entry
reserve_more count e = record e { reserved = e.reserved + count }

-- The task reserves a chunk for its own entry and within the limit, or reserves nothing.
pub reserve_chunk_lem :
    (s : Storage) (handle limit count : ℕ)
    → let (s', outcome) = reserve_chunk s handle limit count in
      ((s' ≡ s) × (outcome ≡ stopped))
      ⊎ ((s' ≡ with_entry s handle full_entry) × (outcome ≡ full))
      ⊎ ((e : Entry) × (lookup handle s.heap ≡ some e)
          × (e.cancelled ≡ false)
          × (s'.used ≡ s.used + count)
          × (s.used + count ≤ limit)
          × (s'.heap ≡ update handle (reserve_more count) s.heap)
          × (s'.next_handle ≡ s.next_handle)
          × (outcome ≡ taken))
unfolding reserve_chunk
reserve_chunk_lem s handle limit count = ground arith

pub reserve_chunk-IsBalanced :
    (held : ℕ) (s : Storage) (handle limit count : ℕ)
    → IsBalanced held s
    → IsBalanced held (reserve_chunk s handle limit count).0
unfolding reserved_total
reserve_chunk-IsBalanced held s handle limit count v =
    elim (reserve_chunk_lem s handle limit count) [
      | inl (same, _) ↦ subst (IsBalanced held) (sym same) v
      | inr (inl (same, _)) ↦
          subst (IsBalanced held) (sym same)
            (with_entry-IsBalanced held s handle full_entry (λ e. refl) v)
      | inr (inr (e, h, c, u, l, heap, n, o)) ↦ record {
        balance =
            u
            ∙ omega (
              arith,
              ap reserved_total heap,
              total-update (λ x. x.reserved) handle (reserve_more count) s.heap e h,
              v.balance,
            );
      }
    ]

pub commit_chunk-IsBalanced :
    (held : ℕ) (s : Storage) (handle : ℕ) (bytes : Bytes) (written : ChunkWrite)
    → IsBalanced held s
    → IsBalanced held (commit_chunk s handle bytes written)
unfolding commit_chunk
commit_chunk-IsBalanced held s handle bytes all_written v =
    with_entry-IsBalanced held s handle (grown_entry bytes) (λ e. refl) v
commit_chunk-IsBalanced held s handle bytes (cut_off count) v =
    finish-IsBalanced held _ handle partial _
      (with_entry-IsBalanced held s handle (spilled_entry (take count bytes)) (λ e. refl) v)

pub drop_tap-IsBalanced :
    (held : ℕ) (s : Storage) (handle : ℕ) → IsBalanced held s → IsBalanced held (drop_tap s handle)
unfolding drop_tap
drop_tap-IsBalanced held s handle v =
    with_entry-IsBalanced held (finish s handle partial _) handle (λ e. record e { aborted = true })
      (λ e. refl) (finish-IsBalanced held s handle partial _ v)
