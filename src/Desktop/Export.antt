-- ===== src/Desktop/Export.antt =====
-- When the desktop writes a captured body to a file.
use sippin_soda.Base.{
  ℕ, ◌≡◌, ◌++◌, ◌>>=◌, refl, sym, ap, ◌⊎◌, inl, inr, arith, Bool, true, false, not, ◌&&◌, none,
  some, Option, [], take, drop, take-drop, length, String, Result, ok, err, ok_or, ok_inj,
  refuse_if-eq-ok, >>=-eq-ok, Result-cases, ok_or-eq-ok, subst,
}
use mathlib.Core.List.{append-nil}
use sippin_soda.Text.{Text}
use sippin_soda.Bodies.{Bytes, Entry, complete}
use sippin_soda.Bodies.Store.{
  BodyStore, ExportFile, unopened, uncreated, copy_failed, flush_failed, written, Files, write_file,
  export_source, copy_to, export, info, is_complete, entry_of,
}
use sippin_soda.Engine.{State}
use sippin_soda.Engine.Exchange.{capture_of}
use sippin_soda.Engine.Control.{evicted}
use sippin_soda.Engine.Views.{
  Direction, request, response, other, BodyExportPreview, body_export_preview, export_body,
  is_redacted, refuse_with, side, store_of,
}
use sippin_soda.Desktop.{
  Desktop, Dialog, dismissed, not_local, chosen, BodyExportResult, write_to, export_agreed,
  export_captured_body,
}

body_export_preview-redacted :
    {M : Type 0} (s : State M) (id : ℕ) (direction : Direction) (preview : BodyExportPreview)
    → body_export_preview s id direction ≡ ok preview
    → preview.redacted ≡ is_redacted direction
unfolding body_export_preview
body_export_preview-redacted s id direction preview h =
    let (capture, _, h1) = >>=-eq-ok (ok_or (capture_of s id) evicted) _ h in
    let (place, _, h2) = >>=-eq-ok (side s capture direction) _ h1 in
    let (_, _, h3) = >>=-eq-ok (refuse_with place.1) _ h2 in
    let (i, _, h4) = >>=-eq-ok (info s.storage place.0 id) _ h3 in
    let (_, h5) = refuse_if-eq-ok (not (is_complete i.state)) _ _ h4 in
    ap (λ p. p.redacted) (sym (ok_inj h5))

agreement :
    (direction : Direction) (acknowledged redacted : Bool)
    → redacted ≡ is_redacted direction
    → (not redacted && not acknowledged) ≡ false
    → (direction ≡ request) ⊎ (acknowledged ≡ true)
agreement request acknowledged redacted kind agreed = inl refl
agreement response acknowledged redacted kind agreed = inr (ground arith)
agreement other acknowledged redacted kind agreed = inr (ground arith)

-- What a copy comes to: nothing is written, or the first bytes of the body are, in the destination
-- alone, and all of them where it succeeds.
abbrev Copied : {A : Type 0} → (ℕ → A) → Text → Bytes → Files → Files × Result String A → Type 0
Copied report place body files (after, result) =
    ((after ≡ files) × (cause : String) × (result ≡ err cause))
    ⊎ ((bytes lost : Bytes) × (after ≡ write_file files place bytes)
        × (bytes ++ lost ≡ body)
        × (((lost ≡ []) × (result ≡ ok (report (length body))))
            ⊎ ((cause : String) × (result ≡ err cause))))

copy_to-Copied :
    {A : Type 0} (report : ℕ → A) (body : Bytes) (place : Text) (file : ExportFile) (files : Files)
    → let (after, result) = copy_to body place file files in
      Copied report place body files (after, (result >>= λ count. ok (report count)))
unfolding copy_to
copy_to-Copied report body place unopened files = inl (refl, _, refl)
copy_to-Copied report body place uncreated files = inl (refl, _, refl)
copy_to-Copied report body place (copy_failed count) files =
    inr (take count body, drop count body, refl, take-drop count body, inr (_, refl))
copy_to-Copied report body place flush_failed files =
    inr (body, [], refl, append-nil body, inr (_, refl))
copy_to-Copied report body place written files =
    inr (body, [], refl, append-nil body, inl (refl, refl))

-- An export that changes a file, or says that it has: where, what and by whose leave.
pub record IsExport {M : Type 0} (to_string_lossy : Text → Text) (later : Desktop M) (id : ℕ)
    (direction : Direction) (acknowledged : Bool) (dialog : Dialog) (files : Files)
    (outcome : Files × Result String (Option BodyExportResult)) : Type 0 where
  pub place : Text
  pub chosen_place : dialog ≡ chosen place
  pub agreed : (direction ≡ request) ⊎ (acknowledged ≡ true)
  pub store : BodyStore
  pub side_is : store_of later.engine.shared direction ≡ ok store
  pub entry : Entry
  pub found : entry_of later.engine.shared.storage store id ≡ some entry
  pub done : entry.state ≡ complete
  pub body : Bytes
  pub recorded : entry.file ≡ some body
  pub copied :
      Copied
        (λ count. some (record { path = to_string_lossy place; bytes = count }))
        place
        body
        files
        outcome

is_complete→eq : (state : _) → is_complete state ≡ true → state ≡ complete
is_complete→eq complete h = refl
is_complete→eq state h = cc

not-false : (b : Bool) → not b ≡ false → b ≡ true
not-false true h = refl
not-false false h = cc

export_source-ok :
    (s : _) (store : BodyStore) (id : ℕ) (body : Bytes)
    → export_source s store id ≡ ok body
    → (e : Entry) × (entry_of s store id ≡ some e) × (e.state ≡ complete) × (e.file ≡ some body)
unfolding export_source
export_source-ok s store id body h =
    let (e, found, h1) = >>=-eq-ok (ok_or (entry_of s store id) _) _ h in
    let (ended, h2) = refuse_if-eq-ok (not (is_complete e.state)) _ _ h1 in
    (
      e,
      ok_or-eq-ok (entry_of s store id) _ found,
      is_complete→eq e.state (not-false (is_complete e.state) ended),
      ok_or-eq-ok e.file _ h2,
    )

export_agreed-ok :
    {M : Type 0} (d : Desktop M) (id : ℕ) (direction : Direction) (acknowledged : Bool)
    (done : Unit {0})
    → export_agreed d id direction acknowledged ≡ ok done
    → (direction ≡ request) ⊎ (acknowledged ≡ true)
unfolding export_agreed
export_agreed-ok d id direction acknowledged done h =
    let (preview, shown, h1) = >>=-eq-ok (body_export_preview d.engine.shared id direction) _ h in
    agreement direction acknowledged preview.redacted
      (body_export_preview-redacted d.engine.shared id direction preview shown) (ground (arith, h1))

-- A failure that writes nothing.
abbrev pub Fails : {A : Type 0} → Files → Files × Result String (Option A) → Type 0
Fails files (after, result) =
    (after ≡ files) × ((result ≡ ok none) ⊎ ((cause : String) × (result ≡ err cause)))

-- What the copy comes to in `write_to`.
write_to-copied :
    {M : Type 0} (to_string_lossy : Text → Text) (later : Desktop M) (id : ℕ)
    (direction : Direction) (place : Text) (file : ExportFile) (files : Files) (store : BodyStore)
    (body : Bytes)
    → (body_export_preview later.engine.shared id direction >>= λ preview.
        store_of later.engine.shared direction)
      ≡ ok store
    → export_source later.engine.shared.storage store id ≡ ok body
    → (let (after, result) = copy_to body place file files in
        (
          after,
          (result >>= λ count. ok (some (record { path = to_string_lossy place; bytes = count }))),
        ))
      ≡ write_to to_string_lossy later id direction (chosen place) file files
unfolding write_to export_body export
write_to-copied to_string_lossy later id direction place file files store body e e' =
    rw (e, e', write_to, export_body, export) refl

chosen-IsExport :
    {M : Type 0} (to_string_lossy : Text → Text) (later : Desktop M) (id : ℕ)
    (direction : Direction) (acknowledged : Bool) (place : Text) (file : ExportFile) (files : Files)
    → (direction ≡ request) ⊎ (acknowledged ≡ true)
    → let outcome = write_to to_string_lossy later id direction (chosen place) file files in
      Fails files outcome
      ⊎ IsExport to_string_lossy later id direction acknowledged (chosen place) files outcome
unfolding write_to export_body export
chosen-IsExport to_string_lossy later id direction acknowledged place file files agreed =
    let s = later.engine.shared in
    elim (Result-cases (body_export_preview s id direction >>= λ preview. store_of s direction)) [
      | inr (cause, e) ↦ inl (rw (e, write_to, export_body) (refl, inr (cause, refl)))
      | inl (store, e) ↦
          let (preview, _, side_is) = >>=-eq-ok (body_export_preview s id direction) _ e in
          elim (Result-cases (export_source s.storage store id)) [
            | inr (cause, e') ↦
                inl (rw (e, e', write_to, export_body, export) (refl, inr (cause, refl)))
            | inl (body, e') ↦
                let (entry, found, done, recorded) = export_source-ok s.storage store id body e' in
                inr (
                  subst
                    (IsExport to_string_lossy later id direction acknowledged (chosen place) files)
                    (write_to-copied to_string_lossy later id direction place file files store body
                      e e')
                    (record {
                      place = place;
                      chosen_place = refl;
                      agreed = agreed;
                      store = store;
                      side_is = side_is;
                      entry = entry;
                      found = found;
                      done = done;
                      body = body;
                      recorded = recorded;
                      copied = copy_to-Copied _ body place file files;
                    }))
          ]
    ]

write_to-IsExport :
    {M : Type 0} (to_string_lossy : Text → Text) (later : Desktop M) (id : ℕ)
    (direction : Direction) (acknowledged : Bool) (dialog : Dialog) (file : ExportFile)
    (files : Files)
    → (direction ≡ request) ⊎ (acknowledged ≡ true)
    → let outcome = write_to to_string_lossy later id direction dialog file files in
      Fails files outcome
      ⊎ IsExport to_string_lossy later id direction acknowledged dialog files outcome
unfolding write_to
write_to-IsExport to_string_lossy later id direction acknowledged dismissed file files agreed =
    inl (refl, inl refl)
write_to-IsExport to_string_lossy later id direction acknowledged not_local file files agreed =
    inl (refl, inr (_, refl))
write_to-IsExport to_string_lossy later id direction acknowledged (chosen place) file files agreed =
    chosen-IsExport to_string_lossy later id direction acknowledged place file files agreed

-- An export either leaves all files as they are and reports none, or writes to the file that the user
-- chose alone: a first part of a complete recorded body, and all of it where it reports its success;
-- and a body other than the redacted request only when the user has acknowledged that.
pub export_captured_body-acknowledged :
    {M : Type 0} (to_string_lossy : Text → Text) (d later : Desktop M) (id : ℕ)
    (direction : Direction) (acknowledged : Bool) (dialog : Dialog) (file : ExportFile)
    (files : Files)
    → let outcome =
        export_captured_body to_string_lossy d later id direction acknowledged dialog file files in
      Fails files outcome
      ⊎ IsExport to_string_lossy later id direction acknowledged dialog files outcome
unfolding export_captured_body
export_captured_body-acknowledged to_string_lossy d later id direction acknowledged dialog file
      files =
    elim (Result-cases (export_agreed d id direction acknowledged)) [
      | inl (done, e) ↦
          rw (e, export_captured_body)
            (write_to-IsExport to_string_lossy later id direction acknowledged dialog file files
              (export_agreed-ok d id direction acknowledged done e))
      | inr (cause, e) ↦ inl (rw (e, export_captured_body) (refl, inr (cause, refl)))
    ]
