-- ===== src/Engine/Views.antt =====
-- The bodies as `ProxyEngine` shows and exports them.
use sippin_soda.Base.{
  ℕ, ◌++◌, Bool, true, false, not, Option, none, some, [], String, Result, ok, err, ◌>>=◌, ◌>>◌,
  refuse_if, ok_or,
}
use sippin_soda.Text.{Text, text, decimal}
use sippin_soda.Bodies.{BodyState}
use sippin_soda.Bodies.Store.{
  info, BodyPage, page, BodyStore, is_complete, ExportFile, Files, export,
}
use sippin_soda.Engine.Traffic.{Capture}
use sippin_soda.Engine.{State}
use sippin_soda.Engine.Exchange.{capture_of}
use sippin_soda.Engine.Control.{evicted}

-- `struct BodyExportPreview`.
pub record BodyExportPreview : Type 0 where
  pub id : ℕ
  pub direction : Text
  pub bytes : ℕ
  pub state : BodyState
  pub encoding : Text
  pub redacted : Bool
  pub warning : String
  pub suggested_file_name : Text

abbrev pub error_or_wait : Option String → String
error_or_wait none = "Only a complete body can be exported; wait for recording to finish."
error_or_wait (some e) = e

-- A recorded error of the capture refuses.
abbrev pub refuse_with : Option String → Result String (Unit {0})
refuse_with none = ok tt
refuse_with (some e) = err e

abbrev export_warning : Bool → String
export_warning true =
    "This exports the redacted JSON inspection copy, not the original request bytes. Review custom fields before sharing it."
export_warning false =
    "This response body is unredacted and may contain credentials or personal data. Review it before sharing."

pub data Direction : Type 0 where
  request response other : Direction

abbrev name_of : Direction → Text
name_of request = text "request"
name_of response = text "response"
name_of other = []

abbrev pub is_redacted : Direction → Bool
is_redacted request = true
is_redacted _ = false

abbrev extension : Direction → Text
extension request = text "json"
extension _ = text "bin"

module _ {M : Type 0} where
  -- The store of a direction and the error that the capture has for it.
  abbrev pub side : State M → Capture → Direction → Result String (BodyStore × Option String)
  side s c request = ok (s.request_bodies, c.request_body_error)
  side s c response = ok (s.response_bodies, c.response_body_error)
  side s c other = err "Body direction must be request or response."

  unfoldable pub body_export_preview : State M → ℕ → Direction → Result String BodyExportPreview
  unfolding info decimal
  body_export_preview s id direction = do
    capture ← ok_or (capture_of s id) evicted
    (store, cause) ← side s capture direction
    refuse_with cause
    i ← info s.storage store id
    refuse_if (not (is_complete i.state)) (error_or_wait i.error)
    ok (record {
      id = id;
      direction = name_of direction;
      bytes = i.total;
      state = i.state;
      encoding = i.encoding;
      redacted = is_redacted direction;
      warning = export_warning (is_redacted direction);
      suggested_file_name =
          text "sippin-"
          ++ decimal id
          ++ text "-"
          ++ name_of direction
          ++ text "."
          ++ extension direction;
    })

  abbrev pub store_of : State M → Direction → Result String BodyStore
  store_of s request = ok s.request_bodies
  store_of s response = ok s.response_bodies
  store_of s other = err "Body direction must be request or response."

  -- `export_body`; another operation may run between the preview and the export.
  unfoldable pub export_body :
      State M → State M → ℕ → Direction → Text → ExportFile → Files → Files × Result String ℕ
  unfolding body_export_preview export
  export_body s later id direction destination file files =
      elim (body_export_preview s id direction >>= λ preview. store_of later direction) [
        | err cause ↦ (files, err cause)
        | ok store ↦ export later.storage store id destination file files
      ]

  unfoldable pub request_body_page : State M → ℕ → ℕ → ℕ → Result String BodyPage
  unfolding page
  request_body_page s id offset count = do
    capture ← ok_or (capture_of s id) evicted
    refuse_with capture.request_body_error
    page s.storage s.request_bodies id offset count

  unfoldable pub response_body_page : State M → ℕ → ℕ → ℕ → Result String BodyPage
  unfolding page
  response_body_page s id offset count = do
    capture ← ok_or (capture_of s id) evicted
    refuse_with capture.response_body_error
    page s.storage s.response_bodies id offset count
