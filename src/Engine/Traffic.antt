-- ===== src/Engine/Traffic.antt =====
-- `struct Capture`: one exchange as the snapshots show it. Its words are data types here.
use sippin_soda.Base.{ℕ, Bool, Option, List, String, ◌==◌, if◌then◌else◌, [], ◌∷◌, true, false}
use sippin_soda.Text.{Text}
use sippin_soda.Policy.{DestinationClass}

pub data Kind : Type 0 where
  http tunnel tls https : Kind

pub data Phase : Type 0 where
  pending complete error : Phase

pub data RequestBodyState : Type 0 where
  disabled unavailable recording empty complete : RequestBodyState

pub data BreakpointState : Type 0 where
  none waiting modified continued timed_out : BreakpointState

pub record Capture : Type 0 where
  pub id : ℕ
  pub kind : Kind
  pub method : Text
  pub target : Text
  pub destination_class : DestinationClass
  pub client_profile_id : Option Text
  pub started_at : ℕ
  pub status : Option ℕ
  pub phase : Phase
  pub duration_ms : ℕ
  pub request_bytes : ℕ
  pub response_bytes : ℕ
  pub request_headers : List (Text × Text)
  pub response_headers : List (Text × Text)
  pub error : Option String
  pub request_body_state : RequestBodyState
  pub request_body_error : Option String
  pub response_body_error : Option String
  pub breakpoint_state : BreakpointState
  pub original_status : Option ℕ
  pub replay_of : Option ℕ
  pub response_rule_id : Option Text
  pub response_rule_name : Option Text

abbrev pub is_pending : Phase → Bool
is_pending pending = true
is_pending _ = false

abbrev pub is_finished : Phase → Bool
is_finished Phase.complete = true
is_finished _ = false

-- `traffic.iter_mut().find(|capture| capture.id == id)`, changed.
unfoldable pub change : ℕ → (Capture → Capture) → List Capture → List Capture
change id f [] = []
change id f (c ∷ cs) = if c.id == id then f c ∷ cs else c ∷ change id f cs
