-- ===== src/Policy.antt =====
-- crates/engine/src/lib.rs: the policy for active operations and the header redaction.
pub mod Laws
mod Tests
use sippin_soda.Base.{
  ℕ, Bool, true, false, ◌&&◌, ◌||◌, Option, none, some, List, [], ◌∷◌, map, if◌then◌else◌, any,
  Result, ok, err, String,
}
use sippin_soda.Text.{Text, text, eq_ignore_ascii_case, text_eq}

-- `enum EnginePhase`.
pub data EnginePhase : Type 0 where
  stopped running : EnginePhase

-- `enum Action`.
pub data Action : Type 0 where
  observe inspect_tls replay modify inject_fault : Action

-- `enum DestinationClass`.
pub data DestinationClass : Type 0 where
  development production unknown : DestinationClass

-- `enum PolicyError`.
pub data PolicyError : Type 0 where
  production_read_only destination_unclassified : PolicyError

abbrev pub is_observe : Action → Bool
is_observe observe = true
is_observe _ = false

abbrev pub is_development : DestinationClass → Bool
is_development development = true
is_development _ = false

unfoldable pub authorize : DestinationClass → Action → Result PolicyError (Unit {0})
authorize destination action = if is_observe action then ok tt else elim destination [
  | development ↦ ok tt
  | production ↦ err production_read_only
  | unknown ↦ err destination_unclassified
]

abbrev sensitive_headers : List Text
sensitive_headers =
    text "authorization"
    ∷ text "proxy-authorization"
    ∷ text "cookie"
    ∷ text "set-cookie"
    ∷ text "x-api-key"
    ∷ []

abbrev pub redacted : Text
redacted = text "[REDACTED]"

pub redact_header : Text → Text → Text
unfolding text_eq any
redact_header name value =
    if any (λ sensitive. eq_ignore_ascii_case name sensitive) sensitive_headers
    then redacted
    else value
