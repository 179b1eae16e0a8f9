-- ===== src/Tls.antt =====
-- crates/engine/src/tls_intercept.rs: client identities and the inspection gate. What a TLS
-- handshake with a client came to is an argument.
pub mod Readiness
pub mod History
mod Tests
use sippin_soda.Base.{
  ℕ, Bool, true, false, not, ◌&&◌, ◌||◌, Option, none, some, List, [], ◌∷◌, ltb, leb, ◌==◌,
  if◌then◌else◌, any, all, length, is_some, Result, ok, err, refuse_if, ◌>>=◌, ◌>>◌, String,
  map_err,
}
use mathlib.Core.Option
use sippin_soda.Text.{Text, text, len, is_empty, is_ascii_alphanumeric, trim, text_eq}
use sippin_soda.Policy.{DestinationClass, PolicyError, authorize, inspect_tls}

-- `struct CaStatus` of ca.rs.
pub record CaStatus : Type 0 where
  pub state : Text
  pub fingerprint_sha256 : Option Text
  pub created_at : Option ℕ
  pub expires_at : Option ℕ
  pub installed_by_app : Bool
  pub https_inspection : Bool

-- `struct IssuedLeaf` of ca.rs.
pub record IssuedLeaf : Type 0 where
  pub certificate_der : List ℕ
  pub private_key_der : List ℕ
  pub issuer_fingerprint_sha256 : Text
  pub host : Text
  pub expires_at : ℕ

-- `struct TlsClientIdentity`.
pub record TlsClientIdentity : Type 0 where
  pub id : Text
  pub name : Text

unfoldable pub validate_id : Text → Result String Text
unfolding trim len all
validate_id id =
    if is_empty (trim id)
      || ltb 64 (len (trim id))
      || not (all (λ c. is_ascii_alphanumeric c || (c == b'-') || (c == b'_')) (trim id))
    then err "Client profile IDs must use 1-64 letters, numbers, '-' or '_'."
    else ok (trim id)

-- `char::is_control`.
abbrev is_control : ℕ → Bool
is_control c = ltb c 32 || (leb 127 c && leb c 159)

unfoldable pub new_identity : Text → Text → Result String TlsClientIdentity
unfolding validate_id trim any
new_identity id name = do
  valid ← validate_id id
  refuse_if (is_empty (trim name) || ltb 80 (length (trim name)) || any is_control (trim name))
      "Client profile names must contain 1-80 visible characters."
  ok (record { id = valid; name = trim name })

-- `enum TlsReadinessState`.
pub data TlsReadinessState : Type 0 where
  disabled missing_ca expired_ca client_trust_unverified client_mismatch ready : TlsReadinessState

abbrev pub is_ready : TlsReadinessState → Bool
is_ready ready = true
is_ready _ = false

-- `struct TlsClientTrustProof`.
pub record TlsClientTrustProof : Type 0 where
  pub issuer_fingerprint_sha256 : Text
  pub verified_host : Text
  pub client : TlsClientIdentity
  pub expires_at : ℕ

-- `struct TlsInspectionGate`.
pub record TlsInspectionGate : Type 0 where
  pub opted_in : Bool
  pub trust_proof : Option TlsClientTrustProof

-- `TlsInspectionGate::default()`.
unfoldable pub default_gate : TlsInspectionGate
default_gate = record { opted_in = false; trust_proof = none }

abbrev same_flag : Bool → Bool → Bool
same_flag true b = b
same_flag false b = not b

unfoldable pub set_opt_in : TlsInspectionGate → Bool → TlsInspectionGate
set_opt_in gate enabled =
    if not (same_flag gate.opted_in enabled)
    then record { opted_in = enabled; trust_proof = none }
    else record { opted_in = enabled; trust_proof = gate.trust_proof }

-- `enum TlsTrustError`.
pub data TlsTrustError : Type 0 where
  inspection_disabled invalid_leaf_material handshake_timeout : TlsTrustError
  client_rejected_certificate : TlsTrustError

-- What the handshake with a client comes to: the server configuration is refused, the time runs
-- out, the client gives up, or it accepts the leaf.
pub data Handshake : Type 0 where
  bad_leaf timed_out rejected accepted : Handshake

unfoldable pub client_trust_handshake :
    IssuedLeaf → TlsClientIdentity → Handshake → Result TlsTrustError TlsClientTrustProof
client_trust_handshake leaf identity bad_leaf = err invalid_leaf_material
client_trust_handshake leaf identity timed_out = err handshake_timeout
client_trust_handshake leaf identity rejected = err client_rejected_certificate
client_trust_handshake leaf identity accepted = ok (record {
  issuer_fingerprint_sha256 = leaf.issuer_fingerprint_sha256;
  verified_host = leaf.host;
  client = identity;
  expires_at = leaf.expires_at;
})

-- The gate after the call, and its result.
unfoldable pub verify_client_trust :
    TlsInspectionGate
    → IssuedLeaf
    → TlsClientIdentity
    → Handshake
    → TlsInspectionGate × Result TlsTrustError (Unit {0})
unfolding client_trust_handshake
verify_client_trust gate leaf identity handshake =
    if not gate.opted_in
    then (gate, err inspection_disabled)
    else elim (client_trust_handshake leaf identity handshake) [
      | err e ↦ (record gate { trust_proof = none }, err e)
      | ok proof ↦ (record gate { trust_proof = some proof }, ok tt)
    ]

-- `struct TlsInspectionReadiness`.
pub record TlsInspectionReadiness : Type 0 where
  pub state : TlsReadinessState
  pub can_inspect_development : Bool
  pub verified_host : Option Text
  pub verified_client : Option TlsClientIdentity
  pub proof_expires_at : Option ℕ

-- `ca.state != "ready" || fingerprint.is_none() || expires_at.is_none()`.
unfoldable pub ca_unusable : CaStatus → Bool
unfolding text_eq
ca_unusable ca =
    not (text_eq ca.state (text "ready"))
    || not (is_some ca.fingerprint_sha256)
    || not (is_some ca.expires_at)

-- `ca.expires_at.is_some_and(|expires| expires <= now)`.
abbrev pub ca_expired : CaStatus → ℕ → Bool
ca_expired ca now = elim ca.expires_at [ none ↦ false | some expires ↦ leb expires now ]

-- `Some(&fingerprint) == ca.fingerprint_sha256.as_ref()`.
abbrev pub is_fingerprint : Text → Option Text → Bool
is_fingerprint f none = false
is_fingerprint f (some g) = text_eq f g

abbrev proof_stale : Option TlsClientTrustProof → CaStatus → ℕ → Bool
proof_stale none ca now = true
proof_stale (some proof) ca now =
    not (is_fingerprint proof.issuer_fingerprint_sha256 ca.fingerprint_sha256)
    || leb proof.expires_at now

abbrev proof_of_other : Option TlsClientTrustProof → Text → Bool
proof_of_other none client_id = false
proof_of_other (some proof) client_id = not (text_eq proof.client.id client_id)

readiness_state : TlsInspectionGate → CaStatus → Text → ℕ → TlsReadinessState
unfolding ca_unusable text_eq
readiness_state gate ca client_id now =
    if not gate.opted_in
    then disabled
    else if ca_unusable ca
    then missing_ca
    else if ca_expired ca now
    then expired_ca
    else if proof_stale gate.trust_proof ca now
    then client_trust_unverified
    else if proof_of_other gate.trust_proof client_id
    then client_mismatch
    else ready

-- `TlsInspectionGate::readiness_at`.
unfoldable pub readiness_at : TlsInspectionGate → CaStatus → Text → ℕ → TlsInspectionReadiness
unfolding readiness_state
readiness_at gate ca client_id now =
    let state = readiness_state gate ca client_id now in
    let proof = if is_ready state then gate.trust_proof else none in
    record {
      state = state;
      can_inspect_development = is_ready state;
      verified_host = Option.map (λ p. p.verified_host) proof;
      verified_client = Option.map (λ p. p.client) proof;
      proof_expires_at = Option.map (λ p. p.expires_at) proof;
    }

-- `enum TlsInspectionDenied`.
pub data TlsInspectionDenied : Type 0 where
  not_ready : TlsReadinessState → TlsInspectionDenied
  production_read_only destination_unclassified : TlsInspectionDenied

-- `TlsInspectionGate::authorize`, at the time that `readiness` reads.
unfoldable pub authorize_inspection :
    TlsInspectionGate
    → CaStatus
    → Text
    → DestinationClass
    → ℕ
    → Result TlsInspectionDenied (Unit {0})
unfolding readiness_at
authorize_inspection gate ca client_id destination now =
    let state = (readiness_at gate ca client_id now).state in
    if not (is_ready state)
    then err (not_ready state)
    else elim (authorize destination inspect_tls) [
      | ok _ ↦ ok tt
      | err PolicyError.production_read_only ↦ err production_read_only
      | err PolicyError.destination_unclassified ↦ err destination_unclassified
    ]
