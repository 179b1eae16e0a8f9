-- ===== src/Tls/Readiness.antt =====
-- When inspection is ready, and for which destinations it is allowed.
use sippin_soda.Base.{ℕ, ◌<◌, ◌≡◌, refl, sym, ap, ◌∙◌, ◌↔◌, true, false, some, arith, ok}
use sippin_soda.Text.{Text, text, text_eq}
use sippin_soda.Text.Laws.{text_eq→eq, text_eq_refl}
use sippin_soda.Policy.{DestinationClass, development, authorize}
use sippin_soda.Tls.{
  CaStatus, TlsClientTrustProof, TlsInspectionGate, TlsReadinessState, ready, readiness_state,
  readiness_at, ca_unusable, authorize_inspection, is_ready,
}

-- All that a ready inspection rests on.
pub record IsReady (gate : TlsInspectionGate) (ca : CaStatus) (client_id : Text) (now : ℕ)
    : Type 0 where
  pub proof : TlsClientTrustProof
  pub ca_expires : ℕ
  pub opted_in : gate.opted_in ≡ true
  pub ca_state : ca.state ≡ text "ready"
  pub proved : gate.trust_proof ≡ some proof
  pub same_ca : ca.fingerprint_sha256 ≡ some proof.issuer_fingerprint_sha256
  pub ca_expiry : ca.expires_at ≡ some ca_expires
  pub ca_alive : now < ca_expires
  pub proof_alive : now < proof.expires_at
  pub same_client : proof.client.id ≡ client_id

-- The tests that a ready state has passed.
ready_tests :
    (gate : TlsInspectionGate) (ca : CaStatus) (client_id : Text) (now : ℕ)
    → readiness_state gate ca client_id now ≡ ready
    → (proof : TlsClientTrustProof) × (fingerprint : Text) × (expires : ℕ) × (gate.trust_proof
        ≡ some proof)
      × (ca.fingerprint_sha256 ≡ some fingerprint)
      × (ca.expires_at ≡ some expires)
      × (gate.opted_in ≡ true)
      × (text_eq ca.state (text "ready") ≡ true)
      × (text_eq proof.issuer_fingerprint_sha256 fingerprint ≡ true)
      × (text_eq proof.client.id client_id ≡ true)
      × (now < expires)
      × (now < proof.expires_at)
unfolding readiness_state ca_unusable
ready_tests gate ca client_id now h = ground arith

readiness_state-IsReady :
    (gate : TlsInspectionGate) (ca : CaStatus) (client_id : Text) (now : ℕ)
    → readiness_state gate ca client_id now ≡ ready
    → IsReady gate ca client_id now
readiness_state-IsReady gate ca client_id now h =
    let (proof, fingerprint, expires, p, f, e, opted, ca_ready, same_ca, same_id, alive, fresh) =
      ready_tests gate ca client_id now h in
    record {
      proof = proof;
      ca_expires = expires;
      opted_in = opted;
      ca_state = text_eq→eq ca.state (text "ready") ca_ready;
      proved = p;
      same_ca = f ∙ ap some (sym (text_eq→eq proof.issuer_fingerprint_sha256 fingerprint same_ca));
      ca_expiry = e;
      ca_alive = alive;
      proof_alive = fresh;
      same_client = text_eq→eq proof.client.id client_id same_id;
    }

IsReady-readiness_state :
    (gate : TlsInspectionGate) (ca : CaStatus) (client_id : Text) (now : ℕ)
    → IsReady gate ca client_id now
    → readiness_state gate ca client_id now ≡ ready
unfolding readiness_state ca_unusable
IsReady-readiness_state gate ca client_id now r = ground (
  arith,
  text_eq_refl (text "ready"),
  text_eq_refl r.proof.issuer_fingerprint_sha256,
  text_eq_refl client_id,
)

pub IsReady-usable :
    (gate : TlsInspectionGate) (ca : CaStatus) (client_id : Text) (now : ℕ)
    → IsReady gate ca client_id now
    → ca_unusable ca ≡ false
unfolding ca_unusable
IsReady-usable gate ca client_id now r = ground (arith, text_eq_refl (text "ready"))

-- `readiness_at` reports `Ready` exactly when the user opted in, the CA is ready and not expired,
-- and the proof is unexpired, for this CA and for this client.
pub readiness_at_iff :
    (gate : TlsInspectionGate) (ca : CaStatus) (client_id : Text) (now : ℕ)
    → ((readiness_at gate ca client_id now).state ≡ ready) ↔ IsReady gate ca client_id now
unfolding readiness_at
readiness_at_iff gate ca client_id now =
    (readiness_state-IsReady gate ca client_id now, IsReady-readiness_state gate ca client_id now)

pub is_ready→eq : (s : TlsReadinessState) → is_ready s ≡ true → s ≡ ready
is_ready→eq ready h = refl
is_ready→eq s h = cc

authorize_parts :
    (gate : TlsInspectionGate) (ca : CaStatus) (client_id : Text) (d : DestinationClass) (now : ℕ)
    → authorize_inspection gate ca client_id d now ≡ ok tt
    → ((readiness_at gate ca client_id now).state ≡ ready) × (d ≡ development)
unfolding authorize_inspection authorize
authorize_parts gate ca client_id d now h =
    ground (arith, is_ready→eq (readiness_at gate ca client_id now).state)

authorize_back :
    (gate : TlsInspectionGate) (ca : CaStatus) (client_id : Text) (d : DestinationClass) (now : ℕ)
    → (readiness_at gate ca client_id now).state ≡ ready
    → d ≡ development
    → authorize_inspection gate ca client_id d now ≡ ok tt
unfolding authorize_inspection authorize
authorize_back gate ca client_id d now r e = ground arith

-- Inspection is authorized exactly when it is ready and the destination is Development.
pub authorize_inspection_iff :
    (gate : TlsInspectionGate) (ca : CaStatus) (client_id : Text) (d : DestinationClass) (now : ℕ)
    → (authorize_inspection gate ca client_id d now ≡ ok tt)
      ↔ (IsReady gate ca client_id now × (d ≡ development))
authorize_inspection_iff gate ca client_id d now = (
  (λ h.
      let (r, e) = authorize_parts gate ca client_id d now h in
      ((readiness_at_iff gate ca client_id now).0 r, e)),
  (λ (r, e).
      authorize_back gate ca client_id d now ((readiness_at_iff gate ca client_id now).1 r) e),
)
