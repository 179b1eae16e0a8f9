-- ===== src/Tls/Tests.antt =====
-- A gate that a client has passed.
use sippin_soda.Base.{◌≡◌, refl, ◌↔◌, true, false, some, [], ◌∷◌, List, ok}
use sippin_soda.Text.{text, methods}
use sippin_soda.Policy.{development, authorize}
use sippin_soda.Tls.{
  CaStatus, IssuedLeaf, TlsClientIdentity, TlsClientTrustProof, TlsInspectionGate, ready,
  readiness_at, authorize_inspection, accepted,
}
use sippin_soda.Tls.Readiness.{IsReady, readiness_at_iff, authorize_inspection_iff}
use sippin_soda.Tls.History.{GateCall, opt, verify, gate_after, Origin, trust_proof-Origin}

abbrev phone : TlsClientIdentity
phone = record { id = text "phone"; name = text "Phone" }

abbrev leaf : IssuedLeaf
leaf = record {
  certificate_der = [];
  private_key_der = [];
  issuer_fingerprint_sha256 = text "ab";
  host = text "localhost";
  expires_at = 50;
}

abbrev ca : CaStatus
ca = record {
  state = text "ready";
  fingerprint_sha256 = some (text "ab");
  created_at = some 0;
  expires_at = some 100;
  installed_by_app = false;
  https_inspection = false;
}

abbrev proof : TlsClientTrustProof
proof = record {
  issuer_fingerprint_sha256 = text "ab";
  verified_host = text "localhost";
  client = phone;
  expires_at = 50;
}

abbrev gate : TlsInspectionGate
gate = record { opted_in = true; trust_proof = some proof }

abbrev calls : List GateCall
calls = verify leaf phone accepted ∷ opt true ∷ []

authorized : authorize_inspection gate ca (text "phone") development 49 ≡ ok tt
unfolding authorize_inspection authorize methods
authorized = refl

readiness_at_iff_test :
    ((readiness_at gate ca (text "phone") 49).state ≡ ready) ↔ IsReady gate ca (text "phone") 49
readiness_at_iff_test = readiness_at_iff gate ca (text "phone") 49

authorize_inspection_iff_example :
    (authorize_inspection gate ca (text "phone") development 49 ≡ ok tt)
    ↔ (IsReady gate ca (text "phone") 49 × (development ≡ development))
authorize_inspection_iff_example = authorize_inspection_iff gate ca (text "phone") development 49

trust_proof-Origin_example : Origin calls proof
unfolding gate_after
trust_proof-Origin_example = trust_proof-Origin calls proof refl
