-- ===== src/Interception/Samples.antt =====
-- The surroundings of a tunnel that is intercepted, for the tests.
use sippin_soda.Base.{◌*◌, true, some, none, [], ◌∷◌}
use sippin_soda.Text.{text}
use sippin_soda.TrustCheck.{TlsTrustCheckManager, idle_status}
use sippin_soda.Ca.{StoredCa, KeyPair, second}
use sippin_soda.Ca.Store.{Access}
use sippin_soda.Interception.{Surroundings, TlsInterceptRoute}

abbrev pub authority : StoredCa
authority = record {
  certificate_pem = text "C";
  private_key_pem = text "K";
  fingerprint_sha256 = text "AB";
  created_at = 0;
  expires_at = 900000000;
}

abbrev pub key : KeyPair
key = record { pem = text "K"; der = 1 ∷ [] }

abbrev pub granted : Access
granted = record { lifecycle = true; entry = true; reads = true; entry_again = true; writes = true }

abbrev pub manager : TlsTrustCheckManager
manager = record {
  status = idle_status;
  gate = some (record {
    opted_in = true;
    trust_proof = some (record {
      issuer_fingerprint_sha256 = text "AB";
      verified_host = text "localhost";
      client = record { id = text "phone"; name = text "Phone" };
      expires_at = 5000000;
    });
  });
  running = none;
}

abbrev pub surroundings : Surroundings
surroundings = record {
  crates = record {
    params_new = λ names. true;
    self_signed = λ params with_key. none;
    key_from_pem = λ pem. some key;
    issuer_from = λ pem with_key. true;
    signed_by = λ params with_key pem ca_key. some (record { pem = text "L"; der = 7 ∷ [] });
    sha256 = λ bytes. bytes;
    to_vec = λ ca. none;
    from_slice = λ bytes. some authority;
    from_unix_timestamp = λ seconds. some (seconds * second);
  };
  trust = manager;
  status_access = granted;
  status_secret = some [];
  checked_at = 4000000;
  issue_access = granted;
  issue_secret = some [];
  issued_at = 4000 * second;
  key = some key;
}

abbrev pub route : TlsInterceptRoute
route = record {
  host = text "dev.test";
  leaf = record {
    certificate_der = 7 ∷ [];
    private_key_der = 1 ∷ [];
    issuer_fingerprint_sha256 = text "AB";
    host = text "dev.test";
    expires_at = 90400000;
  };
}
