-- ===== src/Ca.antt =====
-- crates/engine/src/ca.rs: the local certificate authority. The credential store is one optional
-- secret, and an argument says how the calls to it go. Certificates, keys, the hash and the JSON
-- of a stored authority are parameters. Times are nanoseconds after the Unix epoch.
pub mod Store
pub mod Leaf
pub mod Manager
pub mod Consent
mod Tests
use sippin_soda.Base.{
  ℕ, ◌+◌, ◌-◌, ◌*◌, ◌/◌, ◌%◌, Bool, true, false, not, ◌&&◌, ◌||◌, Option, none, some, List, [], ◌∷◌,
  ltb, leb, ◌==◌, if◌then◌else◌, String, Result, ok, err, ok_or, ◌>>=◌, refuse_if, ◌>>◌, map_err,
  all, is_some, is_ok, min, map, length,
}
use sippin_soda.Text.{
  Text, text, trim, trim_start_matches, trim_end_matches, to_ascii_lowercase, split, is_empty, len,
  is_ascii, is_ascii_alphanumeric, starts_with, ends_with,
}
use sippin_soda.Text.Ip.{parse_ip}
use sippin_soda.Policy.{DestinationClass, authorize, inspect_tls}
use sippin_soda.Tls.{CaStatus, IssuedLeaf}
use sippin_soda.Bodies.{Bytes}

-- `CaStatus::absent()`.
abbrev pub absent : CaStatus
absent = record {
  state = text "absent";
  fingerprint_sha256 = none;
  created_at = none;
  expires_at = none;
  installed_by_app = false;
  https_inspection = false;
}

-- `struct StoredCa`.
pub record StoredCa : Type 0 where
  pub certificate_pem : Text
  pub private_key_pem : Text
  pub fingerprint_sha256 : Text
  pub created_at : ℕ
  pub expires_at : ℕ

unfoldable pub status_from : StoredCa → CaStatus
status_from ca = record {
  state = text "ready";
  fingerprint_sha256 = some ca.fingerprint_sha256;
  created_at = some ca.created_at;
  expires_at = some ca.expires_at;
  installed_by_app = false;
  https_inspection = false;
}

-- What the engine uses of `KeyPair` and `Certificate`.
pub record KeyPair : Type 0 where
  pub pem : Text
  pub der : Bytes

pub record Certificate : Type 0 where
  pub pem : Text
  pub der : Bytes

pub data KeyUsage : Type 0 where
  key_cert_sign crl_sign digital_signature key_encipherment server_auth : KeyUsage

-- The fields of `CertificateParams` that the engine sets.
pub record CertificateParams : Type 0 where
  pub names : List Text
  pub organization : Text
  pub common_name : Text
  pub is_ca : Bool
  pub key_usages : List KeyUsage
  pub extended_key_usages : List KeyUsage
  pub not_before : ℕ
  pub not_after : ℕ

-- The crates that the authority calls: rcgen, sha2, serde_json and time.
pub record Crates : Type 0 where
  pub params_new : List Text → Bool
  pub self_signed : CertificateParams → KeyPair → Option Certificate
  pub key_from_pem : Text → Option KeyPair
  pub issuer_from : Text → KeyPair → Bool
  pub signed_by : CertificateParams → KeyPair → Text → KeyPair → Option Certificate
  pub sha256 : Bytes → Bytes
  pub to_vec : StoredCa → Option Bytes
  pub from_slice : Bytes → Option StoredCa
  pub from_unix_timestamp : ℕ → Option ℕ

abbrev pub second : ℕ
second = 1000000000

abbrev pub hours : ℕ → ℕ
hours n = n * 3600 * second

abbrev days : ℕ → ℕ
days n = hours (n * 24)

abbrev minutes : ℕ → ℕ
minutes n = n * 60 * second

-- `(time.unix_timestamp() as u64) * 1000`.
abbrev pub timestamp_ms : ℕ → ℕ
timestamp_ms time = time / second * 1000

abbrev hex_digit : ℕ → ℕ
hex_digit n = if ltb n 10 then b'0' + n else b'A' + (n - 10)

-- `format!("{byte:02X}")`, and the parts joined by ":".
unfoldable pub fingerprint : Bytes → Text
fingerprint [] = []
fingerprint (byte ∷ []) = hex_digit (byte / 16) ∷ hex_digit (byte % 16) ∷ []
fingerprint (byte ∷ next ∷ bytes) =
    hex_digit (byte / 16) ∷ hex_digit (byte % 16) ∷ b':' ∷ fingerprint (next ∷ bytes)

abbrev organization_name : Text
organization_name = text "Sippin Soda local development"

abbrev ca_params : ℕ → CertificateParams
ca_params now = record {
  names = [];
  organization = organization_name;
  common_name = text "Sippin Soda Local Development CA";
  is_ca = true;
  key_usages = key_cert_sign ∷ crl_sign ∷ digital_signature ∷ [];
  extended_key_usages = [];
  not_before = now - minutes 5;
  not_after = now + days (5 * 365);
}

-- `generate_ca`, with the key that `KeyPair::generate` gives. `now_ms` is the clock's second reading.
unfoldable pub generate_ca : Crates → ℕ → Option KeyPair → ℕ → Result String StoredCa
unfolding fingerprint
generate_ca crates now generated now_ms = do
  refuse_if (not (crates.params_new [])) "Cannot initialize local CA parameters."
  key ← ok_or generated "Cannot generate the local CA key."
  certificate ←
      ok_or (crates.self_signed (ca_params now) key) "Cannot self-sign the local CA certificate."
  ok (record {
    certificate_pem = certificate.pem;
    private_key_pem = key.pem;
    fingerprint_sha256 = fingerprint (crates.sha256 certificate.der);
    created_at = now_ms;
    expires_at = timestamp_ms (now + days (5 * 365));
  })

unfoldable pub valid_label : Text → Bool
unfolding len all starts_with ends_with
valid_label label =
    not (is_empty label)
    && leb (len label) 63
    && not (starts_with label (text "-"))
    && not (ends_with label (text "-"))
    && all (λ c. is_ascii_alphanumeric c || (c == b'-') || (c == b'_')) label

abbrev trimmed_host : Text → Text
trimmed_host host = to_ascii_lowercase (
    trim_end_matches (λ c. c == b'.')
      (trim_end_matches (λ c. c == b']') (trim_start_matches (λ c. c == b'[') (trim host))))

unfoldable pub is_leaf_host : Text → Bool
unfolding valid_label
is_leaf_host host =
    not (is_empty host)
    && leb (len host) 253
    && is_ascii host
    && (is_some (parse_ip host) || all valid_label (split b'.' host))

unfoldable pub normalize_leaf_host : Text → Result String Text
unfolding is_leaf_host
normalize_leaf_host host =
    if is_leaf_host (trimmed_host host)
    then ok (trimmed_host host)
    else err "Host certificates require a valid DNS name or IP address without a port."

abbrev leaf_params : Text → ℕ → ℕ → CertificateParams
leaf_params host now expires = record {
  names = host ∷ [];
  organization = organization_name;
  common_name = host;
  is_ca = false;
  key_usages = digital_signature ∷ key_encipherment ∷ [];
  extended_key_usages = server_auth ∷ [];
  not_before = now - minutes 5;
  not_after = expires;
}

-- `issue_leaf_from_ca`, with the key that `KeyPair::generate` gives.
unfoldable pub issue_leaf_from_ca :
    Crates → StoredCa → Text → DestinationClass → ℕ → Option KeyPair → Result String IssuedLeaf
unfolding normalize_leaf_host authorize
issue_leaf_from_ca crates ca raw_host destination now generated = do
  map_err (authorize destination inspect_tls)
      "TLS certificates can be issued only for Development destinations."
  host ← normalize_leaf_host raw_host
  ca_key ←
      ok_or (crates.key_from_pem ca.private_key_pem) "The stored local CA private key is invalid."
  refuse_if (not (crates.issuer_from ca.certificate_pem ca_key))
      "The stored local CA certificate is invalid."
  ca_expiry ←
      ok_or (crates.from_unix_timestamp (ca.expires_at / 1000))
        "The stored local CA expiry is invalid."
  refuse_if (leb (min (now + hours 24) ca_expiry) now)
      "The local CA has expired; remove and regenerate it."
  refuse_if (not (crates.params_new (host ∷ []))) "Cannot initialize host certificate parameters."
  key ← ok_or generated "Cannot generate the host private key."
  certificate ←
      ok_or
        (crates.signed_by (leaf_params host now (min (now + hours 24) ca_expiry)) key
          ca.certificate_pem ca_key)
        "Cannot sign the host certificate with the local CA."
  ok (record {
    certificate_der = certificate.der;
    private_key_der = key.der;
    issuer_fingerprint_sha256 = ca.fingerprint_sha256;
    host = host;
    expires_at = timestamp_ms (min (now + hours 24) ca_expiry);
  })
