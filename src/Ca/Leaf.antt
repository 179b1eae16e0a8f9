-- ===== src/Ca/Leaf.antt =====
-- Which leaf certificates the authority issues.
use sippin_soda.Base.{
  ℕ, ◌+◌, ◌*◌, ◌/◌, ◌≤◌, ◌<◌, ◌≡◌, refl, sym, arith, true, not, Option, some, [], ◌∷◌, min, leb,
  String, ok, ok_or, map_err, ok_inj, refuse_if-eq-ok, if_ok, ok_or-eq-ok, >>=-eq-ok, subst,
}
use sippin_soda.Text.{Text}
use sippin_soda.Policy.{DestinationClass, development, authorize, inspect_tls}
use sippin_soda.Tls.{IssuedLeaf}
use sippin_soda.Ca.{
  StoredCa, Crates, KeyPair, second, hours, timestamp_ms, is_leaf_host, trimmed_host,
  normalize_leaf_host, issue_leaf_from_ca, leaf_params,
}

-- What holds of a leaf that the authority has issued at the time `now`.
pub record IsLeafOf (ca : StoredCa) (host : Text) (destination : DestinationClass) (now : ℕ)
    (leaf : IssuedLeaf) : Type 0 where
  pub class : destination ≡ development
  pub host_is : leaf.host ≡ trimmed_host host
  pub valid : is_leaf_host leaf.host ≡ true
  pub issuer : leaf.issuer_fingerprint_sha256 ≡ ca.fingerprint_sha256
  pub within_ca : leaf.expires_at ≤ ca.expires_at
  pub within_day : leaf.expires_at ≤ timestamp_ms (now + hours 24)
  pub not_past : timestamp_ms now ≤ leaf.expires_at

authorize_inspect-ok :
    (destination : DestinationClass) (cause : String) {done : Unit {0}}
    → map_err (authorize destination inspect_tls) cause ≡ ok done
    → destination ≡ development
unfolding authorize
authorize_inspect-ok DestinationClass.development cause h = refl
authorize_inspect-ok DestinationClass.production cause h = cc
authorize_inspect-ok DestinationClass.unknown cause h = cc

normalize_leaf_host-ok :
    (raw host : Text)
    → normalize_leaf_host raw ≡ ok host
    → (host ≡ trimmed_host raw) × (is_leaf_host host ≡ true)
unfolding normalize_leaf_host
normalize_leaf_host-ok raw host h =
    let (valid, same) = if_ok (is_leaf_host (trimmed_host raw)) _ _ h in
    (sym same, subst (λ host. is_leaf_host host ≡ true) same valid)

expiry_within :
    (now ca_expiry expires_at : ℕ)
    → ca_expiry ≡ expires_at / 1000 * second
    → now < min (now + hours 24) ca_expiry
    → (timestamp_ms (min (now + hours 24) ca_expiry) ≤ expires_at)
      × (timestamp_ms (min (now + hours 24) ca_expiry) ≤ timestamp_ms (now + hours 24))
      × (timestamp_ms now ≤ timestamp_ms (min (now + hours 24) ca_expiry))
expiry_within now ca_expiry expires_at e lt = (omega arith, omega arith, omega arith)

pub issue_leaf_from_ca-IsLeafOf :
    (crates : Crates) (ca : StoredCa) (host : Text) (destination : DestinationClass) (now : ℕ)
    (generated : Option KeyPair) (leaf : IssuedLeaf)
    → ((s t : ℕ) → crates.from_unix_timestamp s ≡ some t → t ≡ s * second)
    → issue_leaf_from_ca crates ca host destination now generated ≡ ok leaf
    → IsLeafOf ca host destination now leaf
unfolding issue_leaf_from_ca
issue_leaf_from_ca-IsLeafOf crates ca raw destination now generated leaf exact h =
    let (_, allowed, h1) = >>=-eq-ok (map_err (authorize destination inspect_tls) _) _ h in
    let (host, named, h2) = >>=-eq-ok (normalize_leaf_host raw) _ h1 in
    let (ca_key, keyed, h3) = >>=-eq-ok (ok_or (crates.key_from_pem ca.private_key_pem) _) _ h2 in
    let (_, h4) = refuse_if-eq-ok (not (crates.issuer_from ca.certificate_pem ca_key)) _ _ h3 in
    let (ca_expiry, dated, h5) =
      >>=-eq-ok (ok_or (crates.from_unix_timestamp (ca.expires_at / 1000)) _) _ h4 in
    let (alive, h6) = refuse_if-eq-ok (leb (min (now + hours 24) ca_expiry) now) _ _ h5 in
    let (_, h7) = refuse_if-eq-ok (not (crates.params_new (host ∷ []))) _ _ h6 in
    let (key, _, h8) = >>=-eq-ok (ok_or generated _) _ h7 in
    let (certificate, _, h9) =
      >>=-eq-ok
        (ok_or
          (crates.signed_by (leaf_params host now (min (now + hours 24) ca_expiry)) key
            ca.certificate_pem ca_key)
          _)
        _ h8 in
    let (host_is, valid) = normalize_leaf_host-ok raw host named in
    let (within_ca, within_day, not_past) =
      expiry_within now ca_expiry ca.expires_at (exact _ _ (ok_or-eq-ok _ _ dated))
        (ground (arith, alive)) in
    let same : _ ≡ leaf = ok_inj h9 in
    subst (IsLeafOf ca raw destination now) same (record {
      class = authorize_inspect-ok destination _ allowed;
      host_is = host_is;
      valid = valid;
      issuer = refl;
      within_ca = within_ca;
      within_day = within_day;
      not_past = not_past;
    })
