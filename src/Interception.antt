-- ===== src/Interception.antt =====
-- crates/engine/src/proxy.rs: `ProxyTlsInterception`, which decides for a tunnel whether the proxy
-- may end its TLS connection, and with which certificate. The platform's TLS configuration is an
-- argument that is there or not; the authority may change between the two calls to it.
pub mod Route
pub mod Samples
mod Tests
use sippin_soda.Base.{
  ℕ, Bool, true, false, not, ◌||◌, Option, none, some, if◌then◌else◌, String, Result, ok, err,
  ◌>>=◌, refuse_if, ◌>>◌, is_some_and,
}
use sippin_soda.Text.{Text, text_eq}
use sippin_soda.Policy.{DestinationClass, is_development}
use sippin_soda.Tls.{CaStatus, IssuedLeaf, validate_id, is_fingerprint}
use sippin_soda.TrustCheck.{TlsTrustCheckManager, readiness}
use sippin_soda.Ca.{Crates, KeyPair}
use sippin_soda.Ca.Store.{Access, Secret, status, issue_leaf}

-- `ProxyTlsInterception::platform`, of which the profile id is left, and `platform_tls_client_config`
-- succeeds or not.
unfoldable pub platform : Text → Bool → String → Result String Text
platform profile_id config_built config_error = do
  valid ← validate_id profile_id
  refuse_if (not config_built) config_error
  ok valid

-- The authority and the trust check as a call of the leaf issuer finds them: the credential store at
-- its status and at the issue, and the two readings of the clock.
pub record Surroundings : Type 0 where
  pub crates : Crates
  pub trust : TlsTrustCheckManager
  pub status_access : Access
  pub status_secret : Secret
  pub checked_at : ℕ
  pub issue_access : Access
  pub issue_secret : Secret
  pub issued_at : ℕ
  pub key : Option KeyPair

unfoldable pub trust_ready : TlsTrustCheckManager → CaStatus → Text → ℕ → Bool
unfolding readiness
trust_ready trust ca profile_id now =
    is_some_and (readiness trust ca profile_id now) (λ r. r.can_inspect_development)

-- The closure `issue_leaf`.
unfoldable pub issue_route_leaf :
    Surroundings → Text → Text → DestinationClass → Result String (Option IssuedLeaf)
issue_route_leaf s profile_id host destination =
    if not (is_development destination) then ok none else do
      ca ← status s.crates s.status_access s.status_secret
      elim (trust_ready s.trust ca profile_id s.checked_at) [
        | false ↦ ok none
        | true ↦ do
          leaf ←
              issue_leaf s.crates s.issue_access s.issue_secret host destination s.issued_at s.key
          refuse_if (not (is_fingerprint leaf.issuer_fingerprint_sha256 ca.fingerprint_sha256))
              "The local CA changed while preparing TLS interception."
          ok (some leaf)
      ]

-- `struct TlsInterceptRoute`, less the upstream configuration.
pub record TlsInterceptRoute : Type 0 where
  pub host : Text
  pub leaf : IssuedLeaf

abbrev pub is_profile : Option Text → Text → Bool
is_profile none profile_id = false
is_profile (some client) profile_id = text_eq client profile_id

-- `prepare`, where the blocking worker ends as `worker_ended` says.
unfoldable pub prepare_route :
    Surroundings
    → Bool
    → Text
    → Text
    → DestinationClass
    → Option Text
    → Result String (Option TlsInterceptRoute)
prepare_route s worker_ended profile_id host destination client_profile_id =
    if not (is_development destination) || not (is_profile client_profile_id profile_id)
    then ok none
    else do
      refuse_if (not worker_ended) "TLS certificate worker failed."
      leaf ← issue_route_leaf s profile_id host destination
      ok (elim leaf [ none ↦ none | some l ↦ some (record { host = host; leaf = l }) ])
