-- ===== src/Interception/Route.antt =====
-- When the proxy may end the TLS connection of a tunnel.
use sippin_soda.Base.{
  ℕ, ◌*◌, ◌≡◌, refl, sym, ap, inl, inr, arith, Bool, true, not, Option, none, some, ok, ok_or,
  map_err, Option-cases, Result-cases, refuse_if-eq-ok, >>=-eq-ok, ◌∙◌, ok_or-eq-ok,
}
use sippin_soda.Text.{Text}
use sippin_soda.Text.Laws.{text_eq→eq}
use sippin_soda.Policy.{DestinationClass, development, is_development, authorize, inspect_tls}
use sippin_soda.Tls.{
  CaStatus, IssuedLeaf, TlsInspectionGate, readiness_at, ready, is_ready, is_fingerprint,
}
use sippin_soda.Tls.Readiness.{IsReady, readiness_at_iff, is_ready→eq}
use sippin_soda.TrustCheck.{TlsTrustCheckManager, readiness}
use sippin_soda.Ca.{StoredCa, Crates, second, issue_leaf_from_ca}
use sippin_soda.Ca.Leaf.{IsLeafOf, issue_leaf_from_ca-IsLeafOf}
use sippin_soda.Ca.Store.{status, issue_leaf, load}
use sippin_soda.Interception.{
  Surroundings, TlsInterceptRoute, trust_ready, issue_route_leaf, prepare_route, is_profile,
}

-- What holds when a tunnel of the client to the host is intercepted.
pub record IsAllowed (s : Surroundings) (profile_id host : Text) (destination : DestinationClass)
    (client : Option Text) (route : TlsInterceptRoute) : Type 0 where
  pub class : destination ≡ development
  pub same_client : client ≡ some profile_id
  pub same_host : route.host ≡ host
  pub gate : TlsInspectionGate
  pub ca : CaStatus
  pub proved : s.trust.gate ≡ some gate
  pub reported : status s.crates s.status_access s.status_secret ≡ ok ca
  pub ready : IsReady gate ca profile_id s.checked_at
  pub stored : StoredCa
  pub loaded : load s.crates s.issue_access s.issue_secret ≡ ok (some stored)
  pub leaf : IsLeafOf stored host destination s.issued_at route.leaf
  pub same_ca : ca.fingerprint_sha256 ≡ some route.leaf.issuer_fingerprint_sha256

is_development→eq : (d : DestinationClass) → is_development d ≡ true → d ≡ development
is_development→eq development h = refl
is_development→eq d h = cc

is_profile→eq :
    (client : Option Text) (profile : Text)
    → is_profile client profile ≡ true
    → client ≡ some profile
is_profile→eq none profile h = cc
is_profile→eq (some c) profile h = ap some (text_eq→eq c profile h)

is_fingerprint→eq : (f : Text) (o : Option Text) → is_fingerprint f o ≡ true → o ≡ some f
is_fingerprint→eq f none h = cc
is_fingerprint→eq f (some g) h = ap some (sym (text_eq→eq f g h))

can_inspect-ready :
    (gate : TlsInspectionGate) (ca : CaStatus) (profile_id : Text) (now : ℕ)
    → (readiness_at gate ca profile_id now).can_inspect_development ≡ true
    → (readiness_at gate ca profile_id now).state ≡ ready
unfolding readiness_at
can_inspect-ready gate ca profile_id now h =
    is_ready→eq (readiness_at gate ca profile_id now).state h

pub trust_ready-IsReady :
    (trust : TlsTrustCheckManager) (ca : CaStatus) (profile_id : Text) (now : ℕ)
    → trust_ready trust ca profile_id now ≡ true
    → (gate : TlsInspectionGate) × (trust.gate ≡ some gate) × IsReady gate ca profile_id now
unfolding trust_ready readiness
trust_ready-IsReady trust ca profile_id now h = elim (Option-cases trust.gate) [
  | inl e ↦ ground arith
  | inr (gate, e) ↦ (
    gate,
    e,
    (readiness_at_iff gate ca profile_id now).0
        (can_inspect-ready gate ca profile_id now (ground arith)),
  )
]

issue_leaf-stored :
    (crates : Crates) (access : _) (secret : _) (host : Text) (destination : DestinationClass)
    (now : ℕ) (key : _) (leaf : IssuedLeaf)
    → issue_leaf crates access secret host destination now key ≡ ok leaf
    → (ca : StoredCa) × (load crates access secret ≡ ok (some ca))
      × (issue_leaf_from_ca crates ca host destination now key ≡ ok leaf)
unfolding issue_leaf
issue_leaf-stored crates access secret host destination now key leaf h =
    let (_, _, h1) = >>=-eq-ok (map_err (authorize destination inspect_tls) _) _ h in
    let (_, h2) = refuse_if-eq-ok (not access.lifecycle) _ _ h1 in
    let (stored, loaded, h3) = >>=-eq-ok (load crates access secret) _ h2 in
    let (ca, there, h4) = >>=-eq-ok (ok_or stored _) _ h3 in
    (ca, loaded ∙ ap ok (ok_or-eq-ok stored _ there), h4)

prepare_route-parts :
    (s : Surroundings) (worker_ended : Bool) (profile_id host : Text)
    (destination : DestinationClass) (client : Option Text) (route : TlsInterceptRoute)
    → prepare_route s worker_ended profile_id host destination client ≡ ok (some route)
    → (is_development destination ≡ true)
      × (is_profile client profile_id ≡ true)
      × (route.host ≡ host)
      × (issue_route_leaf s profile_id host destination ≡ ok (some route.leaf))
unfolding prepare_route
prepare_route-parts s worker_ended profile_id host destination client route h =
    (ground arith, ground arith, ground arith, ground arith)

issue_route_leaf-parts :
    (s : Surroundings) (profile_id host : Text) (destination : DestinationClass) (leaf : IssuedLeaf)
    → issue_route_leaf s profile_id host destination ≡ ok (some leaf)
    → (ca : CaStatus) × (status s.crates s.status_access s.status_secret ≡ ok ca)
      × (trust_ready s.trust ca profile_id s.checked_at ≡ true)
      × (issue_leaf s.crates s.issue_access s.issue_secret host destination s.issued_at s.key
          ≡ ok leaf)
      × (is_fingerprint leaf.issuer_fingerprint_sha256 ca.fingerprint_sha256 ≡ true)
unfolding issue_route_leaf
issue_route_leaf-parts s profile_id host destination leaf h =
    elim (Result-cases (status s.crates s.status_access s.status_secret)) [
      | inl (ca, e) ↦ (ca, e, ground arith, ground arith, ground arith)
      | inr (cause, e) ↦ ground arith
    ]

pub prepare_route-IsAllowed :
    (s : Surroundings) (worker_ended : Bool) (profile_id host : Text)
    (destination : DestinationClass) (client : Option Text) (route : TlsInterceptRoute)
    → ((seconds t : ℕ) → s.crates.from_unix_timestamp seconds ≡ some t → t ≡ seconds * second)
    → prepare_route s worker_ended profile_id host destination client ≡ ok (some route)
    → IsAllowed s profile_id host destination client route
prepare_route-IsAllowed s worker_ended profile_id host destination client route exact h =
    let (class, same, named, issued) =
      prepare_route-parts s worker_ended profile_id host destination client route h in
    let (ca, reported, trusted, made, same_ca) =
      issue_route_leaf-parts s profile_id host destination route.leaf issued in
    let (gate, proved, is_ready) = trust_ready-IsReady s.trust ca profile_id s.checked_at trusted in
    let (stored, loaded, from_ca) =
      issue_leaf-stored s.crates s.issue_access s.issue_secret host destination s.issued_at s.key
        route.leaf made in
    record {
      class = is_development→eq destination class;
      same_client = is_profile→eq client profile_id same;
      same_host = named;
      gate = gate;
      ca = ca;
      proved = proved;
      reported = reported;
      ready = is_ready;
      stored = stored;
      loaded = loaded;
      leaf =
          issue_leaf_from_ca-IsLeafOf s.crates stored host destination s.issued_at s.key route.leaf
            exact from_ca;
      same_ca =
          is_fingerprint→eq route.leaf.issuer_fingerprint_sha256 ca.fingerprint_sha256 same_ca;
    }
