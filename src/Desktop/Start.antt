-- ===== src/Desktop/Start.antt =====
-- What `start_proxy` checks before the proxy listens.
use sippin_soda.Base.{
  ◌^◌, ◌≤◌, ◌≡◌, refl, sym, ap, ◌∙◌, inl, inr, arith, Bool, true, false, not, ◌&&◌, Option, none,
  some, String, Result, ok, err, ok_or, leb, Result-cases, ok_inj, refuse_if-eq-ok, >>=-eq-ok,
  ok_or-eq-ok, subst,
}
use sippin_soda.Text.{Text}
use sippin_soda.Status.{SocketAddr}
use sippin_soda.Tls.{CaStatus, TlsInspectionGate, validate_id}
use sippin_soda.Tls.Readiness.{IsReady}
use sippin_soda.TrustCheck.{TlsTrustCheckManager}
use sippin_soda.Auth.{ProxyClientAuth}
use sippin_soda.Ca.Store.{Secret, status}
use sippin_soda.Interception.{platform, trust_ready}
use sippin_soda.Interception.Route.{trust_ready-IsReady}
use sippin_soda.Engine.Config.{ProxyConfig}
use sippin_soda.Engine.Control.{start, started}
use sippin_soda.Desktop.{
  Desktop, StartProxyOptions, Host, client_auth, profile_of, configured_interception,
  tls_interception, start_config, start_proxy,
}

-- The interception of the options, where a client profile has proved that it trusts the authority.
pub record IsTrusted (host : Host) (secret : Secret) (check : TlsTrustCheckManager)
    (auth : Option ProxyClientAuth) (profile : Text) : Type 0 where
  pub client : Text
  pub authenticated : profile_of auth ≡ some client
  pub valid : validate_id client ≡ ok profile
  pub ca : CaStatus
  pub reported : status host.crates host.access secret ≡ ok ca
  pub gate : TlsInspectionGate
  pub proved : check.gate ≡ some gate
  pub ready : IsReady gate ca client host.now

-- What a configuration that `start_proxy` passes on has passed.
pub record IsChecked (host : Host) (secret : Secret) (check : TlsTrustCheckManager)
    (options : StartProxyOptions) (config : ProxyConfig) : Type 0 where
  pub least : 2 ^ 30 ≤ config.body_disk_budget
  pub most : config.body_disk_budget ≤ 2 ^ 40
  pub auth :
      client_auth host.crypto options.client_profile_id options.client_token ≡ ok config.client_auth
  pub untouched : options.enable_https_inspection ≡ false → config.tls_interception ≡ none
  pub inspected :
      options.enable_https_inspection ≡ true
      → (profile : Text) × (config.tls_interception ≡ some profile)
        × IsTrusted host secret check config.client_auth profile

configured_interception-IsTrusted :
    (host : Host) (secret : Secret) (check : TlsTrustCheckManager) (auth : Option ProxyClientAuth)
    (profile : Text)
    → configured_interception host secret check auth ≡ ok profile
    → IsTrusted host secret check auth profile
unfolding configured_interception platform
configured_interception-IsTrusted host secret check auth profile h =
    let (client, named, h1) = >>=-eq-ok (ok_or (profile_of auth) _) _ h in
    let (_, h2) = refuse_if-eq-ok (not host.worker_ended) _ _ h1 in
    let (ca, reported, h3) = >>=-eq-ok (status host.crates host.access secret) _ h2 in
    let (trusted, h4) = refuse_if-eq-ok (not (trust_ready check ca client host.now)) _ _ h3 in
    let (valid_profile, valid, h5) = >>=-eq-ok (validate_id client) _ h4 in
    let (_, h6) = refuse_if-eq-ok (not host.tls_config) _ _ h5 in
    let (gate, proved, is_ready) =
      trust_ready-IsReady check ca client host.now (ground (arith, trusted)) in
    record {
      client = client;
      authenticated = ok_or-eq-ok (profile_of auth) _ named;
      valid = valid ∙ h6;
      ca = ca;
      reported = reported;
      gate = gate;
      proved = proved;
      ready = is_ready;
    }

tls_interception-on :
    (host : Host) (secret : Secret) (check : TlsTrustCheckManager) (enabled : Bool)
    (auth : Option ProxyClientAuth) (found : Option Text)
    → tls_interception host secret check enabled auth ≡ ok found
    → enabled ≡ true
    → (profile : Text) × (found ≡ some profile) × IsTrusted host secret check auth profile
unfolding tls_interception
tls_interception-on host secret check false auth found h on = cc
tls_interception-on host secret check true auth found h on =
    let (profile, configured, same) =
      >>=-eq-ok (configured_interception host secret check auth) _ h in
    (
      profile,
      sym (ok_inj same),
      configured_interception-IsTrusted host secret check auth profile configured,
    )

tls_interception-off :
    (host : Host) (secret : Secret) (check : TlsTrustCheckManager) (enabled : Bool)
    (auth : Option ProxyClientAuth) (found : Option Text)
    → tls_interception host secret check enabled auth ≡ ok found
    → enabled ≡ false
    → found ≡ none
unfolding tls_interception
tls_interception-off host secret check false auth found h off = sym (ok_inj h)
tls_interception-off host secret check true auth found h off = cc

-- A configuration that is passed on to the engine has a budget of 1 to 1024 GiB, which 64 bits
-- hold, the authentication that the options give, and HTTPS inspection exactly where the options
-- ask for it, for an authenticated profile that has proved its trust in the stored authority.
pub start_config-IsChecked :
    (host : Host) (secret : Secret) (check : TlsTrustCheckManager) (options : StartProxyOptions)
    (config : ProxyConfig)
    → start_config host secret check options ≡ ok config
    → IsChecked host secret check options config
unfolding start_config
start_config-IsChecked host secret check options config h =
    let (sized, h1) =
      refuse_if-eq-ok (not (leb 1 options.disk_budget_gib && leb options.disk_budget_gib 1024)) _ _
        h in
    let (auth, authenticated, h2) =
      >>=-eq-ok (client_auth host.crypto options.client_profile_id options.client_token) _ h1 in
    let (found, intercepted, h3) =
      >>=-eq-ok (tls_interception host secret check options.enable_https_inspection auth) _ h2 in
    subst (IsChecked host secret check options) (ok_inj h3) (record {
      least = ground (arith, sized);
      most = ground (arith, sized);
      auth = authenticated;
      untouched =
          tls_interception-off host secret check options.enable_https_inspection auth found
            intercepted;
      inspected =
          tls_interception-on host secret check options.enable_https_inspection auth found
            intercepted;
    })

start-err :
    {M : Type 0} (host : Host) (d : Desktop M) (config : ProxyConfig)
    (listener : Result String SocketAddr) (cause : String)
    → (start host.http d.engine config listener).1 ≡ err cause
    → (start host.http d.engine config listener).0 ≡ d.engine
unfolding start
start-err host d config listener cause h =
    elim (Result-cases (started host.http d.engine config listener)) [
      | inl (s, e) ↦ ground arith
      | inr (refusal, e) ↦ ground arith
    ]

start_proxy-start :
    {M : Type 0} (host : Host) (d : Desktop M) (options : StartProxyOptions)
    (listener : Result String SocketAddr) (config : ProxyConfig)
    → start_config host d.secret d.check options ≡ ok config
    → start_proxy host d options listener ≡ (
      record d { engine = (start host.http d.engine config listener).0 },
      (start host.http d.engine config listener).1,
    )
unfolding start_proxy
start_proxy-start host d options listener config e = rw (e, start_proxy) refl

-- The desktop with an engine put back is the desktop.
same_desktop : {M : Type 0} (d : Desktop M) (e : _) → e ≡ d.engine → record d { engine = e } ≡ d
same_desktop d e same = ap (λ x. record d { engine = x }) same

-- A start that fails, for its options, its rules or its port, changes nothing.
pub start_proxy-err :
    {M : Type 0} (host : Host) (d : Desktop M) (options : StartProxyOptions)
    (listener : Result String SocketAddr) (cause : String)
    → (start_proxy host d options listener).1 ≡ err cause
    → (start_proxy host d options listener).0 ≡ d
unfolding start_proxy
start_proxy-err host d options listener cause h =
    elim (Result-cases (start_config host d.secret d.check options)) [
      | inl (config, e) ↦
          let through = start_proxy-start host d options listener config e in
          ap (λ pair. pair.0) through
          ∙ same_desktop d _
              (start-err host d config listener cause (sym (ap (λ pair. pair.1) through) ∙ h))
      | inr (refusal, e) ↦ ground arith
    ]
