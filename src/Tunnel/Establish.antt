-- ===== src/Tunnel/Establish.antt =====
-- Which tunnels come about.
use sippin_soda.Base.{
  ℕ, ◌*◌, ◌≡◌, refl, ap, ◌∙◌, arith, false, not, ◌||◌, Option, none, some, Result, ok, err, ok_or,
  map_err, refuse_if-eq-ok, >>=-eq-ok, ok_or-eq-ok, ok_inj, subst, is_some, All,
}
use sippin_soda.Text.{Text, text, contains}
use sippin_soda.Policy.{DestinationClass}
use sippin_soda.Requests.{HeaderOps, Request}
use sippin_soda.Ca.{second}
use sippin_soda.Interception.{TlsInterceptRoute, prepare_route}
use sippin_soda.Interception.Route.{IsAllowed, prepare_route-IsAllowed}
use sippin_soda.Dispatch.{connect_upstream, unbracketed, contains_key}
use sippin_soda.Dispatch.Upstream.{IsElsewhere, connect_upstream-IsElsewhere}
use sippin_soda.Tunnel.{
  Target, Interceptor, Tunnel, Network, has_length, nonzero_port, connect_target,
  prepare_interception, open_tunnel,
}

-- What holds of a tunnel that was opened for the request.
pub record IsOpened {M : Type 0} (ops : HeaderOps M) (r : Request M) (target : Target)
    (net : Network) (destination : DestinationClass) (client : Option Text)
    (tls : Option Interceptor) (tunnel : Tunnel) : Type 0 where
  pub authority : r.authority ≡ some tunnel.authority
  pub plain : contains tunnel.authority b'@' ≡ false
  pub bare : (r.scheme ≡ none) × (target.has_path ≡ false)
  pub port : ℕ
  pub port_is : target.port ≡ some port
  pub nonzero : ¬ (port ≡ 0)
  pub no_body :
      (contains_key ops r.headers (text "transfer-encoding") ≡ false)
      × (contains_key ops r.headers (text "upgrade") ≡ false)
      × (has_length ops r.headers ≡ false)
  pub elsewhere : All (IsElsewhere net.proxy) tunnel.upstream
  pub intercepted :
      (route : TlsInterceptRoute)
      → tunnel.interception ≡ some route
      → (by : Interceptor) × (tls ≡ some by)
        × IsAllowed by.surroundings by.profile_id (unbracketed target.host) destination client route

nonzero_port-some :
    (port : Option ℕ) (p : ℕ) → nonzero_port port ≡ some p → (port ≡ some p) × (¬ (p ≡ 0))
nonzero_port-some none p h = cc
nonzero_port-some (some q) p h = ground arith

none_some : {A : Type 0} {a : A} → ¬ (Path (Option A) none (some a))
none_some e = cc

map_err-eq-ok :
    {A E F : Type 0} (result : Result E A) (cause : F) (a : A)
    → map_err result cause ≡ ok a
    → result ≡ ok a
map_err-eq-ok (ok b) cause a h = ap ok (ok_inj h)
map_err-eq-ok (err e) cause a h = cc

prepare_interception-some :
    (tls : Option Interceptor) (host : Text) (destination : DestinationClass) (client : Option Text)
    (found : Option TlsInterceptRoute) (route : TlsInterceptRoute)
    → prepare_interception tls host destination client ≡ ok found
    → found ≡ some route
    → (by : Interceptor) × (tls ≡ some by)
      × (prepare_route by.surroundings by.worker_ended by.profile_id host destination client
          ≡ ok (some route))
unfolding prepare_interception
prepare_interception-some none host destination client found route h e =
    absurd (none_some (ok_inj h ∙ e))
prepare_interception-some (some by) host destination client found route h e =
    (by, refl, map_err-eq-ok _ _ found h ∙ ap ok e)

-- What a target that passes the checks is like.
connect_target-ok :
    {M : Type 0} (ops : HeaderOps M) (r : Request M) (target : Target) (authority : Text) (port : ℕ)
    → connect_target ops r target ≡ ok (authority, port)
    → (r.authority ≡ some authority)
      × ((is_some r.scheme || target.has_path || contains authority b'@') ≡ false)
      × (target.port ≡ some port)
      × (¬ (port ≡ 0))
      × ((contains_key ops r.headers (text "transfer-encoding")
            || contains_key ops r.headers (text "upgrade")
            || has_length ops r.headers)
          ≡ false)
unfolding connect_target
connect_target-ok ops r target authority port h =
    let (named, c1, c2) = >>=-eq-ok (ok_or r.authority _) _ h in
    let (bare, c3) =
      refuse_if-eq-ok (is_some r.scheme || target.has_path || contains named b'@') _ _ c2 in
    let (at, c4, c5) = >>=-eq-ok (ok_or (nonzero_port target.port) _) _ c3 in
    let (bodyless, c6) =
      refuse_if-eq-ok
        (contains_key ops r.headers (text "transfer-encoding")
          || contains_key ops r.headers (text "upgrade")
          || has_length ops r.headers)
        _ _ c5 in
    let same = ok_inj c6 in
    let (ported, nonzero) = nonzero_port-some target.port at (ok_or-eq-ok _ _ c4) in
    let same_name : named ≡ authority = ap (λ x. x.0) same in
    let same_port : at ≡ port = ap (λ x. x.1) same in
    (
      ok_or-eq-ok r.authority _ c1 ∙ ap some same_name,
      subst (λ n. (is_some r.scheme || target.has_path || contains n b'@') ≡ false) same_name bare,
      ported ∙ ap some same_port,
      (λ z. nonzero (same_port ∙ z)),
      bodyless,
    )

pub is_some-none : (o : Option Text) → is_some o ≡ false → o ≡ none
is_some-none none h = refl
is_some-none (some a) h = cc

-- A tunnel is opened only for an authority with a port and nothing else, without a body or an
-- upgrade, to addresses that are not the proxy's own; and its TLS is intercepted only where the
-- interception is allowed.
pub open_tunnel-IsOpened :
    {M : Type 0} (ops : HeaderOps M) (r : Request M) (target : Target) (net : Network)
    (destination : DestinationClass) (client : Option Text) (tls : Option Interceptor)
    (tunnel : Tunnel)
    → ((by : Interceptor) (seconds t : ℕ)
        → tls ≡ some by
        → by.surroundings.crates.from_unix_timestamp seconds ≡ some t
        → t ≡ seconds * second)
    → open_tunnel ops r target net destination client tls ≡ ok tunnel
    → IsOpened ops r target net destination client tls tunnel
unfolding open_tunnel
open_tunnel-IsOpened ops r target net destination client tls tunnel exact h =
    let ((authority, port), checked, h1) = >>=-eq-ok (connect_target ops r target) _ h in
    let (named, bare, ported, nonzero, bodyless) =
      connect_target-ok ops r target authority port checked in
    let (found, prepared, h2) =
      >>=-eq-ok (prepare_interception tls (unbracketed target.host) destination client) _ h1 in
    let (addresses, connected, h3) =
      >>=-eq-ok
        (connect_upstream net.proxy (net.resolve (unbracketed target.host) port) net.connects) _
        h2 in
    let (_, h4) = refuse_if-eq-ok (not net.owned) _ _ h3 in
    subst (IsOpened ops r target net destination client tls) (ok_inj h4) (record {
      authority = named;
      plain = ground (arith, bare);
      bare = (is_some-none r.scheme (ground (arith, bare)), ground (arith, bare));
      port = port;
      port_is = ported;
      nonzero = nonzero;
      no_body = (ground (arith, bodyless), ground (arith, bodyless), ground (arith, bodyless));
      elsewhere =
          (connect_upstream-IsElsewhere net.proxy (net.resolve (unbracketed target.host) port)
            net.connects addresses connected).1;
      intercepted = λ route is.
          let (by, has, made) =
            prepare_interception-some tls (unbracketed target.host) destination client found route
              prepared is in
          (
            by,
            has,
            prepare_route-IsAllowed by.surroundings by.worker_ended by.profile_id
                (unbracketed target.host) destination client route
                (λ seconds t. exact by seconds t has) made,
          );
    })
