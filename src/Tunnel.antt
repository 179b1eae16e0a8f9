-- ===== src/Tunnel.antt =====
-- crates/engine/src/proxy/tunnel.rs: CONNECT tunnels, opaque or with verified TLS inside. Lookups,
-- connections, handshakes and transfers are arguments.
pub mod Establish
pub mod Run
mod Tests
use sippin_soda.Base.{
  ℕ, suc, ◌+◌, ◌++◌, Bool, true, false, not, ◌&&◌, ◌||◌, Option, none, some, List, [], ◌∷◌,
  if◌then◌else◌, ◌==◌, ltb, String, Result, ok, err, ok_or, ◌>>=◌, refuse_if, ◌>>◌, map_err,
  is_some, is_some_and,
}
use sippin_soda.Text.{Text, text, text_eq, eq_ignore_ascii_case, contains, parse_usize}
use sippin_soda.Policy.{DestinationClass}
use sippin_soda.Status.{SocketAddr}
use sippin_soda.Requests.{HeaderOps, HeaderValue, Request, clipped, safe_headers}
use sippin_soda.Interception.{Surroundings, TlsInterceptRoute, prepare_route}
use sippin_soda.Engine.{State, touch}
use sippin_soda.Engine.Traffic.{Capture, Kind}
use sippin_soda.Engine.Exchange.{begin_exchange, update, finish, drop_exchange}
use sippin_soda.Dispatch.{
  ForwardError, Resolution, connect_upstream, unbracketed, contains_key, Answer, relayed, refused,
  Attempt, relays, timed_out, fails,
}

-- `uri.port_u16()`, whether `uri.path_and_query()` is there, and `uri.authority().host()`.
pub record Target : Type 0 where
  pub port : Option ℕ
  pub has_path : Bool
  pub host : Text

-- The `tls_interception` of a proxy, in its surroundings.
pub record Interceptor : Type 0 where
  pub profile_id : Text
  pub surroundings : Surroundings
  pub worker_ended : Bool

-- `struct Tunnel`, less the two connections; `upstream` holds the addresses that were connected to.
pub record Tunnel : Type 0 where
  pub upstream : List SocketAddr
  pub interception : Option TlsInterceptRoute
  pub authority : Text
  pub destination : DestinationClass
  pub client_profile_id : Option Text

abbrev invalid : ForwardError
invalid = (400, "CONNECT requires an authority-only host:port target with no request body.")

abbrev is_zero : Option ℕ → Bool
is_zero none = false
is_zero (some n) = n == 0

abbrev parsed_length : Option Text → Option ℕ
parsed_length none = none
parsed_length (some t) = parse_usize t

-- The first `content-length`, if there is one, is not zero.
unfoldable pub has_length : {M : Type 0} → HeaderOps M → M → Bool
has_length ops headers = elim (ops.get_all headers (text "content-length")) [
  | [] ↦ false
  | v ∷ vs ↦ not (is_zero (parsed_length v.as_str))
]

abbrev nonzero_port : Option ℕ → Option ℕ
nonzero_port none = none
nonzero_port (some port) = if port == 0 then none else some port

-- The checks of `establish`: the authority and the port.
unfoldable pub connect_target :
    {M : Type 0} → HeaderOps M → Request M → Target → Result ForwardError (Text × ℕ)
connect_target ops r target = do
  authority ← ok_or r.authority invalid
  refuse_if (is_some r.scheme || target.has_path || contains authority b'@') invalid
  port ← ok_or (nonzero_port target.port) invalid
  refuse_if
      (contains_key ops r.headers (text "transfer-encoding")
        || contains_key ops r.headers (text "upgrade")
        || has_length ops r.headers)
      invalid
  ok (authority, port)

unfoldable pub prepare_interception :
    Option Interceptor
    → Text
    → DestinationClass
    → Option Text
    → Result ForwardError (Option TlsInterceptRoute)
prepare_interception none host destination client = ok none
prepare_interception (some tls) host destination client =
    map_err (prepare_route tls.surroundings tls.worker_ended tls.profile_id host destination client)
      (502, "TLS interception preparation failed.")

-- What `establish` is given besides the request: the proxy's address, the lookup, whether a
-- connection comes about, whether the slot of the tunnel's owner is still full, and whether the owner
-- still waits.
pub record Network : Type 0 where
  pub proxy : SocketAddr
  pub resolve : Text → ℕ → Resolution
  pub connects : Bool
  pub owned : Bool
  pub waiting : Bool

-- `establish` as far as the tunnel itself.
unfoldable pub open_tunnel :
    {M : Type 0}
    → HeaderOps M
    → Request M
    → Target
    → Network
    → DestinationClass
    → Option Text
    → Option Interceptor
    → Result ForwardError Tunnel
open_tunnel ops r target net destination client tls = do
  (authority, port) ← connect_target ops r target
  route ← prepare_interception tls (unbracketed target.host) destination client
  addresses ← connect_upstream net.proxy (net.resolve (unbracketed target.host) port) net.connects
  refuse_if (not net.owned) (500, "Tunnel owner is unavailable.")
  ok (record {
    upstream = addresses;
    interception = route;
    authority = authority;
    destination = destination;
    client_profile_id = client;
  })

-- How an intercepted tunnel ends, and an opaque one.
pub data InterceptedEnd : Type 0 where
  no_common_protocol handshakes_failed http2_failed http1_failed : InterceptedEnd
  ended_early transfer_failed out_of_time : InterceptedEnd

pub data OpaqueEnd : Type 0 where
  copied transport_failed lifetime_over : OpaqueEnd

unfoldable pub intercepted_message : InterceptedEnd → String
intercepted_message no_common_protocol =
    "TLS peers did not negotiate the required HTTP/1.1 protocol."
intercepted_message handshakes_failed = "Verified TLS handshakes failed."
intercepted_message http2_failed = "Upstream HTTPS HTTP/2 handshake failed."
intercepted_message http1_failed = "Upstream HTTPS HTTP/1 handshake failed."
intercepted_message ended_early = "The HTTPS connection ended before a complete HTTP exchange."
intercepted_message transfer_failed = "Inner HTTPS HTTP/1 transfer failed."
intercepted_message out_of_time = "Tunnel lifetime limit reached."

unfoldable pub opaque_message : OpaqueEnd → Option String
opaque_message copied = none
opaque_message transport_failed = some "Tunnel transport failed."
opaque_message lifetime_over = some "Tunnel lifetime limit reached."

-- How `Tunnel::run` ends: it comes to one of its ends, after the upgrade or without it, or its task is
-- aborted at any place before.
pub data RunEnd : Type 0 where
  ends : Bool → InterceptedEnd → OpaqueEnd → RunEnd
  aborted : RunEnd

-- What `Tunnel::run` finishes its exchange with.
unfoldable pub run_message : Tunnel → Bool → InterceptedEnd → OpaqueEnd → Option String
run_message tunnel upgraded intercepted opaque =
    if not upgraded then some "CONNECT upgrade failed or timed out." else elim tunnel.interception [
      | some route ↦ some (intercepted_message intercepted)
      | none ↦ opaque_message opaque
    ]

-- Whether a request inside an intercepted tunnel names the tunnel's own target; two authorities are
-- equal whatever their case.
unfoldable pub same_target : {M : Type 0} → Request M → Text → Bool → Bool
same_target r authority http2 =
    http2
    && is_some_and r.scheme (λ scheme. text_eq scheme (text "https"))
    && is_some_and r.authority (λ other. eq_ignore_ascii_case other authority)

-- The checks of `forward_intercepted_https`.
unfoldable pub inner_check :
    {M : Type 0} → HeaderOps M → Request M → Text → Bool → Result ForwardError (Unit {0})
inner_check ops r authority http2 = do
  refuse_if (contains_key ops r.headers (text "upgrade"))
      (501, "HTTPS protocol upgrades are not supported.")
  refuse_if ((is_some r.scheme || is_some r.authority) && not (same_target r authority http2))
      (400, "An origin-form HTTPS request target is required inside CONNECT.")
  ok tt

abbrev inner_capture : {M : Type 0} → HeaderOps M → Request M → Text → Capture → Capture
inner_capture ops r authority c = record c {
  kind = Kind.https;
  method = r.method;
  target =
      clipped authority 256
      ++ clipped r.path 1024
      ++ (if is_some r.query then text "?[REDACTED]" else []);
  status = none;
  request_headers = safe_headers ops r.headers;
  response_headers = [];
}

-- What `CountedIo` adds for bytes that the other side took.
abbrev pub counted : Bool → ℕ → Capture → Capture
counted true count c = record c { response_bytes = c.response_bytes + count }
counted false count c = record c { request_bytes = c.request_bytes + count }

module _ {M : Type 0} where
  abbrev note_kind : State M → ℕ → Option TlsInterceptRoute → State M
  note_kind s id none = s
  note_kind s id (some route) = update s id (λ c. record c { kind = Kind.tls })

  -- `establish`.
  unfoldable pub establish :
      HeaderOps M
      → State M
      → ℕ
      → Request M
      → Target
      → Network
      → DestinationClass
      → Option Text
      → Option Interceptor
      → State M × Result ForwardError Tunnel
  establish ops s id r target net destination client tls =
      elim (open_tunnel ops r target net destination client tls) [
        | err cause ↦ (s, err cause)
        | ok tunnel ↦ (
          touch (
              note_kind (update s id (λ c. record c { status = some 200 })) id tunnel.interception),
          if net.waiting then ok tunnel else err (503, "Proxy is stopping."),
        )
      ]

  -- `Tunnel::run`: what it does to its own exchange when it ends, so many milliseconds after the
  -- exchange began, and when its last owner is dropped, which is all that an abort does.
  unfoldable pub run : State M → ℕ → Tunnel → RunEnd → ℕ → ℕ → State M
  run s id tunnel (ends upgraded intercepted opaque) elapsed dropped =
      drop_exchange (finish s id (run_message tunnel upgraded intercepted opaque) elapsed) id
        dropped
  run s id tunnel aborted elapsed dropped = drop_exchange s id dropped

  -- The exchange of a request inside the tunnel: the tunnel's own for the first.
  unfoldable pub inner_exchange :
      HeaderOps M → State M → ℕ → Bool → Request M → Tunnel → ℕ → ℕ × State M
  inner_exchange ops s id true r tunnel now = (id, s)
  inner_exchange ops s id false r tunnel now =
      begin_exchange ops s r tunnel.destination tunnel.client_profile_id none now

  -- `forward_intercepted_https`, where `send` is the exchange with the server.
  unfoldable pub forward_inner :
      HeaderOps M
      → State M
      → ℕ
      → Request M
      → Text
      → Bool
      → (State M → State M × Attempt)
      → State M × Attempt
  forward_inner ops s id r authority http2 send = elim (inner_check ops r authority http2) [
    | err cause ↦ (s, fails cause)
    | ok _ ↦ send (touch (update s id (inner_capture ops r authority)))
  ]

  -- The end of the service for a request inside the tunnel.
  unfoldable pub inner_answer : State M → ℕ → Attempt → ℕ → State M × Answer
  inner_answer s id relays elapsed = (s, relayed)
  inner_answer s id (fails (status, message)) elapsed = (
    finish (update s id (λ c. record c { status = some status })) id (some message) elapsed,
    refused status message,
  )
  inner_answer s id timed_out elapsed = (
    finish (update s id (λ c. record c { status = some 504 })) id
        (some "Upstream HTTPS request timed out.") elapsed,
    refused 504 "Upstream HTTPS request timed out.",
  )

  -- `CountedIo::poll_write`, when the write is ready with a count.
  unfoldable pub count_written : State M → ℕ → Bool → ℕ → State M
  count_written s id response count =
      if ltb 0 count then touch (update s id (counted response count)) else s
