-- ===== src/Dispatch.antt =====
-- crates/engine/src/proxy.rs: `handle`, which admits a request, records its exchange and answers it;
-- `forward` up to its connection; and `connect_upstream`. Addresses, connections and the exchange
-- with the server are arguments.
pub mod Upstream
pub mod Admission
mod Tests
use sippin_soda.Base.{
  ℕ, Bool, true, false, not, ◌&&◌, ◌||◌, Option, none, some, List, [], ◌∷◌, if◌then◌else◌, ◌==◌,
  String, Result, ok, err, ok_or, ◌>>=◌, refuse_if, ◌>>◌, is_some, is_ok, any, take,
}
use sippin_soda.Text.{Text, text, text_eq, contains, trim_start_matches, trim_end_matches}
use sippin_soda.Text.Ip.{is_loopback, is_unspecified, to_canonical}
use sippin_soda.Policy.{DestinationClass, authorize}
use sippin_soda.Policy
use sippin_soda.Status.{SocketAddr}
use sippin_soda.Hosts.{classify}
use sippin_soda.Auth.{Crypto, ProxyClientAuth, accepts}
use sippin_soda.Requests.{HeaderOps, Request}
use sippin_soda.Engine.{State, ReplayAuthorization}
use sippin_soda.Engine.Exchange.{begin_exchange, update, finish, redeem}
use sippin_soda.Engine.Control.{host_or_empty}

-- `type ForwardError`.
abbrev pub ForwardError : Type 0
ForwardError = ℕ × String

-- What the lookup of a host comes to.
abbrev pub Resolution : Type 0
Resolution = Option (List SocketAddr)

-- The address is the proxy's port on this machine.
unfoldable pub leads_back : SocketAddr → SocketAddr → Bool
leads_back proxy address =
    (address.port == proxy.port)
    && (is_loopback (to_canonical address.ip) || is_unspecified (to_canonical address.ip))

abbrev no_addresses : List SocketAddr → Bool
no_addresses [] = true
no_addresses (a ∷ addresses) = false

-- `connect_upstream`: the addresses to one of which it has connected.
unfoldable pub connect_upstream :
    SocketAddr → Resolution → Bool → Result ForwardError (List SocketAddr)
connect_upstream proxy resolved connects = do
  found ← ok_or resolved (502, "Upstream DNS lookup failed.")
  refuse_if (no_addresses (take 16 found)) (502, "No upstream address found.")
  refuse_if (any (leads_back proxy) (take 16 found))
      (508, "Routing a request back to this proxy is not allowed.")
  refuse_if (not connects) (502, "Upstream connection failed.")
  ok (take 16 found)

-- `host.trim_start_matches('[').trim_end_matches(']')`.
abbrev pub unbracketed : Text → Text
unbracketed host = trim_end_matches (λ c. c == b']') (trim_start_matches (λ c. c == b'[') host)

-- `headers().contains_key(name)`.
abbrev pub contains_key : {M : Type 0} → HeaderOps M → M → Text → Bool
contains_key ops headers name = elim (ops.get_all headers name) [ [] ↦ false | v ∷ vs ↦ true ]

abbrev is_scheme : Option Text → Text → Bool
is_scheme none name = false
is_scheme (some scheme) name = text_eq scheme name

-- `uri.port_u16().unwrap_or(80)`.
abbrev port_or_80 : Option ℕ → ℕ
port_or_80 none = 80
port_or_80 (some port) = port

-- The checks of `forward`: the authority, and the host and the port to connect to. `port` is what
-- the uri has.
unfoldable pub forward_target :
    {M : Type 0} → HeaderOps M → Request M → Option ℕ → Result ForwardError (Text × Text × ℕ)
forward_target ops r port = do
  refuse_if (contains_key ops r.headers (text "upgrade"))
      (501, "HTTP protocol upgrades are not supported. Use CONNECT for opaque tunnels.")
  refuse_if (not (is_scheme r.scheme (text "http")))
      (400, "An absolute http:// target URL is required.")
  authority ← ok_or r.authority (400, "An absolute http:// target URL is required.")
  refuse_if (contains authority b'@') (400, "URL credentials are not supported.")
  ok (authority, unbracketed (host_or_empty r.host), port_or_80 port)

-- `forward` as far as its connection; `resolve` is the lookup.
unfoldable pub forward_connection :
    {M : Type 0}
    → HeaderOps M
    → Request M
    → Option ℕ
    → SocketAddr
    → (Text → ℕ → Resolution)
    → Bool
    → Result ForwardError (Text × List SocketAddr)
forward_connection ops r port proxy resolve connects = do
  (authority, host, at) ← forward_target ops r port
  addresses ← connect_upstream proxy (resolve host at) connects
  ok (authority, addresses)

-- What `handle` answers: what the exchange gave, or a status with a message of its own.
pub data Answer : Type 0 where
  relayed : Answer
  refused : ℕ → String → Answer

-- What `timeout(deadline, operation)` comes to.
pub data Attempt : Type 0 where
  relays timed_out : Attempt
  fails : ForwardError → Attempt

-- The client profile of a request that is admitted.
unfoldable pub admit :
    Crypto
    → Option ReplayAuthorization
    → Option ProxyClientAuth
    → Option Text
    → Option (Option Text)
admit crypto (some replay) auth header = some replay.client_profile_id
admit crypto none (some auth) header =
    if accepts crypto auth header then some (some auth.profile_id) else none
admit crypto none none header = some none

abbrev origin : Option ReplayAuthorization → Option ℕ
origin none = none
origin (some replay) = some replay.origin_id

-- A request as `handle` gets it: with the token of its replay header, the value of its
-- `proxy-authorization` header, and the time.
pub record Incoming (M : Type 0) : Type 0 where
  pub request : Request M
  pub token : Option Text
  pub header : Option Text
  pub now : ℕ

module _ {M : Type 0} where
  -- The authorization that the token of the replay header has; the header itself is removed.
  unfoldable pub redeem_header : State M → Option Text → Option ReplayAuthorization × State M
  redeem_header s none = (none, s)
  redeem_header s (some token) = redeem s token

  -- The end of `handle`, so many milliseconds after the start of the exchange.
  unfoldable pub answer : State M → ℕ → Attempt → ℕ → State M × Answer
  answer s id relays elapsed = (s, relayed)
  answer s id (fails (status, message)) elapsed = (
    finish (update s id (λ c. record c { status = some status })) id (some message) elapsed,
    refused status message,
  )
  answer s id timed_out elapsed = (
    finish (update s id (λ c. record c { status = some 504 })) id
        (some "Upstream request timed out.") elapsed,
    refused 504 "Upstream request timed out.",
  )

  -- The exchange, once the request is admitted and classified.
  unfoldable pub run_exchange :
      HeaderOps M
      → State M
      → Incoming M
      → DestinationClass
      → Option Text
      → Option ReplayAuthorization
      → (State M → ℕ → State M × Attempt)
      → ℕ
      → State M × Answer
  run_exchange ops s i class client replay operation elapsed =
      let (id, begun) = begin_exchange ops s i.request class client (origin replay) i.now in
      let (after, attempt) = operation begun id in answer after id attempt elapsed

  unfoldable pub handle_admitted :
      HeaderOps M
      → State M
      → Incoming M
      → Option Text
      → Option ReplayAuthorization
      → (State M → ℕ → State M × Attempt)
      → ℕ
      → State M × Answer
  handle_admitted ops s i client replay operation elapsed =
      let class = classify s.destination_classifier (host_or_empty i.request.host) in
      elim (is_some replay && not (is_ok (authorize class Policy.replay))) [
        | true ↦ (s, refused 403 "Replay is allowed only for Development destinations.")
        | false ↦ run_exchange ops s i class client replay operation elapsed
      ]

  -- `handle`.
  unfoldable pub handle :
      HeaderOps M
      → Crypto
      → State M
      → Incoming M
      → Option ProxyClientAuth
      → (State M → ℕ → State M × Attempt)
      → ℕ
      → State M × Answer
  handle ops crypto s i auth operation elapsed =
      let (replay, s') = redeem_header s i.token in
      elim (admit crypto replay auth i.header) [
        | none ↦ (s', refused 407 "Valid proxy client credentials are required.")
        | some client ↦ handle_admitted ops s' i client replay operation elapsed
      ]
