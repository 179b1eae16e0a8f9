-- ===== src/Dispatch/Tests.antt =====
-- Requests that the proxy refuses and admits.
use sippin_soda.Base.{
  ℕ, ◌≡◌, ◌≤◌, refl, true, false, some, none, List, [], ◌∷◌, ok, err, length, any, All, find,
}
use sippin_soda.Text.{text, methods}
use sippin_soda.Text.Ip.{v4, is_loopback, is_unspecified, to_canonical}
use sippin_soda.Policy.{development}
use sippin_soda.Status.{SocketAddr}
use sippin_soda.Auth.{Crypto, ProxyClientAuth, accepts}
use sippin_soda.Requests.{HeaderOps, Request, safe_target, safe_headers, replay_template}
use sippin_soda.Engine.{State, default_state}
use sippin_soda.Engine.Traffic.{Capture, is_pending, change}
use sippin_soda.Engine.Exchange.{
  capture_of, begin_exchange, update, finish, note_end, new_capture, finished_capture,
}
use sippin_soda.Dispatch.{
  leads_back, connect_upstream, refused, Attempt, fails, relays, answer, Incoming, handle, admit,
  redeem_header,
}
use sippin_soda.Dispatch.Upstream.{IsElsewhere, connect_upstream-IsElsewhere}
use sippin_soda.Dispatch.Admission.{Handled, handle-Handled, answer-ends}

abbrev proxy : SocketAddr
proxy = record { ip = v4 127 0 0 1; port = 8080 }

abbrev server : List SocketAddr
server = record { ip = v4 10 0 0 7; port = 8080 } ∷ []

connected : connect_upstream proxy (some server) true ≡ ok server
unfolding connect_upstream leads_back is_loopback is_unspecified to_canonical any
connected = refl

connect_upstream-IsElsewhere_example : (length server ≤ 16) × All (IsElsewhere proxy) server
connect_upstream-IsElsewhere_example =
    connect_upstream-IsElsewhere proxy (some server) true server connected

-- An alias of the proxy itself is refused.
loop_test :
    connect_upstream proxy (some (record { ip = v4 127 9 9 9; port = 8080 } ∷ [])) true
    ≡ err (508, "Routing a request back to this proxy is not allowed.")
unfolding connect_upstream leads_back is_loopback is_unspecified to_canonical any
loop_test = refl

abbrev Headers : Type 0
Headers = Unit {0}

abbrev ops : HeaderOps Headers
ops = record { iter = λ m. []; get_all = λ m name. []; remove = λ m name. m }

abbrev crypto : Crypto
crypto = record { decode = λ t. some t; sha256 = λ bytes. bytes }

abbrev auth : ProxyClientAuth
auth = record { profile_id = text "phone"; token_sha256 = text "t" }

abbrev request : Request Headers
request = record {
  method = text "GET";
  scheme = some (text "http");
  authority = some (text "a.dev");
  host = some (text "a.dev");
  path = text "/";
  query = none;
  headers = tt;
  ended = true;
}

abbrev incoming : Incoming Headers
incoming = record { request = request; token = none; header = some (text "Basic phone:t"); now = 0 }

abbrev fails_at_once : State Headers → ℕ → State Headers × Attempt
fails_at_once s id = (s, fails (502, "Upstream DNS lookup failed."))

handle-Handled_example :
    Handled ops crypto default_state incoming
      (some auth)
      fails_at_once
      3
      (handle ops crypto default_state incoming (some auth) fails_at_once 3)
handle-Handled_example =
    handle-Handled ops crypto default_state incoming (some auth) fails_at_once 3

refused_test :
    (handle ops crypto default_state
      (record incoming { header = none })
      (some auth)
      fails_at_once
      3).1
    ≡ refused 407 "Valid proxy client credentials are required."
unfolding handle redeem_header admit accepts
refused_test = refl

abbrev begun : State Headers
begun = (begin_exchange ops default_state request development none none 0).1

abbrev lost : Attempt
lost = fails (502, "Upstream DNS lookup failed.")

not_relays : ¬ (lost ≡ relays)
not_relays e = cc

abbrev ended : Capture
ended =
    finished_capture (some "Upstream DNS lookup failed.") 3
      (record (new_capture ops 1 request development none none 0) { status = some 502 })

found : capture_of (answer begun 1 lost 3).0 1 ≡ some ended
unfolding answer begin_exchange finish note_end update change default_state find safe_target
    safe_headers replay_template methods
found = refl

answer-ends_example : is_pending ended.phase ≡ false
answer-ends_example = answer-ends begun 1 lost 3 ended not_relays found
