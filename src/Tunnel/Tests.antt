-- ===== src/Tunnel/Tests.antt =====
-- A tunnel that is intercepted, and one that the proxy has stopped waiting for.
use sippin_soda.Base.{
  ℕ, ◌*◌, ◌≡◌, refl, sym, ap, ◌∙◌, ◌⊎◌, true, false, some, none, List, [], ◌∷◌, ok, err, some_inj,
  find,
}
use sippin_soda.Text.{text, methods}
use sippin_soda.Text.Ip.{v4, is_loopback, is_unspecified, to_canonical, parse_ip}
use sippin_soda.Policy.{development, authorize}
use sippin_soda.Status.{SocketAddr}
use sippin_soda.Tls.{readiness_at}
use sippin_soda.TrustCheck.{readiness}
use sippin_soda.Requests.{HeaderOps, Request, safe_target, safe_headers, replay_template}
use sippin_soda.Ca.{
  second, status_from, issue_leaf_from_ca, normalize_leaf_host, is_leaf_host, valid_label,
}
use sippin_soda.Ca.Store.{status, load, issue_leaf}
use sippin_soda.Interception.{prepare_route, issue_route_leaf, trust_ready}
use sippin_soda.Interception.Samples.{surroundings, route}
use sippin_soda.Engine.{State, default_state}
use sippin_soda.Engine.Traffic.{Capture, is_pending, change}
use sippin_soda.Engine.Exchange.{
  capture_of, begin_exchange, update, finish, note_end, drop_exchange, new_capture,
  finished_capture,
}
use sippin_soda.Dispatch.{
  leads_back, connect_upstream, ForwardError, Attempt, relays, timed_out, fails, contains_key,
}
use sippin_soda.Tunnel.{
  ends, aborted, Target, Interceptor, Tunnel, Network, open_tunnel, connect_target, has_length,
  prepare_interception, establish, run, run_message, intercepted_message, copied, out_of_time,
  inner_check, same_target, forward_inner, inner_answer,
}
use sippin_soda.Tunnel.Establish.{IsOpened, open_tunnel-IsOpened}
use sippin_soda.Tunnel.Run.{
  NamesTarget, IsSettled, run-IsSettled, inner_answer-ends, forward_inner-same_target,
  establish-err,
}

abbrev Headers : Type 0
Headers = Unit {0}

abbrev ops : HeaderOps Headers
ops = record { iter = λ m. []; get_all = λ m name. []; remove = λ m name. m }

abbrev request : Request Headers
request = record {
  method = text "CONNECT";
  scheme = none;
  authority = some (text "dev.test:443");
  host = some (text "dev.test");
  path = [];
  query = none;
  headers = tt;
  ended = true;
}

abbrev target : Target
target = record { port = some 443; has_path = false; host = text "dev.test" }

abbrev server : List SocketAddr
server = record { ip = v4 10 0 0 7; port = 443 } ∷ []

abbrev network : Network
network = record {
  proxy = record { ip = v4 127 0 0 1; port = 8080 };
  resolve = λ host port. some server;
  connects = true;
  owned = true;
  waiting = true;
}

abbrev interceptor : Interceptor
interceptor = record { profile_id = text "phone"; surroundings = surroundings; worker_ended = true }

abbrev tunnel : Tunnel
tunnel = record {
  upstream = server;
  interception = some route;
  authority = text "dev.test:443";
  destination = development;
  client_profile_id = some (text "phone");
}

opened :
    open_tunnel ops request target network development (some (text "phone")) (some interceptor)
    ≡ ok tunnel
unfolding open_tunnel connect_target has_length prepare_interception connect_upstream leads_back
    is_loopback is_unspecified to_canonical prepare_route issue_route_leaf trust_ready readiness
    readiness_at status load status_from issue_leaf issue_leaf_from_ca normalize_leaf_host
    is_leaf_host valid_label authorize methods parse_ip
opened = refl

-- The surroundings read times as the `time` crate does.
exact :
    (by : Interceptor) (seconds t : ℕ)
    → some interceptor ≡ some by
    → by.surroundings.crates.from_unix_timestamp seconds ≡ some t
    → t ≡ seconds * second
exact by seconds t has e =
    sym (some_inj (ap (λ i. i.surroundings.crates.from_unix_timestamp seconds) (some_inj has) ∙ e))

open_tunnel-IsOpened_example :
    IsOpened ops request target network development (some (text "phone")) (some interceptor) tunnel
open_tunnel-IsOpened_example =
    open_tunnel-IsOpened ops request target network development (some (text "phone"))
      (some interceptor) tunnel exact opened

abbrev begun : State Headers
begun = (begin_exchange ops default_state request development none none 0).1

abbrev ended : Capture
ended =
    finished_capture (some "Tunnel lifetime limit reached.") 3
      (new_capture ops 1 request development none none 0)

abbrev began : Capture
began = new_capture ops 1 request development none none 0

began_there : capture_of begun 1 ≡ some began
unfolding begin_exchange default_state find safe_target safe_headers replay_template methods
began_there = refl

-- An abort by Stop, five milliseconds after the start.
run-IsSettled_example :
    (after : Capture) × (capture_of (run begun 1 tunnel aborted 0 5) 1 ≡ some after)
    × IsSettled tunnel aborted 0 5 began after
run-IsSettled_example = run-IsSettled begun 1 tunnel aborted 0 5 began began_there

inner_answer-ends_test :
    ¬ (timed_out ≡ relays)
    → capture_of (inner_answer begun 1 timed_out 3).0 1 ≡ some ended
    → is_pending ended.phase ≡ false
inner_answer-ends_test = inner_answer-ends begun 1 timed_out 3 ended

run_test : capture_of (run begun 1 tunnel (ends true out_of_time copied) 3 4) 1 ≡ some ended
unfolding run run_message intercepted_message begin_exchange finish note_end update change
    default_state find safe_target safe_headers replay_template drop_exchange methods
run_test = refl

-- A request for another host, inside the tunnel.
abbrev other_request : Request Headers
other_request = record request {
  method = text "GET";
  scheme = some (text "https");
  authority = some (text "other.test");
}

abbrev sends : State Headers → State Headers × Attempt
sends s = (s, relays)

other_target_test :
    (forward_inner ops begun 1 other_request (text "dev.test:443") true sends).1
    ≡ fails (400, "An origin-form HTTPS request target is required inside CONNECT.")
unfolding forward_inner inner_check same_target methods
other_target_test = refl

-- A request for the tunnel's own target, in capitals.
abbrev capital_request : Request Headers
capital_request = record other_request { authority = some (text "DEV.test:443") }

capital_test :
    (forward_inner ops begun 1 capital_request (text "dev.test:443") true sends).1 ≡ relays
unfolding forward_inner inner_check same_target methods
capital_test = refl

forward_inner-same_target_example :
    ((cause : ForwardError) × (forward_inner ops begun 1 capital_request
          (text "dev.test:443")
          true
          sends
        ≡ (begun, fails cause)))
    ⊎ ((contains_key ops tt (text "upgrade") ≡ false)
        × (((capital_request.scheme ≡ none) × (capital_request.authority ≡ none))
            ⊎ NamesTarget capital_request (text "dev.test:443") true))
forward_inner-same_target_example =
    forward_inner-same_target ops begun 1 capital_request (text "dev.test:443") true sends

abbrev stopping : Network
stopping = record network { waiting = false }

gone :
    (establish ops begun 1 request target stopping development none none).1
    ≡ err (503, "Proxy is stopping.")
unfolding establish open_tunnel connect_target has_length prepare_interception connect_upstream
    leads_back is_loopback is_unspecified to_canonical methods
gone = refl

establish-err_example :
    ((establish ops begun 1 request target stopping development none none).0 ≡ begun)
    ⊎ ((false ≡ false)
        × (Path ForwardError (503, "Proxy is stopping.") (503, "Proxy is stopping.")))
establish-err_example =
    establish-err ops begun 1 request target stopping development none none
      (503, "Proxy is stopping.") gone
