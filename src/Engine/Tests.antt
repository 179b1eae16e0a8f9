-- ===== src/Engine/Tests.antt =====
-- A run of the engine whose header maps are empty.
use sippin_soda.Base.{◌≡◌, refl, true, ◌&&◌, none, some, [], ◌∷◌, List, ltb, leb, ok, find, any}
use sippin_soda.Text.{text, methods}
use sippin_soda.Text.Ip.{v4}
use sippin_soda.Policy.{development, running, authorize}
use sippin_soda.Rules.{Http}
use sippin_soda.Requests.{HeaderOps, Request, ReplayTemplate}
use sippin_soda.Base.Assoc.{lookup}
use sippin_soda.Status.{default_status}
use sippin_soda.Hosts.{classify}
use sippin_soda.Engine.Traffic.{Capture, Phase}
use sippin_soda.Engine.{State, default_state}
use sippin_soda.Engine.Exchange.{capture_of, new_capture}
use sippin_soda.Engine.Control.{prepare_replay}
use sippin_soda.Engine.Replay.{prepare_replay-allowed}
use sippin_soda.Engine.Config.{default_config}
use sippin_soda.Engine.Invariant.{IsWellFormed}
use sippin_soda.Engine.Steps.{
  Event, starts, begins, opens_breakpoint, notes_end, run, initial, run-IsWellFormed,
}

abbrev Headers : Type 0
Headers = Unit {0}

abbrev ops : HeaderOps Headers
ops = record { iter = λ m. []; get_all = λ m name. []; remove = λ m name. m }

abbrev http : Http
http = record {
  from_u16 = λ s. leb 100 s && ltb s 1000;
  is_success = λ s. leb 200 s && ltb s 300;
  is_redirection = λ s. leb 300 s && ltb s 400;
  is_client_error = λ s. leb 400 s && ltb s 500;
  is_server_error = λ s. leb 500 s && ltb s 600;
  method_from_bytes = λ method. true;
  header_value_from_str = λ value. true;
}

abbrev request : Request Headers
request = record {
  method = text "GET";
  scheme = some (text "http");
  authority = some (text "a.dev");
  host = some (text "a.dev");
  path = text "/";
  query = none;
  headers = tt;
  ended = true;
}

abbrev begin : Event Headers
begin = begins request development none none 0

-- One capture at most, breakpoints on, and two requests.
abbrev events : List (Event Headers)
events =
    starts (record default_config { capture_limit = 1; break_on_responses = true })
      (ok (record { ip = v4 127 0 0 1; port = 8080 }))
    ∷ begin
    ∷ opens_breakpoint 1 200 0
    ∷ begin
    ∷ notes_end 2 none 5
    ∷ []

run-IsWellFormed_example : IsWellFormed (run http ops initial events).shared
run-IsWellFormed_example = run-IsWellFormed http ops events

abbrev template : ReplayTemplate Headers
template = record {
  method = text "GET";
  scheme = some (text "http");
  authority = some (text "a.dev");
  host = some (text "localhost");
  path = text "/";
  query = none;
  headers = tt;
}

abbrev done : Capture
done = record (new_capture ops 7 request development none none 0) { phase = Phase.complete }

abbrev state : State Headers
state = record (default_state {M = Headers}) {
  status = record default_status { phase = running };
  traffic = done ∷ [];
  replay_templates = (7, template) ∷ [];
}

prepared : prepare_replay state 7 ≡ ok (template, state.status.listen_address, none)
unfolding prepare_replay lookup find any authorize classify default_state default_status methods
prepared = refl

prepare_replay-allowed_example :
    (running ≡ running)
    × (capture : Capture) × (capture_of state 7 ≡ some capture)
    × (capture.phase ≡ Phase.complete)
    × (capture.destination_class ≡ development)
    × (lookup 7 state.replay_templates ≡ some template)
    × (classify state.destination_classifier (text "localhost") ≡ development)
prepare_replay-allowed_example =
    prepare_replay-allowed state 7 template state.status.listen_address none prepared
