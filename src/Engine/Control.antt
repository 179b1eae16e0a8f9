-- ===== src/Engine/Control.antt =====
-- The operations of `ProxyEngine`. What comes from the network, the clock and the random source is
-- an argument.
use sippin_soda.Base.{
  ℕ, zero, suc, Bool, true, false, not, Option, none, some, List, [], ◌∷◌, if◌then◌else◌, length,
  ltb, String, Result, ok, err, ◌>>=◌, ◌>>◌, refuse_if, ok_or, map_err, is_some, reverse,
}
use sippin_soda.Base.Assoc.{lookup, remove}
use sippin_soda.Text.{Text}
use sippin_soda.Policy.{EnginePhase, running, stopped, authorize, replay}
use sippin_soda.Status.{EngineStatus, SocketAddr}
use sippin_soda.Hosts.{classify}
use sippin_soda.Bodies.Store.{
  BodyInfo, info, BodyPage, page, BodyStore, is_complete, ExportFile, export,
}
use sippin_soda.Bodies.Store as Store
use sippin_soda.Rules.{Http, compile_replacement_body, final_status, unzip}
use sippin_soda.Requests.{ReplayTemplate}
use sippin_soda.Engine.Traffic.{Capture, is_finished}
use sippin_soda.Engine.{State, BreakpointDecision, touch, count_captures, evict_oldest}
use sippin_soda.Engine.Exchange.{capture_of, take_token}
use sippin_soda.Engine.Config.{ProxyConfig, Plan, compile_plan, auth_profile}

-- `struct ProxyEngine`: the shared state, and whether `running` holds a task.
pub record Engine (M : Type 0) : Type 0 where
  pub shared : State M
  pub running : Bool

-- `struct Snapshot`.
pub record Snapshot : Type 0 where
  pub revision : ℕ
  pub status : EngineStatus
  pub traffic : List Capture

abbrev pub host_or_empty : Option Text → Text
host_or_empty none = []
host_or_empty (some host) = host

abbrev pub evicted : String
evicted = "Capture cleared or evicted."

abbrev pub is_running : EnginePhase → Bool
is_running running = true
is_running stopped = false

abbrev checked_status : Http → Option ℕ → Result String (Option ℕ)
checked_status http none = ok none
checked_status http (some s) =
    if final_status http s
    then ok (some s)
    else err "Replacement status must be between 200 and 599."

unfoldable pub compile_decision :
    Http → Option ℕ → Option Text → Option Text → Result String BreakpointDecision
unfolding final_status compile_replacement_body
compile_decision http status body content_type = do
  s ← checked_status http status
  replacement ← compile_replacement_body http body content_type
  ok (record { status = s; body = (unzip replacement).0; content_type = (unzip replacement).1 })

module _ {M : Type 0} where
  unfoldable pub snapshot : State M → Snapshot
  snapshot s = record { revision = s.revision; status = s.status; traffic = reverse s.traffic }

  -- `while state.traffic.len() > state.limit`: no more rounds than there are captures.
  unfoldable pub evict_excess : ℕ → State M → State M
  unfolding evict_oldest
  evict_excess zero s = s
  evict_excess (suc fuel) s =
      let rest = evict_excess fuel (evict_oldest s) in
      if ltb s.limit (length s.traffic) then rest else s

  unfoldable pub apply_plan : State M → ProxyConfig → Plan → State M
  apply_plan s c plan = record s {
    limit = c.capture_limit;
    capture_bodies = c.capture_bodies;
    body_budget = c.body_disk_budget;
    request_redaction_paths = plan.redaction_paths;
    destination_classifier = plan.classifier;
    break_on_responses = c.break_on_responses;
    response_rules = plan.rules;
  }

  abbrev announce : State M → ProxyConfig → SocketAddr → State M
  announce s c address = record s {
    status = record (s.status) {
      phase = running;
      listen_address = address;
      client_profile_id = auth_profile c.client_auth;
      https_inspection = is_some c.tls_interception;
    };
  }

  -- The part of `start` under the lock.
  unfoldable pub install_plan : State M → ProxyConfig → Plan → SocketAddr → State M
  unfolding evict_excess apply_plan
  install_plan s c plan address =
      touch (
        announce (count_captures (evict_excess (length s.traffic) (apply_plan s c plan))) c address)

  -- The state that `start` comes to; the address is what listening gives.
  unfoldable pub started :
      Http → Engine M → ProxyConfig → Result String SocketAddr → Result String (State M)
  started http e c listener = do
    refuse_if e.running "The proxy is already running."
    plan ← compile_plan http c
    address ← listener
    ok (install_plan e.shared c plan address)

  -- `start`.
  unfoldable pub start :
      Http → Engine M → ProxyConfig → Result String SocketAddr → Engine M × Result String Snapshot
  start http e c listener = elim (started http e c listener) [
    | err cause ↦ (e, err cause)
    | ok s ↦ (record { shared = s; running = true }, ok (snapshot s))
  ]

  -- The end of the task of `start`, after its connections are aborted.
  unfoldable pub end_task : State M → State M
  end_task s = touch (record s {
    status = record (s.status) {
      phase = stopped;
      client_profile_id = none;
      https_inspection = false;
    };
  })

  -- `stop`, where the task has not ended by itself before.
  unfoldable pub stop : Engine M → Engine M
  unfolding end_task
  stop e = if e.running then record { shared = end_task e.shared; running = false } else e

  unfoldable pub clear : State M → State M
  unfolding Store.clear
  clear s =
      let (storage, requests) = Store.clear s.storage s.request_bodies in
      let (storage', responses) = Store.clear storage s.response_bodies in
      touch (record s {
        breakpoints = [];
        replay_templates = [];
        replay_tokens = [];
        traffic = [];
        storage = storage';
        request_bodies = requests;
        response_bodies = responses;
        status = record (s.status) { captures = 0; evicted_captures = 0 };
      })

  -- A connection over the limit.
  unfoldable pub reject_connection : State M → State M
  reject_connection s = touch (record s {
    status = record (s.status) { rejected_connections = suc s.status.rejected_connections };
  })

  -- The checks of `replay` under the lock: the template, the address and the client of the capture.
  unfoldable pub prepare_replay :
      State M → ℕ → Result String (ReplayTemplate M × SocketAddr × Option Text)
  prepare_replay s id = do
    refuse_if (not (is_running s.status.phase)) "Start the proxy before replaying a request."
    capture ← ok_or (capture_of s id) evicted
    _ ←
        map_err (authorize capture.destination_class replay)
          "Replay is allowed only for Development destinations."
    refuse_if (not (is_finished capture.phase)) "Only a completed request can be replayed."
    template ←
        ok_or (lookup id s.replay_templates)
          "This capture cannot be replayed; only bodyless HTTP GET and HEAD requests are currently supported."
    _ ←
        map_err (authorize (classify s.destination_classifier (host_or_empty template.host)) replay)
          "The current destination rules no longer allow replay for this target."
    ok (template, s.status.listen_address, capture.client_profile_id)

  -- The token that authorizes the internal request.
  unfoldable pub grant : State M → Text → ℕ → Option Text → State M
  unfolding take_token
  grant s token id client_profile_id = record s {
    replay_tokens =
        (token, record { origin_id = id; client_profile_id = client_profile_id })
        ∷ (take_token token s.replay_tokens).1;
  }

  -- After the internal request: the token goes, if it was not redeemed.
  unfoldable pub revoke : State M → Text → State M
  unfolding take_token
  revoke s token = record s { replay_tokens = (take_token token s.replay_tokens).1 }

  -- `resolve_response_breakpoint`: the state, and the decision with the channel that it goes to. A
  -- channel whose receiver is gone refuses it.
  unfoldable pub resolve_response_breakpoint :
      Http
      → State M
      → ℕ
      → Option ℕ
      → Option Text
      → Option Text
      → (ℕ → Bool)
      → State M × Result String (ℕ × BreakpointDecision)
  resolve_response_breakpoint http s id status body content_type is_open =
      elim (compile_decision http status body content_type) [
        | err e ↦ (s, err e)
        | ok decision ↦ elim (lookup id s.breakpoints) [
          | none ↦ (s, err "Response breakpoint is no longer waiting.")
          | some channel ↦ (
            record s { breakpoints = remove id s.breakpoints },
            if is_open channel then ok (channel, decision) else err "Response breakpoint closed.",
          )
        ]
      ]
