-- ===== src/Engine/Exchange.antt =====
-- An exchange: `begin_exchange`, `Exchange` and the parts of `handle` and `forward_with_sender` that
-- run under the lock.
use sippin_soda.Base.{
  ℕ, suc, ◌++◌, Bool, true, false, ◌&&◌, ◌||◌, Option, none, some, List, [], ◌∷◌, if◌then◌else◌,
  length, ◌==◌, String, is_some, is_ok, find,
}
use sippin_soda.Base.Assoc.{insert, remove}
use sippin_soda.Text.{Text, text_eq}
use sippin_soda.Policy.{DestinationClass, authorize, modify}
use sippin_soda.Rules.{ResponseRule, matches}
use sippin_soda.Requests.{
  HeaderOps, Request, ReplayTemplate, safe_target, safe_headers, replay_template, is_connect,
}
use sippin_soda.Engine.Traffic.{
  Capture, Kind, http, tunnel, Phase, pending, is_pending, disabled, BreakpointState, waiting,
  modified, continued, timed_out, change,
}
use sippin_soda.Engine.{
  State, ReplayAuthorization, BreakpointDecision, touch, count_captures, evict_oldest,
}

abbrev pub insert_template :
    {M : Type 0}
    → ℕ
    → Option (ReplayTemplate M)
    → List (ℕ × ReplayTemplate M)
    → List (ℕ × ReplayTemplate M)
insert_template id none templates = templates
insert_template id (some t) templates = insert id t templates

abbrev pub method_kind : {M : Type 0} → Request M → Kind
method_kind r = if is_connect r then tunnel else http

-- The token of a replay is taken out of the list when a request brings it.
unfoldable pub take_token :
    Text
    → List (Text × ReplayAuthorization)
    → Option ReplayAuthorization × List (Text × ReplayAuthorization)
unfolding text_eq
take_token token [] = (none, [])
take_token token ((other, a) ∷ tokens) =
    let (found, rest) = take_token token tokens in
    if text_eq other token then (some a, tokens) else (found, (other, a) ∷ rest)

-- `is_some_and(|capture| authorize(capture.destination_class, Action::Modify).is_ok())`.
abbrev pub may_modify : Option Capture → Bool
may_modify none = false
may_modify (some c) = is_ok (authorize c.destination_class modify)

-- What waiting for a decision comes to: a decision, or the time limit or a closed channel.
abbrev pub breakpoint_outcome : Option BreakpointDecision → BreakpointState
breakpoint_outcome none = timed_out
breakpoint_outcome (some d) = if is_some d.status || is_some d.body then modified else continued

abbrev pub finished_phase : Option String → Phase
finished_phase none = Phase.complete
finished_phase (some _) = Phase.error

abbrev pub finished_capture : Option String → ℕ → Capture → Capture
finished_capture cause elapsed c =
    if is_pending c.phase
    then record c { phase = finished_phase cause; duration_ms = elapsed; error = cause }
    else c

abbrev pub waiting_capture : ℕ → Capture → Capture
waiting_capture status c = record c {
  breakpoint_state = waiting;
  original_status = if is_some c.original_status then c.original_status else some status;
}

abbrev pub interrupted : String
interrupted = "Transfer interrupted, cancelled or timed out."

module _ {M : Type 0} where
  abbrev pub capture_of : State M → ℕ → Option Capture
  capture_of s id = find (λ c. c.id == id) s.traffic

  abbrev pub new_capture :
      HeaderOps M → ℕ → Request M → DestinationClass → Option Text → Option ℕ → ℕ → Capture
  new_capture ops id r destination client_profile_id replay_of now = record {
    id = id;
    kind = method_kind r;
    method = r.method;
    target = safe_target r;
    destination_class = destination;
    client_profile_id = client_profile_id;
    started_at = now;
    status = none;
    phase = pending;
    duration_ms = 0;
    request_bytes = 0;
    response_bytes = 0;
    request_headers = safe_headers ops r.headers;
    response_headers = [];
    error = none;
    request_body_state = disabled;
    request_body_error = none;
    response_body_error = none;
    breakpoint_state = BreakpointState.none;
    original_status = none;
    replay_of = replay_of;
    response_rule_id = none;
    response_rule_name = none;
  }

  abbrev pub add_exchange : State M → ℕ → Capture → Option (ReplayTemplate M) → State M
  add_exchange s id c template = touch (
      count_captures (record s {
        traffic = s.traffic ++ c ∷ [];
        replay_templates = insert_template id template s.replay_templates;
      }))

  -- `begin_exchange`: the id of the exchange and the state.
  unfoldable pub begin_exchange :
      HeaderOps M
      → State M
      → Request M
      → DestinationClass
      → Option Text
      → Option ℕ
      → ℕ
      → ℕ × State M
  unfolding evict_oldest
  begin_exchange ops s r destination client_profile_id replay_of now =
      let id = s.next_id in
      let s1 : State M = record s { next_id = suc s.next_id } in
      let s2 = if length s1.traffic == s1.limit then evict_oldest s1 else s1 in
      (
        id,
        add_exchange s2 id (new_capture ops id r destination client_profile_id replay_of now)
            (replay_template ops r),
      )

  -- `Exchange::update`.
  unfoldable pub update : State M → ℕ → (Capture → Capture) → State M
  unfolding change
  update s id f = record s { traffic = change id f s.traffic }

  -- `Exchange::finish`, so many milliseconds after the start: two holds of the lock, and both when
  -- nothing runs between them.
  unfoldable pub note_end : State M → ℕ → Option String → ℕ → State M
  unfolding update
  note_end s id cause elapsed = update s id (finished_capture cause elapsed)

  unfoldable pub finish : State M → ℕ → Option String → ℕ → State M
  unfolding note_end
  finish s id cause elapsed = touch (note_end s id cause elapsed)

  -- `Drop for Exchange`, when its last owner goes.
  unfoldable pub drop_exchange : State M → ℕ → ℕ → State M
  unfolding finish
  drop_exchange s id elapsed = finish s id (some interrupted) elapsed

  -- `replay_tokens.remove(&token)` in `handle`.
  unfoldable pub redeem : State M → Text → Option ReplayAuthorization × State M
  unfolding take_token
  redeem s token =
      let (found, tokens) = take_token token s.replay_tokens in
      (found, record s { replay_tokens = tokens })

  -- The response rule of an exchange, and what it notes in the capture.
  unfoldable pub select_rule : State M → ℕ → Text → Text → Text → Option ResponseRule
  unfolding find matches authorize
  select_rule s id host path method =
      if may_modify (capture_of s id)
      then find (λ rule. matches rule host path method) s.response_rules
      else none

  unfoldable pub note_rule : State M → ℕ → ℕ → ResponseRule → State M
  unfolding update
  note_rule s id original rule = update s id (λ c. record c {
    original_status = some original;
    response_rule_id = some rule.id;
    response_rule_name = some rule.name;
  })

  -- Whether the response waits for a decision, and the state in which it does.
  unfoldable pub open_breakpoint : State M → ℕ → ℕ → ℕ → Bool × State M
  unfolding find update authorize
  open_breakpoint s id status channel =
      if s.break_on_responses && may_modify (capture_of s id)
      then (
        true,
        touch (
            update (record s { breakpoints = insert id channel s.breakpoints }) id
              (waiting_capture status)),
      )
      else (false, s)

  -- After the wait, in three holds of the lock: the sender goes, the capture says what came of it, and
  -- the revision grows; and all three when nothing runs between them.
  unfoldable pub drop_breakpoint : State M → ℕ → State M
  drop_breakpoint s id = record s { breakpoints = remove id s.breakpoints }

  unfoldable pub note_outcome : State M → ℕ → Option BreakpointDecision → State M
  unfolding update
  note_outcome s id decision =
      update s id (λ c. record c { breakpoint_state = breakpoint_outcome decision })

  unfoldable pub close_breakpoint : State M → ℕ → Option BreakpointDecision → State M
  unfolding drop_breakpoint note_outcome
  close_breakpoint s id decision = touch (note_outcome (drop_breakpoint s id) id decision)
