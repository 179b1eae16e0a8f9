-- ===== src/Engine/Steps.antt =====
-- The tasks of the proxy and the calls of the application as one system over the engine: an event is
-- what runs under one hold of the lock, and a list of events is an interleaving.
use sippin_soda.Base.{
  ℕ, ◌≡◌, refl, subst, Bool, false, Option, List, [], ◌∷◌, arith, inl, inr, Bool-cases, String,
  Result, ok, Result-cases, >>=-eq-ok, refuse_if-eq-ok, ok_inj,
}
use sippin_soda.Requests.{Request, HeaderOps}
use sippin_soda.Policy.{DestinationClass}
use sippin_soda.Text.{Text}
use sippin_soda.Status.{SocketAddr}
use sippin_soda.Rules.{Http, ResponseRule}
use sippin_soda.Engine.Traffic.{Capture}
use sippin_soda.Engine.{State, BreakpointDecision, default_state, touch}
use sippin_soda.Engine.Exchange.{
  begin_exchange, update, note_end, drop_breakpoint, note_outcome, redeem, note_rule,
  open_breakpoint,
}
use sippin_soda.Engine.Config.{ProxyConfig, compile_plan, bad_limits}
use sippin_soda.Engine.Control.{
  Engine, start, started, stop, clear, end_task, reject_connection, grant, revoke,
  resolve_response_breakpoint,
}
use sippin_soda.Engine.Invariant.{IsWellFormed}
use sippin_soda.Engine.Begin.{begin_exchange-IsWellFormed, update-IsWellFormed}
use sippin_soda.Engine.Keeps.{
  Within-nil, again, note_end-IsWellFormed, removed_breakpoint, open_breakpoint-IsWellFormed,
  resolve-IsWellFormed, clear-IsWellFormed, install_plan-IsWellFormed,
}

pub data Event (M : Type 0) : Type 0 where
  starts : ProxyConfig → Result String SocketAddr → Event M
  stops : Event M
  -- the task of `start` ends by itself, when the listener fails
  task_ends : Event M
  clears : Event M
  rejects : Event M
  begins : Request M → DestinationClass → Option Text → Option ℕ → ℕ → Event M
  -- any change of a capture that leaves its id alone
  updates : ℕ → (f : Capture → Capture) → ((c : Capture) → (f c).id ≡ c.id) → Event M
  notes_end : ℕ → Option String → ℕ → Event M
  touches : Event M
  redeems : Text → Event M
  notes_rule : ℕ → ℕ → ResponseRule → Event M
  opens_breakpoint : ℕ → ℕ → ℕ → Event M
  drops_breakpoint : ℕ → Event M
  notes_outcome : ℕ → Option BreakpointDecision → Event M
  resolves : ℕ → Option ℕ → Option Text → Option Text → (ℕ → Bool) → Event M
  grants : Text → ℕ → Option Text → Event M
  revokes : Text → Event M

module _ {M : Type 0} where
  abbrev pub put : Engine M → State M → Engine M
  put e s = record e { shared = s }

  unfoldable pub step : Http → HeaderOps M → Engine M → Event M → Engine M
  step http ops e (starts c listener) = (start http e c listener).0
  step http ops e stops = stop e
  step http ops e task_ends = put e (end_task e.shared)
  step http ops e clears = put e (clear e.shared)
  step http ops e rejects = put e (reject_connection e.shared)
  step http ops e (begins r destination client replay_of now) =
      put e (begin_exchange ops e.shared r destination client replay_of now).1
  step http ops e (updates id f keeps) = put e (update e.shared id f)
  step http ops e (notes_end id cause elapsed) = put e (note_end e.shared id cause elapsed)
  step http ops e touches = put e (touch e.shared)
  step http ops e (redeems token) = put e (redeem e.shared token).1
  step http ops e (notes_rule id original rule) = put e (note_rule e.shared id original rule)
  step http ops e (opens_breakpoint id status channel) =
      put e (open_breakpoint e.shared id status channel).1
  step http ops e (drops_breakpoint id) = put e (drop_breakpoint e.shared id)
  step http ops e (notes_outcome id decision) = put e (note_outcome e.shared id decision)
  step http ops e (resolves id status body content_type is_open) =
      put e (resolve_response_breakpoint http e.shared id status body content_type is_open).0
  step http ops e (grants token id client) = put e (grant e.shared token id client)
  step http ops e (revokes token) = put e (revoke e.shared token)

  unfoldable pub run : Http → HeaderOps M → Engine M → List (Event M) → Engine M
  unfolding step
  run http ops e [] = e
  run http ops e (event ∷ events) = run http ops (step http ops e event) events

  unfoldable pub initial : Engine M
  unfolding default_state
  initial = record { shared = default_state; running = false }

  started-IsWellFormed :
      (http : Http) (e : Engine M) (c : ProxyConfig) (listener : Result String SocketAddr)
      (s : State M)
      → started http e c listener ≡ ok s
      → IsWellFormed e.shared
      → IsWellFormed s
  unfolding started compile_plan
  started-IsWellFormed http e c listener s h w =
      let (_, h1) = refuse_if-eq-ok e.running _ _ h in
      let (plan, compiled, h2) = >>=-eq-ok (compile_plan http c) _ h1 in
      let (address, _, same) = >>=-eq-ok listener _ h2 in
      let (good, _) = refuse_if-eq-ok (bad_limits c) _ _ compiled in
      subst IsWellFormed (ok_inj same) (install_plan-IsWellFormed e.shared c plan address good w)

  start-IsWellFormed :
      (http : Http) (e : Engine M) (c : ProxyConfig) (listener : Result String SocketAddr)
      → IsWellFormed e.shared
      → IsWellFormed (start http e c listener).0.shared
  unfolding start
  start-IsWellFormed http e c listener w = elim (Result-cases (started http e c listener)) [
    | inr (cause, h) ↦ rw (start, h) w
    | inl (s, h) ↦ rw (start, h) (started-IsWellFormed http e c listener s h w)
  ]

  stop-IsWellFormed : (e : Engine M) → IsWellFormed e.shared → IsWellFormed (stop e).shared
  unfolding stop end_task
  stop-IsWellFormed e w = elim (Bool-cases e.running) [
    | inl h ↦ rw (h, stop) (again e.shared _ refl w)
    | inr h ↦ rw (h, stop) w
  ]

  step-IsWellFormed :
      (http : Http) (ops : HeaderOps M) (e : Engine M) (event : Event M)
      → IsWellFormed e.shared
      → IsWellFormed (step http ops e event).shared
  unfolding step end_task reject_connection redeem note_rule drop_breakpoint note_outcome grant
      revoke
  step-IsWellFormed http ops e (starts c listener) w = start-IsWellFormed http e c listener w
  step-IsWellFormed http ops e stops w = stop-IsWellFormed e w
  step-IsWellFormed http ops e task_ends w = again e.shared _ refl w
  step-IsWellFormed http ops e clears w = clear-IsWellFormed e.shared w
  step-IsWellFormed http ops e rejects w = again e.shared _ refl w
  step-IsWellFormed http ops e (begins r destination client replay_of now) w =
      begin_exchange-IsWellFormed ops e.shared r destination client replay_of now w
  step-IsWellFormed http ops e (updates id f keeps) w = update-IsWellFormed e.shared id f keeps w
  step-IsWellFormed http ops e (notes_end id cause elapsed) w =
      note_end-IsWellFormed e.shared id cause elapsed w
  step-IsWellFormed http ops e touches w = again e.shared _ refl w
  step-IsWellFormed http ops e (redeems token) w = again e.shared _ refl w
  step-IsWellFormed http ops e (notes_rule id original rule) w =
      update-IsWellFormed e.shared id _ (λ c. refl) w
  step-IsWellFormed http ops e (opens_breakpoint id status channel) w =
      open_breakpoint-IsWellFormed e.shared id status channel w
  step-IsWellFormed http ops e (drops_breakpoint id) w = removed_breakpoint e.shared id w
  step-IsWellFormed http ops e (notes_outcome id decision) w =
      update-IsWellFormed e.shared id _ (λ c. refl) w
  step-IsWellFormed http ops e (resolves id status body content_type is_open) w =
      resolve-IsWellFormed http e.shared id status body content_type is_open w
  step-IsWellFormed http ops e (grants token id client) w = again e.shared _ refl w
  step-IsWellFormed http ops e (revokes token) w = again e.shared _ refl w

  run_from :
      (http : Http) (ops : HeaderOps M) (e : Engine M) (events : List (Event M))
      → IsWellFormed e.shared
      → IsWellFormed (run http ops e events).shared
  unfolding run
  run_from http ops e [] w = w
  run_from http ops e (event ∷ events) w =
      run_from http ops (step http ops e event) events (step-IsWellFormed http ops e event w)

  initial-IsWellFormed : IsWellFormed initial.shared
  unfolding initial
  initial-IsWellFormed = record {
    room = omega arith;
    bounded = omega arith;
    counted = refl;
    ordered = omega arith;
    breakpoints_within = Within-nil _ [];
    templates_within = Within-nil _ [];
  }

  -- After any interleaving of the engine's operations, from its creation on, the captures are no more
  -- than the limit and as many as the status says, their ids ascend and stay below the next one, and
  -- there are breakpoints and replay templates only for captures that are listed.
  pub run-IsWellFormed :
      (http : Http) (ops : HeaderOps M) (events : List (Event M))
      → IsWellFormed (run http ops initial events).shared
  run-IsWellFormed http ops events = run_from http ops initial events initial-IsWellFormed
