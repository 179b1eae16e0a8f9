-- ===== src/Engine/Replay.antt =====
-- Which captures can be replayed.
use sippin_soda.Base.{
  ℕ, ◌≡◌, refl, ap, subst, ◌∙◌, ok_inj, false, not, Option, some, none, Result, ok, err, >>=-eq-ok,
  refuse_if-eq-ok, ok_or, map_err, arith,
}
use sippin_soda.Base.Assoc.{lookup}
use sippin_soda.Text.{Text}
use sippin_soda.Policy.{running, DestinationClass, development, authorize, replay, EnginePhase}
use sippin_soda.Status.{SocketAddr}
use sippin_soda.Hosts.{classify}
use sippin_soda.Requests.{ReplayTemplate}
use sippin_soda.Engine.Traffic.{Capture, Phase, is_finished}
use sippin_soda.Engine.{State}
use sippin_soda.Engine.Exchange.{capture_of}
use sippin_soda.Engine.Control.{prepare_replay, is_running, host_or_empty}

some_of_ok : {A E : Type 0} (o : Option A) (e : E) (a : A) → ok_or o e ≡ ok a → o ≡ some a
some_of_ok none e a h = cc
some_of_ok (some b) e a h = ground arith

ok_of_map :
    {E F : Type 0} (r : Result E (Unit {0})) (e : F) (u : Unit {0}) → map_err r e ≡ ok u → r ≡ ok tt
ok_of_map (ok tt) e u h = refl
ok_of_map (err x) e u h = cc

replay_development : (d : DestinationClass) → authorize d replay ≡ ok tt → d ≡ development
unfolding authorize
replay_development d h = ground arith

running_phase : (p : EnginePhase) → not (is_running p) ≡ false → p ≡ running
running_phase p h = ground arith

finished : (p : Phase) → not (is_finished p) ≡ false → p ≡ Phase.complete
finished p h = ground arith

module _ {M : Type 0} where
  -- When a replay of a capture is prepared, the proxy runs, the capture is listed, completed and of a
  -- Development destination, its template is replayed, and the current rules still classify the
  -- template's host as Development.
  pub prepare_replay-allowed :
      (s : State M) (id : ℕ) (template : ReplayTemplate M) (address : SocketAddr)
      (client : Option Text)
      → prepare_replay s id ≡ ok (template, address, client)
      → (s.status.phase ≡ running)
        × (capture : Capture) × (capture_of s id ≡ some capture)
        × (capture.phase ≡ Phase.complete)
        × (capture.destination_class ≡ development)
        × (lookup id s.replay_templates ≡ some template)
        × (classify s.destination_classifier (host_or_empty template.host) ≡ development)
  unfolding prepare_replay
  prepare_replay-allowed s id template address client h =
      let (runs, h1) = refuse_if-eq-ok (not (is_running s.status.phase)) _ _ h in
      let (capture, found, h2) = >>=-eq-ok (ok_or (capture_of s id) _) _ h1 in
      let (u, allowed, h3) =
        >>=-eq-ok (map_err (authorize capture.destination_class replay) _) _ h2 in
      let (complete, h4) = refuse_if-eq-ok (not (is_finished capture.phase)) _ _ h3 in
      let (t, kept, h5) = >>=-eq-ok (ok_or (lookup id s.replay_templates) _) _ h4 in
      let (v, still, h6) =
        >>=-eq-ok
          (map_err (authorize (classify s.destination_classifier (host_or_empty t.host)) replay) _)
          _ h5 in
      let same : t ≡ template = ap (λ x. x.0) (ok_inj h6) in
      (
        running_phase s.status.phase runs,
        capture,
        some_of_ok _ _ _ found,
        finished capture.phase complete,
        replay_development capture.destination_class (ok_of_map _ _ u allowed),
        some_of_ok _ _ _ kept ∙ ap some same,
        subst (λ x. classify s.destination_classifier (host_or_empty x.host) ≡ development) same
            (replay_development _ (ok_of_map _ _ v still)),
      )
