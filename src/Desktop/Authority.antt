-- ===== src/Desktop/Authority.antt =====
-- What the commands that change the authority, and the end of the application, leave behind.
use sippin_soda.Base.{ℕ, ◌≡◌, refl, inl, inr, arith, Bool, false, Option, none, [], Bool-cases}
use sippin_soda.Policy.{stopped}
use sippin_soda.TrustCheck.{cancel, cancel_running}
use sippin_soda.Ca.{KeyPair}
use sippin_soda.Engine.{State}
use sippin_soda.Engine.Control.{Engine, stop, end_task, clear}
use sippin_soda.Desktop.{Desktop, Host, quiet, generate_local_ca, remove_local_ca, exit}

-- Nothing runs: no proxy, and no proof or check of a client's trust.
pub record IsQuiet {M : Type 0} (d : Desktop M) : Type 0 where
  pub idle : d.engine.running ≡ false
  pub phase : d.engine.shared.status.phase ≡ stopped
  pub inspection : d.engine.shared.status.https_inspection ≡ false
  pub gate : d.check.gate ≡ none
  pub check : d.check.running ≡ none

-- A proxy that no task runs shows itself as stopped.
pub record ShowsStopped {M : Type 0} (e : Engine M) : Type 0 where
  pub phase : e.running ≡ false → e.shared.status.phase ≡ stopped
  pub inspection : e.running ≡ false → e.shared.status.https_inspection ≡ false

quiet-IsQuiet : {M : Type 0} (d : Desktop M) → ShowsStopped d.engine → IsQuiet (quiet d)
unfolding quiet stop end_task cancel cancel_running
quiet-IsQuiet d shows = elim (Bool-cases d.engine.running) [
  | inl on ↦ record {
    idle = ground arith;
    phase = ground arith;
    inspection = ground arith;
    gate = refl;
    check = refl;
  }
  | inr off ↦
      let phase = shows.phase off in
      let inspection = shows.inspection off in
      record {
        idle = ground arith;
        phase = ground arith;
        inspection = ground arith;
        gate = refl;
        check = refl;
      }
]

-- Whatever generating or removing the authority comes to, a refusal included, afterwards the proxy
-- is stopped, no trust check runs and no proof of trust is left: no inspection outlives its
-- authority.
pub new_authority-IsQuiet :
    {M : Type 0} (host : Host) (d : Desktop M) (agreed : Bool) (key : Option KeyPair) (now_ms : ℕ)
    → ShowsStopped d.engine
    → IsQuiet (generate_local_ca host d agreed key now_ms).0
      × IsQuiet (remove_local_ca host d agreed).0
unfolding generate_local_ca remove_local_ca
new_authority-IsQuiet host d agreed key now_ms shows =
    let q = quiet-IsQuiet d shows in
    (
      record {
        idle = q.idle;
        phase = q.phase;
        inspection = q.inspection;
        gate = q.gate;
        check = q.check;
      },
      record {
        idle = q.idle;
        phase = q.phase;
        inspection = q.inspection;
        gate = q.gate;
        check = q.check;
      },
    )

-- The proxy holds nothing of the traffic.
pub record IsClear {M : Type 0} (s : State M) : Type 0 where
  pub traffic : s.traffic ≡ []
  pub requests : s.request_bodies.entries ≡ []
  pub responses : s.response_bodies.entries ≡ []
  pub templates : s.replay_templates ≡ []
  pub tokens : s.replay_tokens ≡ []
  pub breakpoints : s.breakpoints ≡ []

-- After the exit nothing runs, and no capture, body, replay or breakpoint is left.
pub exit-IsClear :
    {M : Type 0} (d : Desktop M)
    → ShowsStopped d.engine
    → IsQuiet (exit d) × IsClear (exit d).engine.shared
unfolding exit clear
exit-IsClear d shows =
    let q = quiet-IsQuiet d shows in
    (
      record {
        idle = q.idle;
        phase = q.phase;
        inspection = q.inspection;
        gate = q.gate;
        check = q.check;
      },
      record {
        traffic = refl;
        requests = refl;
        responses = refl;
        templates = refl;
        tokens = refl;
        breakpoints = refl;
      },
    )
