-- ===== src/Engine.antt =====
-- crates/engine/src/proxy.rs: the state that the proxy's tasks share and the operations on it. One
-- operation is what runs under one hold of the lock. The recorded bodies are those of Bodies.
pub mod Traffic
pub mod Exchange
pub mod Config
pub mod Control
pub mod Views
pub mod Inspect
pub mod Invariant
pub mod Begin
pub mod Keeps
pub mod Steps
pub mod Replay
mod Tests
use sippin_soda.Base.{
  ℕ, zero, suc, ◌+◌, ◌++◌, Bool, true, false, not, ◌&&◌, ◌||◌, Option, none, some, List, [], ◌∷◌,
  if◌then◌else◌, length, ◌==◌, ltb,
}
use sippin_soda.Base.Assoc.{remove, keys}
use sippin_soda.Text.{Text}
use sippin_soda.Status.{EngineStatus, default_status}
use sippin_soda.Hosts.{DestinationClassifier}
use sippin_soda.Bodies.{Storage}
use sippin_soda.Bodies.Store.{BodyStore, remove_body}
use sippin_soda.Rules.{ResponseRule}
use sippin_soda.Requests.{ReplayTemplate}
use sippin_soda.Engine.Traffic.{Capture}

-- `struct ReplayAuthorization`.
pub record ReplayAuthorization : Type 0 where
  pub origin_id : ℕ
  pub client_profile_id : Option Text

-- `struct BreakpointDecision`.
pub record BreakpointDecision : Type 0 where
  pub status : Option ℕ
  pub body : Option Text
  pub content_type : Option Text

-- `struct State`; a sender of `breakpoints` is the number of its channel, and `storage` is what the
-- two body stores share.
pub record State (M : Type 0) : Type 0 where
  pub revision : ℕ
  pub next_id : ℕ
  pub status : EngineStatus
  pub traffic : List Capture
  pub limit : ℕ
  pub storage : Storage
  pub request_bodies : BodyStore
  pub response_bodies : BodyStore
  pub capture_bodies : Bool
  pub body_budget : ℕ
  pub request_redaction_paths : List (List Text)
  pub destination_classifier : DestinationClassifier
  pub break_on_responses : Bool
  pub response_rules : List ResponseRule
  pub breakpoints : List (ℕ × ℕ)
  pub replay_templates : List (ℕ × ReplayTemplate M)
  pub replay_tokens : List (Text × ReplayAuthorization)

module _ {M : Type 0} where
  -- `ProxyEngine::default()`.
  unfoldable pub default_state : State M
  unfolding default_status
  default_state = record {
    revision = 0;
    next_id = 1;
    status = default_status;
    traffic = [];
    limit = 200;
    storage = record { used = 0; heap = []; next_handle = 0 };
    request_bodies = record { entries = [] };
    response_bodies = record { entries = [] };
    capture_bodies = false;
    body_budget = 0;
    request_redaction_paths = [];
    destination_classifier = record { development = []; production = [] };
    break_on_responses = false;
    response_rules = [];
    breakpoints = [];
    replay_templates = [];
    replay_tokens = [];
  }

  -- `self.revision += 1`.
  abbrev pub touch : State M → State M
  touch s = record s { revision = suc s.revision }

  abbrev pub count_evicted : State M → State M
  count_evicted s = record s {
    status = record (s.status) { evicted_captures = suc s.status.evicted_captures };
  }

  abbrev pub count_captures : State M → State M
  count_captures s = record s { status = record (s.status) { captures = length s.traffic } }

  -- What goes with a capture that is evicted.
  unfoldable pub forget : State M → ℕ → State M
  unfolding remove remove_body
  forget s id =
      let (storage, requests) = remove_body s.storage s.request_bodies id in
      let (storage', responses) = remove_body storage s.response_bodies id in
      record s {
        breakpoints = remove id s.breakpoints;
        replay_templates = remove id s.replay_templates;
        storage = storage';
        request_bodies = requests;
        response_bodies = responses;
      }

  -- `traffic.pop_front()`, the removal of what belongs to the capture, and the count.
  unfoldable pub evict_oldest : State M → State M
  unfolding forget
  evict_oldest s = elim s.traffic [
    | [] ↦ count_evicted s
    | capture ∷ traffic ↦ count_evicted (forget (record s { traffic = traffic }) capture.id)
  ]
