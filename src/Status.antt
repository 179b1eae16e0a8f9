-- ===== src/Status.antt =====
-- crates/engine/src/lib.rs: what the engine reports of itself.
use sippin_soda.Base.{ℕ, Bool, true, false, Option, none}
use sippin_soda.Text.{Text}
use sippin_soda.Text.Ip.{IpAddr, v4}
use sippin_soda.Policy.{EnginePhase, stopped}

-- `SocketAddr`.
pub record SocketAddr : Type 0 where
  pub ip : IpAddr
  pub port : ℕ

-- `struct EngineStatus`.
pub record EngineStatus : Type 0 where
  pub phase : EnginePhase
  pub listen_address : SocketAddr
  pub captures : ℕ
  pub https_inspection : Bool
  pub production_protection : Bool
  pub evicted_captures : ℕ
  pub rejected_connections : ℕ
  pub client_profile_id : Option Text

-- `EngineStatus::default()`.
unfoldable pub default_status : EngineStatus
default_status = record {
  phase = stopped;
  listen_address = record { ip = v4 127 0 0 1; port = 8080 };
  captures = 0;
  https_inspection = false;
  production_protection = true;
  evicted_captures = 0;
  rejected_connections = 0;
  client_profile_id = none;
}
