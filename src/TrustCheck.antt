-- ===== src/TrustCheck.antt =====
-- crates/engine/src/tls_trust_check.rs. The clock, the listener and the client are arguments; a
-- check that was started ends in a step of its own, `finish_check`.
pub mod Preflight
pub mod Lifecycle
mod Tests
use sippin_soda.Base.{
  ℕ, ◌+◌, ◌-◌, ◌^◌, ◌++◌, Bool, true, false, not, ◌&&◌, ◌||◌, Option, none, some, ltb, leb,
  if◌then◌else◌, is_some, Result, ok, err, String, min,
}
use sippin_soda.Text.{Text, text, text_eq, decimal}
use sippin_soda.Policy.{EnginePhase, stopped, running}
use sippin_soda.Status.{EngineStatus}
use sippin_soda.Tls.{
  CaStatus, IssuedLeaf, TlsClientIdentity, TlsInspectionGate, TlsInspectionReadiness,
  TlsReadinessState, TlsTrustError, Handshake, default_gate, set_opt_in, verify_client_trust,
  readiness_at, ca_unusable, ca_expired,
}
use mathlib.Core.Option

-- `enum TlsTrustCheckState`.
pub data TlsTrustCheckState : Type 0 where
  idle waiting verified failed expired : TlsTrustCheckState

-- `struct TlsTrustCheckStatus`.
pub record TlsTrustCheckStatus : Type 0 where
  pub state : TlsTrustCheckState
  pub client : Option TlsClientIdentity
  pub url : Option Text
  pub expires_at : Option ℕ
  pub verified_at : Option ℕ
  pub error : Option String

unfoldable pub idle_status : TlsTrustCheckStatus
idle_status = record {
  state = idle;
  client = none;
  url = none;
  expires_at = none;
  verified_at = none;
  error = none;
}

-- `struct RunningCheck`: what the task holds, and whether it has come to its end.
pub record RunningCheck : Type 0 where
  pub leaf : IssuedLeaf
  pub client : TlsClientIdentity
  pub valid_for : ℕ
  pub finished : Bool

-- `struct TlsTrustCheckManager`.
pub record TlsTrustCheckManager : Type 0 where
  pub status : TlsTrustCheckStatus
  pub gate : Option TlsInspectionGate
  pub running : Option RunningCheck

unfoldable pub default_manager : TlsTrustCheckManager
default_manager = record { status = idle_status; gate = none; running = none }

-- `enum CheckFailure`.
pub data CheckFailure : Type 0 where
  expired rejected : CheckFailure

-- Whether a client connected, what its handshake came to, and whether the reply was written.
pub data Arrival : Type 0 where
  none_in_time accept_failed connected : Arrival

pub record Visit : Type 0 where
  pub arrival : Arrival
  pub handshake : Handshake
  pub reply_sent : Bool

abbrev check_failure : TlsTrustError → CheckFailure
check_failure TlsTrustError.handshake_timeout = expired
check_failure _ = rejected

check_connected : IssuedLeaf → TlsClientIdentity → Visit → Result CheckFailure TlsInspectionGate
unfolding default_gate set_opt_in verify_client_trust
check_connected leaf client visit =
    let (gate, result) =
      verify_client_trust (set_opt_in default_gate true) leaf client visit.handshake in
    elim result [
      | err e ↦ err (check_failure e)
      | ok _ ↦ if visit.reply_sent then ok gate else err rejected
    ]

unfoldable pub run_check :
    IssuedLeaf → TlsClientIdentity → Visit → Result CheckFailure TlsInspectionGate
unfolding check_connected
run_check leaf client visit = elim visit.arrival [
  | none_in_time ↦ err expired
  | accept_failed ↦ err rejected
  | connected ↦ check_connected leaf client visit
]

unfoldable pub cancel_running : TlsTrustCheckManager → TlsTrustCheckManager
cancel_running m = record m { running = none }

unfoldable pub cancel : TlsTrustCheckManager → TlsTrustCheckManager
unfolding cancel_running idle_status
cancel m = record (cancel_running m) { gate = none; status = idle_status }

-- What opening the listener comes to.
pub data Listener : Type 0 where
  bind_failed address_failed : Listener
  bound : ℕ → Listener

-- `u64::saturating_add`.
abbrev saturating_add : ℕ → ℕ → ℕ
saturating_add a b = min (a + b) (2 ^ 64 - 1)

waiting_status : TlsClientIdentity → ℕ → ℕ → ℕ → TlsTrustCheckStatus
unfolding decimal
waiting_status client port now valid_for = record {
  state = waiting;
  client = some client;
  url = some (text "https://localhost:" ++ (decimal port ++ text "/"));
  expires_at = some (saturating_add now valid_for);
  verified_at = none;
  error = none;
}

-- `start`, with `valid_for` in milliseconds.
unfoldable pub start :
    TlsTrustCheckManager
    → IssuedLeaf
    → TlsClientIdentity
    → ℕ
    → ℕ
    → Listener
    → TlsTrustCheckManager × Result String TlsTrustCheckStatus
unfolding cancel_running waiting_status
start m leaf client valid_for now listener =
    if not (leb 5000 valid_for && leb valid_for 120000)
    then (m, err "TLS trust checks must last between 5 and 120 seconds.")
    else elim listener [
      | bind_failed ↦ (cancel_running m, err "Cannot open the local TLS trust-check endpoint.")
      | address_failed ↦ (cancel_running m, err "Cannot read the local TLS trust-check address.")
      | bound port ↦ (
        record (cancel_running m) {
          status = waiting_status client port now valid_for;
          gate = none;
          running =
              some
                (record { leaf = leaf; client = client; valid_for = valid_for; finished = false });
        },
        ok (waiting_status client port now valid_for),
      )
    ]

finished_status :
    IssuedLeaf → TlsClientIdentity → ℕ → Result CheckFailure TlsInspectionGate → TlsTrustCheckStatus
finished_status leaf client now (ok gate) = record {
  state = verified;
  client = some client;
  url = none;
  expires_at = some leaf.expires_at;
  verified_at = some now;
  error = none;
}
finished_status leaf client now (err expired) = record {
  state = expired;
  client = some client;
  url = none;
  expires_at = none;
  verified_at = none;
  error = some "The local trust check expired before it completed.";
}
finished_status leaf client now (err rejected) = record {
  state = failed;
  client = some client;
  url = none;
  expires_at = none;
  verified_at = none;
  error =
      some
        "The client rejected the local CA certificate. Configure trust for that client, then retry.";
}

abbrev gate_of :
    Option TlsInspectionGate → Result CheckFailure TlsInspectionGate → Option TlsInspectionGate
gate_of old (ok gate) = some gate
gate_of old (err e) = old

-- The task that `start` spawned: it runs to its end unless it was aborted, and ends once.
unfoldable pub finish_check : TlsTrustCheckManager → Visit → ℕ → TlsTrustCheckManager
unfolding run_check finished_status
finish_check m visit now = elim m.running [
  | none ↦ m
  | some check ↦
      let outcome = run_check check.leaf check.client visit in
      if check.finished then m else record {
        status = finished_status check.leaf check.client now outcome;
        gate = gate_of m.gate outcome;
        running = some (record check { finished = true });
      }
]

-- `readiness`, at the time that the gate reads.
unfoldable pub readiness :
    TlsTrustCheckManager → CaStatus → Text → ℕ → Option TlsInspectionReadiness
readiness m ca client_id now = Option.map (λ gate. readiness_at gate ca client_id now) m.gate

-- `enum TlsInspectionPreflightState`.
pub data TlsInspectionPreflightState : Type 0 where
  proxy_stopped client_authentication_required : TlsInspectionPreflightState
  disabled missing_ca expired_ca client_trust_unverified : TlsInspectionPreflightState
  client_mismatch ready : TlsInspectionPreflightState

-- `struct TlsInspectionPreflight`.
pub record TlsInspectionPreflight : Type 0 where
  pub state : TlsInspectionPreflightState
  pub can_enable_development : Bool
  pub https_inspection_active : Bool
  pub client_profile_id : Option Text
  pub verified_client : Option TlsClientIdentity
  pub proof_expires_at : Option ℕ

unfoldable pub blocked : TlsInspectionPreflightState → Option Text → TlsInspectionPreflight
blocked state client_id = record {
  state = state;
  can_enable_development = false;
  https_inspection_active = false;
  client_profile_id = client_id;
  verified_client = none;
  proof_expires_at = none;
}

preflight_state : TlsReadinessState → TlsInspectionPreflightState
preflight_state TlsReadinessState.disabled = disabled
preflight_state TlsReadinessState.missing_ca = missing_ca
preflight_state TlsReadinessState.expired_ca = expired_ca
preflight_state TlsReadinessState.client_trust_unverified = client_trust_unverified
preflight_state TlsReadinessState.client_mismatch = client_mismatch
preflight_state TlsReadinessState.ready = ready

abbrev is_ready_state : TlsInspectionPreflightState → Bool
is_ready_state ready = true
is_ready_state _ = false

preflight_with : Bool → Text → TlsInspectionReadiness → TlsInspectionPreflight
unfolding preflight_state
preflight_with https_inspection client_id r =
    let state = preflight_state r.state in
    record {
      state = state;
      can_enable_development = is_ready_state state;
      https_inspection_active = https_inspection && is_ready_state state;
      client_profile_id = some client_id;
      verified_client = r.verified_client;
      proof_expires_at = r.proof_expires_at;
    }

abbrev is_running : EnginePhase → Bool
is_running running = true
is_running stopped = false

-- `preflight`: `now` is the time of its own expiry test, `later` the time that the gate reads.
unfoldable pub preflight :
    TlsTrustCheckManager → CaStatus → EngineStatus → ℕ → ℕ → TlsInspectionPreflight
unfolding blocked preflight_with readiness
preflight m ca proxy now later =
    if not (is_running proxy.phase)
    then blocked proxy_stopped none
    else elim proxy.client_profile_id [
      | none ↦ blocked client_authentication_required none
      | some client_id ↦
          if ca_unusable ca
          then blocked missing_ca (some client_id)
          else if ca_expired ca now
          then blocked expired_ca (some client_id)
          else elim (readiness m ca client_id later) [
            | none ↦ blocked client_trust_unverified (some client_id)
            | some r ↦ preflight_with proxy.https_inspection client_id r
          ]
    ]
