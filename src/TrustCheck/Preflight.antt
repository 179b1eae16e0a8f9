-- ===== src/TrustCheck/Preflight.antt =====
-- The preflight lets inspection be enabled exactly when every part agrees.
use sippin_soda.Base.{ℕ, ◌≤◌, ◌≡◌, refl, ◌↔◌, true, some, arith}
use sippin_soda.Text.{Text}
use sippin_soda.Policy.{running}
use sippin_soda.Status.{EngineStatus}
use sippin_soda.Tls.{CaStatus, TlsInspectionGate, TlsReadinessState, readiness_at}
use sippin_soda.Tls.Readiness.{IsReady, readiness_at_iff, IsReady-usable}
use sippin_soda.TrustCheck.{TlsTrustCheckManager, preflight, preflight_state, is_ready_state}

-- The proxy runs for an authenticated client, and the gate of the last check is ready for it.
pub record CanEnable (m : TlsTrustCheckManager) (ca : CaStatus) (proxy : EngineStatus) (now : ℕ)
    : Type 0 where
  pub client_id : Text
  pub gate : TlsInspectionGate
  pub runs : proxy.phase ≡ running
  pub authenticated : proxy.client_profile_id ≡ some client_id
  pub checked : m.gate ≡ some gate
  pub ready : IsReady gate ca client_id now

ready_of_preflight :
    (s : TlsReadinessState)
    → is_ready_state (preflight_state s) ≡ true
    → s ≡ TlsReadinessState.ready
unfolding preflight_state
ready_of_preflight TlsReadinessState.ready h = refl
ready_of_preflight s h = cc

preflight_tests :
    (m : TlsTrustCheckManager) (ca : CaStatus) (proxy : EngineStatus) (now later : ℕ)
    → (preflight m ca proxy now later).can_enable_development ≡ true
    → (client_id : Text) × (gate : TlsInspectionGate) × (proxy.phase ≡ running)
      × (proxy.client_profile_id ≡ some client_id)
      × (m.gate ≡ some gate)
      × (is_ready_state (preflight_state (readiness_at gate ca client_id later).state) ≡ true)
unfolding preflight
preflight_tests m ca proxy now later h = ground arith

enabled→CanEnable :
    (m : TlsTrustCheckManager) (ca : CaStatus) (proxy : EngineStatus) (now later : ℕ)
    → (preflight m ca proxy now later).can_enable_development ≡ true
    → CanEnable m ca proxy later
enabled→CanEnable m ca proxy now later h =
    let (client_id, gate, runs, authenticated, checked, ready) =
      preflight_tests m ca proxy now later h in
    record {
      client_id = client_id;
      gate = gate;
      runs = runs;
      authenticated = authenticated;
      checked = checked;
      ready =
          (readiness_at_iff gate ca client_id later).0
            (ready_of_preflight (readiness_at gate ca client_id later).state ready);
    }

CanEnable→enabled :
    (m : TlsTrustCheckManager) (ca : CaStatus) (proxy : EngineStatus) (now later : ℕ)
    → now ≤ later
    → CanEnable m ca proxy later
    → (preflight m ca proxy now later).can_enable_development ≡ true
unfolding preflight preflight_state
CanEnable→enabled m ca proxy now later order c = ground (
  arith,
  IsReady-usable c.gate ca c.client_id later c.ready,
  (readiness_at_iff c.gate ca c.client_id later).1 c.ready,
  c.ready.ca_expiry,
  c.ready.ca_alive,
)

active_tests :
    (m : TlsTrustCheckManager) (ca : CaStatus) (proxy : EngineStatus) (now later : ℕ)
    → (preflight m ca proxy now later).https_inspection_active ≡ true
    → ((preflight m ca proxy now later).can_enable_development ≡ true)
      × (proxy.https_inspection ≡ true)
unfolding preflight
active_tests m ca proxy now later h = ground arith

active_back :
    (m : TlsTrustCheckManager) (ca : CaStatus) (proxy : EngineStatus) (now later : ℕ)
    → (preflight m ca proxy now later).can_enable_development ≡ true
    → proxy.https_inspection ≡ true
    → (preflight m ca proxy now later).https_inspection_active ≡ true
unfolding preflight
active_back m ca proxy now later h on = ground arith

-- With a clock that does not run back, the preflight lets inspection be enabled exactly when the
-- proxy runs with an authenticated client and the gate of the finished trust check is ready for
-- that client; and it reports inspection as active exactly when the proxy inspects as well.
pub preflight_iff :
    (m : TlsTrustCheckManager) (ca : CaStatus) (proxy : EngineStatus) (now later : ℕ)
    → now ≤ later
    → (((preflight m ca proxy now later).can_enable_development ≡ true)
        ↔ CanEnable m ca proxy later)
      × (((preflight m ca proxy now later).https_inspection_active ≡ true)
          ↔ (CanEnable m ca proxy later × (proxy.https_inspection ≡ true)))
preflight_iff m ca proxy now later order = (
  (forth, back),
  (
    (λ h. let (e, on) = active_tests m ca proxy now later h in (forth e, on)),
    (λ (c, on). active_back m ca proxy now later (back c) on),
  ),
)
  where
    forth :
        (preflight m ca proxy now later).can_enable_development ≡ true → CanEnable m ca proxy later
    forth = enabled→CanEnable m ca proxy now later

    back :
        CanEnable m ca proxy later → (preflight m ca proxy now later).can_enable_development ≡ true
    back = CanEnable→enabled m ca proxy now later order
