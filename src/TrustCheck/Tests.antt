-- ===== src/TrustCheck/Tests.antt =====
-- A trust check that a client passes.
use sippin_soda.Base.{◌≡◌, ◌↔◌, true, false, some, [], ◌∷◌, List, arith}
use sippin_soda.Text.{text}
use sippin_soda.Text.Ip.{v4}
use sippin_soda.Policy.{running}
use sippin_soda.Status.{EngineStatus}
use sippin_soda.Tls.{CaStatus, IssuedLeaf, TlsClientIdentity, accepted}
use sippin_soda.TrustCheck.{
  TlsTrustCheckManager, Visit, connected, bound, preflight, default_manager,
}
use sippin_soda.TrustCheck.Preflight.{CanEnable, preflight_iff}
use sippin_soda.TrustCheck.Lifecycle.{
  CheckEvent, starts, finishes, check_run, IsConsistent, check_run-IsConsistent,
}

abbrev phone : TlsClientIdentity
phone = record { id = text "phone"; name = text "Phone" }

abbrev leaf : IssuedLeaf
leaf = record {
  certificate_der = [];
  private_key_der = [];
  issuer_fingerprint_sha256 = text "ab";
  host = text "localhost";
  expires_at = 50;
}

abbrev ca : CaStatus
ca = record {
  state = text "ready";
  fingerprint_sha256 = some (text "ab");
  created_at = some 0;
  expires_at = some 100;
  installed_by_app = false;
  https_inspection = false;
}

abbrev proxy : EngineStatus
proxy = record {
  phase = running;
  listen_address = record { ip = v4 127 0 0 1; port = 8080 };
  captures = 0;
  https_inspection = true;
  production_protection = true;
  evicted_captures = 0;
  rejected_connections = 0;
  client_profile_id = some (text "phone");
}

abbrev visit : Visit
visit = record { arrival = connected; handshake = accepted; reply_sent = true }

abbrev events : List CheckEvent
events = starts leaf phone 5000 10 (bound 4433) ∷ finishes visit 12 ∷ []

abbrev manager : TlsTrustCheckManager
manager = check_run default_manager events

check_run-IsConsistent_example : IsConsistent manager
check_run-IsConsistent_example = check_run-IsConsistent events

preflight_iff_example :
    (((preflight manager ca proxy 20 21).can_enable_development ≡ true)
      ↔ CanEnable manager ca proxy 21)
    × (((preflight manager ca proxy 20 21).https_inspection_active ≡ true)
        ↔ (CanEnable manager ca proxy 21 × (proxy.https_inspection ≡ true)))
preflight_iff_example = preflight_iff manager ca proxy 20 21 (omega arith)
