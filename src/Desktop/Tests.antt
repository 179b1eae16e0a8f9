-- ===== src/Desktop/Tests.antt =====
-- Runs of the desktop's commands.
use sippin_soda.Base.{
  ◌≡◌, refl, ◌⊎◌, true, false, some, none, [], ◌∷◌, ok, err, leb, ltb, ◌&&◌, String, Result, find,
}
use sippin_soda.Base.Assoc.{lookup}
use sippin_soda.Text.{Text, text, methods}
use sippin_soda.Policy.{development}
use sippin_soda.Status.{SocketAddr}
use sippin_soda.Tls.{validate_id, readiness_at}
use sippin_soda.TrustCheck.{TlsTrustCheckManager, idle_status, readiness}
use sippin_soda.Auth.{new, valid_token}
use sippin_soda.Bodies.Store.{
  written, copy_failed, Files, entry_of, complete_entry, info, export, export_source, copy_to,
}
use sippin_soda.Ca.{StoredCa, status_from}
use sippin_soda.Ca.Store.{status, load}
use sippin_soda.Interception.{platform, trust_ready}
use sippin_soda.Engine.{default_state}
use sippin_soda.Engine.Traffic.{Kind, Phase, RequestBodyState, BreakpointState}
use sippin_soda.Engine.Config.{ProxyConfig, default_config}
use sippin_soda.Engine.Views.{response, export_body, body_export_preview}
use sippin_soda.Desktop.{
  Desktop, StartProxyOptions, Host, client_auth, start_config, configured_interception,
  tls_interception, start_proxy, generate_local_ca, remove_local_ca, exit, chosen, BodyExportResult,
  export_captured_body, export_agreed, write_to,
}
use sippin_soda.Desktop.Start.{IsChecked, start_config-IsChecked, start_proxy-err}
use sippin_soda.Desktop.Export.{Fails, IsExport, export_captured_body-acknowledged}
use sippin_soda.Desktop.Authority.{
  IsQuiet, ShowsStopped, IsClear, new_authority-IsQuiet, exit-IsClear,
}

abbrev token : Text
token = text "0123456789abcdef0123456789ABCDEF"

abbrev authority : StoredCa
authority = record {
  certificate_pem = text "C";
  private_key_pem = text "K";
  fingerprint_sha256 = text "AB";
  created_at = 0;
  expires_at = 900000000;
}

abbrev host : Host
host = record {
  http = record {
    from_u16 = λ s. leb 100 s && ltb s 1000;
    is_success = λ s. leb 200 s && ltb s 300;
    is_redirection = λ s. leb 300 s && ltb s 400;
    is_client_error = λ s. leb 400 s && ltb s 500;
    is_server_error = λ s. leb 500 s && ltb s 600;
    method_from_bytes = λ method. true;
    header_value_from_str = λ value. true;
  };
  crypto = record { decode = λ t. some t; sha256 = λ bytes. bytes };
  crates = record {
    params_new = λ names. true;
    self_signed = λ params with_key. none;
    key_from_pem = λ pem. none;
    issuer_from = λ pem with_key. true;
    signed_by = λ params with_key pem ca_key. none;
    sha256 = λ bytes. bytes;
    to_vec = λ ca. none;
    from_slice = λ bytes. some authority;
    from_unix_timestamp = λ seconds. none;
  };
  access = record {
    lifecycle = true;
    entry = true;
    reads = true;
    entry_again = true;
    writes = true;
  };
  worker_ended = true;
  now = 4000000;
  tls_config = true;
  tls_error = "";
}

abbrev manager : TlsTrustCheckManager
manager = record {
  status = idle_status;
  gate = some (record {
    opted_in = true;
    trust_proof = some (record {
      issuer_fingerprint_sha256 = text "AB";
      verified_host = text "localhost";
      client = record { id = text "phone"; name = text "Phone" };
      expires_at = 5000000;
    });
  });
  running = none;
}

abbrev options : StartProxyOptions
options = record {
  port = 8080;
  capture_bodies = true;
  disk_budget_gib = 2;
  request_redaction_paths = [];
  development_hosts = [];
  production_hosts = [];
  client_profile_id = some (text "phone");
  client_token = some token;
  enable_https_inspection = true;
  break_on_responses = false;
  response_rules = [];
}

abbrev config : ProxyConfig
config = record default_config {
  capture_bodies = true;
  body_disk_budget = 2147483648;
  client_auth = some (record { profile_id = text "phone"; token_sha256 = token });
  tls_interception = some (text "phone");
}

configured : start_config host (some []) manager options ≡ ok config
unfolding start_config client_auth tls_interception configured_interception platform trust_ready
    readiness readiness_at status load status_from new valid_token validate_id methods
    default_config
configured = refl

start_config-IsChecked_example : IsChecked host (some []) manager options config
start_config-IsChecked_example =
    start_config-IsChecked host (some []) manager options config configured

abbrev Headers : Type 0
Headers = Unit {0}

abbrev desktop : Desktop Headers
desktop = record {
  engine = record { shared = default_state; running = false };
  secret = some [];
  check = manager;
}

abbrev too_much : StartProxyOptions
too_much = record options { disk_budget_gib = 1025 }

abbrev in_use : Result String SocketAddr
in_use = err "in use"

refused :
    (start_proxy host desktop too_much in_use).1 ≡ err "Disk budget must be between 1 and 1024 GiB."
unfolding start_proxy start_config
refused = refl

start_proxy-err_test : (start_proxy host desktop too_much in_use).0 ≡ desktop
start_proxy-err_test =
    start_proxy-err host desktop too_much in_use "Disk budget must be between 1 and 1024 GiB."
      refused

desktop-ShowsStopped : ShowsStopped desktop.engine
unfolding default_state
desktop-ShowsStopped = record { phase = λ off. refl; inspection = λ off. refl }

new_authority-IsQuiet_example :
    IsQuiet (generate_local_ca host desktop false none 0).0
    × IsQuiet (remove_local_ca host desktop false).0
new_authority-IsQuiet_example = new_authority-IsQuiet host desktop false none 0 desktop-ShowsStopped

exit-IsClear_example : IsQuiet (exit desktop) × IsClear (exit desktop).engine.shared
exit-IsClear_example = exit-IsClear desktop desktop-ShowsStopped

-- A desktop whose proxy has recorded one response.
abbrev recorded : Desktop Headers
recorded = record desktop {
  engine = record {
    running = true;
    shared = record (default_state {M = Headers}) {
      traffic =
          record {
            id = 7;
            kind = Kind.http;
            method = text "GET";
            target = text "/";
            destination_class = development;
            client_profile_id = none;
            started_at = 0;
            status = some 200;
            phase = Phase.complete;
            duration_ms = 0;
            request_bytes = 0;
            response_bytes = 2;
            request_headers = [];
            response_headers = [];
            error = none;
            request_body_state = RequestBodyState.disabled;
            request_body_error = none;
            response_body_error = none;
            breakpoint_state = BreakpointState.none;
            original_status = none;
            replay_of = none;
            response_rule_id = none;
            response_rule_name = none;
          }
          ∷ [];
      storage = record {
        used = 2;
        heap = (0, complete_entry (1 ∷ 2 ∷ []) 4096 (text "identity")) ∷ [];
        next_handle = 1;
      };
      response_bodies = record { entries = (7, 0) ∷ [] };
    };
  };
}

abbrev export_result : BodyExportResult
export_result = record { path = text "/tmp/a"; bytes = 2 }

abbrev no_files : Files
no_files path = none

exported :
    (export_captured_body
      (λ path. path)
      recorded
      recorded
      7
      response
      true
      (chosen (text "/tmp/a"))
      written
      no_files).1
    ≡ ok (some export_result)
unfolding export_captured_body export_agreed write_to export_body body_export_preview export
    export_source copy_to info entry_of lookup find default_state methods
exported = refl

-- A copy that breaks after a byte.
broken_copy :
    (export_captured_body
        (λ path. path)
        recorded
        recorded
        7
        response
        true
        (chosen (text "/tmp/a"))
        (copy_failed 1)
        no_files).0
      (text "/tmp/a")
    ≡ some (1 ∷ [])
unfolding export_captured_body export_agreed write_to export_body body_export_preview export
    export_source copy_to info entry_of lookup find default_state methods
broken_copy = refl

export_captured_body-acknowledged_example :
    let outcome =
      export_captured_body
        (λ path. path)
        recorded
        recorded
        7
        response
        true
        (chosen (text "/tmp/a"))
        written
        no_files in
    Fails no_files outcome
    ⊎ IsExport (λ path. path) recorded 7 response true (chosen (text "/tmp/a")) no_files outcome
export_captured_body-acknowledged_example =
    export_captured_body-acknowledged (λ path. path) recorded recorded 7 response true
      (chosen (text "/tmp/a")) written no_files
