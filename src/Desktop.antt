-- ===== src/Desktop.antt =====
-- src-tauri/src/main.rs: the commands of the desktop application, over the engine, the stored
-- authority and the trust check. Dialogs, worker tasks and the listener are arguments; a worker whose
-- result is lost has done its work. The bundle's setup and the event loop are not modelled.
pub mod Start
pub mod Authority
pub mod Export
mod Tests
use sippin_soda.Base.{
  ℕ, ◌*◌, ◌++◌, Bool, true, false, not, ◌&&◌, ◌||◌, Option, none, some, List, [], ltb, leb,
  if◌then◌else◌, String, length, take, Result, ok, err, ok_or, ◌>>=◌, refuse_if, ◌>>◌, is_some,
  is_some_and,
}
use sippin_soda.Text.{Text, text}
use sippin_soda.Policy.{DestinationClass, development}
use sippin_soda.Status.{SocketAddr, EngineStatus}
use sippin_soda.Tls.{CaStatus, IssuedLeaf, TlsClientIdentity, new_identity, TlsInspectionReadiness}
use sippin_soda.TrustCheck.{
  TlsTrustCheckManager, TlsTrustCheckStatus, TlsInspectionPreflight, Listener, readiness, preflight,
}
use sippin_soda.TrustCheck
use sippin_soda.Auth.{Crypto, ProxyClientAuth}
use sippin_soda.Auth
use sippin_soda.Rules.{Http, ResponseRuleConfig}
use sippin_soda.Bodies.{Bytes}
use sippin_soda.Bodies.Store.{ExportFile, Files, write_file}
use sippin_soda.Ca.{Crates, KeyPair}
use sippin_soda.Ca.Store.{Access, Secret, status, generate, remove_ca, certificate_pem, issue_leaf}
use sippin_soda.Interception.{platform, trust_ready}
use sippin_soda.Engine.{State}
use sippin_soda.Engine.Config.{ProxyConfig, default_config}
use sippin_soda.Engine.Control.{Engine, Snapshot, snapshot, start, stop, clear}
use sippin_soda.Engine.Views.{Direction, BodyExportPreview, body_export_preview, export_body}

-- What the application manages.
pub record Desktop (M : Type 0) : Type 0 where
  pub engine : Engine M
  pub secret : Secret
  pub check : TlsTrustCheckManager

-- `struct StartProxyOptions`.
pub record StartProxyOptions : Type 0 where
  pub port : ℕ
  pub capture_bodies : Bool
  pub disk_budget_gib : ℕ
  pub request_redaction_paths : List Text
  pub development_hosts : List Text
  pub production_hosts : List Text
  pub client_profile_id : Option Text
  pub client_token : Option Text
  pub enable_https_inspection : Bool
  pub break_on_responses : Bool
  pub response_rules : List ResponseRuleConfig

-- What the crates, the credential store, the clock and the platform give a command.
pub record Host : Type 0 where
  pub http : Http
  pub crypto : Crypto
  pub crates : Crates
  pub access : Access
  pub worker_ended : Bool
  pub now : ℕ
  pub tls_config : Bool
  pub tls_error : String

-- `match (options.client_profile_id, options.client_token)`.
unfoldable pub client_auth :
    Crypto → Option Text → Option Text → Result String (Option ProxyClientAuth)
client_auth crypto none none = ok none
client_auth crypto (some profile_id) (some token) = do
  auth ← Auth.new crypto profile_id token
  ok (some auth)
client_auth crypto none (some token) =
    err "Proxy client profile and token must be configured together."
client_auth crypto (some profile_id) none =
    err "Proxy client profile and token must be configured together."

abbrev pub profile_of : Option ProxyClientAuth → Option Text
profile_of none = none
profile_of (some auth) = some auth.profile_id

-- The interception that `start_proxy` configures, if the options ask for it.
unfoldable pub configured_interception :
    Host → Secret → TlsTrustCheckManager → Option ProxyClientAuth → Result String Text
configured_interception host secret check auth = do
  profile_id ← ok_or (profile_of auth) "HTTPS inspection requires client profile authentication."
  refuse_if (not host.worker_ended) "HTTPS inspection CA worker failed."
  ca ← status host.crates host.access secret
  refuse_if (not (trust_ready check ca profile_id host.now))
      "Verify CA trust with this client profile before enabling HTTPS inspection."
  platform profile_id host.tls_config host.tls_error

unfoldable pub tls_interception :
    Host
    → Secret
    → TlsTrustCheckManager
    → Bool
    → Option ProxyClientAuth
    → Result String (Option Text)
tls_interception host secret check false auth = ok none
tls_interception host secret check true auth = do
  profile_id ← configured_interception host secret check auth
  ok (some profile_id)

-- `u64::from(gib) * 1024 * 1024 * 1024`.
abbrev pub budget_bytes : ℕ → ℕ
budget_bytes gib = gib * 1024 * 1024 * 1024

-- The `ProxyConfig` that `start_proxy` passes on.
unfoldable pub start_config :
    Host → Secret → TlsTrustCheckManager → StartProxyOptions → Result String ProxyConfig
start_config host secret check options = do
  refuse_if (not (leb 1 options.disk_budget_gib && leb options.disk_budget_gib 1024))
      "Disk budget must be between 1 and 1024 GiB."
  auth ← client_auth host.crypto options.client_profile_id options.client_token
  interception ← tls_interception host secret check options.enable_https_inspection auth
  ok (record default_config {
    port = options.port;
    capture_bodies = options.capture_bodies;
    body_disk_budget = budget_bytes options.disk_budget_gib;
    request_redaction_paths = options.request_redaction_paths;
    development_hosts = options.development_hosts;
    production_hosts = options.production_hosts;
    client_auth = auth;
    tls_interception = interception;
    break_on_responses = options.break_on_responses;
    response_rules = options.response_rules;
  })

-- What a save dialog comes to: nothing chosen, a place that is no local path, or a path.
pub data Dialog : Type 0 where
  dismissed not_local : Dialog
  chosen : Text → Dialog

-- What `std::fs::write` comes to: no file, a file with so many first bytes, or all of it.
pub data CaWrite : Type 0 where
  uncreated whole : CaWrite
  cut_short : ℕ → CaWrite

-- `struct BodyExportResult`.
pub record BodyExportResult : Type 0 where
  pub path : Text
  pub bytes : ℕ

-- Whether a worker task ended.
abbrev ended : {A : Type 0} → Bool → String → Result String A → Result String A
ended worker_ended cause result = refuse_if (not worker_ended) cause >> result

-- The client and the leaf of a trust check.
unfoldable pub check_material :
    Host
    → Secret
    → Text
    → Text
    → ℕ
    → Option KeyPair
    → Result String (TlsClientIdentity × IssuedLeaf)
check_material host secret client_id client_name issued_at key = do
  client ← new_identity client_id client_name
  leaf ←
      ended host.worker_ended "TLS trust-check certificate worker failed."
        (issue_leaf host.crates host.access secret (text "localhost") development issued_at key)
  ok (client, leaf)

-- The end of `export_local_ca`, after its dialog.
unfoldable pub write_certificate :
    (Text → Text) → Text → Dialog → CaWrite → Files → Files × Result String (Option Text)
write_certificate to_string_lossy certificate dismissed write files = (files, ok none)
write_certificate to_string_lossy certificate not_local write files =
    (files, err "The selected destination is not a local filesystem path.")
write_certificate to_string_lossy certificate (chosen path) uncreated files =
    (files, err "Cannot write the public CA certificate to the selected file.")
write_certificate to_string_lossy certificate (chosen path) (cut_short count) files = (
  write_file files path (take count certificate),
  err "Cannot write the public CA certificate to the selected file.",
)
write_certificate to_string_lossy certificate (chosen path) whole files =
    (write_file files path certificate, ok (some (to_string_lossy path)))

module _ {M : Type 0} where
  abbrev with_engine : Desktop M → Engine M → Desktop M
  with_engine d engine = record d { engine = engine }

  unfoldable pub start_proxy :
      Host
      → Desktop M
      → StartProxyOptions
      → Result String SocketAddr
      → Desktop M × Result String Snapshot
  start_proxy host d options listener = elim (start_config host d.secret d.check options) [
    | err cause ↦ (d, err cause)
    | ok config ↦
        let (engine, result) = start host.http d.engine config listener in
        (with_engine d engine, result)
  ]

  unfoldable pub stop_proxy : Desktop M → Desktop M × Snapshot
  stop_proxy d = let engine = stop d.engine in (with_engine d engine, snapshot engine.shared)

  unfoldable pub clear_traffic : Desktop M → Desktop M × Snapshot
  clear_traffic d =
      let shared = clear d.engine.shared in
      (with_engine d (record (d.engine) { shared = shared }), snapshot shared)

  -- `engine.stop().await; trust_check.cancel().await;`
  unfoldable pub quiet : Desktop M → Desktop M
  quiet d = record d { engine = stop d.engine; check = TrustCheck.cancel d.check }

  unfoldable pub generate_local_ca :
      Host → Desktop M → Bool → Option KeyPair → ℕ → Desktop M × Result String CaStatus
  generate_local_ca host d consent key now_ms =
      let (secret, result) =
        generate host.crates host.access d.secret consent host.now key now_ms in
      (
        record (quiet d) { secret = secret },
        ended host.worker_ended "Local CA generation worker failed." result,
      )

  unfoldable pub remove_local_ca : Host → Desktop M → Bool → Desktop M × Result String CaStatus
  remove_local_ca host d confirmed =
      let (secret, result) = remove_ca host.access d.secret confirmed in
      (
        record (quiet d) { secret = secret },
        ended host.worker_ended "Local CA removal worker failed." result,
      )

  unfoldable pub ca_status : Host → Desktop M → Result String CaStatus
  ca_status host d =
      ended host.worker_ended "Local CA status worker failed."
        (status host.crates host.access d.secret)

  -- `export_local_ca`.
  unfoldable pub export_local_ca :
      (Text → Text)
      → Host
      → Desktop M
      → Dialog
      → CaWrite
      → Files
      → Files × Result String (Option Text)
  export_local_ca to_string_lossy host d dialog write files =
      let certificate =
        ended host.worker_ended "Local CA export worker failed."
          (certificate_pem host.crates host.access d.secret) in
      elim certificate [
        | err cause ↦ (files, err cause)
        | ok pem ↦ write_certificate to_string_lossy pem dialog write files
      ]

  -- What follows the dialog; `to_string_lossy` is the method of paths.
  unfoldable pub write_to :
      (Text → Text)
      → Desktop M
      → ℕ
      → Direction
      → Dialog
      → ExportFile
      → Files
      → Files × Result String (Option BodyExportResult)
  write_to to_string_lossy later id direction dismissed file files = (files, ok none)
  write_to to_string_lossy later id direction not_local file files =
      (files, err "The selected destination is not a local filesystem path.")
  write_to to_string_lossy later id direction (chosen path) file files =
      let (after, exported) =
        export_body later.engine.shared later.engine.shared id direction path file files in
      (
        after,
        (exported >>= λ count. ok (some (record { path = to_string_lossy path; bytes = count }))),
      )

  -- The checks before the dialog.
  unfoldable pub export_agreed : Desktop M → ℕ → Direction → Bool → Result String (Unit {0})
  export_agreed d id direction acknowledged = do
    preview ← body_export_preview d.engine.shared id direction
    refuse_if (not preview.redacted && not acknowledged)
        "Confirm that the unredacted response was reviewed before exporting."

  -- `export_body` with its dialog; another operation may run while the dialog is open.
  unfoldable pub export_captured_body :
      (Text → Text)
      → Desktop M
      → Desktop M
      → ℕ
      → Direction
      → Bool
      → Dialog
      → ExportFile
      → Files
      → Files × Result String (Option BodyExportResult)
  export_captured_body to_string_lossy d later id direction acknowledged dialog file files =
      elim (export_agreed d id direction acknowledged) [
        | err cause ↦ (files, err cause)
        | ok _ ↦ write_to to_string_lossy later id direction dialog file files
      ]

  unfoldable pub tls_inspection_preflight :
      Host → Desktop M → ℕ → Result String TlsInspectionPreflight
  tls_inspection_preflight host d later = do
    ca ←
        ended host.worker_ended "TLS inspection preflight worker failed."
          (status host.crates host.access d.secret)
    ok (preflight d.check ca d.engine.shared.status host.now later)

  -- `start_tls_trust_check`, with the nanoseconds at which the leaf is issued and the milliseconds
  -- at which the check starts.
  unfoldable pub start_tls_trust_check :
      Host
      → Desktop M
      → Text
      → Text
      → ℕ
      → Option KeyPair
      → Listener
      → Desktop M × Result String TlsTrustCheckStatus
  start_tls_trust_check host d client_id client_name issued_at key listener =
      elim (check_material host d.secret client_id client_name issued_at key) [
        | err cause ↦ (d, err cause)
        | ok (client, leaf) ↦
            let (check, result) = TrustCheck.start d.check leaf client 60000 host.now listener in
            (record d { check = check }, result)
      ]

  unfoldable pub cancel_tls_trust_check : Desktop M → Desktop M × TlsTrustCheckStatus
  cancel_tls_trust_check d =
      let check = TrustCheck.cancel d.check in (record d { check = check }, check.status)

  -- What the application does when it exits.
  unfoldable pub exit : Desktop M → Desktop M
  exit d =
      let quieted = quiet d in
      with_engine quieted (record (quieted.engine) { shared = clear quieted.engine.shared })
