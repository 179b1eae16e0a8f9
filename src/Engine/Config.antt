-- ===== src/Engine/Config.antt =====
-- `ProxyConfig`, and what `start` checks and compiles before it listens.
use sippin_soda.Base.{
  ℕ, ◌*◌, Bool, false, not, ◌||◌, Option, none, some, List, [], ◌==◌, ltb, String, Result, ok,
  ◌>>=◌, ◌>>◌, refuse_if,
}
use sippin_soda.Text.{Text, text_eq}
use sippin_soda.Hosts.{DestinationClassifier, compile_classifier}
use sippin_soda.Redact.{compile_redaction_paths}
use sippin_soda.Auth.{ProxyClientAuth}
use sippin_soda.Rules.{Http, ResponseRuleConfig, ResponseRule, compile_all}

-- `struct ProxyConfig`. Of `tls_interception` it holds the profile id; times are in milliseconds.
pub record ProxyConfig : Type 0 where
  pub port : ℕ
  pub capture_limit : ℕ
  pub connection_limit : ℕ
  pub request_timeout : ℕ
  pub tunnel_timeout : ℕ
  pub capture_bodies : Bool
  pub body_disk_budget : ℕ
  pub request_redaction_paths : List Text
  pub development_hosts : List Text
  pub production_hosts : List Text
  pub client_auth : Option ProxyClientAuth
  pub tls_interception : Option Text
  pub break_on_responses : Bool
  pub response_rules : List ResponseRuleConfig

-- `ProxyConfig::default()`.
unfoldable pub default_config : ProxyConfig
default_config = record {
  port = 8080;
  capture_limit = 200;
  connection_limit = 64;
  request_timeout = 30000;
  tunnel_timeout = 300000;
  capture_bodies = false;
  body_disk_budget = 10 * 1024 * 1024 * 1024;
  request_redaction_paths = [];
  development_hosts = [];
  production_hosts = [];
  client_auth = none;
  tls_interception = none;
  break_on_responses = false;
  response_rules = [];
}

unfoldable pub bad_limits : ProxyConfig → Bool
bad_limits c =
    (c.capture_limit == 0)
    || ltb 1000 c.capture_limit
    || (c.connection_limit == 0)
    || ltb 256 c.connection_limit
    || (c.request_timeout == 0)
    || ltb 300000 c.request_timeout
    || (c.tunnel_timeout == 0)
    || ltb 3600000 c.tunnel_timeout
    || (c.body_disk_budget == 0)

abbrev pub auth_profile : Option ProxyClientAuth → Option Text
auth_profile none = none
auth_profile (some auth) = some auth.profile_id

abbrev same_profile : Option Text → Text → Bool
same_profile none profile = false
same_profile (some p) profile = text_eq p profile

-- HTTPS inspection without authentication for its profile.
unfoldable pub bad_tls : ProxyConfig → Bool
unfolding text_eq
bad_tls c = elim c.tls_interception [
  | none ↦ false
  | some profile ↦ not (same_profile (auth_profile c.client_auth) profile)
]

-- What `start` compiles before it listens.
pub record Plan : Type 0 where
  pub redaction_paths : List (List Text)
  pub classifier : DestinationClassifier
  pub rules : List ResponseRule

unfoldable pub compile_plan : Http → ProxyConfig → Result String Plan
compile_plan http c = do
  refuse_if (bad_limits c) "Invalid proxy resource limits."
  refuse_if (bad_tls c) "HTTPS inspection requires authentication for the same client profile."
  paths ← compile_redaction_paths c.request_redaction_paths
  classifier ← compile_classifier c.development_hosts c.production_hosts
  rules ← compile_all http c.response_rules
  ok (record { redaction_paths = paths; classifier = classifier; rules = rules })
