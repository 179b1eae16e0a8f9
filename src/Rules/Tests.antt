-- ===== src/Rules/Tests.antt =====
-- Runs of the response rules.
use sippin_soda.Base.{
  ℕ, ◌≤◌, ◌<◌, ◌≡◌, refl, Bool, true, false, ◌&&◌, none, some, List, [], ◌∷◌, ltb, leb, arith,
  retain, length, ok, All,
}
use sippin_soda.Text.{Text, text, methods}
use sippin_soda.Text.Ip.{parse_ip}
use sippin_soda.Hosts.{compile, valid_hostname, exact}
use sippin_soda.Rules.{
  Http, IsDocumented, ResponseRuleConfig, ResponseRule, compile_all, compile_rules, compile_rule,
  unsafe_id, unsafe_path, compile_method, final_status, body_forbidden, compile_replacement_body,
}
use sippin_soda.Rules.Laws.{IsServable, Distinct, ids_of, config_ids, compile_all_sound}

abbrev between : ℕ → ℕ → ℕ → Bool
between low high s = leb low s && ltb s high

abbrev http : Http
http = record {
  from_u16 = between 100 1000;
  is_success = between 200 300;
  is_redirection = between 300 400;
  is_client_error = between 400 500;
  is_server_error = between 500 600;
  method_from_bytes = λ method. true;
  header_value_from_str = λ value. true;
}

between_iff : (low high s : ℕ) → between low high s ≡ true → (low ≤ s) × (s < high)
between_iff low high s h = ground arith

http-IsDocumented : IsDocumented http
http-IsDocumented = record {
  success = between_iff 200 300;
  redirection = between_iff 300 400;
  client_error = between_iff 400 500;
  server_error = between_iff 500 600;
}

abbrev config : Bool → Text → ResponseRuleConfig
config enabled id = record {
  id = id;
  name = text " Slow ";
  enabled = enabled;
  host = text "API.dev";
  path_prefix = text "/v1";
  method = some (text "GET");
  status = 503;
  body = some (text "x");
  content_type = none;
}

abbrev rule : Text → ResponseRule
rule id = record {
  id = id;
  name = text "Slow";
  host = exact (text "api.dev");
  path_prefix = text "/v1";
  method = some (text "GET");
  status = 503;
  body = some (text "x");
  content_type = some (text "text/plain; charset=utf-8");
}

abbrev configs : List ResponseRuleConfig
configs = config true (text "a") ∷ config false (text "a") ∷ config true (text "b") ∷ []

abbrev rules : List ResponseRule
rules = rule (text "a") ∷ rule (text "b") ∷ []

compiled : compile_all http configs ≡ ok rules
unfolding compile_all methods compile_rules retain compile_rule unsafe_id unsafe_path compile_method
    final_status body_forbidden compile_replacement_body compile parse_ip valid_hostname
compiled = refl

compile_all_sound_example :
    (length configs ≤ 64)
    × (ids_of rules ≡ config_ids (retain (λ c. c.enabled) configs))
    × All IsServable rules
    × Distinct rules
compile_all_sound_example = compile_all_sound http http-IsDocumented configs rules compiled
