-- ===== src/Hosts/Tests.antt =====
-- Classification at the rules of the unit tests of crates/engine/src/proxy.rs.
use sippin_soda.Base.{◌≡◌, refl, ◌↔◌, ◌⊎◌, true, false, [], ◌∷◌, List, ok, is_ok}
use sippin_soda.Text.Ip.{parse_ip, is_loopback}
use sippin_soda.Text.{methods, Text, text}
use sippin_soda.Policy.{production, development, unknown}
use sippin_soda.Hosts.{
  exact, suffix, DestinationClassifier, compile, compile_classifier, classify, matches,
  valid_hostname, overlaps,
}
use sippin_soda.Hosts.Overlap.{Meet, overlaps_iff}
use sippin_soda.Hosts.Classify.{
  listed, is_local, compile_classifier_disjoint, classify_compiled, classify_case,
}

abbrev dev_rules : List Text
dev_rules = text "api.dev.example" ∷ text " *.Internal. " ∷ []

abbrev prod_rules : List Text
prod_rules = text "api.example.com" ∷ text "*.prod.example" ∷ []

abbrev rules : DestinationClassifier
rules = record {
  development = exact (text "api.dev.example") ∷ suffix (text "internal") ∷ [];
  production = exact (text "api.example.com") ∷ suffix (text "prod.example") ∷ [];
}

opened : Unit {0}
unfolding methods compile compile_classifier valid_hostname overlaps classify matches parse_ip
    is_loopback
opened = tt

rules_compile : compile_classifier dev_rules prod_rules ≡ ok rules
unfolding opened
rules_compile = refl

classify_upper : classify rules (text "API.DEV.EXAMPLE.") ≡ development
unfolding opened
classify_upper = refl

classify_wildcard : classify rules (text "orders.internal") ≡ development
unfolding opened
classify_wildcard = refl

classify_loopback : classify rules (text "127.0.0.1") ≡ development
unfolding opened
classify_loopback = refl

classify_loopback_v6 : classify rules (text "[::1]") ≡ development
unfolding opened
classify_loopback_v6 = refl

classify_production : classify rules (text "payments.prod.example") ≡ production
unfolding opened
classify_production = refl

classify_bare_suffix : classify rules (text "prod.example") ≡ unknown
unfolding opened
classify_bare_suffix = refl

inner_wildcard_refused : is_ok (compile (text "api.*.test")) ≡ false
unfolding opened
inner_wildcard_refused = refl

port_refused : is_ok (compile (text "api.test:443")) ≡ false
unfolding opened
port_refused = refl

overlap_refused :
    is_ok (compile_classifier (text "*.dev.example.com" ∷ []) (text "*.example.com" ∷ [])) ≡ false
unfolding opened
overlap_refused = refl

compile_classifier_disjoint_example : ¬ (
    (listed rules.development (text "orders.internal") ≡ true)
    × (listed rules.production (text "orders.internal") ≡ true))
compile_classifier_disjoint_example =
    compile_classifier_disjoint dev_rules prod_rules rules (text "orders.internal") rules_compile

classify_compiled_example :
    let host = text "orders.internal" in
    ((classify rules host ≡ production) ↔ (listed rules.production host ≡ true))
    × ((classify rules host ≡ development) ↔ (
        (listed rules.development host ≡ true)
        ⊎ ((is_local host ≡ true) × (listed rules.production host ≡ false))))
    × ((classify rules host ≡ unknown) ↔ (
        (listed rules.development host ≡ false)
        × (listed rules.production host ≡ false)
        × (is_local host ≡ false)))
classify_compiled_example =
    classify_compiled dev_rules prod_rules rules (text "orders.internal") rules_compile

classify_case_test :
    classify rules (text "Orders.INTERNAL") ≡ classify rules (text "orders.internal")
classify_case_test = classify_case rules (text "Orders.INTERNAL") (text "orders.internal") refl

overlaps_iff_example :
    let open_suffix = suffix (text "a") in
    (overlaps (suffix (text "b.a")) open_suffix ≡ true) ↔ Meet (suffix (text "b.a")) open_suffix
overlaps_iff_example = overlaps_iff (suffix (text "b.a")) (suffix (text "a"))
