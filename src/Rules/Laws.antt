-- ===== src/Rules/Laws.antt =====
-- What a compiled list of response rules promises.
use sippin_soda.Base.{
  ℕ, ◌≤◌, ◌<◌, ◌≡◌, refl, Bool, true, false, List, [], ◌∷◌, arith, refuse_if-eq-ok, ok, All, any,
  all, retain, ltb, not, map, length, ◌||◌,
}
use sippin_soda.Text.{Text, text_eq, is_empty, len}
use sippin_soda.Hosts.{compile}
use sippin_soda.Rules.{
  Http, IsDocumented, ResponseRuleConfig, ResponseRule, compile_rule, compile_rules, compile_all,
  final_status, unsafe_id, safe_id_character, unsafe_path, body_forbidden,
}

module _ (http : Http) (doc : IsDocumented http) where
  -- A status that is accepted is a final one.
  pub final_status_lem : (s : ℕ) → final_status http s ≡ true → (200 ≤ s) × (s < 600)
  unfolding final_status
  final_status_lem s h =
      ground (arith, doc.success s, doc.redirection s, doc.client_error s, doc.server_error s)

  compile_rule_lem :
      (seen : List Text) (config : ResponseRuleConfig) (rule : ResponseRule)
      → compile_rule http seen config ≡ ok rule
      → (rule.id ≡ config.id)
        × (unsafe_id seen config.id ≡ false)
        × (unsafe_path rule.path_prefix ≡ false)
        × (final_status http rule.status ≡ true)
        × (body_forbidden rule.status ≡ false)
        × (compile config.host ≡ ok rule.host)
  unfolding compile_rule
  compile_rule_lem seen config rule h = ground arith

-- The rule answers with a final status that may have a body, for paths under the root.
pub record IsServable (rule : ResponseRule) : Type 0 where
  pub low : 200 ≤ rule.status
  pub high : rule.status < 600
  pub bodied : body_forbidden rule.status ≡ false
  pub rooted : unsafe_path rule.path_prefix ≡ false

-- No rule has the id of one before it.
abbrev pub Distinct : List ResponseRule → Type 0
Distinct [] = Unit
Distinct (rule ∷ rules) = All (λ other. text_eq rule.id other.id ≡ false) rules × Distinct rules

abbrev pub IsFresh : List Text → List ResponseRule → Type 0
IsFresh seen rules = All (λ rule. any (λ other. text_eq other rule.id) seen ≡ false) rules

IsFresh-tail :
    (id : Text) (seen : List Text) (rules : List ResponseRule)
    → IsFresh (id ∷ seen) rules
    → IsFresh seen rules × All (λ other. text_eq id other.id ≡ false) rules
unfolding any
IsFresh-tail id seen [] f = (tt, tt)
IsFresh-tail id seen (rule ∷ rules) (h, f) =
    let (g, d) = IsFresh-tail id seen rules f in ((ground arith, g), (ground arith, d))

last_of : (a b c d : Bool) → (a || b || c || d) ≡ false → d ≡ false
last_of a b c d h = ground arith

fresh_id :
    (seen : List Text) (id : Text)
    → unsafe_id seen id ≡ false
    → any (λ other. text_eq other id) seen ≡ false
unfolding unsafe_id
fresh_id seen id h = last_of (is_empty id) (ltb 128 (len id)) (not (all safe_id_character id)) _ h

abbrev pub ids_of : List ResponseRule → List Text
ids_of rules = map (λ rule. rule.id) rules

abbrev pub config_ids : List ResponseRuleConfig → List Text
config_ids configs = map (λ config. config.id) configs

module _ (http : Http) (doc : IsDocumented http) where
  rules_nil :
      (config : ResponseRuleConfig) (configs : List ResponseRuleConfig) (seen : List Text)
      → compile_rules http seen (config ∷ configs) ≡ ok []
      → ⊥
  unfolding compile_rules
  rules_nil config configs seen h = ground arith

  rules_cons :
      (config : ResponseRuleConfig) (configs : List ResponseRuleConfig) (seen : List Text)
      (rule : ResponseRule) (rules : List ResponseRule)
      → compile_rules http seen (config ∷ configs) ≡ ok (rule ∷ rules)
      → (compile_rule http seen config ≡ ok rule)
        × (compile_rules http (config.id ∷ seen) configs ≡ ok rules)
  unfolding compile_rules
  rules_cons config configs seen rule rules h = ground arith

  servable :
      (seen : List Text) (config : ResponseRuleConfig) (rule : ResponseRule)
      → compile_rule http seen config ≡ ok rule
      → IsServable rule
  servable seen config rule h =
      let (_, _, path, final, bodied, _) = compile_rule_lem http doc seen config rule h in
      let (low, high) = final_status_lem http doc rule.status final in
      record { low = low; high = high; bodied = bodied; rooted = path }

  fresh_rule :
      (seen : List Text) (config : ResponseRuleConfig) (rule : ResponseRule)
      → compile_rule http seen config ≡ ok rule
      → any (λ other. text_eq other rule.id) seen ≡ false
  fresh_rule seen config rule h =
      let (same, safe, _, _, _, _) = compile_rule_lem http doc seen config rule h in
      rw same (fresh_id seen config.id safe)

  compile_rules_lem :
      (configs : List ResponseRuleConfig) (seen : List Text) (rules : List ResponseRule)
      → compile_rules http seen configs ≡ ok rules
      → (ids_of rules ≡ config_ids configs)
        × All IsServable rules
        × IsFresh seen rules
        × Distinct rules
  unfolding compile_rules
  compile_rules_lem [] seen [] h = (refl, tt, tt, tt)
  compile_rules_lem [] seen (rule ∷ rules) h = cc
  compile_rules_lem (config ∷ configs) seen [] h = absurd (rules_nil config configs seen h)
  compile_rules_lem (config ∷ configs) seen (rule ∷ rules) h =
      let (first, others) = rules_cons config configs seen rule rules h in
      let (same, _, _, _, _, _) = compile_rule_lem http doc seen config rule first in
      let (ids, served, fresh, distinct) =
        compile_rules_lem configs (config.id ∷ seen) rules others in
      let (unseen, apart) = IsFresh-tail config.id seen rules fresh in
      (
        rw (same, ids) refl,
        (servable seen config rule first, served),
        (fresh_rule seen config rule first, unseen),
        (rw same apart, distinct),
      )

  -- When the rules compile, they are those of the enabled configurations in their order, at most 64,
  -- no two have the same id, and each has a path prefix that begins with '/' and a status from 200
  -- to 599 that may have a body.
  pub compile_all_sound :
      (configs : List ResponseRuleConfig) (rules : List ResponseRule)
      → compile_all http configs ≡ ok rules
      → (length configs ≤ 64)
        × (ids_of rules ≡ config_ids (retain (λ config. config.enabled) configs))
        × All IsServable rules
        × Distinct rules
  unfolding compile_all
  compile_all_sound configs rules h =
      let (few, compiled) = refuse_if-eq-ok (ltb 64 (length configs)) _ _ h in
      let (ids, served, _, distinct) =
        compile_rules_lem (retain (λ config. config.enabled) configs) [] rules compiled in
      (ground arith, ids, served, distinct)
