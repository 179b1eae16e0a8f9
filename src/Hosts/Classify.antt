-- ===== src/Hosts/Classify.antt =====
-- Classification under compiled rules.
use sippin_soda.Base.{
  ◌≡◌, refl, ap, ◌∙◌, ◌↔◌, Bool, true, false, ◌||◌, ◌⊎◌, inl, inr, List, arith, Bool-cases, ◌==◌,
  any, any_pick, ok, collect, length, leb, ◌≤◌, ℕ,
}
use sippin_soda.Text.{
  Text, text, text_eq, to_ascii_lowercase, trim, trim_end_matches, trim_start_matches, lower,
}
use sippin_soda.Text.Case.{IgnoresCase, lower-trim, lower-trim_end, lower-trim_start}
use sippin_soda.Policy.{development, production, unknown}
use sippin_soda.Hosts.{
  HostPattern, matches, overlaps, DestinationClassifier, compile, compile_classifier, classify,
  host_text, is_loopback_address,
}
use sippin_soda.Hosts.Overlap.{overlaps_iff}

-- Some pattern of the list matches the host.
abbrev pub listed : List HostPattern → Text → Bool
listed patterns host = any (λ pattern. matches pattern (host_text host)) patterns

-- What a successful compilation checked.
pub record Compiled (dev prod : List Text) (c : DestinationClassifier) : Type 0 where
  pub development : collect compile dev ≡ ok c.development
  pub production : collect compile prod ≡ ok c.production
  pub disjoint : any (λ d. any (λ p. overlaps d p) c.production) c.development ≡ false
  pub few_development : length dev ≤ 128
  pub few_production : length prod ≤ 128

compile_classifier-Compiled :
    (dev prod : List Text) {c : DestinationClassifier}
    → compile_classifier dev prod ≡ ok c
    → Compiled dev prod c
unfolding compile_classifier
compile_classifier-Compiled dev prod h = ground arith

no_common_host :
    (ds ps : List HostPattern) (host : Text)
    → any (λ d. any (λ p. overlaps d p) ps) ds ≡ false
    → any (λ d. matches d host) ds ≡ true
    → any (λ p. matches p host) ps ≡ true
    → ⊥
no_common_host ds ps host disjoint h k =
    let (d, hd, none_d) =
      any_pick (λ d. matches d host) (λ d. any (λ p. overlaps d p) ps) ds h disjoint in
    let (p, hp, apart) = any_pick (λ p. matches p host) (λ p. overlaps d p) ps k none_d in
    let met : overlaps d p ≡ true = (overlaps_iff d p).1 (host, hd, hp) in cc

-- After a successful compilation no host is matched by a Development and by a Production rule.
pub compile_classifier_disjoint :
    (dev prod : List Text) (c : DestinationClassifier) (host : Text)
    → compile_classifier dev prod ≡ ok c
    → ¬ ((listed c.development host ≡ true) × (listed c.production host ≡ true))
compile_classifier_disjoint dev prod c host h (in_dev, in_prod) =
    let compiled = compile_classifier-Compiled dev prod h in
    no_common_host c.development c.production (host_text host) compiled.disjoint in_dev in_prod

-- `localhost` and loopback addresses need no rule.
abbrev pub is_local : Text → Bool
is_local host = text_eq (host_text host) (text "localhost") || is_loopback_address (host_text host)

listed_development_only :
    (dev prod : List Text) (c : DestinationClassifier) (host : Text)
    → compile_classifier dev prod ≡ ok c
    → listed c.development host ≡ true
    → listed c.production host ≡ false
listed_development_only dev prod c host h in_dev = elim (Bool-cases (listed c.production host)) [
  | inl in_prod ↦ absurd (compile_classifier_disjoint dev prod c host h (in_dev, in_prod))
  | inr out ↦ out
]

-- Under rules that compile, a host is Production exactly when a Production rule matches it,
-- Development exactly when a Development rule matches it or it is local and no Production rule
-- matches it, and Unknown exactly when no rule matches it and it is not local.
pub classify_compiled :
    (dev prod : List Text) (c : DestinationClassifier) (host : Text)
    → compile_classifier dev prod ≡ ok c
    → ((classify c host ≡ production) ↔ (listed c.production host ≡ true))
      × ((classify c host ≡ development) ↔ (
          (listed c.development host ≡ true)
          ⊎ ((is_local host ≡ true) × (listed c.production host ≡ false))))
      × ((classify c host ≡ unknown) ↔ (
          (listed c.development host ≡ false)
          × (listed c.production host ≡ false)
          × (is_local host ≡ false)))
unfolding classify
classify_compiled dev prod c host h =
    let only = listed_development_only dev prod c host h in
    (ground (arith, only), ground (arith, only), ground (arith, only))

abbrev trimmed : Text → Text
trimmed t =
    trim_end_matches (λ c. c == b'.')
      (trim_end_matches (λ c. c == b']') (trim_start_matches (λ c. c == b'[') (trim t)))

symbol-IgnoresCase :
    (s : ℕ)
    → (lower s ≡ s)
    → (leb b'a' s ≡ false) ⊎ (leb s b'z' ≡ false)
    → IgnoresCase (λ c. c == s)
symbol-IgnoresCase s e h c = ground arith

host_text-lower : (host : Text) → host_text host ≡ trimmed (to_ascii_lowercase host)
host_text-lower host =
    lower-trim_end _
      (trim_end_matches (λ x. x == b']') (trim_start_matches (λ x. x == b'[') (trim host)))
      (symbol-IgnoresCase b'.' refl (inl refl))
    ∙ ap (trim_end_matches (λ c. c == b'.')) (
        lower-trim_end _ (trim_start_matches (λ x. x == b'[') (trim host))
          (symbol-IgnoresCase b']' refl (inl refl))
        ∙ ap (trim_end_matches (λ c. c == b']')) (
            lower-trim_start _ (trim host) (symbol-IgnoresCase b'[' refl (inl refl))
            ∙ ap (trim_start_matches (λ c. c == b'[')) (lower-trim host)))

-- Hosts that differ in the case of ASCII letters only are classified alike.
pub classify_case :
    (c : DestinationClassifier) (host other : Text)
    → to_ascii_lowercase host ≡ to_ascii_lowercase other
    → classify c host ≡ classify c other
unfolding classify
classify_case c host other e = rw (host_text-lower host, host_text-lower other, e)
