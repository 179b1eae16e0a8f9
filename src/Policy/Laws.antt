-- ===== src/Policy/Laws.antt =====
-- Which operations the policy of crates/engine/src/lib.rs lets pass.
use sippin_soda.Base.{◌≡◌, refl, ◌↔◌, ◌⊎◌, inl, inr, ok, arith, ◌≢◌}
use sippin_soda.Text.{Text, to_ascii_lowercase}
use sippin_soda.Policy.{
  Action, observe, DestinationClass, development, production, unknown, authorize, redact_header,
}

-- An action other than observation is allowed exactly for Development destinations, and
-- observation is allowed for every destination.
pub authorize_iff :
    (d : DestinationClass) (a : Action)
    → (authorize d a ≡ ok tt) ↔ ((a ≡ observe) ⊎ (d ≡ development))
unfolding authorize
authorize_iff development observe = (λ _. inl refl, λ _. refl)
authorize_iff development _ = (λ _. inr refl, λ _. refl)
authorize_iff production observe = (λ _. inl refl, λ _. refl)
authorize_iff production _ = (λ e. cc, λ e. ground arith)
authorize_iff unknown observe = (λ _. inl refl, λ _. refl)
authorize_iff unknown _ = (λ e. cc, λ e. ground arith)

-- The form that callers use.
pub authorize_active :
    (d : DestinationClass) (a : Action) → a ≢ observe → authorize d a ≡ ok tt → d ≡ development
authorize_active d a n e = elim ((authorize_iff d a).0 e) [ inl o ↦ absurd (n o) | inr h ↦ h ]

pub redact_header_case :
    (name other value : Text)
    → to_ascii_lowercase name ≡ to_ascii_lowercase other
    → redact_header name value ≡ redact_header other value
unfolding redact_header
redact_header_case name other value e = rw e
