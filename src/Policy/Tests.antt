-- ===== src/Policy/Tests.antt =====
-- The policy at one operation.
use sippin_soda.Base.{◌≡◌, ◌↔◌, ◌⊎◌, ok}
use sippin_soda.Policy.{authorize, replay, observe, production, development}
use sippin_soda.Policy.Laws.{authorize_iff}

authorize_iff_test :
    (authorize production replay ≡ ok tt) ↔ ((replay ≡ observe) ⊎ (production ≡ development))
authorize_iff_test = authorize_iff production replay
