-- ===== src/Interception/Tests.antt =====
-- A tunnel that is intercepted.
use sippin_soda.Base.{◌≡◌, refl, true, some, none, ok}
use sippin_soda.Text.{text}
use sippin_soda.Policy.{production}
use sippin_soda.Interception.{prepare_route}
use sippin_soda.Interception.Samples.{surroundings}

other_class_test :
    prepare_route surroundings true
      (text "phone")
      (text "dev.test")
      production
      (some (text "phone"))
    ≡ ok none
unfolding prepare_route
other_class_test = refl
