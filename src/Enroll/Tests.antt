-- ===== src/Enroll/Tests.antt =====
-- The theorem at one window of an A3.
use alike.Base.{some, All}
use alike.Enroll.A3.Trace.{State, here, next, opened, press_save, press_test, saves_it, tests_it}
use alike.Enroll.A3.Safety.{IsVouched, IsValid, Reach-IsVouched}

abbrev known : State
known = opened (some ("4", "10.0.0.5", "token"))

abbrev tested_once : State
tested_once = press_save (press_test known)

Reach-IsVouched_example :
    All (IsVouched tested_once.passed) tested_once.sent × All (λ p. IsValid p.0) tested_once.passed
Reach-IsVouched_example =
    Reach-IsVouched (some ("4", "10.0.0.5", "token")) tested_once
      (next (next here (tests_it known)) (saves_it (press_test known)))
