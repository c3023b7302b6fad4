-- ===== src/Format/Duration/Units.antt =====
-- The loops over units.
use alike.Base.{ℕ, zero, suc, ◌/◌, String, ◌≡◌, refl, arith, leb, if◌then◌else◌}
use alike.Format.Duration.{counted, first_unit, format_hours}

-- the largest unit that a number of hours reaches
abbrev pub hours_unit : ℕ → String × ℕ
hours_unit n =
    if leb 8760 n
    then ("year", 8760)
    else if leb 730 n
    then ("month", 730)
    else if leb 168 n
    then ("week", 168)
    else if leb 24 n
    then ("day", 24)
    else ("hour", 1)

-- Hours are printed as a whole number of the largest unit that they reach.
pub format_hours_lem : (n : ℕ) → format_hours n ≡ counted (n / (hours_unit n).1) (hours_unit n).0
unfolding format_hours first_unit
format_hours_lem zero = refl
format_hours_lem (suc n) = ground arith
