-- ===== src/Format/Duration/Parts.antt =====
-- The parts of a duration add up to it.
use alike.Base.{
  ℕ, ◌+◌, ◌-◌, ◌*◌, ◌/◌, ◌≤◌, ◌<◌, String, ◌≡◌, ap, arith, ltb, if◌then◌else◌, show, ◌<>◌, ◌↔◌,
}
use alike.Format.Duration.{
  hours_part, minutes_part, time_elapsed, round_days, more_days, validation_hours,
}

-- Below a day the hours, minutes and seconds that are printed add up to the duration, with fewer
-- than 60 minutes and seconds. Up to seven whole days only the days are printed, above that "Error".
pub time_elapsed_lem :
    (s : ℕ)
    → (h : ℕ) × (m : ℕ) × (sec : ℕ) × (s ≡ h * 3600 + m * 60 + sec)
      × (m < 60)
      × (sec < 60)
      × (time_elapsed s ≡ (
          if ltb h 24
          then hours_part h <> minutes_part m <> show sec <> " sec"
          else if ltb h 192
          then show (h / 24) <> " days"
          else "Error"))
unfolding time_elapsed
time_elapsed_lem s = (
  s / 3600,
  (s - s / 3600 * 3600) / 60,
  s - s / 3600 * 3600 - (s - s / 3600 * 3600) / 60 * 60,
  omega arith,
  omega arith,
  omega arith,
  ground (arith, ap show {x = s / 86400} {y = s / 3600 / 24} (omega arith)),
)

module _ (text : String → String) where
  -- From two weeks to ninety days the interval is printed as whole weeks and days that are at most
  -- twelve hours away from it. A rest of 156 hours or more is printed as seven days, and not as
  -- one week more.
  pub validation_hours_lem :
      (v : ℕ)
      → 336 ≤ v
      → v ≤ 2160
      → (weeks : ℕ) × (days : ℕ) × (validation_hours text v
          ≡ show weeks <> " " <> text "weekUnits" <> more_days text days)
        × (weeks * 168 + days * 24 ≤ v + 12)
        × (v < weeks * 168 + days * 24 + 12)
        × ((days ≡ 7) ↔ (156 ≤ v - weeks * 168))
  unfolding validation_hours round_days
  validation_hours_lem v lo hi = (
    v / 168,
    round_days (v - v / 168 * 168),
    ground arith,
    ground arith,
    ground arith,
    (λ e. omega arith, λ e. omega arith),
  )
