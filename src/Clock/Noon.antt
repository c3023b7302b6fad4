-- ===== src/Clock/Noon.antt =====
-- What the two clocks show at noon.
use alike.Base.{ℕ, String, true, false, ◌≡◌, ◌≢◌, refl, arith, ◌==◌, ==_iff, show, ◌<>◌}
use alike.Clock.{padded, get_time, get_schedule_time}

-- In the hour from noon on, with twelve hours, a daily schedule is shown in the morning, and the
-- same moment elsewhere in the afternoon.
pub get_schedule_time-noon :
    (local_time : ℕ → ℕ × ℕ) (local_day : ℕ → ℕ × ℕ × ℕ) (text : String → String) (epoch m : ℕ)
    → local_time epoch ≡ (12, m)
    → epoch ≢ 0
    → (get_schedule_time local_time local_day true text 0 epoch
        ≡ text "daily" <> " at " <> "12" <> ":" <> padded m <> " " <> "am")
      × (get_time local_time local_day true epoch ≡ "12" <> ":" <> padded m <> " " <> "pm")
unfolding get_time get_schedule_time show
get_schedule_time-noon local_time local_day text epoch m noon ne =
    rw (noon, nonzero, get_time, get_schedule_time) (refl, refl)
  where
    nonzero : (epoch == 0) ≡ false
    nonzero = ground (arith, ==_iff epoch 0)
