-- ===== src/Format/Duration.antt =====
-- webui/js/utils.js, `timeElapsed`, `validationTime`, `formatHours`, `timeSince` and `timeUntil`, on
-- whole numbers. The time that they read from the clock is an argument; `text` is `getText`.
pub mod Parts
pub mod Units
use alike.Base.{
  ℕ, zero, suc, ◌+◌, ◌-◌, ◌*◌, ◌/◌, ◌%◌, String, List, [], ◌∷◌, ℤ, pos, negsuc, int_eq, int_lt,
  Option, some, none, Bool, ltb, leb, ◌==◌, if◌then◌else◌, show, ◌<>◌,
}
use alike.Status.Value.{show_number}

pub hours_part : ℕ → String
hours_part h =
    if ltb 0 h then (if h == 1 then show h <> " hour, " else show h <> " hours, ") else ""

pub minutes_part : ℕ → String
minutes_part m = if ltb 0 m then (if ltb 1 m then show m <> " mins " else show m <> " min ") else ""

pub time_elapsed : ℕ → String
unfolding hours_part minutes_part
time_elapsed s =
    let d = s / 86400 in
    if ltb 7 d
    then "Error"
    else if ltb 0 d
    then show d <> " days"
    else (let h = s / 3600 in
        let s' = s - h * 3600 in
        let m = s' / 60 in
        let s'' = s' - m * 60 in hours_part h <> minutes_part m <> show s'' <> " sec")

-- `Math.round(n / 24)`
pub round_days : ℕ → ℕ
round_days n = (2 * n + 24) / 48

module _ (text : String → String) where
  days_text : ℕ → String
  days_text ret =
      if ret == 1 then show ret <> " " <> text "dayUnit" else show ret <> " " <> text "dayUnits"

  pub more_days : ℕ → String
  more_days days = if ltb 0 days then ", " <> show days <> " " <> text "dayUnits" else ""

  -- the branches for numbers above 0
  pub validation_hours : ℕ → String
  unfolding days_text more_days round_days
  validation_hours v =
      if ltb v 24
      then show v <> " " <> text "hourUnits"
      else if ltb v 168
      then days_text (round_days v)
      else if ltb v 336
      then "1 " <> text "weekUnit" <> more_days ((v - 168) / 24)
      else if leb v 2160
      then (let weeks = v / 168 in
          show weeks <> " " <> text "weekUnits" <> more_days (round_days (v - weeks * 168)))
      else text "neverCheck"

  pub validation_time : ℤ → String
  unfolding validation_hours show_number
  validation_time (pos zero) = text "alwaysCheck"
  validation_time (pos (suc n)) = validation_hours (suc n)
  validation_time (negsuc zero) = text "neverCheck"
  validation_time (negsuc n) = show_number (some (negsuc n)) <> " " <> text "hourUnits"

  -- `Math.floor(seconds / div)` above 1
  abbrev over : ℕ → ℕ → Bool
  over seconds div = ltb 1 (seconds / div)

  -- the units that have a key in the language file
  ago : ℕ → String → String
  ago n unit = show n <> " " <> unit <> " " <> text "ago"

  -- `seconds` is the whole number of seconds from the date to now, negative for a date to come
  pub time_until : ℤ → String
  unfolding ago
  time_until (pos s) =
      if over s 31536000
      then ago (s / 31536000) (text "yearUnits")
      else if over s 2592000
      then ago (s / 2592000) (text "monthUnits")
      else if over s 86400
      then ago (s / 86400) (text "dayUnits")
      else if over s 3600
      then ago (s / 3600) (text "hourUnits")
      else if over s 60
      then ago (s / 60) "mins"
      else ago s (text "secUnits")
  time_until (negsuc s) =
      show_number (some (negsuc s)) <> " " <> text "secUnits" <> " " <> text "ago"

-- `${value} ${unit}${value !== 1 ? "s" : ""}`
pub counted : ℕ → String → String
counted n unit = show n <> " " <> unit <> (if n == 1 then "" else "s")

-- a loop over units, from the largest down; `none` if the number reaches none of them
pub first_unit : ℕ → List (String × ℕ) → Option String
unfolding counted
first_unit n [] = none
first_unit n ((unit, div) ∷ units) =
    if leb div n then some (counted (n / div) unit) else first_unit n units

abbrev pub hour_units : List (String × ℕ)
hour_units = ("year", 8760) ∷ ("month", 730) ∷ ("week", 168) ∷ ("day", 24) ∷ ("hour", 1) ∷ []

pub format_hours : ℕ → String
format_hours hours = elim (first_unit hours hour_units) [ none ↦ counted hours "hour" | some s ↦ s ]

abbrev pub since_units : List (String × ℕ)
since_units =
    ("year", 31536000)
    ∷ ("month", 2592000)
    ∷ ("week", 604800)
    ∷ ("day", 86400)
    ∷ ("hour", 3600)
    ∷ ("min", 60)
    ∷ ("second", 45)
    ∷ []

-- `timeDiff` for a time to come is negative, and reaches no unit; the model has 0 there
pub time_since : ℕ → ℕ → String
time_since now ts = elim (first_unit (now - ts) since_units) [
  | none ↦ "Just now"
  | some s ↦ s <> " ago"
]
