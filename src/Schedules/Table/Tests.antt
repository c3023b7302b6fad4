-- ===== src/Schedules/Table/Tests.antt =====
-- A table of a backup and of a job of the system, on a calendar of seconds.
use alike.Base.{
  ℕ, ◌+◌, ◌-◌, ◌*◌, ◌/◌, ◌%◌, String, List, [], ◌∷◌, map, pos, some, true, false, ◌≡◌, refl,
}
use alike.Status.Value.{num}
use alike.Storage.{A3, Storage, a3s}
use alike.Pools.{get_a3_from_id, find_id, a3_cache}
use alike.Clock.Next.{Dates}
use alike.Schedules.Table.{Stored, Row, table, populate_schedules}
use alike.Schedules.Table.Listed.{listed, populate_schedules-listed}

abbrev seconds : Dates ℕ
seconds = record {
  now = 1715166300;
  of_seconds = λ t. t;
  get_time = λ t. t;
  get_full_year = λ t. 0;
  get_month = λ t. 0;
  get_date = λ t. t / 86400;
  get_day = λ t. (t / 86400 + 4) % 7;
  get_hours = λ t. t / 3600 % 24;
  get_minutes = λ t. t / 60 % 60;
  get_seconds = λ t. t % 60;
  set_full_year = λ t n. t;
  set_month = λ t n. t;
  set_date = λ t n. n * 86400 + t % 86400;
  set_hours = λ t n. t;
  set_minutes = λ t n. t;
  set_seconds = λ t n. t;
}

abbrev nightly : Stored
nightly = record {
  schedule_id = "7";
  name = "Nightly";
  job_type = 0;
  state = num (pos 1);
  lastran = 1714557900;
  schedule = record {
    schedule_type = 0;
    timestamp = 1714557900;
    days = 3 ∷ [];
    occurances = 1;
    interval = 0;
  };
}

abbrev stored : List Stored
stored = nightly ∷ record nightly { schedule_id = "8"; job_type = 100 } ∷ []

abbrev east : A3
east = record { id = "1"; guid = "g1"; name = "East" }

abbrev storage : Storage
storage = ("a3Cache", a3s (east ∷ [])) ∷ []

abbrev clock : ℕ → ℕ × ℕ
clock t = (t / 3600 % 24, t / 60 % 60)

abbrev calendar : ℕ → ℕ × ℕ × ℕ
calendar t = (2024, 5, 1)

known : get_a3_from_id "1" storage ≡ some east
unfolding get_a3_from_id find_id a3_cache alike.Base.lookup
known = refl

populate_schedules-listed_example :
    (rs : List Row) × (populate_schedules seconds
        (λ t. "Never")
        clock
        calendar
        false
        (λ t. "today")
        true
        ""
        stored
        "1"
        storage
      ≡ table rs)
    × (map (λ r. r.schedule_id) rs ≡ map (λ s. s.schedule_id) (listed stored))
populate_schedules-listed_example =
    populate_schedules-listed seconds (λ t. "Never") refl clock calendar false (λ t. "today") ""
      stored "1" storage east known
