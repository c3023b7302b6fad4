-- ===== src/Format/Tests.antt =====
-- Tests of the printed sizes and durations, and the theorems at concrete ones.
use alike.Base.{ℕ, ◌+◌, ◌*◌, ◌^◌, ◌≤◌, ◌<◌, ◌≡◌, arith, show, ◌<>◌}
use alike.Format.Size.{scale, pretty_units, size_units, unit_name}
use alike.Format.Size.Ends.{scale_terminates}
use alike.Format.Size.Scale.{pretty_units_lem}

pretty_units_lem_example :
    (u : ℕ) × (q : ℕ) × (pretty_units size_units 1536 ≡ show q <> " " <> unit_name size_units u)
    × (1024 ^ (u + 1) ≤ 1536)
    × (1536 < 1024 ^ (u + 2))
    × (2 * (q * 1024 ^ (u + 1)) ≤ 2 * 1536 + 1024 ^ (u + 1))
    × (2 * 1536 < 2 * (q * 1024 ^ (u + 1)) + 1024 ^ (u + 1))
pretty_units_lem_example = pretty_units_lem size_units 1536 (omega arith)

scale_terminates_example :
    (scale (5000000 + 3) 5000000 0 1024 ≡ scale 5000000 5000000 0 1024)
    × (5000000 < (scale 5000000 5000000 0 1024).1 * 1024)
scale_terminates_example = scale_terminates 5000000 3
