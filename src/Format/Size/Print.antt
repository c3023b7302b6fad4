-- ===== src/Format/Size/Print.antt =====
-- `printSize` against a table of its units.
use alike.Base.{ℕ, ◌/◌, ◌^◌, String, List, [], ◌∷◌, ◌≡◌, ap, arith, leb, if◌then◌else◌, show, ◌<>◌}
use alike.Format.Size.{amount, print_size, unit_name}

abbrev pub print_units : List String
print_units = " Bytes" ∷ " KB" ∷ " MB" ∷ " GB" ∷ " TB" ∷ " PB" ∷ []

-- the number of a unit's power of 1024 that a size reaches; 0 again past the petabytes
abbrev pub unit_index : ℕ → ℕ
unit_index b =
    if leb (1024 ^ 6) b
    then 0
    else if leb (1024 ^ 5) b
    then 5
    else if leb (1024 ^ 4) b
    then 4
    else if leb (1024 ^ 3) b
    then 3
    else if leb (1024 ^ 2) b
    then 2
    else if leb (1024 ^ 1) b
    then 1
    else 0

amount_whole : (b : ℕ) → amount b 1 ≡ show b
unfolding amount
amount_whole b = ground (arith, ap show {x = b / 1} {y = b} (omega arith))

-- A size is printed in the largest unit that it reaches, from 1024 ^ 6 on in bytes again.
pub print_size_lem :
    (b : ℕ) → print_size b ≡ amount b (1024 ^ unit_index b) <> unit_name print_units (unit_index b)
unfolding print_size unit_name
print_size_lem b = ground (arith, amount_whole b)
