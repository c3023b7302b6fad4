-- ===== src/Format/Size.antt =====
-- webui/js/utils.js, `prettyNet`, `prettySize` and `printSize`, on whole numbers of bytes. JavaScript
-- divides in floating point: by a power of two, which is exact for a number below 2 ^ 53, so a
-- quotient is kept here as its numerator and denominator.
pub mod Scale
pub mod Print
pub mod Ends
use alike.Base.{
  ℕ, zero, suc, ◌+◌, ◌*◌, ◌/◌, ◌%◌, ◌^◌, String, List, [], ◌∷◌, Option, some, none, Bool, ltb, ◌==◌,
  if◌then◌else◌, get_elem?, show, ◌<>◌,
}

-- `(b / d).toFixed(0)`: the nearest whole number, and of two the larger
pub to_fixed_zero : ℕ → ℕ → ℕ
to_fixed_zero b d = (2 * b + d) / (2 * d)

-- the loop `do { s /= thresh; ++u; } while(s >= thresh)` behind its first round: `s` is `b / d`
pub scale : ℕ → ℕ → ℕ → ℕ → ℕ × ℕ
scale zero b u d = (u, d)
scale (suc fuel) b u d =
    let more = scale fuel b (u + 1) (d * 1024) in if ltb b (d * 1024) then (u, d) else more

-- `units[u]` in a text
pub unit_name : List String → ℕ → String
unit_name units u = elim (get_elem? units u) [ none ↦ "undefined" | some s ↦ s ]

-- `b` rounds are enough
pub pretty_units : List String → ℕ → String
unfolding scale unit_name to_fixed_zero
pretty_units units b =
    let (u, d) = scale b b 0 1024 in show (to_fixed_zero b d) <> " " <> unit_name units u

abbrev pub net_units : List String
net_units = "KB/s" ∷ "MB/s" ∷ "GB/s" ∷ []

abbrev pub size_units : List String
size_units = "kB" ∷ "MB" ∷ "GB" ∷ "TB" ∷ "PB" ∷ "EB" ∷ "ZB" ∷ "YB" ∷ []

pub pretty_net : ℕ → String
pretty_net s = if ltb s 1024 then show s <> " bps" else pretty_units net_units s

-- `null` is `none`
pub pretty_size : Option ℕ → String
pretty_size none = "0 Bytes"
pretty_size (some b) = if ltb b 1024 then show b <> " Bytes" else pretty_units size_units b

-- two digits
pub two_digits : ℕ → String
two_digits n = if ltb n 10 then "0" <> show n else show n

-- the hundredths of `(b / d).toFixed(2)`, and their text
pub to_fixed_two : ℕ → ℕ → ℕ
to_fixed_two b d = (200 * b + d) / (2 * d)

pub hundredths : ℕ → String
unfolding two_digits
hundredths n = show (n / 100) <> "." <> two_digits (n % 100)

-- `if(Math.round(b) != b){ b = b.toFixed(2); } return b + suf;`
pub amount : ℕ → ℕ → String
unfolding to_fixed_two hundredths
amount b d = if b % d == 0 then show (b / d) else hundredths (to_fixed_two b d)

pub print_size : ℕ → String
print_size bytes =
    if ltb bytes 1024
    then show bytes <> " Bytes"
    else if ltb bytes (1024 * 1024)
    then amount bytes 1024 <> " KB"
    else if ltb bytes (1024 * 1024 * 1024)
    then amount bytes (1024 * 1024) <> " MB"
    else if ltb bytes (1024 * 1024 * 1024 * 1024)
    then amount bytes (1024 * 1024 * 1024) <> " GB"
    else if ltb bytes (1024 * 1024 * 1024 * 1024 * 1024)
    then amount bytes (1024 * 1024 * 1024 * 1024) <> " TB"
    else if ltb bytes (1024 * 1024 * 1024 * 1024 * 1024 * 1024)
    then amount bytes (1024 * 1024 * 1024 * 1024 * 1024) <> " PB"
    else amount bytes 1 <> " Bytes"
