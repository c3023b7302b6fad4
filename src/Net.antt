-- ===== src/Net.antt =====
-- webui/js/utils.js: `ipCheck`, `checkIP`, `maskToCIDR`, `CIDRToMask`. Texts are lists of char
-- codes. A part of an address is read by `Number`; of the texts that are not runs of decimal
-- digits, whose number JavaScript reads in other notations, the model makes NaN.
pub mod Regex
pub mod Split
pub mod Address
pub mod Mask
mod Tests
use alike.Base.{
  ℕ, zero, suc, ◌+◌, ◌-◌, ◌*◌, ◌/◌, ◌%◌, ◌^◌, List, [], ◌∷◌, ◌++◌, map, Option, none, some, Bool,
  ltb, leb, ◌==◌, if◌then◌else◌, length, replicate, codes, show, parse_decimal,
}
use alike.Net.Regex.{Pattern, range, alt, seq, opt, test}
use alike.Net.Split.{split, join}

abbrev any_digit : Pattern
any_digit = range b'0' b'9'

-- (25[0-5]|2[0-4][0-9]|[01]?[0-9][0-9]?)
abbrev pub octet : Pattern
octet = alt (seq (range b'2' b'2') (seq (range b'5' b'5') (range b'0' b'5'))) (
    alt (seq (range b'2' b'2') (seq (range b'0' b'4') any_digit))
      (seq (opt (range b'0' b'1')) (seq any_digit (opt any_digit))))

abbrev pub dot : ℕ
dot = b'.'

abbrev pub ip_pattern : Pattern
ip_pattern =
    let stop = range dot dot in
    seq octet (seq stop (seq octet (seq stop (seq octet (seq stop octet)))))

-- `ipCheck`, which has the same pattern, and `checkIP`
unfoldable pub check_ip : List ℕ → Bool
unfolding test
check_ip ip = test ip_pattern ip

-- `(a << 8) + b`, where NaN shifted is 0 and NaN added is NaN
pub add_part : Option ℕ → Option ℕ → Option ℕ
add_part a none = none
add_part none (some b) = some b
add_part (some a) (some b) = some (a * 256 % 2 ^ 32 + b)

reduce : Option ℕ → List (Option ℕ) → Option ℕ
reduce acc [] = acc
reduce acc (p ∷ ps) = reduce (add_part acc p) ps

-- `parts.reduce((a, b) => (a << 8) + b) >>> 0`; `split` gives at least one part
pub address_word : List (Option ℕ) → ℕ
unfolding reduce add_part
address_word [] = 0
address_word (p ∷ ps) = elim (reduce p ps) [ none ↦ 0 | some w ↦ w % 2 ^ 32 ]

binary_fuel : ℕ → ℕ → List ℕ
binary_fuel zero n = []
binary_fuel (suc f) n =
    let more = binary_fuel f (n / 2) ++ (n % 2 + b'0') ∷ [] in
    if ltb n 2 then (n + b'0') ∷ [] else more

-- `n.toString(2)`
pub to_binary : ℕ → List ℕ
unfolding binary_fuel
to_binary n = binary_fuel (n + 1) n

pub mask_to_cidr : List ℕ → ℕ
unfolding address_word split
mask_to_cidr net =
    length (split b'1' (to_binary (address_word (map parse_decimal (split dot net))))) - 1

-- `text.repeat(n)` of one character; a negative count raises a RangeError, so the second takes
-- both terms of `32 - cidr`
repeat_to : ℕ → ℕ → ℕ → Option (List ℕ)
repeat_to c bound used = if leb used bound then some (replicate (bound - used) c) else none

-- `match(/.{8}/g)`: the whole chunks of eight, from the left
chunks : ℕ → List ℕ → List (List ℕ)
chunks zero bits = []
chunks (suc f) (a ∷ b ∷ c ∷ d ∷ e ∷ g ∷ h ∷ i ∷ bits) =
    (a ∷ b ∷ c ∷ d ∷ e ∷ g ∷ h ∷ i ∷ []) ∷ chunks f bits
chunks (suc f) bits = []

-- `parseInt(b, 2)` of a run of binary digits
parse_binary : ℕ → List ℕ → ℕ
parse_binary n [] = n
parse_binary n (c ∷ cs) = parse_binary (n * 2 + (c - b'0')) cs

-- `none` is the RangeError of `'0'.repeat(32 - cidr)`
pub cidr_to_mask : ℕ → Option (List ℕ)
unfolding repeat_to chunks parse_binary join
cidr_to_mask cidr = elim (repeat_to b'0' 32 cidr) [
  | none ↦ none
  | some zeros ↦
      let bits = replicate cidr b'1' ++ zeros in
      some (join dot (map (λ b. codes (show (parse_binary 0 b))) (chunks (length bits) bits)))
]
