-- ===== src/Net/Address.antt =====
-- What the address pattern accepts.
use alike.Base.{
  ℕ, ◌+◌, ◌-◌, ◌*◌, ◌≤◌, List, [], ◌∷◌, ◌++◌, Bool, true, ◌&&◌, some, ◌≡◌, ◌↔◌, inl, inr, refl,
  arith, length, parse_decimal, append-nil,
}
use alike.Net.Regex.{Pattern, range, seq, opt, in_range, run, at_end, or-cases}
use alike.Net.{octet, dot, check_ip}

-- One to three decimal digits of a number up to 255; leading zeros are allowed.
pub record IsOctet (a : List ℕ) : Type 0 where
  pub value : ℕ
  pub spells : parse_decimal a ≡ some value
  pub fits : value ≤ 255
  pub non_empty : 1 ≤ length a
  pub short : length a ≤ 3

-- The text starts with an octet, and the rest passes `k`.
abbrev Starts : (List ℕ → Bool) → List ℕ → Type 0
Starts k s = (a : List ℕ) × (r : List ℕ) × (s ≡ a ++ r) × IsOctet a × (k r ≡ true)

abbrev high : Pattern
high = seq (range b'2' b'2') (seq (range b'5' b'5') (range b'0' b'5'))

abbrev middle : Pattern
middle = seq (range b'2' b'2') (seq (range b'0' b'4') (range b'0' b'9'))

abbrev low : Pattern
low = seq (range b'0' b'9') (opt (range b'0' b'9'))

high_sound : (k : List ℕ → Bool) (s : List ℕ) → run high k s ≡ true → Starts k s
unfolding parse_decimal
high_sound k (x ∷ y ∷ z ∷ r) h = (
  x ∷ y ∷ z ∷ [],
  r,
  refl,
  record {
    value = 202 + z;
    spells = ground arith;
    fits = ground arith;
    non_empty = omega arith;
    short = omega arith;
  },
  ground arith,
)
high_sound k s h = ground arith

middle_sound : (k : List ℕ → Bool) (s : List ℕ) → run middle k s ≡ true → Starts k s
unfolding parse_decimal
middle_sound k (x ∷ y ∷ z ∷ r) h = (
  x ∷ y ∷ z ∷ [],
  r,
  refl,
  record {
    value = 200 + (y - 48) * 10 + (z - 48);
    spells = ground arith;
    fits = ground arith;
    non_empty = omega arith;
    short = omega arith;
  },
  ground arith,
)
middle_sound k s h = ground arith

-- up to two digits
low_two :
    (k : List ℕ → Bool) (x y : ℕ) (r : List ℕ)
    → run (seq (range b'0' b'9') (range b'0' b'9')) k (x ∷ y ∷ r) ≡ true
    → Starts k (x ∷ y ∷ r)
unfolding parse_decimal
low_two k x y r h = (
  x ∷ y ∷ [],
  r,
  refl,
  record {
    value = (x - 48) * 10 + (y - 48);
    spells = ground arith;
    fits = ground arith;
    non_empty = omega arith;
    short = omega arith;
  },
  ground arith,
)

low_one :
    (k : List ℕ → Bool) (x : ℕ) (r : List ℕ)
    → run (range b'0' b'9') k (x ∷ r) ≡ true
    → Starts k (x ∷ r)
unfolding parse_decimal
low_one k x r h = (
  x ∷ [],
  r,
  refl,
  record {
    value = x - 48;
    spells = ground arith;
    fits = ground arith;
    non_empty = omega arith;
    short = omega arith;
  },
  ground arith,
)

low_sound : (k : List ℕ → Bool) (s : List ℕ) → run low k s ≡ true → Starts k s
low_sound k [] h = ground arith
low_sound k (x ∷ []) h = low_one k x [] (ground arith)
low_sound k (x ∷ y ∷ r) h =
    elim (or-cases (in_range b'0' b'9' y && k r) (k (y ∷ r)) (ground arith)) [
      | inl two ↦ low_two k x y r (ground arith)
      | inr one ↦ low_one k x (y ∷ r) (ground arith)
    ]

-- three digits, the first of them 0 or 1
low_three :
    (k : List ℕ → Bool) (x y z : ℕ) (r : List ℕ)
    → (in_range b'0' b'1' x && in_range b'0' b'9' y && in_range b'0' b'9' z && k r) ≡ true
    → Starts k (x ∷ y ∷ z ∷ r)
unfolding parse_decimal
low_three k x y z r h = (
  x ∷ y ∷ z ∷ [],
  r,
  refl,
  record {
    value = ((x - 48) * 10 + (y - 48)) * 10 + (z - 48);
    spells = ground arith;
    fits = ground arith;
    non_empty = omega arith;
    short = omega arith;
  },
  ground arith,
)

led_sound :
    (k : List ℕ → Bool) (s : List ℕ) → run (seq (range b'0' b'1') low) k s ≡ true → Starts k s
led_sound k (x ∷ y ∷ z ∷ r) h =
    elim (or-cases (in_range b'0' b'9' z && k r) (k (z ∷ r)) (ground arith)) [
      | inl three ↦ low_three k x y z r (ground arith)
      | inr two ↦ low_two k x y (z ∷ r) (ground arith)
    ]
led_sound k (x ∷ y ∷ []) h = low_two k x y [] (ground arith)
led_sound k s h = ground arith

octet_sound : (k : List ℕ → Bool) (s : List ℕ) → run octet k s ≡ true → Starts k s
octet_sound k s h = elim (or-cases (run high k s) _ h) [
  | inl a ↦ high_sound k s a
  | inr rest ↦ elim (or-cases (run middle k s) _ rest) [
    | inl b ↦ middle_sound k s b
    | inr rest ↦ elim (or-cases (run (seq (range b'0' b'1') low) k s) (run low k s) rest) [
      | inl c ↦ led_sound k s c
      | inr d ↦ low_sound k s d
    ]
  ]
]

-- Every octet is taken, whatever the rest of the pattern is.
octet_complete :
    (k : List ℕ → Bool) (a r : List ℕ) → IsOctet a → k r ≡ true → run octet k (a ++ r) ≡ true
unfolding parse_decimal
octet_complete k [] r o h = absurd (omega (arith, o.non_empty))
octet_complete k (x ∷ []) r o h = ground arith
octet_complete k (x ∷ y ∷ []) r o h = ground arith
octet_complete k (x ∷ y ∷ z ∷ []) r o h = ground arith
octet_complete k (x ∷ y ∷ z ∷ w ∷ a) r o h = absurd (omega (arith, o.short))

-- Four octets with dots between them.
pub record IsAddress (ip : List ℕ) : Type 0 where
  pub a : List ℕ
  pub b : List ℕ
  pub c : List ℕ
  pub d : List ℕ
  pub spelled : ip ≡ a ++ dot ∷ (b ++ dot ∷ (c ++ dot ∷ d))
  pub octets : IsOctet a × IsOctet b × IsOctet c × IsOctet d

abbrev dotted : (List ℕ → Bool) → List ℕ → Bool
dotted k = run (range dot dot) k

dotted_sound :
    (k : List ℕ → Bool) (s : List ℕ)
    → dotted k s ≡ true
    → (r : List ℕ) × (s ≡ dot ∷ r) × (k r ≡ true)
dotted_sound k [] h = ground arith
dotted_sound k (c ∷ r) h = (r, ground arith, ground arith)

-- An octet and the dot behind it.
part_sound :
    (k : List ℕ → Bool) (s : List ℕ)
    → run octet (dotted k) s ≡ true
    → (a : List ℕ) × (r : List ℕ) × (s ≡ a ++ dot ∷ r) × IsOctet a × (k r ≡ true)
part_sound k s h =
    let (a, r, e, o, h') = octet_sound (dotted k) s h in
    let (r', e', h'') = dotted_sound k r h' in (a, r', rw (← e') e, o, h'')

part_complete :
    (k : List ℕ → Bool) (a r : List ℕ)
    → IsOctet a
    → k r ≡ true
    → run octet (dotted k) (a ++ dot ∷ r) ≡ true
part_complete k a r o h = octet_complete (dotted k) a (dot ∷ r) o (ground arith)

last_sound : (s : List ℕ) → run octet at_end s ≡ true → IsOctet s
last_sound s h =
    let (d, r, e, o, h') = octet_sound at_end s h in rw (e, nil_of_at_end r h', append-nil) o
  where
    nil_of_at_end : (r : List ℕ) → at_end r ≡ true → r ≡ []
    nil_of_at_end [] h = refl
    nil_of_at_end (c ∷ r) h = ground arith

check_ip_sound : (ip : List ℕ) → check_ip ip ≡ true → IsAddress ip
unfolding check_ip
check_ip_sound ip h =
    let (a, r, e, o, h) = part_sound _ ip h in
    let (b, r', e', o', h') = part_sound _ r h in
    let (c, d, e'', o'', h'') = part_sound (run octet at_end) r' h' in
    record { a = a; b = b; c = c; d = d; spelled = cc; octets = (o, o', o'', last_sound d h'') }

check_ip_complete : (ip : List ℕ) → IsAddress ip → check_ip ip ≡ true
unfolding check_ip
check_ip_complete ip w = rw w.spelled (
    part_complete _ w.a _ w.octets.0 (
      part_complete _ w.b _ w.octets.1 (
        part_complete _ w.c _ w.octets.2
          (rw (← append-nil w.d) (octet_complete at_end w.d [] w.octets.3 refl)))))

-- An address is accepted exactly if it is four octets with dots between them, each one to three
-- decimal digits of a number up to 255.
pub check_ip_iff : (ip : List ℕ) → (check_ip ip ≡ true) ↔ IsAddress ip
check_ip_iff ip = (check_ip_sound ip, check_ip_complete ip)
