-- ===== src/Format/Size/Scale.antt =====
-- The loop that chooses the unit ends, and the printed number is the rounded quotient.
use native.Mathlib.Nat.{pow-suc, one-le-pow, pow-le-pow_right, div-add-mod', mod-lt}
use native.Mathlib.Decide.{dec_le}
use alike.Base.{
  ℕ, zero, suc, ◌+◌, ◌*◌, ◌^◌, ◌≤◌, ◌<◌, String, List, ◌≡◌, refl, ap, ◌∙◌, arith, ltb, ltb→lt, show,
  ◌<>◌, Bool-cases, inl, inr,
}
use alike.Format.Size.{to_fixed_zero, scale, unit_name, pretty_units, net_units, pretty_net}

power_up : (u : ℕ) → 1024 ^ (u + 2) ≡ 1024 ^ (u + 1) * 1024
power_up u = ap (λ t. 1024 ^ t) {x = u + 2} {y = suc (u + 1)} (omega arith) ∙ pow-suc 1024 (u + 1)

same_power : (u : ℕ) → 1024 ^ (u + 1 + 1) ≡ 1024 ^ (u + 2)
same_power u = ap (λ t. 1024 ^ t) {x = u + 1 + 1} {y = u + 2} (omega arith)

-- With enough rounds the loop stops at the power of 1024 that `b` reaches.
scale_lem :
    (fuel b u d : ℕ)
    → b < fuel + d
    → 1 ≤ d
    → d ≤ b
    → d ≡ 1024 ^ (u + 1)
    → (v : ℕ) × (scale fuel b u d ≡ (v, 1024 ^ (v + 1)))
      × (1024 ^ (v + 1) ≤ b)
      × (b < 1024 ^ (v + 2))
unfolding scale
scale_lem zero b u d h one le e = absurd (omega arith)
scale_lem (suc fuel) b u d h one le e = elim (Bool-cases (ltb b (d * 1024))) [
  | inl small ↦
      (u, rw (small, e), omega arith, omega (arith, power_up u, ltb→lt b (d * 1024) small))
  | inr large ↦ rw large (
      scale_lem fuel b (u + 1) (d * 1024) (omega arith) (omega arith) (ground arith)
        (omega (arith, power_up u, same_power u)))
]

to_fixed_zero_lem :
    (b d : ℕ)
    → 1 ≤ d
    → (2 * (to_fixed_zero b d * d) ≤ 2 * b + d) × (2 * b < 2 * (to_fixed_zero b d * d) + d)
unfolding to_fixed_zero
to_fixed_zero_lem b d h =
    omega (arith, div-add-mod' (2 * b + d) (2 * d), mod-lt (2 * b + d) {m = 2 * d} (omega arith))

-- From 1024 on a size is printed as a number of the unit that it reaches, rounded to the nearest
-- whole number, a half upwards. A unit past the end of the list prints as "undefined".
pub pretty_units_lem :
    (units : List String) (b : ℕ)
    → 1024 ≤ b
    → (u : ℕ) × (q : ℕ) × (pretty_units units b ≡ show q <> " " <> unit_name units u)
      × (1024 ^ (u + 1) ≤ b)
      × (b < 1024 ^ (u + 2))
      × (2 * (q * 1024 ^ (u + 1)) ≤ 2 * b + 1024 ^ (u + 1))
      × (2 * b < 2 * (q * 1024 ^ (u + 1)) + 1024 ^ (u + 1))
unfolding pretty_units
pretty_units_lem units b h =
    let (u, stops, lo, hi) = scale_lem b b 0 1024 (omega arith) (omega arith) h refl in
    let q = to_fixed_zero b (1024 ^ (u + 1)) in
    (
      u,
      q,
      rw stops refl,
      lo,
      hi,
      (to_fixed_zero_lem b (1024 ^ (u + 1)) (one-le-pow (u + 1) 1024 (omega arith))).0,
      (to_fixed_zero_lem b (1024 ^ (u + 1)) (one-le-pow (u + 1) 1024 (omega arith))).1,
    )

-- `prettyNet` has names for three units only: exactly from 1024 ^ 4 on there is none.
net_unit_missing : (u : ℕ) → 3 ≤ u → unit_name net_units u ≡ "undefined"
unfolding unit_name
net_unit_missing u h = past u h
  where
    past : (u : ℕ) → 3 ≤ u → unit_name net_units u ≡ "undefined"
    past zero h = absurd (omega arith)
    past (suc zero) h = absurd (omega arith)
    past (suc (suc zero)) h = absurd (omega arith)
    past (suc (suc (suc u))) h = refl

unit_from : (b u k : ℕ) → 1024 ^ (k + 1) ≤ b → b < 1024 ^ (u + 2) → k ≤ u
unit_from b u k lo hi = elim (dec_le k u) [
  | yes p ↦ p
  | no p ↦ absurd (
      omega
        (arith, pow-le-pow_right {n = 1024} (omega arith) {i = u + 2} {j = k + 1} (omega arith)))
]

net_large : (b : ℕ) → 1024 ≤ b → pretty_net b ≡ pretty_units net_units b
unfolding pretty_net
net_large b h = ground arith

-- A throughput of 1024 ^ 4 or more is printed with the unit "undefined".
pub pretty_net_undefined :
    (b : ℕ) → 1024 ^ 4 ≤ b → (q : ℕ) × (pretty_net b ≡ show q <> " undefined")
pretty_net_undefined b h =
    let (u, q, e, lo, hi, _, _) = pretty_units_lem net_units b (omega arith) in
    (
      q,
      net_large b (omega arith)
          ∙ e
          ∙ ap (λ t. show q <> " " <> t) (net_unit_missing u (unit_from b u 3 h hi)),
    )
