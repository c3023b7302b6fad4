-- ===== src/Format/Size/Ends.antt =====
-- The loop of `prettySize` and `prettyNet` ends.
use alike.Base.{ℕ, zero, suc, ◌+◌, ◌*◌, ◌≤◌, ◌<◌, ◌≡◌, refl, arith, ltb, Bool-cases, inl, inr}
use alike.Format.Size.{scale}

ends :
    (fuel rounds b u d : ℕ)
    → fuel ≤ rounds
    → 1 ≤ d
    → b < d * 1024 + fuel
    → (scale rounds b u d ≡ scale fuel b u d) × (b < (scale fuel b u d).1 * 1024)
unfolding scale
ends zero zero b u d le h k = (refl, omega arith)
ends zero (suc rounds) b u d le h k = (ground arith, omega arith)
ends (suc fuel) zero b u d le h k = absurd (omega arith)
ends (suc fuel) (suc rounds) b u d le h k = elim (Bool-cases (ltb b (d * 1024))) [
  | inl done ↦ (ground arith, ground arith)
  | inr goes ↦
      let (same, below) =
        ends fuel rounds b (u + 1) (d * 1024) (omega arith) (omega arith) (ground arith) in
      (ground arith, ground arith)
]

-- Within as many rounds as the size has bytes the loop comes to where its condition fails, and more
-- rounds would not change the unit or the divisor.
pub scale_terminates :
    (b more : ℕ)
    → (scale (b + more) b 0 1024 ≡ scale b b 0 1024) × (b < (scale b b 0 1024).1 * 1024)
scale_terminates b more = ends b (b + more) b 0 1024 (omega arith) (omega arith) (omega arith)
