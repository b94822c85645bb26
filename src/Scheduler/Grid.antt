-- ===== src/Scheduler/Grid.antt =====
-- internal/scheduler/scheduler.go: the arithmetic of an interval's grid.
use native.Mathlib.Omega.{div_any, mod_cases}
use native.Mathlib.Nat.{mul-le-mul_right}
use minicrond.Prelude.{
  ℕ, ◌+◌, ◌-◌, ◌*◌, ◌/◌, ◌≤◌, ◌<◌, ◌≡◌, ap, arith, min, leb, Bool-cases, inl, inr,
}
use minicrond.Scheduler.{max_duration, out_of_range, Fire, at, failed, span, next_interval}

pub div_floor : (i a : ℕ) → 0 < i → (a / i * i ≤ a) × (a < (a / i + 1) * i)
div_floor i a h = ground (arith, div_any a i, mod_cases a i)

-- Where one more period stays below the greatest duration's quotient, the product fits.
period_fits :
    (i a : ℕ)
    → 0 < i
    → min a max_duration / i < max_duration / i
    → (min a max_duration ≡ a) × ((a / i + 1) * i ≤ max_duration)
period_fits i a h q = elim (Bool-cases (leb max_duration a)) [
  | inl k ↦
      let m : min a max_duration ≡ max_duration = ground arith in
      let z : max_duration / i < max_duration / i = rw m at q in ground (arith, z)
  | inr k ↦
      let m : min a max_duration ≡ a = ground arith in
      let z : a / i < max_duration / i = rw m at q in
      let f = div_floor i max_duration h in
      let p = mul-le-mul_right {m = a / i + 1} {n = max_duration / i} i (omega (arith, z)) in
      (m, omega (arith, p, f.0))
]

-- What `next_interval` answers, for an instant that is not before the anchor.
pub data Stepped (i anchor after : ℕ) : Fire → Type 0 where
  range : max_duration / i ≤ span after anchor / i → Stepped i anchor after (failed out_of_range)
  step :
      (k : ℕ)
      → k * i ≤ max_duration
      → after < anchor + k * i
      → anchor + k * i ≤ after + i
      → Stepped i anchor after (at (anchor + k * i))

-- The next fire of an interval that is not 0, at an instant that is not before the anchor. Either
-- the periods since the anchor reach those of the greatest duration, and it fails; or it is on the
-- grid of the anchor, strictly after the instant and at most an interval after it, and the product
-- of periods and interval has not wrapped around. It never fails for not advancing.
pub next_interval-Stepped :
    (i anchor after : ℕ)
    → 0 < i
    → anchor ≤ after
    → Stepped i anchor after (next_interval i anchor after)
unfolding next_interval
next_interval-Stepped i anchor after h started =
    elim (Bool-cases (leb (max_duration / i) (span after anchor / i))) [
      | inl k ↦
          let r : next_interval i anchor after ≡ failed out_of_range = ground (arith, k) in
          rw r (range (ground (arith, k)))
      | inr k ↦
          let p = period_fits i (after - anchor) h (ground (arith, k)) in
          let q : span after anchor / i ≡ (after - anchor) / i = ap (λ x. x / i) p.0 in
          let f = div_floor i (after - anchor) h in
          let r : next_interval i anchor after ≡ at (anchor + ((after - anchor) / i + 1) * i) =
            ground (arith, k, q, p.1, f.0, f.1) in
          rw r (step ((after - anchor) / i + 1) p.1 (omega (arith, f.1)) (omega (arith, f.0)))
    ]
