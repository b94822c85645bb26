-- ===== src/Supervisor/Delay.antt =====
-- internal/supervisor/supervisor.go: the delay of `restartDelay`, without its loop.
use minicrond.Prelude.{
  ◌≡◌, refl, ℕ, zero, suc, ◌-◌, ◌*◌, ◌≤◌, min, if◌then◌else◌, arith, ltb, eqb, Bool-cases, inl, inr,
  ltb→le,
}
use minicrond.Model.{Definition}
use minicrond.Executor.State.{second}
use minicrond.Supervisor.{grow, restart_delay}

-- `d` doubled `n` times.
abbrev pub doubled : ℕ → ℕ → ℕ
doubled zero d = d
doubled (suc n) d = doubled n (d * 2)

doubled-grows : (n d : ℕ) → d ≤ doubled n d
doubled-grows zero d = omega arith
doubled-grows (suc n) d = omega (arith, doubled-grows n (d * 2))

min-grow : (n limit d : ℕ) → min (grow n limit d) limit ≡ min (doubled n d) limit
unfolding grow
min-grow zero limit d = refl
min-grow (suc n) limit d = elim (Bool-cases (ltb d limit)) [
  | inl e ↦ rw (e) (min-grow n limit (d * 2))
  | inr e ↦ rw (e) (omega (arith, ltb→le d limit e, doubled-grows n (d * 2)))
]

-- The delay before the restart that follows `failures` failures in a row is `restart_delay`, and with
-- a cap it is `restart_delay` doubled for each failure after the first, no longer than the cap.
pub restart_delay_doubles :
    (d : Definition) (failures : ℕ)
    → restart_delay d failures ≡ (
        if eqb (d.restart_backoff_max * second) 0
        then d.restart_delay * second
        else min
            (doubled (failures - 1) (d.restart_delay * second))
            (d.restart_backoff_max * second))
unfolding restart_delay
restart_delay_doubles d failures =
    rw (min-grow (failures - 1) (d.restart_backoff_max * second) (d.restart_delay * second)) refl
