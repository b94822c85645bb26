-- ===== src/Scheduler/Overdue.antt =====
-- internal/scheduler/scheduler.go: the missed occurrences of an interval, and the one exactly now.
use native.Mathlib.Omega.{mod_cases}
use minicrond.Prelude.{
  ℕ, ◌+◌, ◌-◌, ◌*◌, ◌/◌, ◌≤◌, ◌<◌, ◌≡◌, refl, sym, ap, ◌∙◌, Bool, true, false, not, if◌then◌else◌,
  arith, ltb, leb, eqb, min, Bool-cases, inl, inr,
}
use minicrond.Scheduler.{
  max_duration, Clock, Schedule, every, cron, Fire, at, failed, span, add_product,
  next_fire_distinct,
}
use minicrond.Scheduler.Grid.{div_floor}
use minicrond.Scheduler.Advance.{Lawful, Later, next_fire_distinct-Later}
use minicrond.Scheduler.Latest.{latest_fire-Latest, Latest}
use minicrond.Scheduler.CatchUp.{
  OverdueFires, Missed, nothing, missed, unknown, Counted, counted, uncounted, count_fires,
  latest_fire, max_catch_up, overdue, elapsed,
}

-- Where the first occurrence of an interval that is not 0 is before now, by less than the greatest
-- duration, the missed occurrences are counted exactly: the latest is at or before now, the one
-- after it is not, and the count is that of the grid points from the first to the latest.
pub elapsed_interval :
    (i first now : ℕ) (gone : ℕ → Bool) (anchor last : ℕ) (want : Bool)
    → 0 < i
    → first < now
    → now < first + max_duration
    → (o : OverdueFires) × (elapsed (every i) gone anchor last now first want ≡ missed o)
      × (o.first ≡ first)
      × (o.latest ≡ first + (o.count - 1) * i)
      × (o.latest ≤ now)
      × (now < o.latest + i)
      × (o.exact ≡ true)
unfolding elapsed
elapsed_interval i first now gone anchor last want h past short =
    let a = now - first in
    let steps = a / i in
    let m : min a max_duration ≡ a = ground (arith, short) in
    let f = div_floor i a h in
    let one : steps + 1 - 1 ≡ steps = omega arith in
    let few : steps ≤ a = ground (arith, mod_cases a i) in
    let latest : add_product first steps i ≡ first + steps * i = ground (arith, f.0, short) in
    let n : (if leb max_duration steps then max_duration else steps + 1) ≡ steps + 1 =
      ground (arith, few, short) in
    (
      record { first = first; latest = first + steps * i; count = steps + 1; exact = true },
      (λ t. missed (record {
        first = first;
        latest = (ap (λ x. add_product first (x / i) i) m ∙ latest) t;
        count = (ap (λ x. if leb max_duration (x / i) then max_duration else x / i + 1) m ∙ n) t;
        exact = true;
      })),
      refl,
      ap (λ k. first + k * i) (sym one),
      omega (arith, f.0),
      omega (arith, f.1),
      refl,
    )

-- For a lawful schedule whose first occurrence since its last fire is exactly at the instant of
-- the pass: that occurrence is neither caught up nor scheduled. `overdue` reports nothing missed,
-- and the next fire that any later reading of the clock gives, where there is one, is after it.
pub overdue_at_now :
    (s : Schedule) (gone : ℕ → Bool) (anchor last now reading : ℕ) (want : Bool)
    → Lawful s
    → next_fire_distinct s anchor last (if eqb last 0 then anchor else last) ≡ at now
    → now ≤ reading
    → (overdue s gone anchor last now want ≡ nothing)
      × Later now (next_fire_distinct s anchor last reading)
unfolding overdue
overdue_at_now s gone anchor last now reading want l e h = (
  ground (arith, e),
  later (next_fire_distinct s anchor last reading)
      (next_fire_distinct-Later s l anchor last reading),
)
  where
    later : (f : Fire) → Later reading f → Later now f
    later (at u) k = omega (arith, k, h)
    later (failed x) k = refl

abbrev pub Within : ℕ → ℕ → Missed → Type 0
Within base now nothing = base ≡ base
Within base now (unknown e) = e ≡ e
Within base now (missed o) = (base < o.first) × (o.first ≤ o.latest) × (o.latest ≤ now)

elapsed_interval-Within :
    (i : ℕ) (gone : ℕ → Bool) (anchor last base first now : ℕ) (want : Bool)
    → 0 < i
    → base < first
    → first < now
    → Within base now (elapsed (every i) gone anchor last now first want)
unfolding elapsed
elapsed_interval-Within i gone anchor last base first now want h b past =
    let f = div_floor i (span now first) h in
    let latest : add_product first (span now first / i) i ≡ first + span now first / i * i =
      ground (arith, f.0) in
    rw latest (b, omega arith, ground (arith, f.0))

count-Within :
    (base first latest now : ℕ) (k : Counted)
    → base < first
    → first ≤ latest
    → latest ≤ now
    → Within base now (elim k [
      | uncounted e ↦ unknown e
      | counted n exact ↦
          missed (record { first = first; latest = latest; count = n; exact = exact })
    ])
count-Within base first latest now (uncounted e) b f n = refl
count-Within base first latest now (counted k exact) b f n = (b, f, n)

wanted-Within :
    (base first latest now : ℕ) (want : Bool) (k : Counted)
    → base < first
    → first ≤ latest
    → latest ≤ now
    → Within base now (elim want [
      | false ↦ missed (record { first = first; latest = latest; count = 2; exact = false })
      | true ↦ elim k [
        | uncounted e ↦ unknown e
        | counted n exact ↦
            missed (record { first = first; latest = latest; count = n; exact = exact })
      ]
    ])
wanted-Within base first latest now true k b f n = count-Within base first latest now k b f n
wanted-Within base first latest now false k b f n = (b, f, n)

elapsed_cron-Within :
    (c : Clock) (l : Lawful (cron c)) (gone : ℕ → Bool) (anchor last base first now : ℕ)
    (want : Bool)
    → base < first
    → first < now
    → Within base now (elapsed (cron c) gone anchor last now first want)
unfolding elapsed Latest
elapsed_cron-Within c l gone anchor last base first now want b past =
    known (latest_fire (cron c) gone first anchor last now)
      (latest_fire-Latest (cron c) l gone anchor last now first (omega arith))
  where
    known :
        (f : Fire)
        → Latest (cron c) l gone anchor last now first f
        → Within base now (elim f [
          | failed e ↦ unknown e
          | at latest ↦
              if eqb latest first
              then missed (record { first = first; latest = latest; count = 1; exact = true })
              else elim want [
                | false ↦
                    missed (record { first = first; latest = latest; count = 2; exact = false })
                | true ↦
                    elim (count_fires max_catch_up (cron c) gone anchor last now latest 0 first) [
                      | uncounted e ↦ unknown e
                      | counted n exact ↦
                          missed
                            (record { first = first; latest = latest; count = n; exact = exact })
                    ]
              ]
        ])
    known (failed e) h = refl
    known (at t) h = elim (Bool-cases (eqb t first)) [
      | inl z ↦ rw z (b, h.1, h.0.reached)
      | inr z ↦ rw z (wanted-Within base first t now want _ b h.1 h.0.reached)
    ]

elapsed-Within :
    (s : Schedule)
    → Lawful s
    → (gone : ℕ → Bool) (anchor last base first now : ℕ) (want : Bool) → base < first
    → first < now
    → Within base now (elapsed s gone anchor last now first want)
unfolding Lawful
elapsed-Within (every i) l gone anchor last base first now want b past =
    elapsed_interval-Within i gone anchor last base first now want l b past
elapsed-Within (cron c) l gone anchor last base first now want b past =
    elapsed_cron-Within c l gone anchor last base first now want b past

-- The occurrences that `overdue` finds lie after the last fire, or after the anchor where there was
-- none, and none of them is past now.
pub overdue-Within :
    (s : Schedule)
    → Lawful s
    → (gone : ℕ → Bool) (anchor last now : ℕ) (want : Bool)
    → Within (if eqb last 0 then anchor else last) now (overdue s gone anchor last now want)
unfolding overdue
overdue-Within s l gone anchor last now want =
    begun (next_fire_distinct s anchor last base) (next_fire_distinct-Later s l anchor last base)
  where
    base : ℕ
    base = if eqb last 0 then anchor else last

    begun :
        (f : Fire)
        → Later base f
        → Within base now (elim f [
          | failed e ↦ unknown e
          | at first ↦
              if not (ltb first now) then nothing else elapsed s gone anchor last now first want
        ])
    begun (failed e) h = refl
    begun (at first) h = elim (Bool-cases (ltb first now)) [
      | inl z ↦ rw z (elapsed-Within s l gone anchor last base first now want h (ground (arith, z)))
      | inr z ↦ rw z refl
    ]
