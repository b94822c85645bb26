-- ===== src/Scheduler/CatchUp.antt =====
-- internal/scheduler/scheduler.go: the occurrences that elapsed while no scheduler ran.
use minicrond.Prelude.{
  ℕ, zero, suc, ◌+◌, ◌-◌, ◌*◌, ◌/◌, ◌%◌, ◌^◌, Bool, true, false, ◌&&◌, ◌||◌, not, if◌then◌else◌,
  ltb, leb, eqb,
}
use minicrond.Scheduler.{
  max_duration, Schedule, every, cron, Fire, at, failed, NextError, too_dense, cancelled, span,
  add_product, next_fire_distinct,
}

abbrev pub hour : ℕ
hour = 3600 * 10 ^ 9

-- `maxCatchUpCount` and `maxCatchUpWindow`.
abbrev pub max_catch_up : ℕ
max_catch_up = 100000

-- `overdueFires`.
pub record OverdueFires : Type 0 where
  pub first : ℕ
  pub latest : ℕ
  pub count : ℕ
  pub exact : Bool

pub data Missed : Type 0 where
  nothing : Missed
  missed : OverdueFires → Missed
  unknown : NextError → Missed

-- The inner loop of `latestFire`: `gone` tells at which step its context has ended.
unfoldable pub scan_window : ℕ → Schedule → (ℕ → Bool) → ℕ → ℕ → ℕ → ℕ → ℕ → ℕ → Fire
scan_window zero s gone anchor last now steps cursor best = failed too_dense
scan_window (suc n) s gone anchor last now steps cursor best =
    if eqb (steps % 4096) 4095 && gone steps
    then failed cancelled
    else elim (next_fire_distinct s anchor last cursor) [
      | failed e ↦ failed e
      | at following ↦ elim (ltb now following) [
        | true ↦ at best
        | false ↦ scan_window n s gone anchor last now (suc steps) following following
      ]
    ]

-- What one window has found, or else what the later ones find: 0 is the zero time.
abbrev pub or_else : Fire → Fire → Fire
or_else (failed e) rest = failed e
or_else (at found) rest = elim (eqb found 0) [ false ↦ at found | true ↦ rest ]

-- The outer loop of `latestFire`, in windows that grow.
unfoldable pub latest_within : ℕ → Schedule → (ℕ → Bool) → ℕ → ℕ → ℕ → ℕ → ℕ → Fire
latest_within zero s gone first anchor last now window = failed too_dense
latest_within (suc r) s gone first anchor last now window =
    let whole = leb (span now first) window || ltb (max_duration / 8) window in
    let start = if whole then first else now - window in
    let best = if whole then first else 0 in
    or_else (scan_window max_catch_up s gone anchor last now 0 start best)
      (latest_within r s gone first anchor last now (window * 8))

-- `latestFire`: the eighth window is the last.
unfoldable pub latest_fire : Schedule → (ℕ → Bool) → ℕ → ℕ → ℕ → ℕ → Fire
latest_fire s gone first anchor last now = latest_within 8 s gone first anchor last now hour

pub data Counted : Type 0 where
  counted : ℕ → Bool → Counted
  uncounted : NextError → Counted

-- The loop of `overdue` that counts, for as many more occurrences as the first argument says.
unfoldable pub count_fires : ℕ → Schedule → (ℕ → Bool) → ℕ → ℕ → ℕ → ℕ → ℕ → ℕ → Counted
count_fires zero s gone anchor last now latest n cursor = counted n (ltb now cursor)
count_fires (suc more) s gone anchor last now latest n cursor =
    if ltb now cursor
    then counted n true
    else if eqb (n % 4096) 0 && gone n
    then uncounted cancelled
    else elim (eqb cursor latest) [
      | true ↦ counted (suc n) true
      | false ↦ elim (next_fire_distinct s anchor last cursor) [
        | failed e ↦ uncounted e
        | at following ↦ count_fires more s gone anchor last now latest (suc n) following
      ]
    ]

-- `overdue` once the first occurrence is known to lie before now.
unfoldable pub elapsed : Schedule → (ℕ → Bool) → ℕ → ℕ → ℕ → ℕ → Bool → Missed
elapsed (every interval) gone anchor last now first want_count =
    let steps = span now first / interval in
    missed (record {
      first = first;
      latest = add_product first steps interval;
      count = if leb max_duration steps then max_duration else steps + 1;
      exact = true;
    })
elapsed (cron c) gone anchor last now first want_count =
    elim (latest_fire (cron c) gone first anchor last now) [
      | failed e ↦ unknown e
      | at latest ↦
          if eqb latest first
          then missed (record { first = first; latest = latest; count = 1; exact = true })
          else elim want_count [
            | false ↦ missed (record { first = first; latest = latest; count = 2; exact = false })
            | true ↦ elim (count_fires max_catch_up (cron c) gone anchor last now latest 0 first) [
              | uncounted e ↦ unknown e
              | counted n exact ↦
                  missed (record { first = first; latest = latest; count = n; exact = exact })
            ]
          ]
    ]

-- `overdue`.
unfoldable pub overdue : Schedule → (ℕ → Bool) → ℕ → ℕ → ℕ → Bool → Missed
overdue s gone anchor last now want_count =
    let base = if eqb last 0 then anchor else last in
    elim (next_fire_distinct s anchor last base) [
      | failed e ↦ unknown e
      | at first ↦
          if not (ltb first now) then nothing else elapsed s gone anchor last now first want_count
    ]
