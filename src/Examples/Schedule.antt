-- ===== src/Examples/Schedule.antt =====
-- Schedules: every ten seconds, and cron expressions in UTC and in zones that change their clocks.
use minicrond.Prelude.{
  nat_eq, string_eq, ℕ, ltb, if◌then◌else◌, ◌+◌, ◌*◌, ◌/◌, ◌≡◌, refl, arith, [], ◌∷◌, Bool, false,
  true, some,
}
use minicrond.Scheduler.{
  second, minute, Clock, Schedule, every, cron, at, next_interval, next_fire, next_fire_distinct,
  scan_zones, next_cron, second_fold_end, leave_folds, coalesce, forward_transition,
}
use minicrond.Scheduler.Grid.{Stepped, next_interval-Stepped}
use minicrond.Scheduler.Advance.{Lawful, Later, next_fire_distinct-Later}
use minicrond.Scheduler.CatchUp.{nothing, overdue, latest_fire, latest_within, scan_window, hour}
use minicrond.Scheduler.Overdue.{overdue_at_now}
use minicrond.Scheduler.Latest.{Latest, latest_fire-Latest, latest_fire_enough}
use minicrond.Scheduler.Loop.{
  Memory, row, open_pass, Acts, start, step, fire, plan, triggered, advance, Ordered, Acts-Ordered,
}
use minicrond.Scheduler.Restart.{from_micro, last_scheduled_fire}
use minicrond.Store.Tables.{Run}
use minicrond.Examples.Queue.{backup}

abbrev ten : Schedule
ten = every (10 * second)

ten-Lawful : Lawful ten
unfolding Lawful
ten-Lawful = omega arith

-- UTC: no transitions, and a fire at every minute.
abbrev utc : Clock
utc = record {
  next = λ t. (t / minute + 1) * minute;
  next_fixed = λ _ t. (t / minute + 1) * minute;
  zone_start = λ _. 0;
  zone_end = λ _. 0;
  offset = λ _. 0;
  wall_minute = λ t. t / minute;
}

utc-Lawful : Lawful (cron utc)
unfolding Lawful
utc-Lawful = record {
  later = λ t _. omega arith;
  whole = λ t. omega arith;
  start_whole = λ t. omega arith;
}

-- A zone that sets its clock back by an hour at minute 100, and one that sets it forward there.
abbrev back : Clock
back = record utc {
  zone_start = λ t. if ltb t (100 * minute) then 0 else 100 * minute;
  zone_end = λ t. if ltb t (100 * minute) then 100 * minute else 0;
  offset = λ t. if ltb t (100 * minute) then 3600 else 0;
}

-- It fires at minute 300 only, and at a minute of the gap that its zone leaves out.
abbrev forward : Clock
forward = record back {
  next = λ t. if ltb t (300 * minute) then 300 * minute else 0;
  next_fixed = λ _ _. 130 * minute;
  offset = λ t. if ltb t (100 * minute) then 0 else 3600;
}

never : ℕ → Bool
never _ = false

next_interval-Stepped_example :
    Stepped (10 * second) 5 (25 * second) (next_interval (10 * second) 5 (25 * second))
next_interval-Stepped_example =
    next_interval-Stepped (10 * second) 5 (25 * second) (omega arith) (omega arith)

next_fire_distinct-Later_example :
    Later (90 * second) (next_fire_distinct (cron utc) 5 (60 * second) (90 * second))
next_fire_distinct-Later_example =
    next_fire_distinct-Later (cron utc) utc-Lawful 5 (60 * second) (90 * second)

latest_fire-Latest_example :
    Latest
      (cron utc)
      utc-Lawful
      never
      5
      0
      (200 * second)
      minute
      (latest_fire (cron utc) never minute 5 0 (200 * second))
latest_fire-Latest_example =
    latest_fire-Latest (cron utc) utc-Lawful never 5 0 (200 * second) minute (omega arith)

latest_fire_enough_example :
    latest_within 12 (cron utc) never minute 5 0 (200 * second) hour
    ≡ latest_fire (cron utc) never minute 5 0 (200 * second)
latest_fire_enough_example =
    latest_fire_enough (cron utc) utc-Lawful never 5 0 (200 * second) minute (omega arith) 11
      (omega arith)

due_now : next_fire_distinct ten 5 0 5 ≡ at (5 + 10 * second)
unfolding next_fire_distinct next_interval
due_now = refl

overdue_at_now_example :
    (overdue ten never 5 0 (5 + 10 * second) true ≡ nothing)
    × Later (5 + 10 * second) (next_fire_distinct ten 5 0 (5 + 10 * second))
overdue_at_now_example =
    overdue_at_now ten never 5 0 (5 + 10 * second) (5 + 10 * second) true ten-Lawful due_now
      (omega arith)

abbrev unread : Memory
unread = record { known = false; hash = ""; anchor = 0; last = 0; persist_failing = false }

abbrev opened : Memory
opened = open_pass "h" 9 (row "h" 5 7 (some 8)) false unread

planned : plan ten 6 opened ≡ at (5 + 10 * second)
unfolding plan open_pass next_fire_distinct next_interval
planned = refl

fired : Acts ten opened (triggered (5 + 10 * second) ∷ []) (advance (5 + 10 * second) opened)
fired = step start (fire 6 (11 * second) (5 + 10 * second) planned (omega arith))

Acts-Ordered_example :
    Ordered opened (triggered (5 + 10 * second) ∷ []) (advance (5 + 10 * second) opened)
Acts-Ordered_example = Acts-Ordered ten ten-Lawful fired

-- A run fired three microseconds after the start of 1970, which is also the anchor.
abbrev fired_run : Run
fired_run = record backup { definition_id = 7; trigger = "schedule"; scheduled_for_us = some 3 }

abbrev reopened : Memory
reopened =
    open_pass "h" 9 (row "h" (from_micro 0) 7 (last_scheduled_fire 7 (fired_run ∷ []))) false unread

next_minute : next_fire_distinct (cron utc) 5 (60 * second) (90 * second) ≡ at (120 * second)
unfolding next_fire_distinct next_cron second_fold_end leave_folds coalesce forward_transition
    scan_zones
next_minute = refl

-- The repeated hour is passed over, and a minute of the gap fires at the transition.
past_fold : next_fire (cron back) 5 (119 * minute) ≡ at (160 * minute)
unfolding next_fire next_cron second_fold_end leave_folds coalesce forward_transition scan_zones
past_fold = refl

into_gap : next_fire (cron forward) 5 (90 * minute) ≡ at (100 * minute)
unfolding next_fire next_cron second_fold_end leave_folds coalesce forward_transition scan_zones
into_gap = refl

latest_minute : latest_fire (cron utc) never minute 5 0 (200 * second) ≡ at (180 * second)
unfolding latest_fire latest_within scan_window next_fire_distinct next_cron second_fold_end
    leave_folds coalesce forward_transition scan_zones
latest_minute = refl
