-- ===== src/Scheduler.antt =====
-- internal/scheduler/scheduler.go: when a schedule fires next. An instant is a number of nanoseconds
-- since the year 1, and 0 is the zero time. The packages time and cron are the parameter `Clock`.
use minicrond.Prelude.{
  ℕ, zero, suc, ◌+◌, ◌-◌, ◌*◌, ◌/◌, ◌%◌, ◌^◌, min, Bool, true, false, ◌&&◌, ◌||◌, not,
  if◌then◌else◌, Option, none, some, ltb, leb, eqb,
}
pub mod Grid
pub mod Advance
pub mod CatchUp
pub mod Overdue
pub mod Latest
pub mod Loop
pub mod Restart

abbrev pub second : ℕ
second = 10 ^ 9

abbrev pub minute : ℕ
minute = 60 * 10 ^ 9

-- `math.MaxInt64`, the greatest duration.
abbrev pub max_duration : ℕ
max_duration = 2 ^ 63 - 1

-- What a cron expression answers in its location. `next` is 0 where nothing follows, and a bound of
-- a zone is 0 where there is none. `offset` counts seconds from a fixed offset that is west of all.
pub record Clock : Type 0 where
  pub next : ℕ → ℕ
  pub next_fixed : ℕ → ℕ → ℕ
  pub zone_start : ℕ → ℕ
  pub zone_end : ℕ → ℕ
  pub offset : ℕ → ℕ
  pub wall_minute : ℕ → ℕ

-- `compiledSchedule`: an interval, or a cron expression in a location.
pub data Schedule : Type 0 where
  every : ℕ → Schedule
  cron : Clock → Schedule

pub data NextError : Type 0 where
  out_of_range not_advancing no_occurrence too_dense cancelled : NextError

pub data Fire : Type 0 where
  at : ℕ → Fire
  failed : NextError → Fire

-- `a.Sub(b)` for `b` not after `a`: it saturates.
abbrev pub span : ℕ → ℕ → ℕ
span a b = min (a - b) max_duration

-- `t.Add(a * b)` for an int64 product, which wraps around, and may come out negative.
abbrev pub add_product : ℕ → ℕ → ℕ → ℕ
add_product t a b = let d = a * b % 2 ^ 64 in if ltb d (2 ^ 63) then t + d else t - (2 ^ 64 - d)

-- `nextFire` where there is an interval.
unfoldable pub next_interval : ℕ → ℕ → ℕ → Fire
next_interval interval anchor after =
    if ltb after anchor
    then at (anchor + interval)
    else let periods = span after anchor / interval in
      if leb (max_duration / interval) periods
      then failed out_of_range
      else let candidate = add_product anchor (periods + 1) interval in
        if not (ltb after candidate) then failed not_advancing else at candidate

-- `secondFoldEnd`.
unfoldable pub second_fold_end : Clock → ℕ → Option ℕ
second_fold_end c t =
    let start = c.zone_start t in
    if eqb start 0
    then none
    else let previous = c.offset (start - second) in
      if leb previous (c.offset t)
      then none
      else let end = start + (previous - c.offset t) * second in
        if ltb t end then some end else none

-- The loop that leaves the second copies of folds, for as many rounds as the first argument says.
unfoldable pub leave_folds : ℕ → Clock → ℕ → Fire
leave_folds zero c candidate = at candidate
leave_folds (suc n) c candidate = elim (second_fold_end c candidate) [
  | none ↦ at candidate
  | some fold_end ↦
      let following = c.next (fold_end - second) in
      if eqb following 0 then failed no_occurrence else leave_folds n c following
]

-- A transition forward: its instant, the offset before it, and the offset from it on.
pub record Transition : Type 0 where
  pub instant : ℕ
  pub old : ℕ
  pub new : ℕ

-- The loop of `forwardTransition`.
unfoldable pub scan_zones : ℕ → Clock → ℕ → ℕ → ℕ → Option Transition
scan_zones zero c end previous cursor = none
scan_zones (suc n) c end previous cursor =
    let following = c.zone_end cursor in
    let rest = scan_zones n c end (c.offset following) following in
    if not (ltb cursor end)
    then none
    else if eqb following 0 || ltb end following || not (ltb cursor following)
    then none
    else if ltb previous (c.offset following)
    then some (record { instant = following; old = previous; new = c.offset following })
    else rest

-- `forwardTransition`: every round moves on, so that there are no more rounds than nanoseconds.
unfoldable pub forward_transition : Clock → ℕ → ℕ → Option Transition
forward_transition c start end =
    if not (ltb start end) then none else scan_zones (end - start) c end (c.offset start) start

-- A matching minute inside a forward gap fires at the transition.
unfoldable pub coalesce : Clock → ℕ → ℕ → ℕ
coalesce c after candidate = elim (forward_transition c after candidate) [
  | none ↦ candidate
  | some x ↦
      let gap_start = x.instant - x.instant % minute in
      let gap_end = gap_start + (x.new - x.old) * second in
      let first_in_gap = c.next_fixed x.old (gap_start - minute) in
      if not (eqb first_in_gap 0) && ltb first_in_gap gap_end then x.instant else candidate
]

-- `nextFire` where there is no interval.
unfoldable pub next_cron : Clock → ℕ → Fire
next_cron c after =
    let from : ℕ = elim (second_fold_end c after) [
      | none ↦ after
      | some fold_end ↦ fold_end - second
    ] in
    let candidate = c.next from in
    if eqb candidate 0 then failed no_occurrence else elim (leave_folds 4 c candidate) [
      | failed e ↦ failed e
      | at left ↦ at (coalesce c after left)
    ]

-- `nextFire` after an instant, for a schedule and its anchor.
unfoldable pub next_fire : Schedule → ℕ → ℕ → Fire
next_fire (every interval) anchor after = next_interval interval anchor after
next_fire (cron c) anchor after = next_cron c after

-- `nextFireDistinct`: a cron schedule does not fire twice in one minute of the wall clock.
unfoldable pub next_fire_distinct : Schedule → ℕ → ℕ → ℕ → Fire
next_fire_distinct (every interval) anchor last after = next_interval interval anchor after
next_fire_distinct (cron c) anchor last after = elim (next_cron c after) [
  | failed e ↦ failed e
  | at candidate ↦
      if eqb last 0
      then at candidate
      else if eqb (c.wall_minute last) (c.wall_minute candidate)
      then next_cron c candidate
      else at candidate
]
