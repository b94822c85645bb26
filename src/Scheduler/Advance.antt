-- ===== src/Scheduler/Advance.antt =====
-- internal/scheduler/scheduler.go: the next fire lies after the instant it is asked for.
use minicrond.Prelude.{
  ℕ, zero, suc, ◌+◌, ◌-◌, ◌*◌, ◌%◌, ◌≤◌, ◌<◌, ◌≡◌, ◌≢◌, refl, true, if◌then◌else◌, Option, none,
  some, ltb, eqb, arith, not, ◌&&◌, inl, inr, Option-cases, Bool-cases,
}
use native.Mathlib.Nat.{lt_trans}
use minicrond.Scheduler.Grid.{Stepped, range, step, next_interval-Stepped}
use minicrond.Scheduler.{
  second, minute, Clock, Schedule, every, cron, Fire, at, failed, NextError, no_occurrence,
  next_interval, second_fold_end, leave_folds, Transition, scan_zones, forward_transition, coalesce,
  next_cron, next_fire, next_fire_distinct,
}

-- What package cron and package time document: what follows an instant is later, cron times and
-- transitions are at whole seconds.
pub record IsClock (c : Clock) : Type 0 where
  pub later : (t : ℕ) → c.next t ≢ 0 → t < c.next t
  pub whole : (t : ℕ) → c.next t % second ≡ 0
  pub start_whole : (t : ℕ) → c.zone_start t % second ≡ 0

unfoldable pub Lawful : Schedule → Type 0
Lawful (every interval) = 0 < interval
Lawful (cron c) = IsClock c

abbrev pub Later : ℕ → Fire → Type 0
Later t (at u) = t < u
Later t (failed e) = e ≡ e

Later-trans : (t u : ℕ) (f : Fire) → t < u → Later u f → Later t f
Later-trans t u (at v) h k = lt_trans h k
Later-trans t u (failed e) h k = refl

whole_step : (a b k : ℕ) → a % second ≡ 0 → b % second ≡ 0 → a - second < b → a ≤ b
whole_step a b k ha hb h = omega arith

fold_end-whole :
    (c : Clock) → IsClock c → (t e : ℕ) → second_fold_end c t ≡ some e → (e % second ≡ 0) × (t < e)
unfolding second_fold_end
fold_end-whole c l t e h = ground (arith, l.start_whole t)

resume-Later :
    (c : Clock)
    → IsClock c
    → (t e : ℕ) → second_fold_end c t ≡ some e
    → c.next (e - second) ≢ 0
    → t < c.next (e - second)
resume-Later c l t e h n =
    let w = fold_end-whole c l t e h in
    let f = l.later (e - second) n in
    let q = whole_step e (c.next (e - second)) 0 w.0 (l.whole (e - second)) f in omega (arith, w.1)

Later-unless :
    (t u : ℕ) (e : NextError) (f : Fire)
    → (u ≢ 0 → Later t f)
    → Later t (if eqb u 0 then failed e else f)
Later-unless t u e f h = elim (Bool-cases (eqb u 0)) [
  | inl k ↦ rw k refl
  | inr k ↦ rw k (h (ground (arith, k)))
]

leave_folds-Later :
    (n : ℕ) (c : Clock) → IsClock c → (t u : ℕ) → t < u → Later t (leave_folds n c u)
unfolding leave_folds
leave_folds-Later zero c l t u h = h
leave_folds-Later (suc n) c l t u h = elim (Option-cases (second_fold_end c u)) [
  | inl e ↦ rw (Later, e) h
  | inr (v, e) ↦
      rw (Later, e)
        (Later-unless t (c.next (v - second)) no_occurrence (leave_folds n c (c.next (v - second)))
          λ q.
            leave_folds-Later n c l t (c.next (v - second)) (lt_trans h (resume-Later c l u v e q)))
]

scan-Later :
    (n : ℕ) (c : Clock) (end previous cursor : ℕ) (x : Transition)
    → scan_zones n c end previous cursor ≡ some x
    → cursor < x.instant
unfolding scan_zones
scan-Later zero c end previous cursor x h = absurd (ground (arith, h))
scan-Later (suc n) c end previous cursor x h =
    ground (arith, h, scan-Later n c end (c.offset (c.zone_end cursor)) (c.zone_end cursor) x)

forward-Later :
    (c : Clock) (t u : ℕ) (x : Transition) → forward_transition c t u ≡ some x → t < x.instant
unfolding forward_transition
forward-Later c t u x h = ground (arith, h, scan-Later (u - t) c u (c.offset t) t x)

coalesce-Later : (c : Clock) (t u : ℕ) → t < u → t < coalesce c t u
unfolding coalesce
coalesce-Later c t u h = found (forward_transition c t u) refl
  where
    found :
        (o : Option Transition)
        → forward_transition c t u ≡ o
        → t < elim o [
          | none ↦ u
          | some x ↦
              if not (eqb (c.next_fixed x.old (x.instant - x.instant % minute - minute)) 0)
                && ltb
                    (c.next_fixed x.old (x.instant - x.instant % minute - minute))
                    (x.instant - x.instant % minute + (x.new - x.old) * second)
              then x.instant
              else u
        ]
    found none e = h
    found (some x) e = ground (arith, forward-Later c t u x e)

early_interval :
    (i anchor after : ℕ) → ltb after anchor ≡ true → next_interval i anchor after ≡ at (anchor + i)
unfolding next_interval
early_interval i anchor after k = rw k refl

interval-Later : (i anchor after : ℕ) → 0 < i → Later after (next_interval i anchor after)
interval-Later i anchor after h = elim (Bool-cases (ltb after anchor)) [
  | inl k ↦
      let r : next_interval i anchor after ≡ at (anchor + i) = early_interval i anchor after k in
      rw (Later, r) (ground (arith, k))
  | inr k ↦ stepped (next_interval-Stepped i anchor after h (ground (arith, k)))
]
  where
    stepped : {f : Fire} → Stepped i anchor after f → Later after f
    stepped (range _) = refl
    stepped (step k _ l _) = l

cron-Later : (c : Clock) → IsClock c → (t : ℕ) → Later t (next_cron c t)
unfolding next_cron
cron-Later c l t = elim (Option-cases (second_fold_end c t)) [
  | inl e ↦
      rw (Later, e)
        (Later-unless t (c.next t) no_occurrence _ λ q.
          settled (leave_folds 4 c (c.next t)) (leave_folds-Later 4 c l t (c.next t) (l.later t q)))
  | inr (v, e) ↦
      rw (Later, e)
        (Later-unless t (c.next (v - second)) no_occurrence _ λ q.
          settled (leave_folds 4 c (c.next (v - second)))
            (leave_folds-Later 4 c l t (c.next (v - second)) (resume-Later c l t v e q)))
]
  where
    settled :
        (f : Fire)
        → Later t f
        → Later t (elim f [ failed e ↦ failed e | at left ↦ at (coalesce c t left) ])
    settled (failed e) h = refl
    settled (at u) h = coalesce-Later c t u h

next_fire-Later :
    (s : Schedule) → Lawful s → (anchor after : ℕ) → Later after (next_fire s anchor after)
unfolding next_fire Lawful
next_fire-Later (every i) l anchor after = interval-Later i anchor after l
next_fire-Later (cron c) l anchor after = cron-Later c l after

-- The next fire that a schedule answers, where it answers one, lies strictly after the instant
-- that it is asked for, for an interval that is not 0 and for a cron expression that keeps what
-- its package documents: through folds and gaps of the clock, and where the fire moves on because
-- its wall minute is that of the last one.
pub next_fire_distinct-Later :
    (s : Schedule)
    → Lawful s
    → (anchor last after : ℕ) → Later after (next_fire_distinct s anchor last after)
unfolding next_fire_distinct Lawful
next_fire_distinct-Later (every i) l anchor last after = interval-Later i anchor after l
next_fire_distinct-Later (cron c) l anchor last after =
    distinct (next_cron c after) (cron-Later c l after)
  where
    distinct :
        (f : Fire)
        → Later after f
        → Later after (elim f [
          | failed e ↦ failed e
          | at candidate ↦
              if eqb last 0
              then at candidate
              else if eqb (c.wall_minute last) (c.wall_minute candidate)
              then next_cron c candidate
              else at candidate
        ])
    distinct (failed e) h = refl
    distinct (at u) h = elim (Bool-cases (eqb last 0)) [
      | inl k ↦ rw (Later, k) h
      | inr k ↦ elim (Bool-cases (eqb (c.wall_minute last) (c.wall_minute u))) [
        | inl m ↦ rw (Later, k, m) (Later-trans after u (next_cron c u) h (cron-Later c l u))
        | inr m ↦ rw (Later, k, m) h
      ]
    ]

-- However many more rounds the search for a forward transition may take, it finds what it finds
-- within as many rounds as there are nanoseconds between its bounds.
pub scan_zones_enough :
    (m n : ℕ) (c : Clock) (end previous cursor : ℕ)
    → end ≤ cursor + n
    → n ≤ m
    → scan_zones m c end previous cursor ≡ scan_zones n c end previous cursor
unfolding scan_zones
scan_zones_enough zero zero c end previous cursor h k = refl
scan_zones_enough zero (suc n) c end previous cursor h k = absurd (omega (arith, k))
scan_zones_enough (suc m) zero c end previous cursor h k = ground arith
scan_zones_enough (suc m) (suc n) c end previous cursor h k =
    ground (arith, scan_zones_enough m n c end (c.offset (c.zone_end cursor)) (c.zone_end cursor))
