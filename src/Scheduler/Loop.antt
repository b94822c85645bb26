-- ===== src/Scheduler/Loop.antt =====
-- internal/scheduler/scheduler.go: the position that a job's scheduling loop keeps in memory, and
-- what it triggers from pass to pass. The store's answers and the clock's readings are given.
use text.Mathlib.Text.{◌==◌ as str_eq}
use minicrond.Prelude.{
  ℕ, ◌≤◌, ◌<◌, ◌≡◌, refl, subst, max, Bool, true, false, ◌&&◌, not, if◌then◌else◌, Option, none,
  some, List, [], ◌∷◌, String, arith, ltb, eqb, All, str_iff,
}
use minicrond.Scheduler.{Schedule, Fire, at, next_fire_distinct}
use minicrond.Scheduler.Advance.{Lawful, Later, next_fire_distinct-Later}
use minicrond.Scheduler.CatchUp.{OverdueFires, missed, overdue}
use minicrond.Scheduler.Overdue.{Within, overdue-Within}

-- `scheduleMemory`.
pub record Memory : Type 0 where
  pub known : Bool
  pub hash : String
  pub anchor : ℕ
  pub last : ℕ
  pub persist_failing : Bool

-- `persistResult`, for a write that has failed or not.
unfoldable pub persist_result : Bool → Memory → Memory
persist_result err m =
    if err && not m.persist_failing
    then record m { persist_failing = true }
    else if not err && m.persist_failing
    then record m { persist_failing = false }
    else m

-- What the store says of a job's schedule: `ScheduleState`, and `LastScheduledFire` where it is read.
pub data Stored : Type 0 where
  unreadable absent : Stored
  row : String → ℕ → ℕ → Option ℕ → Stored

-- The start of a pass: the position in memory, or the stored one, or else a new schedule from now.
-- `err` tells whether storing a new schedule fails.
unfoldable pub open_pass : String → ℕ → Stored → Bool → Memory → Memory
open_pass hash now st err m =
    let fresh = record m { known = true; hash = hash; anchor = now; last = 0 } in
    if m.known && str_eq m.hash hash then m else elim st [
      | unreadable ↦ fresh
      | absent ↦ persist_result err fresh
      | row stored_hash anchor last fired ↦
          if str_eq stored_hash hash
          then record m {
            known = true;
            hash = hash;
            anchor = anchor;
            last = elim fired [ none ↦ last | some t ↦ if ltb last t then t else last ];
          }
          else persist_result err fresh
    ]

-- `advance`.
unfoldable pub advance : ℕ → Memory → Memory
advance t m = record m { last = t }

-- The fire that a pass waits for, at a reading of the clock.
unfoldable pub plan : Schedule → ℕ → Memory → Fire
plan s reading m = next_fire_distinct s m.anchor m.last (max m.last reading)

-- What a loop does that its executor hears of, for the occurrence that it names.
pub data Act : Type 0 where
  triggered recorded : ℕ → Act

abbrev pub occurrence : Act → ℕ
occurrence (triggered t) = t
occurrence (recorded t) = t

-- One act of a loop that the executor accepts. A refused one leaves the memory as it is.
pub data Tick (s : Schedule) (m : Memory) : Act → Memory → Type 0 where
  catch_up :
      (gone : ℕ → Bool) (now : ℕ) (o : OverdueFires)
      → m.last < now
      → overdue s gone m.anchor m.last now false ≡ missed o
      → Tick s m (triggered o.latest) (advance o.latest m)
  record_missed :
      (gone : ℕ → Bool) (now : ℕ) (o : OverdueFires)
      → m.last < now
      → overdue s gone m.anchor m.last now true ≡ missed o
      → Tick s m (recorded o.latest) (advance o.latest m)
  fire :
      (reading due next : ℕ)
      → plan s reading m ≡ at next
      → next ≤ due
      → Tick s m (triggered next) (advance next m)

-- The acts of a loop, the newest first, between two positions. A failed write changes only the mark.
pub data Acts (s : Schedule) (m : Memory) : List Act → Memory → Type 0 where
  start : Acts s m [] m
  write :
      {acts : List Act} {n : Memory} (err : Bool)
      → Acts s m acts n
      → Acts s m acts (persist_result err n)
  step :
      {acts : List Act} {n p : Memory} {a : Act}
      → Acts s m acts n
      → Tick s n a p
      → Acts s m (a ∷ acts) p

-- The occurrences fall: each is later than all before it, and the last is the position.
abbrev pub Falls : ℕ → List Act → Type 0
Falls low [] = low ≡ low
Falls low (a ∷ acts) =
    (low < occurrence a) × All (λ b. occurrence b < occurrence a) acts × Falls low acts

pub record Ordered (m : Memory) (acts : List Act) (n : Memory) : Type 0 where
  pub falls : Falls m.last acts
  pub onward : m.last ≤ n.last
  pub below : All (λ b. occurrence b ≤ n.last) acts

pub All-weaken :
    (P Q : Act → Type 0) → ((a : Act) → P a → Q a) → (xs : List Act) → All P xs → All Q xs
All-weaken P Q f [] h = h
All-weaken P Q f (x ∷ xs) h = (f x h.0, All-weaken P Q f xs h.1)

same_last : (err : Bool) (m : Memory) → (persist_result err m).last ≡ m.last
unfolding persist_result
same_last err m = ground arith

Tick-onward :
    {s : Schedule} {m n : Memory} {a : Act}
    → Lawful s
    → Tick s m a n
    → (m.last < occurrence a) × (n.last ≡ occurrence a)
unfolding advance plan
Tick-onward {s = s} {m = m} l (catch_up gone now o h e) =
    let w : Within (if eqb m.last 0 then m.anchor else m.last) now (missed o) =
      subst (Within (if eqb m.last 0 then m.anchor else m.last) now) e
        (overdue-Within s l gone m.anchor m.last now false) in
    (ground (arith, w.0, w.1), refl)
Tick-onward {s = s} {m = m} l (record_missed gone now o h e) =
    let w : Within (if eqb m.last 0 then m.anchor else m.last) now (missed o) =
      subst (Within (if eqb m.last 0 then m.anchor else m.last) now) e
        (overdue-Within s l gone m.anchor m.last now true) in
    (ground (arith, w.0, w.1), refl)
Tick-onward {s = s} {m = m} l (fire reading due next e h) =
    let w : max m.last reading < next =
      subst (Later (max m.last reading)) e
        (next_fire_distinct-Later s l m.anchor m.last (max m.last reading)) in
    (omega (arith, w), refl)

-- For an interval that is not 0, or a cron expression that keeps what its package documents:
-- whatever the clock reads, whatever is stored and however often passes fail and start again, the
-- occurrences that a loop triggers or records as missed only move forward. Each is strictly later
-- than all before it, and than the position that the loop started from.
pub Acts-Ordered :
    (s : Schedule)
    → Lawful s
    → {m n : Memory} {acts : List Act} → Acts s m acts n
    → Ordered m acts n
Acts-Ordered s l start = record { falls = refl; onward = omega arith; below = tt }
Acts-Ordered s l {m = m} (write {acts = acts} {n = n} err r) =
    let o = Acts-Ordered s l r in
    let e = same_last err n in
    record {
      falls = o.falls;
      onward = omega (arith, e, o.onward);
      below = All-weaken _ _ (λ b q. omega (arith, q, e)) acts o.below;
    }
Acts-Ordered s l (step {acts = acts} r x) =
    let o = Acts-Ordered s l r in
    let w = Tick-onward l x in
    record {
      falls = (
        omega (arith, w.0, o.onward),
        All-weaken _ _ (λ b q. omega (arith, q, w.0)) acts o.below,
        o.falls,
      );
      onward = omega (arith, w.0, w.1, o.onward);
      below = (omega (arith, w.1), All-weaken _ _ (λ b q. omega (arith, q, w.0, w.1)) acts o.below);
    }

Falls-All : (low : ℕ) (acts : List Act) → Falls low acts → All (λ a. low < occurrence a) acts
Falls-All low [] f = tt
Falls-All low (a ∷ acts) f = (f.0, Falls-All low acts f.2)

opened-floor :
    (hash : String) (now anchor last t : ℕ) (err : Bool) (m : Memory)
    → m.known ≡ false
    → let n = open_pass hash now (row hash anchor last (some t)) err m in
      (last ≤ n.last) × (t ≤ n.last)
unfolding open_pass
opened-floor hash now anchor last t err m k =
    let e : str_eq hash hash ≡ true = (str_iff hash hash).1 refl in ground (arith, k, e)

-- For a lawful schedule whose loop has no position in memory yet and finds the stored one of its
-- schedule, and to which the store answers t for the last scheduled fire: the loop triggers or records
-- only occurrences later than the stored position and than t.
pub restart-floor :
    (s : Schedule) (hash : String) (now anchor last t : ℕ) (err : Bool) (m n : Memory)
    (acts : List Act)
    → Lawful s
    → m.known ≡ false
    → Acts s (open_pass hash now (row hash anchor last (some t)) err m) acts n
    → All (λ a. (last < occurrence a) × (t < occurrence a)) acts
restart-floor s hash now anchor last t err m n acts l k r =
    let o = Acts-Ordered s l r in
    let f = opened-floor hash now anchor last t err m k in
    All-weaken _ _ (λ a q. (omega (arith, f.0, q), omega (arith, f.1, q))) acts
      (Falls-All _ acts o.falls)
