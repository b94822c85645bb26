-- ===== src/Executor/Capacity/Stepped.antt =====
-- internal/executor/queue.go: the books through one step of the drain loop.
use minicrond.Prelude.{
  nat_eq, string_eq, refl, ℕ, suc, ◌-◌, String, Bool, true, false, ◌||◌, Option, none, some,
  positive, List, ◌==◌, not, if◌then◌else◌, arith, Bool-cases, inl, inr, ltb, ltb→lt, length,
}
use minicrond.Store.Tables.{QueueRow, status_eq}
use minicrond.Executor.State.{Service, queue_heads, expire_queued, queue_stats}
use minicrond.Executor.Backlog.{World, Refusal}
use minicrond.Executor.Drain.{
  Wait, until_woken, Step, done, fails_with, Readings, start_queued, next_item, queue_expire_batch,
}
use minicrond.Executor.Step.{
  give_back, finish_start, mark_served, resync, start_next, admitted_start, paced_start, drain_step,
  expire_step,
}
use minicrond.Executor.Capacity.Frame.{Same, Same-refl}
use minicrond.Executor.Capacity.Books.{Held, Held-Same}
use minicrond.Executor.Capacity.Drained.{Settles, start_queued-Settles}

give_back-Held : {s t : Service} → Same s t → Held 1 s → Held 0 (give_back t)
give_back-Held p h =
    let k = Held-Same p h in
    record {
      slots_taken = omega (arith, k.slots_taken);
      bounded = omega (arith, k.bounded);
      by_name = k.by_name;
    }

finish_start-Held : (at : ℕ) (m : Service × Step Bool) → Settles m → Held 0 (finish_start at m).0
unfolding finish_start
finish_start-Held at (s, done true) h =
    Held-Same (record { in_use = refl; max_runs = refl; active = refl; by_job = refl }) h
finish_start-Held at (s, done false) h =
    give_back-Held (record { in_use = refl; max_runs = refl; active = refl; by_job = refl }) h
finish_start-Held at (s, fails_with e) h = give_back-Held (Same-refl s) h

Held-if :
    {A : Type 0} (b : Bool) (m m' : Service × A)
    → Held 0 m.0
    → Held 0 m'.0
    → Held 0 (if b then m else m').0
Held-if true m m' p p' = p
Held-if false m m' p p' = p'

start_next-Held : (w : World) (t : Readings) (s : Service) → Held 1 s → Held 0 (start_next w t s).0
unfolding start_next resync
start_next-Held w t s h =
    Held-if (w.fails queue_heads) _ _ (give_back-Held (Same-refl s) h)
      (chosen (next_item s.queue.served s.db))
  where
    chosen :
        (o : Option QueueRow)
        → (let m : Service × Step Wait = elim o [
          | none ↦ resync w s
          | some item ↦
              finish_start t.at_start (start_queued item w t (mark_served item.definition_id s))
        ] in
            Held 0 m.0)
    chosen none =
        Held-if (w.fails queue_stats) _ _ (give_back-Held (Same-refl s) h) (
          give_back-Held (record { in_use = refl; max_runs = refl; active = refl; by_job = refl })
            h)
    chosen (some item) = finish_start-Held t.at_start _ (
        start_queued-Settles item w t (mark_served item.definition_id s) (
          Held-Same {s = s}
            (record { in_use = refl; max_runs = refl; active = refl; by_job = refl }) h))

admitted_start-Held :
    (w : World) (t : Readings) (s : Service) → Held 1 s → Held 0 (admitted_start w t s).0
unfolding admitted_start
admitted_start-Held w t s h = waited w.admitted
  where
    waited :
        (o : Option Refusal)
        → (let m : Service × Step Wait = elim o [
          | some e ↦ (give_back s, done until_woken)
          | none ↦
              if s.closing || w.closes
              then (give_back (record s { closing = true }), done until_woken)
              else start_next w t s
        ] in
            Held 0 m.0)
    waited (some e) = give_back-Held (Same-refl s) h
    waited none =
        Held-if (s.closing || w.closes) _ _
          (give_back-Held {s = s}
            (record { in_use = refl; max_runs = refl; active = refl; by_job = refl }) h)
          (start_next-Held w t s h)

paced_start-Held :
    (w : World) (t : Readings) (s : Service) → Held 0 s → Held 0 (paced_start w t s).0
unfolding paced_start
paced_start-Held w t s h =
    Held-if (ltb 0 (s.queue.next_start - t.at_rate)) _ _ h
      (elim (Bool-cases (ltb s.in_use s.max_runs)) [
        | inl e ↦ rw (e) (
            admitted_start-Held w t (record s { in_use = suc s.in_use })
              (record {
                slots_taken = omega (arith, h.slots_taken);
                bounded = omega (arith, ltb→lt s.in_use s.max_runs e);
                by_name = h.by_name;
              }))
        | inr e ↦ rw (e) h
      ])

pub drain_step-Held :
    (w : World) (t : Readings) (s : Service) → Held 0 s → Held 0 (drain_step w t s).0
unfolding drain_step
drain_step-Held w t s h = Held-if (not (positive s.queue.depth)) _ _ h (
    Held-if (w.fails expire_queued) _ _ h (
      Held-if (length s1.1 == queue_expire_batch) _ _ expired (
        Held-if (not (positive s1.0.queue.depth)) _ _ expired (paced_start-Held w t s1.0 expired))))
  where
    s1 : Service × List String
    s1 = expire_step w t.at_expire s

    expired : Held 0 s1.0
    expired =
        Held-Same {s = s} (record { in_use = refl; max_runs = refl; active = refl; by_job = refl })
          h
