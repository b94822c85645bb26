-- ===== src/Executor/Capacity/Drained.antt =====
-- internal/executor/queue.go: the books through an attempt to start a queued run.
use minicrond.Prelude.{
  nat_eq, string_eq, ◌≡◌, ◌≢◌, refl, sym, subst, ◌-◌, String, Bool, true, false, ◌&&◌, ◌||◌, Option,
  none, some, ◌==◌, not, if◌then◌else◌, arith, find, ltb, leb,
}
use minicrond.Store.Tables.{
  Run, Db, QueueRow, Result, ok, err, storage, queued, pending, has_id, unix_micro, status_eq,
}
use minicrond.Store.Queue
use minicrond.Model.{Definition, is_job, is_enabled}
use minicrond.Executor.State.{Service, Lookup, found, missing, unreadable, read_run, dequeue_run}
use minicrond.Executor.Backlog.{World, stored}
use minicrond.Executor.Trigger.{launch}
use minicrond.Executor.Drain.{
  Step, done, fails_with, Readings, drop, same_job, dequeue_and_launch, revalidate, start_queued,
  hears_expiry, count_expired,
}
use minicrond.Executor.Capacity.Frame.{Same}
use minicrond.Executor.Capacity.Books.{Held, Held-Same, slots, launch-Held}

-- What an attempt to start a queued run leaves of the slot that it was given.
abbrev pub Settles : Service × Step Bool → Type 0
Settles (s, done true) = Held 0 s
Settles (s, done false) = Held 1 s
Settles (s, fails_with e) = Held 1 s

Settles-if :
    (b : Bool) (m m' : Service × Step Bool)
    → Settles m
    → (b ≡ false → Settles m')
    → Settles (if b then m else m')
Settles-if true m m' p p' = p
Settles-if false m m' p p' = p' refl

Settles-idle : (m : Service × Step Bool) → m.1 ≢ done true → Held 1 m.0 → Settles m
Settles-idle (s, done true) n h = absurd (n refl)
Settles-idle (s, done false) n h = h
Settles-idle (s, fails_with e) n h = h

pub drop-Same :
    (run : Run) (reason : String) (announce : Bool) (w : World) (s : Service)
    → Same s (drop run reason announce w s).0
unfolding drop
drop-Same run reason announce w s = ground arith

drop-idle :
    (run : Run) (reason : String) (announce : Bool) (w : World) (s : Service)
    → (drop run reason announce w s).1 ≢ done true
unfolding drop
drop-idle run reason announce w s = ground arith

drop-Settles :
    (run : Run) (reason : String) (announce : Bool) (w : World) (s : Service)
    → Held 1 s
    → Settles (drop run reason announce w s)
drop-Settles run reason announce w s h =
    Settles-idle (drop run reason announce w s) (drop-idle run reason announce w s)
      (Held-Same (drop-Same run reason announce w s) h)

job-slot :
    (d : Definition) (item : QueueRow) {s : Service}
    → same_job d item ≡ true
    → Held 1 s
    → Held (slots d) s
job-slot d item {s} e h =
    let j : is_job d.kind ≡ true = ground arith in
    subst (λ b. Held (if b then 1 else 0) s) (sym j) h

dequeue_and_launch-Settles :
    (run : Run) (d : Definition) (hash : String) (w : World) (t : Readings) (s : Service)
    → Held 1 s
    → Held (slots d) s
    → Settles (dequeue_and_launch run d hash w t s)
unfolding dequeue_and_launch
dequeue_and_launch-Settles run d hash w t s h k =
    Settles-if (s.closing || t.closes_mid) _ _
      (Held-Same (record { in_use = refl; max_runs = refl; active = refl; by_job = refl }) h)
      (λ _.
        Settles-if (w.fails dequeue_run) _ _ h
          (λ _. dequeued (Queue.dequeue_run run.id d.revision hash s.boot_id s.db)))
  where
    run' : Run
    run' = record run {
      status = pending;
      revision = d.revision;
      definition_hash = hash;
      boot_id = s.boot_id;
    }

    dequeued :
        (m : Result Db)
        → Settles (elim m [
          | err e ↦ (s, done false)
          | ok db ↦ ((launch run' d true w (record s { db = db })).0, done true)
        ])
    dequeued (err e) = h
    dequeued (ok db) = launch-Held run' d true w {s = record s { db = db }} (
        Held-Same {s = s} (record { in_use = refl; max_runs = refl; active = refl; by_job = refl })
          k)

revalidate-Settles :
    (run : Run) (item : QueueRow) (l : Lookup) (w : World) (t : Readings) (s : Service)
    → Held 1 s
    → Settles (revalidate run item l w t s)
unfolding revalidate
revalidate-Settles run item missing w t s h = drop-Settles run "definition_removed" false w s h
revalidate-Settles run item unreadable w t s h = h
revalidate-Settles run item (found d hash) w t s h =
    Settles-if (not (same_job d item)) _ _ (drop-Settles run "definition_removed" false w s h) (λ e.
      Settles-if (not (is_enabled d)) _ _ (drop-Settles run "definition_disabled" false w s h) (λ _.
        Settles-if (run.trigger == "retry" && ltb d.retries (run.attempt - 1)) _ _
          (drop-Settles run "retry_budget" true w s h)
          (λ _.
            Settles-if (d.on_overlap == "skip" && ltb 0 (s.by_job d.name)) _ _
              (drop-Settles run "overlap_skip" true w s h)
              (λ _.
                dequeue_and_launch-Settles run d hash w t s h (job-slot d item (ground arith) h)))))

pub start_queued-Settles :
    (item : QueueRow) (w : World) (t : Readings) (s : Service)
    → Held 1 s
    → Settles (start_queued item w t s)
unfolding start_queued
start_queued-Settles item w t s h =
    Settles-if (w.fails read_run) _ _ h (λ _. read_back (find (has_id item.run_id) s.db.runs))
  where
    read_back :
        (o : Option Run)
        → Settles (elim o [
          | none ↦ (s, fails_with (stored storage))
          | some run ↦
              if not (run.status == queued)
              then drop run "queue_inconsistent" false w s
              else if leb item.expires_us (unix_micro t.at_check)
              then drop run "queue_expired"
                  (hears_expiry (w.lookup run.job_name) item)
                  w
                  (count_expired 1 s)
              else revalidate run item (w.lookup run.job_name) w t s
        ])
    read_back none = h
    read_back (some run) =
        Settles-if (not (run.status == queued)) _ _
          (drop-Settles run "queue_inconsistent" false w s h)
          (λ _.
            Settles-if (leb item.expires_us (unix_micro t.at_check)) _ _
              (drop-Settles run "queue_expired" _ w (count_expired 1 s) (
                Held-Same (record { in_use = refl; max_runs = refl; active = refl; by_job = refl })
                  h))
              (λ _. revalidate-Settles run item (w.lookup run.job_name) w t s h))
