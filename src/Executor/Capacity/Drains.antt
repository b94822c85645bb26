-- ===== src/Executor/Capacity/Drains.antt =====
-- internal/executor/queue.go: what a drain step launches, and the overlap policy.
use minicrond.Prelude.{
  nat_eq, string_eq, ◌≡◌, refl, sym, subst, ℕ, suc, ◌-◌, String, Bool, true, false, ◌&&◌, ◌||◌,
  Option, none, some, positive, ◌==◌, not, if◌then◌else◌, arith, Bool-cases, inl, inr, ltb, leb,
  find, length, List, eqb_iff, str_iff, ◌≤◌,
}
use minicrond.Store.Tables.{
  Run, Db, QueueRow, Result, ok, err, storage, queued, pending, has_id, unix_micro, status_eq,
}
use minicrond.Store.Queue
use minicrond.Model.{Definition, is_enabled, is_job}
use minicrond.Executor.State.{
  Service, Lookup, found, missing, unreadable, read_run, dequeue_run, queue_heads, expire_queued,
  queue_stats,
}
use minicrond.Executor.Backlog.{World, Refusal, stored}
use minicrond.Executor.Trigger.{launch}
use minicrond.Executor.Drain.{
  Wait, until_woken, Step, done, fails_with, Readings, drop, same_job, dequeue_and_launch,
  revalidate, start_queued, next_item, hears_expiry, count_expired, queue_expire_batch,
}
use minicrond.Executor.Step.{
  give_back, finish_start, mark_served, resync, start_next, admitted_start, paced_start, drain_step,
  expire_step,
}
use minicrond.Executor.Capacity.Frame.{Same-refl, Same-trans}
use minicrond.Executor.Capacity.Added.{Adds, none_new, launch-Adds}
use minicrond.Executor.Capacity.Drained.{drop-Same}
use minicrond.Executor.Capacity.Launches.{
  Launches, Launches-Same, Launches-Adds, Launches-if, overlaps,
}

module _ (w : World) (t : Readings) where
  -- What an item of the queue must meet to be started under the definition d: its run is stored as
  -- queued and has not expired, and d is what the definition table now has under the run's name, is
  -- still the job that the item was queued for, and is enabled. A retry is within the budget of d.
  pub record Ready (db : Db) (item : QueueRow) (d : Definition) : Type 0 where
    pub run : Run
    pub read : find (has_id item.run_id) db.runs ≡ some run
    pub is_queued : run.status ≡ queued
    pub unexpired : leb item.expires_us (unix_micro t.at_check) ≡ false
    pub looked_up : (hash : String) × (w.lookup run.job_name ≡ found d hash)
    pub job : (d.id ≡ item.definition_id) × (is_job d.kind ≡ true)
    pub enabled : is_enabled d ≡ true
    pub budget : run.trigger ≡ "retry" → run.attempt - 1 ≤ d.retries

  -- The definition of the item that the queue gives next.
  abbrev pub Current : List (ℕ × ℕ) → Db → Definition → Type 0
  Current served db d = (item : QueueRow) × ((next_item served db ≡ some item) × Ready db item d)

  dequeue_and_launch-Adds :
      (run : Run) (d : Definition) (hash : String) (s : Service)
      → Adds d s.active (dequeue_and_launch run d hash w t s).0.active
  unfolding dequeue_and_launch
  dequeue_and_launch-Adds run d hash s = elim (Bool-cases (s.closing || t.closes_mid)) [
    | inl e ↦ rw (e) (none_new refl)
    | inr e ↦ elim (Bool-cases (w.fails dequeue_run)) [
      | inl f ↦ rw (e, f) (none_new refl)
      | inr f ↦ rw (e, f) (dequeued (Queue.dequeue_run run.id d.revision hash s.boot_id s.db))
    ]
  ]
    where
      run' : Run
      run' = record run {
        status = pending;
        revision = d.revision;
        definition_hash = hash;
        boot_id = s.boot_id;
      }

      dequeued :
          (m : Result Db)
          → (let u : Service × Step Bool = elim m [
            | err e ↦ (s, done false)
            | ok db ↦ ((launch run' d true w (record s { db = db })).0, done true)
          ] in
              Adds d s.active u.0.active)
      dequeued (err e) = none_new refl
      dequeued (ok db) = launch-Adds run' d true w (record s { db = db })

  module _ (From : Definition → Type 0) (s0 : Service) (item : QueueRow)
      (from : (d : Definition) → Ready s0.db item d → From d) where
    revalidate-Launches :
        (run : Run) (l : Lookup)
        → find (has_id item.run_id) s0.db.runs ≡ some run
        → (not (run.status == queued)) ≡ false
        → leb item.expires_us (unix_micro t.at_check) ≡ false
        → w.lookup run.job_name ≡ l
        → Launches From s0 (revalidate run item l w t s0).0.active
    unfolding revalidate
    revalidate-Launches run missing f q x e =
        Launches-Same (drop-Same run "definition_removed" false w s0)
    revalidate-Launches run unreadable f q x e = Launches-Same (Same-refl s0)
    revalidate-Launches run (found d hash) f q x e =
        Launches-if From s0 (not (same_job d item)) _ _
          (Launches-Same (drop-Same run "definition_removed" false w s0))
          (λ j.
            Launches-if From s0 (not (is_enabled d)) _ _
              (Launches-Same (drop-Same run "definition_disabled" false w s0))
              (λ n.
                Launches-if From s0 (run.trigger == "retry" && ltb d.retries (run.attempt - 1)) _ _
                  (Launches-Same (drop-Same run "retry_budget" true w s0))
                  (λ b.
                    Launches-if From s0 (overlaps d s0) _ _
                      (Launches-Same (drop-Same run "overlap_skip" true w s0))
                      (λ o.
                        Launches-Adds d From s0 _
                          (from d (record {
                            run = run;
                            read = f;
                            is_queued =
                                (status_eq.same_iff run.status queued).0 (ground (arith, q));
                            unexpired = x;
                            looked_up = (hash, e);
                            job = (
                              (eqb_iff d.id item.definition_id).0 (ground (arith, j)),
                              ground (arith, j),
                            );
                            enabled = ground (arith, n);
                            budget = λ r. ground (arith, b, (str_iff run.trigger "retry").1 r);
                          }))
                          (ground (arith, o)) (dequeue_and_launch-Adds run d hash s0)))))

    start_queued-Launches : Launches From s0 (start_queued item w t s0).0.active
    unfolding start_queued
    start_queued-Launches =
        Launches-if From s0 (w.fails read_run) _ _ (Launches-Same (Same-refl s0))
          (λ _. read_back (find (has_id item.run_id) s0.db.runs) refl)
      where
        read_back :
            (o : Option Run)
            → find (has_id item.run_id) s0.db.runs ≡ o
            → (let m : Service × Step Bool = elim o [
              | none ↦ (s0, fails_with (stored storage))
              | some run ↦
                  if not (run.status == queued)
                  then drop run "queue_inconsistent" false w s0
                  else if leb item.expires_us (unix_micro t.at_check)
                  then drop run "queue_expired"
                      (hears_expiry (w.lookup run.job_name) item)
                      w
                      (count_expired 1 s0)
                  else revalidate run item (w.lookup run.job_name) w t s0
            ] in
                Launches From s0 m.0.active)
        read_back none f = Launches-Same (Same-refl s0)
        read_back (some run) f =
            Launches-if From s0 (not (run.status == queued)) _ _
              (Launches-Same (drop-Same run "queue_inconsistent" false w s0))
              (λ q.
                Launches-if From s0 (leb item.expires_us (unix_micro t.at_check)) _ _
                  (Launches-Same (
                    Same-trans {s = s0} {t = count_expired 1 s0}
                      (record { in_use = refl; max_runs = refl; active = refl; by_job = refl })
                      (drop-Same run "queue_expired" (hears_expiry (w.lookup run.job_name) item) w
                        (count_expired 1 s0))))
                  (λ x. revalidate-Launches run (w.lookup run.job_name) f q x refl))

  finish_start-active :
      (at : ℕ) (m : Service × Step Bool) → (finish_start at m).0.active ≡ m.0.active
  unfolding finish_start
  finish_start-active at (s, done true) = refl
  finish_start-active at (s, done false) = refl
  finish_start-active at (s, fails_with e) = refl

  -- Serving changes no table.
  from_marked :
      (item : QueueRow) (d : Definition) (s : Service)
      → Ready (mark_served item.definition_id s).db item d
      → Ready s.db item d
  from_marked item d s r = r

  start_next-Launches :
      (s : Service) → Launches (Current s.queue.served s.db) s (start_next w t s).0.active
  unfolding start_next resync
  start_next-Launches s =
      Launches-if (Current s.queue.served s.db) s (w.fails queue_heads) _ _
        (record { new = inl refl }) (λ _. chosen (next_item s.queue.served s.db) refl)
    where
      chosen :
          (o : Option QueueRow)
          → next_item s.queue.served s.db ≡ o
          → (let m : Service × Step Wait = elim o [
            | none ↦ resync w s
            | some item ↦
                finish_start t.at_start (start_queued item w t (mark_served item.definition_id s))
          ] in
              Launches (Current s.queue.served s.db) s m.0.active)
      chosen none e =
          Launches-if (Current s.queue.served s.db) s (w.fails queue_stats) _ _
            (record { new = inl refl }) (λ _. record { new = inl refl })
      chosen (some item) e =
          let From = Current s.queue.served s.db in
          let s1 = mark_served item.definition_id s in
          let m = start_queued item w t s1 in
          subst (Launches From s) (sym (finish_start-active t.at_start m)) (record {
            new =
                (start_queued-Launches From s1 item
                  (λ d r. (item, (e, from_marked item d s r)))).new;
          })

  admitted_start-Launches :
      (s : Service) → Launches (Current s.queue.served s.db) s (admitted_start w t s).0.active
  unfolding admitted_start
  admitted_start-Launches s = waited w.admitted
    where
      waited :
          (o : Option Refusal)
          → (let m : Service × Step Wait = elim o [
            | some e ↦ (give_back s, done until_woken)
            | none ↦
                if s.closing || w.closes
                then (give_back (record s { closing = true }), done until_woken)
                else start_next w t s
          ] in
              Launches (Current s.queue.served s.db) s m.0.active)
      waited (some e) = record { new = inl refl }
      waited none =
          Launches-if (Current s.queue.served s.db) s (s.closing || w.closes) _ _
            (record { new = inl refl }) (λ _. start_next-Launches s)

  paced_start-Launches :
      (s : Service) → Launches (Current s.queue.served s.db) s (paced_start w t s).0.active
  unfolding paced_start
  paced_start-Launches s =
      Launches-if From s (ltb 0 (s.queue.next_start - t.at_rate)) _ _ (record { new = inl refl })
        (λ _.
          Launches-if From s (ltb s.in_use s.max_runs) _ _
            (record { new = (admitted_start-Launches (record s { in_use = suc s.in_use })).new })
            (λ _. record { new = inl refl }))
    where
      From : Definition → Type 0
      From = Current s.queue.served s.db

  pub drain_step-Launches :
      (s : Service)
      → (let s1 : Service = (expire_step w t.at_expire s).0 in
          Launches (Current s1.queue.served s1.db) s (drain_step w t s).0.active)
  unfolding drain_step
  drain_step-Launches s =
      Launches-if From s (not (positive s.queue.depth)) _ _ (record { new = inl refl })
        (λ _.
          Launches-if From s (w.fails expire_queued) _ _ (record { new = inl refl })
            (λ _.
              let s1 = expire_step w t.at_expire s in
              Launches-if From s (length s1.1 == queue_expire_batch) _ _ (record { new = inl refl })
                (λ _.
                  Launches-if From s (not (positive s1.0.queue.depth)) _ _
                    (record { new = inl refl })
                    (λ _. record { new = (paced_start-Launches s1.0).new }))))
    where
      From : Definition → Type 0
      From = Current (expire_step w t.at_expire s).0.queue.served (expire_step w t.at_expire s).0.db
