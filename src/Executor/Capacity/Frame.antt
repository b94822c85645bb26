-- ===== src/Executor/Capacity/Frame.antt =====
-- What leaves the slots and the active runs alone: storage, history, the queue and replies.
use minicrond.Prelude.{
  nat_eq, string_eq, ◌||◌, ◌≡◌, refl, ◌∙◌, ℕ, suc, String, Bool, true, false, Option, none, some,
  if◌then◌else◌, arith, Option-cases, inl, inr, has,
}
use minicrond.Store.Tables.{
  Run, Db, Result, ok, err, Status, queue_duplicate, storage, constraint, not_found,
  invalid_transition, idempotency_conflict, idempotency_key_exists,
}
use minicrond.Store.Tables
use minicrond.Store.Lifecycle.{Ending, admit_idempotent_run}
use minicrond.Store.Queue.{live_key}
use minicrond.Model.{Definition}
use minicrond.Executor.State.{Service, Active, FinalItem, notify, RetryItem, admit_run}
use minicrond.Executor.Backlog.{
  history_lost, of_run, call, set_down, World, Request, RowResult, recorded, unrecorded, refused,
  admit_row, spool, defer_record, skip_unrecorded,
}
use minicrond.Executor.Admission.{
  record_skipped, skip_keyed, skip_row, enqueue, enqueued, enqueue_unavailable, skipped_run,
}
use minicrond.Executor.Retries.{add_retry, schedule_retry}
use minicrond.Executor.Completion.{
  ended_run, record_outcome, finished, spool_end, write_end, complete,
}

pub record Same (s s' : Service) : Type 0 where
  pub in_use : s'.in_use ≡ s.in_use
  pub max_runs : s'.max_runs ≡ s.max_runs
  pub active : s'.active ≡ s.active
  pub by_job : s'.by_job ≡ s.by_job

pub Same-refl : (s : Service) → Same s s
Same-refl s = record { in_use = refl; max_runs = refl; active = refl; by_job = refl }

pub Same-trans : {s t u : Service} → Same s t → Same t u → Same s u
Same-trans p q = record {
  in_use = q.in_use ∙ p.in_use;
  max_runs = q.max_runs ∙ p.max_runs;
  active = q.active ∙ p.active;
  by_job = q.by_job ∙ p.by_job;
}

pub Same-if : {s t u : Service} → (b : Bool) → Same s t → Same s u → Same s (if b then t else u)
Same-if true p q = p
Same-if false p q = q

pub spool-Same :
    (r : Run) (f : FinalItem → FinalItem) (w : World) (s : Service) → Same s (spool r f w s).0
unfolding spool
spool-Same r f w s = ground arith

pub defer_record-Same : (r : Run) (w : World) (s : Service) → Same s (defer_record r w s)
unfolding defer_record
defer_record-Same r w s = ground arith

pub admit_row-Same : (r : Run) (w : World) (s : Service) → Same s (admit_row r w s).0
unfolding admit_row
admit_row-Same r w s = ground arith

pub skip_unrecorded-Same : (r : Run) (w : World) (s : Service) → Same s (skip_unrecorded r w s).0
unfolding skip_unrecorded
skip_unrecorded-Same r w s = ground arith

Same-notify : (r : Run) (s t : Service) → Same s t → Same s (notify r t)
Same-notify r s t p = record {
  in_use = p.in_use;
  max_runs = p.max_runs;
  active = p.active;
  by_job = p.by_job;
}

skip_row-Same :
    (q : Request) (r : Run) (w : World) (s : Service) (m : Service × RowResult)
    → Same s m.0
    → Same s (skip_row q r w m).0
unfolding skip_row
skip_row-Same q r w s (t, recorded) p = Same-notify r s t p
skip_row-Same q r w s (t, unrecorded) p =
    Same-notify r s (defer_record r w t) (Same-trans p (defer_record-Same r w t))
skip_row-Same q r w s (t, refused e) p = ground arith

pub record_skipped-Same :
    (q : Request) (reason : String) (w : World) (s : Service)
    → Same s (record_skipped q reason w s).0
unfolding record_skipped
record_skipped-Same q reason w s = elim (Option-cases (live_key q.idem)) [
  | inl e ↦ rw (e, record_skipped) (skip_row-Same q _ w s _ (admit_row-Same _ w s))
  | inr (i, e) ↦
      rw (e, record_skipped)
        (skip_keyed-Same (skipped_run q reason w s.boot_id) (
          call w admit_run
            (admit_idempotent_run (skipped_run q reason w s.boot_id) i w.now w.now s.db)))
]
  where
    skip_keyed-Same : (r : Run) (m : Result (Option String × Db)) → Same s (skip_keyed r m w s).0
    skip_keyed-Same r (err e) = Same-refl s
    skip_keyed-Same r (ok (some id, db)) = Same-refl s
    skip_keyed-Same r (ok (none, db)) = record {
      in_use = refl;
      max_runs = refl;
      active = refl;
      by_job = refl;
    }

enqueue_unavailable-Same :
    (q : Request) (w : World) (s : Service) → Same s (enqueue_unavailable q w s).0
unfolding enqueue_unavailable
enqueue_unavailable-Same q w s = ground arith

skipped_after-Same :
    (q : Request) (reason : String) (w : World) (s t : Service)
    → Same s t
    → Same s (record_skipped q reason w t).0
skipped_after-Same q reason w s t p = Same-trans p (record_skipped-Same q reason w t)

enqueued-Same :
    (q : Request) (r : Run) (m : Result (Option String × Db)) (w : World) (s : Service)
    → Same s (enqueued q r m w s).0
unfolding enqueued
enqueued-Same q r (ok (some id, db)) w s = Same-refl s
enqueued-Same q r (ok (none, db)) w s = ground arith
enqueued-Same q r (err queue_duplicate) w s = record_skipped-Same q "overlap_skip" w s
enqueued-Same q r (err (Tables.queue_full limit)) w s = ground (
  arith,
  record_skipped-Same q "queue_full" w
      (record s { queue = record (s.queue) { rejected = suc s.queue.rejected } }),
)
enqueued-Same q r (err idempotency_conflict) w s = Same-refl s
enqueued-Same q r (err idempotency_key_exists) w s = Same-refl s
enqueued-Same q r (err e) w s = ground (arith, enqueue_unavailable-Same q w s)

pub enqueue-Same : (q : Request) (w : World) (s : Service) → Same s (enqueue q w s).0
unfolding enqueue
enqueue-Same q w s = enqueued-Same q _ _ w s

pub add_retry-Same : (it : RetryItem) (s : Service) → Same s (add_retry it s)
unfolding add_retry
add_retry-Same it s = ground arith

schedule_retry-Same :
    (r : Run) (d : Definition) (now : ℕ) (s : Service) → Same s (schedule_retry r d now s)
unfolding schedule_retry
schedule_retry-Same r d now s = ground arith

finished-Same :
    (r : Run) (d : Definition) (t : Ending) (retry : Bool) (w : World) (s : Service)
    → Same s (finished r d t retry w s)
unfolding finished
finished-Same r d t retry w s = ground arith

record_outcome-Same : (r : Run) (s : Service) → Same s (record_outcome r s)
unfolding record_outcome
record_outcome-Same r s = ground arith

spool_end-Same :
    (r : Run) (d : Definition) (t : Ending) (retry : Bool) (w : World) (s : Service)
    → Same s (spool_end r d t retry w s)
unfolding spool_end
spool_end-Same r d t retry w s =
    let m = spool r (λ it. record it { done = some t }) w s in
    Same-trans
      (Same-if (m.1 || m.0.closing) (spool-Same r (λ it. record it { done = some t }) w s) (
        Same-trans (spool-Same r (λ it. record it { done = some t }) w s)
          (record { in_use = refl; max_runs = refl; active = refl; by_job = refl })))
      (finished-Same r d t retry w (if m.1 || m.0.closing then m.0 else history_lost m.0))

write_end-Same :
    (r : Run) (d : Definition) (t : Ending) (retry : Bool) (w : World) (m : Result Db) (s : Service)
    → Same s (write_end r d t retry w m s)
unfolding write_end
write_end-Same r d t retry w (ok db) s =
    Same-trans (record { in_use = refl; max_runs = refl; active = refl; by_job = refl })
      (finished-Same r d t retry w (set_down false (record s { db = db })))
write_end-Same r d t retry w (err invalid_transition) s = Same-refl s
write_end-Same r d t retry w (err e) s =
    Same-trans (record { in_use = refl; max_runs = refl; active = refl; by_job = refl })
      (spool_end-Same r d t retry w (set_down true s))

pub complete-Same :
    (a : Active) (t : Ending) (retry : Bool) (w : World) (s : Service)
    → Same s (complete a t retry w s)
unfolding complete
complete-Same a t retry w s =
    let s1 = record_outcome (ended_run t a.run) s in
    Same-trans (record_outcome-Same (ended_run t a.run) s) (
      Same-if a.unrecorded (finished-Same a.run a.def t retry w _) (
        Same-if (has (of_run a.run.id) s1.finalizing)
          (Same-trans (record { in_use = refl; max_runs = refl; active = refl; by_job = refl })
            (finished-Same a.run a.def t retry w _))
          (Same-if s1.health.down (spool_end-Same a.run a.def t retry w s1)
            (write_end-Same a.run a.def t retry w _ s1))))
