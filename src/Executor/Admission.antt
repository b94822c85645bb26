-- ===== src/Executor/Admission.antt =====
-- internal/executor/executor.go and queue.go: `trigger`, what declines it, and what queues it.
use minicrond.Prelude.{
  nat_eq, string_eq, suc, String, true, false, Option, none, some, add, ◌==◌, if◌then◌else◌, find,
}
use minicrond.Store.Tables.{
  Run, Db, queued, skipped, storage, not_found, queue_duplicate, queue_full, idempotency_conflict,
  idempotency_key_exists, Result, ok, err, unix_micro, has_id,
}
use minicrond.Store.Lifecycle.{admit_idempotent_run}
use minicrond.Store.Queue.{live_key}
use minicrond.Store.Queue
use minicrond.Executor.State.{Service, enqueue_run, admit_run, read_run, queue_limits, notify}
use minicrond.Executor.Backlog.{
  World, Request, Reply, answer, refuse, Refusal, shutdown, canceled, disabled, capacity,
  queue_unavailable, stored, call, make_run, spool, history_lost, set_down, RowResult, recorded,
  unrecorded, refused, admit_row, defer_record, skip_unrecorded, scheduled_lookup,
}
use minicrond.Executor.Backlog

-- `Store.Run`.
unfoldable pub read : String → World → Service → Reply
read id w s =
    if w.fails read_run then refuse (stored storage) else elim (find (has_id id) s.db.runs) [
      | none ↦ refuse (stored not_found)
      | some r ↦ answer r true
    ]

-- The skipped run of a declined request.
abbrev pub skipped_run : Request → String → World → String → Run
unfolding make_run
skipped_run q reason w boot = record (make_run q w boot skipped) {
  end_reason = reason;
  ended_us = some (unix_micro w.now);
}

unfoldable pub skip_keyed : Run → Result (Option String × Db) → World → Service → Service × Reply
unfolding read
skip_keyed r (err e) w s = (s, refuse (stored e))
skip_keyed r (ok (some id, db)) w s = (s, read id w s)
skip_keyed r (ok (none, db)) w s = (notify r (record s { db = db }), answer r false)

unfoldable pub skip_row : Request → Run → World → Service × RowResult → Service × Reply
unfolding defer_record scheduled_lookup
skip_row q r w (s, recorded) = (notify r s, answer r false)
skip_row q r w (s, unrecorded) = (notify r (defer_record r w s), answer r false)
skip_row q r w (s, refused e) = elim (scheduled_lookup q w s) [
  | none ↦ (s, refuse e)
  | some x ↦ (s, answer x true)
]

-- `recordSkipped`.
unfoldable pub record_skipped : Request → String → World → Service → Service × Reply
unfolding skip_keyed skip_row admit_row live_key
record_skipped q reason w s =
    let r = skipped_run q reason w s.boot_id in
    elim (live_key q.idem) [
      | none ↦ skip_row q r w (admit_row r w s)
      | some i ↦ skip_keyed r (call w admit_run (admit_idempotent_run r i w.now w.now s.db)) w s
    ]

-- `startLoop` of the drain goroutine and the wake-up that follows; nothing once shutdown has begun.
unfoldable pub arm_queue : Service → Service
arm_queue s =
    if s.closing then s else record s { queue = record (s.queue) { started = true; wake = true } }

abbrev count_rejected : Service → Service
count_rejected s = record s { queue = record (s.queue) { rejected = suc s.queue.rejected } }

abbrev count_unavailable : Service → Service
count_unavailable s = record s {
  queue = record (s.queue) { unavailable = suc s.queue.unavailable };
}

-- What a failed enqueue answers when the queue could not be written.
unfoldable pub enqueue_unavailable : Request → World → Service → Service × Reply
unfolding scheduled_lookup
enqueue_unavailable q w s = elim (scheduled_lookup q w s) [
  | some x ↦ (s, answer x true)
  | none ↦
      (count_unavailable s, refuse (if q.trigger == "retry" then capacity else queue_unavailable))
]

unfoldable pub enqueued :
    Request → Run → Result (Option String × Db) → World → Service → Service × Reply
unfolding read arm_queue record_skipped enqueue_unavailable
enqueued q r (ok (some id, db)) w s = (s, read id w s)
enqueued q r (ok (none, db)) w s = (
  arm_queue (record s { db = db; queue = record (s.queue) { depth = add s.queue.depth 1 } }),
  answer r false,
)
enqueued q r (err queue_duplicate) w s = record_skipped q "overlap_skip" w s
enqueued q r (err (queue_full limit)) w s =
    let s' = count_rejected s in
    if q.trigger == "retry"
    then (s', refuse capacity)
    else if q.trigger == "manual"
    then (s', refuse Backlog.queue_full)
    else record_skipped q "queue_full" w s'
enqueued q r (err idempotency_conflict) w s = (s, refuse (stored idempotency_conflict))
enqueued q r (err idempotency_key_exists) w s = (s, refuse (stored idempotency_key_exists))
enqueued q r (err e) w s = if w.canceled then (s, refuse (stored e)) else enqueue_unavailable q w s

-- `enqueue`.
unfoldable pub enqueue : Request → World → Service → Service × Reply
unfolding enqueued make_run
enqueue q w s =
    let r = make_run q w s.boot_id queued in
    enqueued q r
      (call w enqueue_run (
        Queue.enqueue_run r (live_key q.idem) (queue_limits s.options) (q.def.on_overlap == "skip")
          w.now w.now s.db))
      w s
