-- ===== src/Executor/Step.antt =====
-- internal/executor/queue.go: `drainStep`, and the back-off of the loop around it.
use minicrond.Prelude.{
  ◌||◌, nat_eq, string_eq, ℕ, suc, ◌+◌, ◌-◌, ◌*◌, ◌/◌, Bool, true, none, some, pos, sub, positive,
  min, List, [], ◌==◌, not, if◌then◌else◌, ltb, length, String,
}
use minicrond.Store.Tables.{storage}
use minicrond.Store.Queue
use minicrond.Executor.State.{Service, expire_queued, queue_heads, queue_stats, second}
use minicrond.Executor.Backlog.{World, stored}
use minicrond.Executor.Drain.{
  Wait, again, sleep, until_woken, Step, done, fails_with, Readings, until_expiry, serve, next_item,
  map_queue, count_expired, start_queued, queue_expire_batch, max_served,
}

-- The slot taken for a start that did not come about.
abbrev pub give_back : Service → Service
give_back s = record s { in_use = s.in_use - 1 }

-- The expiry pass of a step.
unfoldable pub expire_step : World → ℕ → Service → Service × List String
expire_step w at s =
    let (ids, db) = Queue.expire_queued at queue_expire_batch s.db in
    (
      count_expired (length ids) (record s {
        db = db;
        queue = record (s.queue) { depth = sub s.queue.depth (length ids) };
      }),
      ids,
    )

-- After a start attempt that met no error.
abbrev pub settle : Bool → ℕ → Service → Service
settle started at s =
    let next = if started then at + second / s.options.drain_rate else s.queue.next_start in
    let served = if ltb max_served (length s.queue.served) then [] else s.queue.served in
    let s' = record s {
      queue = record (s.queue) { depth = sub s.queue.depth 1; served = served; next_start = next };
    } in
    if started then s' else give_back s'

unfoldable pub finish_start : ℕ → Service × Step Bool → Service × Step Wait
finish_start at (s, done started) = (settle started at s, done again)
finish_start at (s, fails_with e) = (give_back s, fails_with e)

abbrev pub mark_served : ℕ → Service → Service
mark_served d =
    map_queue (λ q. record q { tick = suc q.tick; served = serve d (suc q.tick) q.served })

-- The mirror has drifted: it is read again.
unfoldable pub resync : World → Service → Service × Step Wait
resync w s = if w.fails queue_stats then (give_back s, fails_with (stored storage)) else (
  give_back (map_queue (λ q. record q { depth = pos (Queue.queue_stats s.db).depth }) s),
  done again,
)

unfoldable pub start_next : World → Readings → Service → Service × Step Wait
unfolding finish_start resync next_item start_queued
start_next w t s =
    if w.fails queue_heads
    then (give_back s, fails_with (stored storage))
    else elim (next_item s.queue.served s.db) [
      | none ↦ resync w s
      | some item ↦
          finish_start t.at_start (start_queued item w t (mark_served item.definition_id s))
    ]

-- Under a slot: the admission slot, and a shutdown that began meanwhile.
unfoldable pub admitted_start : World → Readings → Service → Service × Step Wait
unfolding start_next
admitted_start w t s = elim w.admitted [
  | some e ↦ (give_back s, done until_woken)
  | none ↦
      if s.closing || w.closes
      then (give_back (record s { closing = true }), done until_woken)
      else start_next w t s
]

-- The rate limit and the capacity gate.
unfoldable pub paced_start : World → Readings → Service → Service × Step Wait
unfolding admitted_start until_expiry
paced_start w t s =
    let wait = s.queue.next_start - t.at_rate in
    if ltb 0 wait
    then (s, until_expiry (sleep wait) w t.at_sleep s.db)
    else if ltb s.in_use s.max_runs
    then admitted_start w t (record s { in_use = suc s.in_use })
    else (s, until_expiry until_woken w t.at_sleep s.db)

-- `drainStep`.
unfoldable pub drain_step : World → Readings → Service → Service × Step Wait
unfolding expire_step paced_start
drain_step w t s =
    if not (positive s.queue.depth)
    then (s, done until_woken)
    else if w.fails expire_queued
    then (s, fails_with (stored storage))
    else (let (s1, ids) = expire_step w t.at_expire s in
        if length ids == queue_expire_batch
        then (s1, done again)
        else if not (positive s1.queue.depth)
        then (s1, done until_woken)
        else paced_start w t s1)

abbrev pub queue_backoff_min : ℕ
queue_backoff_min = second

abbrev pub queue_backoff_max : ℕ
queue_backoff_max = 30 * second

-- One round of `queueLoop`: how long it sleeps, and the back-off of the next failure.
unfoldable pub loop_wait : ℕ → Step Wait → Wait × ℕ
loop_wait backoff (done wait) = (wait, queue_backoff_min)
loop_wait backoff (fails_with e) = (sleep backoff, min (backoff * 2) queue_backoff_max)
