-- ===== src/Executor/Drain.antt =====
-- internal/executor/queue.go: one step of the drain loop, which starts at most one queued run.
use minicrond.Prelude.{
  nat_eq, string_eq, ◌||◌, ℕ, suc, ◌+◌, ◌-◌, ◌*◌, String, Bool, true, false, ◌&&◌, Option, none,
  some, max, List, [], ◌∷◌, ◌==◌, not, if◌then◌else◌, leb, ltb, find,
}
use minicrond.Store.Tables.{
  Run, Db, QueueRow, queued, pending, skipped, status_eq, ok, err, storage, unix_micro, has_id,
}
use minicrond.Store.Queue
use minicrond.Store.Queue.{QueueStats}
use minicrond.Model.{Definition, is_enabled, is_job}
use minicrond.Executor.State.{
  Service, QueueState, next_expiry, read_run, drop_queued, dequeue_run, Lookup, found, missing,
  unreadable, notify,
}
use minicrond.Executor.Backlog.{World, Refusal, shutdown, stored}
use minicrond.Executor.Trigger.{launch}

abbrev pub queue_expire_batch : ℕ
queue_expire_batch = 100

abbrev pub queue_head_window : ℕ
queue_head_window = 64

abbrev pub max_served : ℕ
max_served = 4096

-- How long to wait before the next step: not at all, at most so long, or until woken.
pub data Wait : Type 0 where
  again : Wait
  sleep : ℕ → Wait
  until_woken : Wait

pub data Step {ℓ} (A : Type ℓ) : Type ℓ where
  done : A → Step A
  fails_with : Refusal → Step A

-- The clock readings of one step, in their order, and a shutdown that begins before the dequeue.
pub record Readings : Type 0 where
  pub at_expire : ℕ
  pub at_rate : ℕ
  pub at_sleep : ℕ
  pub at_check : ℕ
  pub at_start : ℕ
  pub closes_mid : Bool

abbrev pub sooner : Wait → ℕ → Wait
sooner (sleep b) n = if ltb n b then sleep n else sleep b
sooner _ n = sleep n

-- `untilExpiry`; `until_woken` stands for a negative base.
unfoldable pub until_expiry : Wait → World → ℕ → Db → Step Wait
until_expiry base w at db =
    if w.fails next_expiry then fails_with (stored storage) else elim (Queue.next_queue_expiry db) [
      | none ↦ done base
      | some us ↦ done (sooner base (max (us * 1000 - at) 1000000))
    ]

-- `served[d]`.
abbrev pub served_at : ℕ → List (ℕ × ℕ) → ℕ
served_at d [] = 0
served_at d ((e, t) ∷ m) = if e == d then t else served_at d m

-- `served[d] = t`.
abbrev pub serve : ℕ → ℕ → List (ℕ × ℕ) → List (ℕ × ℕ)
serve d t [] = (d, t) ∷ []
serve d t ((e, u) ∷ m) = if e == d then (e, t) ∷ m else (e, u) ∷ serve d t m

abbrev pub better : List (ℕ × ℕ) → QueueRow → QueueRow → QueueRow
better m best h =
    if ltb (served_at h.definition_id m) (served_at best.definition_id m) then h else best

unfoldable pub best_of : List (ℕ × ℕ) → QueueRow → List QueueRow → QueueRow
best_of m best [] = best
best_of m best (h ∷ hs) = best_of m (better m best h) hs

-- `nextItem`: the head of the definition served longest ago.
unfoldable pub next_item : List (ℕ × ℕ) → Db → Option QueueRow
unfolding best_of
next_item m db = elim (Queue.queue_heads queue_head_window db) [
  | [] ↦ none
  | h ∷ hs ↦ some (best_of m h hs)
]

abbrev pub map_queue : (QueueState → QueueState) → Service → Service
map_queue f s = record s { queue = f s.queue }

abbrev count_dropped : Service → Service
count_dropped = map_queue (λ q. record q { dropped = suc q.dropped })

abbrev pub count_expired : ℕ → Service → Service
count_expired n = map_queue (λ q. record q { expired = q.expired + n })

-- `drop` in `startQueued`: a run that had ended elsewhere is not announced.
unfoldable pub drop : Run → String → Bool → World → Service → Service × Step Bool
drop run reason announce w s =
    if w.fails drop_queued
    then (s, fails_with (stored storage))
    else (let (r, db) = Queue.drop_queued run.id reason w.now s.db in
        let s' = count_dropped (record s { db = db }) in
        elim r [
          | ok _ ↦ (
            (if announce
                then notify
                    (record run {
                      status = skipped;
                      end_reason = reason;
                      ended_us = some (unix_micro w.now);
                    })
                    s'
                else s'),
            done false,
          )
          | err _ ↦ (s', done false)
        ])

-- Whether the current definition still is the one that the item was queued for.
abbrev pub same_job : Definition → QueueRow → Bool
same_job d item = d.id == item.definition_id && is_job d.kind

abbrev pub hears_expiry : Lookup → QueueRow → Bool
hears_expiry (found d hash) item = d.id == item.definition_id && is_enabled d
hears_expiry _ item = false

unfoldable pub dequeue_and_launch :
    Run → Definition → String → World → Readings → Service → Service × Step Bool
unfolding launch
dequeue_and_launch run d hash w t s =
    if s.closing || t.closes_mid
    then (record s { closing = true }, fails_with shutdown)
    else if w.fails dequeue_run
    then (s, fails_with (stored storage))
    else elim (Queue.dequeue_run run.id d.revision hash s.boot_id s.db) [
      | err e ↦ (s, done false)
      | ok db ↦
          let run' = record run {
            status = pending;
            revision = d.revision;
            definition_hash = hash;
            boot_id = s.boot_id;
          } in
          ((launch run' d true w (record s { db = db })).0, done true)
    ]

unfoldable pub revalidate :
    Run → QueueRow → Lookup → World → Readings → Service → Service × Step Bool
unfolding drop dequeue_and_launch
revalidate run item missing w t s = drop run "definition_removed" false w s
revalidate run item unreadable w t s = (s, fails_with (stored storage))
revalidate run item (found d hash) w t s =
    if not (same_job d item)
    then drop run "definition_removed" false w s
    else if not (is_enabled d)
    then drop run "definition_disabled" false w s
    else if run.trigger == "retry" && ltb d.retries (run.attempt - 1)
    then drop run "retry_budget" true w s
    else if d.on_overlap == "skip" && ltb 0 (s.by_job d.name)
    then drop run "overlap_skip" true w s
    else dequeue_and_launch run d hash w t s

-- `startQueued`: whether a run was started. On an error the item stays queued.
unfoldable pub start_queued : QueueRow → World → Readings → Service → Service × Step Bool
unfolding revalidate drop
start_queued item w t s =
    if w.fails read_run
    then (s, fails_with (stored storage))
    else elim (find (has_id item.run_id) s.db.runs) [
      | none ↦ (s, fails_with (stored storage))
      | some run ↦
          if not (run.status == queued)
          then drop run "queue_inconsistent" false w s
          else if leb item.expires_us (unix_micro t.at_check)
          then drop run "queue_expired" (hears_expiry (w.lookup run.job_name) item) w
              (count_expired 1 s)
          else revalidate run item (w.lookup run.job_name) w t s
    ]
