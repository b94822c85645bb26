-- ===== src/Store/Queue.antt =====
-- internal/store/queue.go: the durable execution queue. Every operation is one transaction; its
-- clock readings are arguments, in nanoseconds.
pub mod Limits
pub mod Replay
pub mod Expiry
pub mod Expired
pub mod Dequeue
use minicrond.Prelude.{
  nat_eq, string_eq, ◌||◌, ℕ, suc, ◌+◌, ◌-◌, ◌*◌, ◌/◌, String, len, ◌≡◌, refl, ap, ◌↔◌, Bool, true,
  false, ◌&&◌, Option, none, some, List, [], ◌∷◌, ◌++◌, arith, Eq, ◌==◌, eqb, ltb, leb, has, find,
  select, update, count, sum, length, take, map, not, if◌then◌else◌,
}
use minicrond.Store.Tables.{
  Status, queued, pending, running, skipped, stopped, interrupted, terminal, status_eq, Run,
  QueueRow, KeyRow, Db, Idempotency, Result, ok, err, ◌>>=◌, ◌>>◌, guard, Error, constraint,
  invalid_transition, idempotency_conflict, idempotency_key_exists, not_found, queue_duplicate,
  queue_full, max_items, max_per_job, max_bytes, unix_micro, day, has_id, same_key, insert_run,
  insert_key, insert_queue,
}
use minicrond.Store.Lifecycle.{reserve_idempotency, queued_for}

-- `QueueLimits`.
pub record QueueLimits : Type 0 where
  pub max_items : ℕ
  pub max_per_job : ℕ
  pub max_bytes : ℕ
  pub max_age : ℕ

abbrev pub queue_payload_overhead : ℕ
queue_payload_overhead = 128

abbrev pub idem_bytes : Option Idempotency → ℕ
idem_bytes none = 0
idem_bytes (some i) = len i.principal + len i.operation + len i.key + len i.request_hash

-- `QueuePayloadBytes`.
unfoldable pub queue_payload_bytes : Run → Option Idempotency → ℕ
queue_payload_bytes r idem =
    queue_payload_overhead
    + len r.id
    + len r.job_name
    + len r.definition_hash
    + len r.parent_run_id
    + len r.trigger
    + len r.boot_id
    + idem_bytes idem

abbrev pub of_definition : ℕ → QueueRow → Bool
of_definition d q = q.definition_id == d

-- The `switch` of `EnqueueRun`, in its order.
unfoldable pub check_limits : Bool → ℕ → ℕ → ℕ → ℕ → QueueLimits → Result (Unit {0})
check_limits unique depth per_job bytes size lim =
    if unique && ltb 0 per_job
    then err queue_duplicate
    else if leb lim.max_items depth
    then err (queue_full max_items)
    else if leb lim.max_per_job per_job
    then err (queue_full max_per_job)
    else if ltb lim.max_bytes (bytes + size)
    then err (queue_full max_bytes)
    else ok tt

unfoldable pub insert_key_if : Option Idempotency → String → ℕ → Db → Result Db
unfolding insert_key
insert_key_if none id now db = ok db
insert_key_if (some i) id now db = insert_key i id now db

unfoldable pub reserve_if : Option Idempotency → ℕ → Db → Result (Option String × Db)
unfolding reserve_idempotency
reserve_if none at db = ok (none, db)
reserve_if (some i) at db = reserve_idempotency i at db

-- A key that is empty asks for no replay protection.
unfoldable pub live_key : Option Idempotency → Option Idempotency
live_key none = none
live_key (some i) = if i.key == "" then none else some i

abbrev pub bytes_of : List QueueRow → ℕ
bytes_of = sum (λ q. q.payload_bytes)

-- `EnqueueRun` from the limits on, once no live key replays an earlier run.
unfoldable pub enqueue_new :
    Run → Option Idempotency → QueueLimits → Bool → ℕ → Db → Result (Option String × Db)
unfolding check_limits insert_run insert_queue insert_key_if queue_payload_bytes live_key
enqueue_new r idem lim unique now db = do
  let depth = length db.queue
  let per_job = count (of_definition r.definition_id) db.queue
  let size = queue_payload_bytes r idem
  check_limits unique depth per_job (bytes_of db.queue) size lim
  let r' = record r { status = queued }
  db1 ← insert_run r' db
  db2 ← insert_queue r' now lim.max_age size db1
  db3 ← insert_key_if (live_key idem) r.id now db2
  ok (none, db3)

-- `EnqueueRun`: a replay answers the run that holds the key and writes nothing.
unfoldable pub enqueue_run :
    Run → Option Idempotency → QueueLimits → Bool → ℕ → ℕ → Db → Result (Option String × Db)
unfolding enqueue_new reserve_if live_key
enqueue_run r idem lim unique at now db = do
  (replay, db1) ← reserve_if (live_key idem) at db
  elim replay [ some id ↦ ok (some id, db) | none ↦ enqueue_new r idem lim unique now db1 ]

-- `MIN(f)`: `none` on an empty table.
unfoldable pub minimum : (QueueRow → ℕ) → List QueueRow → Option ℕ
minimum f [] = none
minimum f (q ∷ qs) = elim (minimum f qs) [
  | none ↦ some (f q)
  | some m ↦ some (if ltb m (f q) then m else f q)
]

pub record QueueStats : Type 0 where
  pub depth : ℕ
  pub bytes : ℕ
  pub oldest_us : ℕ

-- `QueueStats`: the oldest enqueue time is 0 for an empty queue.
unfoldable pub queue_stats : Db → QueueStats
unfolding minimum
queue_stats db = record {
  depth = length db.queue;
  bytes = bytes_of db.queue;
  oldest_us = elim (minimum (λ q. q.enqueued_us) db.queue) [ none ↦ 0 | some t ↦ t ];
}

-- `NextQueueExpiry`, in microseconds.
unfoldable pub next_queue_expiry : Db → Option ℕ
unfolding minimum
next_queue_expiry db = minimum (λ q. q.expires_us) db.queue

-- Insertion sort on a numeric column: `ORDER BY f`, equal rows as they stand.
unfoldable pub insert_by : (QueueRow → ℕ) → QueueRow → List QueueRow → List QueueRow
insert_by f q [] = q ∷ []
insert_by f q (x ∷ xs) = if leb (f q) (f x) then q ∷ x ∷ xs else x ∷ insert_by f q xs

unfoldable pub order_by : (QueueRow → ℕ) → List QueueRow → List QueueRow
unfolding insert_by
order_by f [] = []
order_by f (q ∷ qs) = insert_by f q (order_by f qs)

-- `seq=(SELECT MIN(seq) ... WHERE definition_id=q.definition_id)`.
abbrev pub is_head : List QueueRow → QueueRow → Bool
is_head queue q = not (has (λ x. of_definition q.definition_id x && ltb x.seq q.seq) queue)

-- `QueueHeads`.
unfoldable pub queue_heads : ℕ → Db → List QueueRow
unfolding order_by
queue_heads limit db = take limit (order_by (λ q. q.seq) (select (is_head db.queue) db.queue))

-- `run_id IN (...)`.
abbrev pub listed : List String → String → Bool
listed ids id = has (λ x. x == id) ids

abbrev pub end_row : Status → String → ℕ → Run → Run
end_row s reason now r = record r {
  status = s;
  end_reason = reason;
  ended_us = some (unix_micro now);
}

-- The runs named by the test end, and their rows leave the queue.
unfoldable pub end_listed : (String → Bool) → Status → String → ℕ → Db → Db
end_listed p s reason now db = record db {
  runs = update (λ r. r.status == queued && p r.id) (end_row s reason now) db.runs;
  queue = select (λ q. not (p q.run_id)) db.queue;
}

-- The page of `ExpireQueued`.
unfoldable pub expired_page : ℕ → ℕ → Db → List String
unfolding order_by
expired_page now limit db =
    map (λ q. q.run_id)
      (take limit
        (order_by (λ q. q.expires_us) (select (λ q. leb q.expires_us (unix_micro now)) db.queue)))

-- `ExpireQueued`: the runs expired, and the database after it.
unfoldable pub expire_queued : ℕ → ℕ → Db → List String × Db
unfolding expired_page end_listed
expire_queued now limit db =
    let ids = expired_page now limit db in
    (ids, end_listed (listed ids) skipped "queue_expired" now db)

-- `endQueued`: the queue row goes in any case; the answer says whether the run was still queued.
unfoldable pub end_queued : String → Status → String → ℕ → Db → Result (Unit {0}) × Db
unfolding end_listed
end_queued id s reason now db = (
  (if eqb (count (λ r. r.status == queued && has_id id r) db.runs) 1
      then ok tt
      else err invalid_transition),
  end_listed (λ x. x == id) s reason now db,
)

-- `DropQueued`.
unfoldable pub drop_queued : String → String → ℕ → Db → Result (Unit {0}) × Db
unfolding end_queued
drop_queued id reason now = end_queued id skipped reason now

-- `CancelQueued`.
unfoldable pub cancel_queued : String → ℕ → Db → Result (Unit {0}) × Db
unfolding end_queued
cancel_queued id now = end_queued id stopped "queue_cancelled" now

-- `dropDefinitionQueued`: the runs are named by their queue rows.
unfoldable pub drop_definition_queued : ℕ → String → ℕ → Db → Db
drop_definition_queued d reason now db = record db {
  runs =
      update (λ r. r.status == queued && has (λ q. queued_for r.id q && of_definition d q) db.queue)
        (end_row skipped reason now) db.runs;
  queue = select (λ q. not (of_definition d q)) db.queue;
}

-- `DequeueRun`.
unfoldable pub dequeue_run : String → ℕ → String → String → Db → Result Db
dequeue_run id revision hash boot db =
    if eqb (count (λ r. r.status == queued && has_id id r) db.runs) 1
    then ok (record db {
      runs =
          update (λ r. r.status == queued && has_id id r)
            (λ r. record r {
              status = pending;
              revision = revision;
              definition_hash = hash;
              boot_id = boot;
            })
            db.runs;
      queue = select (λ q. not (queued_for id q)) db.queue;
    })
    else err invalid_transition
