-- ===== src/Store/Queue/Limits.antt =====
-- What an enqueue guarantees of the queue's bounds, and when it succeeds.
use minicrond.Prelude.{
  nat_eq, string_eq, ◌||◌, ℕ, suc, ◌+◌, ◌<◌, ◌≤◌, ◌≡◌, Bool, true, false, Option, none, List, [],
  ◌∷◌, ◌++◌, arith, has, inl, inr, count, length, length-append, count-append, sum-append,
  Option-cases,
}
use minicrond.Store.Tables.{
  >>=-eq-ok, queued, status_eq, Run, QueueRow, Db, has_id, ok, Idempotency, same_occurrence,
  queue_row, unix_micro,
}
use minicrond.Store.Lifecycle.{queued_for}
use minicrond.Store.Queue.{
  QueueLimits, check_limits, enqueue_run, queue_payload_bytes, of_definition, bytes_of, reserve_if,
  live_key,
}
use minicrond.Store.Sound.Inserts.{reserve_if-KeysOnly}
use minicrond.Store.Sound.Inserted.{Enqueued, enqueue_new-Enqueued}

-- The queue stays within every limit.
pub record Within (lim : QueueLimits) (d : ℕ) (queue : List QueueRow) : Type 0 where
  pub items : length queue ≤ lim.max_items
  pub per_job : count (of_definition d) queue ≤ lim.max_per_job
  pub bytes : bytes_of queue ≤ lim.max_bytes

check_limits_ok :
    (unique : Bool) (depth per_job bytes size : ℕ) (lim : QueueLimits)
    → check_limits unique depth per_job bytes size lim ≡ ok tt
    → (suc depth ≤ lim.max_items)
      × (suc per_job ≤ lim.max_per_job)
      × (bytes + size ≤ lim.max_bytes)
      × (unique ≡ true → per_job ≡ 0)
unfolding check_limits
check_limits_ok unique depth per_job bytes size lim h = ground arith

Enqueued-Within :
    (r : Run) (size now : ℕ) (lim : QueueLimits) (unique : Bool) (db db' : Db)
    → Enqueued r size now lim unique db db'
    → Within lim r.definition_id db'.queue
      × (unique ≡ true → count (of_definition r.definition_id) db.queue ≡ 0)
Enqueued-Within r size now lim unique db db' e =
    let row : QueueRow = queue_row r now lim.max_age size db.next_seq in
    let (items, jobs, bytes, alone) =
      check_limits_ok unique (length db.queue) (count (of_definition r.definition_id) db.queue)
        (bytes_of db.queue) size lim e.checked in
    (
      rw e.rows record {
        items = omega (arith, length-append db.queue (row ∷ []));
        per_job = ground (arith, count-append (of_definition r.definition_id) db.queue (row ∷ []));
        bytes = ground (arith, sum-append (λ (q : QueueRow). q.payload_bytes) db.queue (row ∷ []));
      },
      alone,
    )

-- An enqueue that queues a run leaves the whole queue within the item and byte limits and the run's
-- definition within its own limit, and under the policy `skip` it was the definition's only item.
pub enqueue_run-Within :
    (r : Run) (idem : Option Idempotency) (lim : QueueLimits) (unique : Bool) (at now : ℕ)
    (db db' : Db)
    → enqueue_run r idem lim unique at now db ≡ ok (none, db')
    → Within lim r.definition_id db'.queue
      × (unique ≡ true → count (of_definition r.definition_id) db.queue ≡ 0)
unfolding enqueue_run
enqueue_run-Within r idem lim unique at now db db' h =
    let ((replay, db1), e0, h1) = >>=-eq-ok (reserve_if (live_key idem) at db) _ h in
    let (ks, k) = reserve_if-KeysOnly (live_key idem) at db db1 replay e0 in
    let same : db1.queue ≡ db.queue = ground (arith, k) in
    elim (Option-cases replay) [
      | inl e ↦ rw (← same) (
          Enqueued-Within r (queue_payload_bytes r idem) now lim unique db1 db'
            (enqueue_new-Enqueued r idem lim unique now db1 db' none (rw e at h1)))
      | inr (id, e) ↦ absurd (ground (arith, h1, e))
    ]

-- The room that an enqueue asks for.
pub record HasRoom (r : Run) (idem : Option Idempotency) (lim : QueueLimits) (unique : Bool)
    (db : Db) : Type 0 where
  pub items : length db.queue < lim.max_items
  pub per_job : count (of_definition r.definition_id) db.queue < lim.max_per_job
  pub bytes : bytes_of db.queue + queue_payload_bytes r idem ≤ lim.max_bytes
  pub alone : unique ≡ true → count (of_definition r.definition_id) db.queue ≡ 0

-- The keys that the inserts must not find.
pub record IsNew (r : Run) (db : Db) : Type 0 where
  pub run : has (λ x. has_id r.id x || same_occurrence r x) db.runs ≡ false
  pub row : has (queued_for r.id) db.queue ≡ false

-- The tables once a run was queued: a row of the run with the status `queued`, and one row of it at the end of the queue, which
-- expires after `max_age` and has the next number. Nothing else has changed.
pub record Queues (r : Run) (lim : QueueLimits) (now : ℕ) (db db' : Db) : Type 0 where
  pub runs : db'.runs ≡ record r { status = queued } ∷ db.runs
  pub queue :
      db'.queue
      ≡ db.queue
        ++ record {
          seq = db.next_seq;
          run_id = r.id;
          definition_id = r.definition_id;
          enqueued_us = unix_micro now;
          expires_us = unix_micro (now + lim.max_age);
          payload_bytes = queue_payload_bytes r none;
        }
          ∷ []
  pub next_seq : db'.next_seq ≡ suc db.next_seq
  pub keys : db'.keys ≡ db.keys
