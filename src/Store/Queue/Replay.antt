-- ===== src/Store/Queue/Replay.antt =====
-- Replay keys: a second request under a live key.
use minicrond.Prelude.{
  nat_eq, string_eq, ℕ, ◌-◌, ◌<◌, String, ◌≡◌, Bool, true, false, Option, none, some, arith, ◌==◌,
  find, if◌then◌else◌, inl, inr, str_iff, Option-cases, count, length, lt→ltb,
}
use minicrond.Store.Tables.{
  >>=-eq-ok, queued, status_eq, Run, Db, ok, err, Idempotency, idempotency_conflict, same_key,
  unix_micro, day, insert_run, insert_queue, insert_key,
}
use minicrond.Store.Lifecycle.{reserve_idempotency}
use minicrond.Store.Queue.{
  QueueLimits, enqueue_new, enqueue_run, reserve_if, live_key, insert_key_if, check_limits,
  queue_payload_bytes, of_definition, bytes_of,
}

same_key_self :
    (i : Idempotency) (id : String) (t : ℕ)
    → same_key i (record { idem = i; run_id = id; created_us = t }) ≡ true
same_key_self i id t =
    ground
      (arith, str_iff i.principal i.principal, str_iff i.operation i.operation, str_iff i.key i.key)

-- The key of a run that has just been queued.
enqueue_new_key :
    (r : Run) (i : Idempotency) (lim : QueueLimits) (unique : Bool) (now : ℕ) (db db' : Db)
    (o : Option String)
    → i.key == "" ≡ false
    → enqueue_new r (some i) lim unique now db ≡ ok (o, db')
    → find (same_key i) db'.keys
      ≡ some (record { idem = i; run_id = r.id; created_us = unix_micro now })
unfolding enqueue_new insert_key
enqueue_new_key r i lim unique now db db' o e h =
    let size = queue_payload_bytes r (some i) in
    let r' : Run = record r { status = queued } in
    let checks =
      check_limits unique (length db.queue) (count (of_definition r.definition_id) db.queue)
        (bytes_of db.queue) size lim in
    let (u, e0, h1) = >>=-eq-ok checks _ h in
    let (db1, e1, h2) = >>=-eq-ok (insert_run r' db) _ h1 in
    let (db2, e2, h3) = >>=-eq-ok (insert_queue r' now lim.max_age size db1) _ h2 in
    let (db3, e3, h4) = >>=-eq-ok (insert_key_if (live_key (some i)) r.id now db2) _ h3 in
    ground (arith, e, e3, h4, same_key_self i r.id (unix_micro now))

-- After a run has been queued under a key, a second request under the same key that reads a clock
-- less than a day (in microseconds) past the reservation writes nothing: with the same request
-- hash it is answered by the first run's identity, with another hash by a conflict.
pub enqueue_run_replay :
    (r s : Run) (i : Idempotency) (hash : String) (lim lim' : QueueLimits) (unique unique' : Bool)
    (at now at' now' : ℕ) (db db' : Db)
    → i.key == "" ≡ false
    → enqueue_run r (some i) lim unique at now db ≡ ok (none, db')
    → unix_micro (at' - day) < unix_micro now
    → enqueue_run s (some (record i { request_hash = hash })) lim' unique' at' now' db'
      ≡ (if i.request_hash == hash then ok (some r.id, db') else err idempotency_conflict)
unfolding enqueue_run reserve_idempotency
enqueue_run_replay r s i hash lim lim' unique unique' at now at' now' db db' e h t =
    let ((replay, db1), e0, h1) = >>=-eq-ok (reserve_if (live_key (some i)) at db) _ h in
    let key = enqueue_new_key r i lim unique now db1 db' none e in
    elim (Option-cases replay) [
      | inl n ↦ ground (arith, e, key (rw n at h1), lt→ltb _ _ t)
      | inr (id, n) ↦ absurd (ground (arith, h1, n))
    ]
