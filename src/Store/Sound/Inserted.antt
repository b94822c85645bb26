-- ===== src/Store/Sound/Inserted.antt =====
-- Which rows an admission or an enqueue that succeeds has written.
use minicrond.Prelude.{
  nat_eq, string_eq, ℕ, String, ◌≡◌, ap, Bool, false, Option, ◌⊎◌, ◌∙◌, some, [], ◌∷◌, ◌++◌, arith,
  has, inl, inr, count, Option-cases, length,
}
use minicrond.Store.Tables.{
  >>=-eq-ok, queue_row, queued, status_eq, Run, Db, has_id, ok, insert_run, insert_queue,
  insert_key, Idempotency,
}
use minicrond.Store.Lifecycle.{reserve_idempotency, admit_idempotent_run, admit_new}
use minicrond.Store.Queue.{
  QueueLimits, enqueue_run, enqueue_new, reserve_if, insert_key_if, live_key, check_limits,
  queue_payload_bytes, of_definition, bytes_of,
}
use minicrond.Store.Sound.Inserts.{
  insert_run_ok, insert_queue_ok, insert_key_if-KeysOnly, insert_key-KeysOnly, reserve_if-KeysOnly,
}

-- One new run, under a new identity.
pub record Inserted (r : Run) (db db' : Db) : Type 0 where
  pub new : has (has_id r.id) db.runs ≡ false
  pub row : db'.runs ≡ r ∷ db.runs

-- What `EnqueueRun` has done when it queued the run `r`.
pub record Enqueued (r : Run) (size now : ℕ) (lim : QueueLimits) (unique : Bool) (db db' : Db)
    : Type 0 where
  pub inserted : Inserted (record r { status = queued }) db db'
  pub rows : db'.queue ≡ db.queue ++ queue_row r now lim.max_age size db.next_seq ∷ []
  pub checked :
      check_limits unique
        (length db.queue)
        (count (of_definition r.definition_id) db.queue)
        (bytes_of db.queue)
        size
        lim
      ≡ ok tt

pub enqueue_new-Enqueued :
    (r : Run) (idem : Option Idempotency) (lim : QueueLimits) (unique : Bool) (now : ℕ)
    (db db' : Db) (o : Option String)
    → enqueue_new r idem lim unique now db ≡ ok (o, db')
    → Enqueued r (queue_payload_bytes r idem) now lim unique db db'
unfolding enqueue_new
enqueue_new-Enqueued r idem lim unique now db db' o h =
    let size = queue_payload_bytes r idem in
    let r' : Run = record r { status = queued } in
    let checks =
      check_limits unique (length db.queue) (count (of_definition r.definition_id) db.queue)
        (bytes_of db.queue) size lim in
    let (u, e0, h1) = >>=-eq-ok checks _ h in
    let (db1, e1, h2) = >>=-eq-ok (insert_run r' db) _ h1 in
    let (db2, e2, h3) = >>=-eq-ok (insert_queue r' now lim.max_age size db1) _ h2 in
    let (db3, e3, h4) = >>=-eq-ok (insert_key_if (live_key idem) r.id now db2) _ h3 in
    let same : db3 ≡ db' = ground (arith, h4) in
    let (ks, k) = insert_key_if-KeysOnly (live_key idem) r.id now db2 db3 e3 in
    let (fresh, first) = insert_run_ok r' db db1 e1 in
    let (alone, second) = insert_queue_ok r' now lim.max_age size db1 db2 e2 in
    record {
      inserted = record { new = fresh; row = ground (arith, same, k, first, second) };
      rows = ground (arith, same, k, first, second);
      checked = e0;
    }

pub enqueue_run-Inserted :
    (r : Run) (idem : Option Idempotency) (lim : QueueLimits) (unique : Bool) (at now : ℕ)
    (db db' : Db) (o : Option String)
    → enqueue_run r idem lim unique at now db ≡ ok (o, db')
    → (db'.runs ≡ db.runs) ⊎ Inserted (record r { status = queued }) db db'
unfolding enqueue_run
enqueue_run-Inserted r idem lim unique at now db db' o h =
    let ((replay, db1), e0, h1) = >>=-eq-ok (reserve_if (live_key idem) at db) _ h in
    let (ks, k) = reserve_if-KeysOnly (live_key idem) at db db1 replay e0 in
    elim (Option-cases replay) [
      | inl e ↦
          let i = (enqueue_new-Enqueued r idem lim unique now db1 db' o (rw e at h1)).inserted in
          let same : db1.runs ≡ db.runs = ground (arith, k) in
          inr (record {
            new = rw (← same) i.new;
            row = i.row ∙ ap (◌∷◌ (record r { status = queued })) same;
          })
      | inr (id, e) ↦ inl (ground (arith, h1, e))
    ]

pub admit_idempotent_run-Inserted :
    (r : Run) (i : Idempotency) (at now : ℕ) (db db' : Db) (o : Option String)
    → admit_idempotent_run r i at now db ≡ ok (o, db')
    → (db'.runs ≡ db.runs) ⊎ Inserted r db db'
unfolding admit_idempotent_run admit_new
admit_idempotent_run-Inserted r i at now db db' o h =
    let ((replay, db1), e0, h1) = >>=-eq-ok (reserve_idempotency i at db) _ h in
    let (ks, k) = reserve_if-KeysOnly (some i) at db db1 replay (unfold reserve_if in e0) in
    elim (Option-cases replay) [
      | inl e ↦ inr (admitted db1 k (rw e at h1))
      | inr (id, e) ↦ inl (ground (arith, h1, e))
    ]
  where
    admitted :
        (db1 : Db) {ks : _}
        → db1 ≡ record db { keys = ks }
        → admit_new r i now db1 ≡ ok (o, db')
        → Inserted r db db'
    admitted db1 k h1 =
        let (db2, e1, h2) = >>=-eq-ok (insert_run r db1) _ h1 in
        let (db3, e2, h3) = >>=-eq-ok (insert_key i r.id now db2) _ h2 in
        let same : db3 ≡ db' = ground (arith, h3) in
        let (ks', k') = insert_key-KeysOnly i r.id now db2 db3 e2 in
        let (fresh, first) = insert_run_ok r db1 db2 e1 in
        let runs : db1.runs ≡ db.runs = ground (arith, k) in
        record { new = rw (← runs) fresh; row = ground (arith, same, k, k', first) }
