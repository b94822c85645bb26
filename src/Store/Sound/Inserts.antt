-- ===== src/Store/Sound/Inserts.antt =====
-- The inserts and deletes, and the invariant: `CreateRun`, `AdmitIdempotentRun`, `EnqueueRun` and
-- `DeleteRuns`.
use minicrond.Prelude.{
  subst, nat_eq, string_eq, ◌||◌, ℕ, suc, String, ◌≡◌, refl, Bool, false, Option, none, some, List,
  [], ◌∷◌, ◌++◌, arith, ◌==◌, has, Bool-cases, inl, inr, count, Option-cases, length,
}
use minicrond.Store.Tables.{
  >>=-eq-ok, insert_key, queue_row, queued, status_eq, Run, QueueRow, Db, has_id, ok, insert_run,
  insert_queue, insert_key, Idempotency, same_occurrence, KeyRow,
}
use minicrond.Store.Lifecycle.{queued_for, reserve_idempotency, admit_idempotent_run, admit_new}
use minicrond.Store.Queue.{
  QueueLimits, enqueue_run, enqueue_new, reserve_if, insert_key_if, live_key, check_limits,
  queue_payload_bytes, of_definition, bytes_of,
}
use minicrond.Store.Sound.Order.{Ascends-last, Fresh-last, queued_for-last, Distinct-last}
use minicrond.Store.Sound.Invariant.{IsSound}

-- Replay keys are no part of the invariant.
keys-IsSound : (db : Db) (ks : List KeyRow) → IsSound db → IsSound (record db { keys = ks })
keys-IsSound db ks v = record {
  in_sync = v.in_sync;
  distinct = v.distinct;
  keyed = v.keyed;
  ascends = v.ascends;
  fresh = v.fresh;
}

has_or {ℓ} :
    {A : Type ℓ} (p q : A → Bool) (xs : List A)
    → has (λ x. p x || q x) xs ≡ false
    → has p xs ≡ false
has_or p q [] h = refl
has_or p q (x ∷ xs) h = ground (arith, has_or p q xs)

-- What an insert into `runs` establishes.
pub insert_run_ok :
    (r : Run) (db db' : Db)
    → insert_run r db ≡ ok db'
    → (has (has_id r.id) db.runs ≡ false) × (db' ≡ record db { runs = r ∷ db.runs })
unfolding insert_run
insert_run_ok r db db' h =
    elim (Bool-cases (has (λ x. has_id r.id x || same_occurrence r x) db.runs)) [
      | inl e ↦ absurd (ground (arith, e, h))
      | inr e ↦ (has_or (has_id r.id) (same_occurrence r) db.runs e, ground (arith, e, h))
    ]

-- A run that is not queued joins the table.
pub insert_run-IsSound :
    (r : Run) (db db' : Db)
    → r.status == queued ≡ false
    → insert_run r db ≡ ok db'
    → IsSound db
    → IsSound db'
insert_run-IsSound r db db' n h v = rw (insert_run_ok r db db' h).1 record {
  in_sync = λ id. ground (arith, v.in_sync id);
  distinct = v.distinct;
  keyed = ((insert_run_ok r db db' h).0, v.keyed);
  ascends = v.ascends;
  fresh = v.fresh;
}

pub insert_queue_ok :
    (r : Run) (now max_age size : ℕ) (db db' : Db)
    → insert_queue r now max_age size db ≡ ok db'
    → (has (queued_for r.id) db.queue ≡ false)
      × (db' ≡ record db {
        queue = db.queue ++ queue_row r now max_age size db.next_seq ∷ [];
        next_seq = suc db.next_seq;
      })
unfolding insert_queue
insert_queue_ok r now max_age size db db' h = elim (Bool-cases (has (queued_for r.id) db.queue)) [
  | inl e ↦ absurd (ground (arith, e, h))
  | inr e ↦ (e, ground (arith, e, h))
]

-- A queued run and its row join their tables together.
pub insert_both-IsSound :
    (r : Run) (now max_age size : ℕ) (db db1 db2 : Db)
    → r.status ≡ queued
    → insert_run r db ≡ ok db1
    → insert_queue r now max_age size db1 ≡ ok db2
    → IsSound db
    → IsSound db2
insert_both-IsSound r now max_age size db db1 db2 q h k v =
    rw (final) (both (rw first at (insert_queue_ok r now max_age size db1 db2 k).0))
  where
    row : QueueRow
    row = queue_row r now max_age size db.next_seq

    first : db1 ≡ record db { runs = r ∷ db.runs }
    first = (insert_run_ok r db db1 h).1

    final :
        db2
        ≡ record db { runs = r ∷ db.runs; queue = db.queue ++ row ∷ []; next_seq = suc db.next_seq }
    final = ground (arith, first, (insert_queue_ok r now max_age size db1 db2 k).1)

    both :
        has (queued_for r.id) db.queue ≡ false
        → IsSound (record db {
          runs = r ∷ db.runs;
          queue = db.queue ++ row ∷ [];
          next_seq = suc db.next_seq;
        })
    both alone = record {
      in_sync = λ id. ground (arith, q, v.in_sync id, queued_for-last id db.queue row);
      distinct = Distinct-last db.queue row v.distinct alone;
      keyed = ((insert_run_ok r db db1 h).0, v.keyed);
      ascends = Ascends-last db.queue row v.ascends v.fresh;
      fresh = Fresh-last db.next_seq db.queue row v.fresh refl;
    }

-- The tables of replay keys alone differ.
abbrev pub KeysOnly : Db → Db → Type 0
KeysOnly db db' = (ks : List KeyRow) × (db' ≡ record db { keys = ks })

KeysOnly-IsSound : (db db' : Db) → KeysOnly db db' → IsSound db → IsSound db'
KeysOnly-IsSound db db' (ks, e) v = rw e (keys-IsSound db ks v)

pub insert_key-KeysOnly :
    (i : Idempotency) (id : String) (now : ℕ) (db db' : Db)
    → insert_key i id now db ≡ ok db'
    → KeysOnly db db'
unfolding insert_key
insert_key-KeysOnly i id now db db' h = (db'.keys, ground arith)

pub insert_key_if-KeysOnly :
    (k : Option Idempotency) (id : String) (now : ℕ) (db db' : Db)
    → insert_key_if k id now db ≡ ok db'
    → KeysOnly db db'
unfolding insert_key_if
insert_key_if-KeysOnly none id now db db' h = (db'.keys, ground arith)
insert_key_if-KeysOnly (some i) id now db db' h = insert_key-KeysOnly i id now db db' h

pub reserve_if-KeysOnly :
    (k : Option Idempotency) (at : ℕ) (db db' : Db) (o : Option String)
    → reserve_if k at db ≡ ok (o, db')
    → KeysOnly db db'
unfolding reserve_if
reserve_if-KeysOnly none at db db' o h = (db'.keys, ground arith)
reserve_if-KeysOnly (some i) at db db' o h = (db'.keys, ground arith)

pub enqueue_new-IsSound :
    (r : Run) (idem : Option Idempotency) (lim : QueueLimits) (unique : Bool) (now : ℕ)
    (db db' : Db) (o : Option String)
    → enqueue_new r idem lim unique now db ≡ ok (o, db')
    → IsSound db
    → IsSound db'
unfolding enqueue_new
enqueue_new-IsSound r idem lim unique now db db' o h v =
    let size = queue_payload_bytes r idem in
    let r' : Run = record r { status = queued } in
    let checks =
      check_limits unique (length db.queue) (count (of_definition r.definition_id) db.queue)
        (bytes_of db.queue) size lim in
    let (u, e0, h1) = >>=-eq-ok checks _ h in
    let (db1, e1, h2) = >>=-eq-ok (insert_run r' db) _ h1 in
    let (db2, e2, h3) = >>=-eq-ok (insert_queue r' now lim.max_age size db1) _ h2 in
    let (db3, e3, h4) = >>=-eq-ok (insert_key_if (live_key idem) r.id now db2) _ h3 in
    let same : db3 ≡ db' = ground (arith, h4) in
    subst IsSound same (
      KeysOnly-IsSound db2 db3 (insert_key_if-KeysOnly (live_key idem) r.id now db2 db3 e3)
        (insert_both-IsSound r' now lim.max_age size db db1 db2 refl e1 e2 v))

pub enqueue_run-IsSound :
    (r : Run) (idem : Option Idempotency) (lim : QueueLimits) (unique : Bool) (at now : ℕ)
    (db db' : Db) (o : Option String)
    → enqueue_run r idem lim unique at now db ≡ ok (o, db')
    → IsSound db
    → IsSound db'
unfolding enqueue_run
enqueue_run-IsSound r idem lim unique at now db db' o h v =
    let ((replay, db1), e0, h1) = >>=-eq-ok (reserve_if (live_key idem) at db) _ h in
    elim (Option-cases replay) [
      | inl e ↦
          enqueue_new-IsSound r idem lim unique now db1 db' o (rw e at h1)
            (KeysOnly-IsSound db db1 (reserve_if-KeysOnly (live_key idem) at db db1 replay e0) v)
      | inr (id, e) ↦ let same : db ≡ db' = ground (arith, h1, e) in subst IsSound same v
    ]

pub admit_idempotent_run-IsSound :
    (r : Run) (i : Idempotency) (at now : ℕ) (db db' : Db) (o : Option String)
    → r.status == queued ≡ false
    → admit_idempotent_run r i at now db ≡ ok (o, db')
    → IsSound db
    → IsSound db'
unfolding admit_idempotent_run
admit_idempotent_run-IsSound r i at now db db' o n h v =
    let ((replay, db1), e0, h1) = >>=-eq-ok (reserve_idempotency i at db) _ h in
    elim (Option-cases replay) [
      | inl e ↦ admit_new-IsSound db1 (rw e at h1) (
          KeysOnly-IsSound db db1
            (reserve_if-KeysOnly (some i) at db db1 replay (unfold reserve_if in e0)) v)
      | inr (id, e) ↦ let same : db ≡ db' = ground (arith, h1, e) in subst IsSound same v
    ]
  where
    admit_new-IsSound : (db1 : Db) → admit_new r i now db1 ≡ ok (o, db') → IsSound db1 → IsSound db'
    admit_new-IsSound db1 h1 v1 =
        let (db2, e1, h2) = >>=-eq-ok (insert_run r db1) _ h1 in
        let (db3, e2, h3) = >>=-eq-ok (insert_key i r.id now db2) _ h2 in
        let same : db3 ≡ db' = ground (arith, h3) in
        subst IsSound same (
          KeysOnly-IsSound db2 db3 (insert_key-KeysOnly i r.id now db2 db3 e2)
            (insert_run-IsSound r db1 db2 n e1 v1))
