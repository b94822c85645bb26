-- ===== src/Store/Sound/Steps.antt =====
-- Any sequence of operations on the database, failed ones included.
use minicrond.Prelude.{
  nat_eq, string_eq, ℕ, String, ◌≡◌, refl, Bool, true, false, Option, List, [], ◌∷◌, ◌==◌, All,
}
use minicrond.Store.Tables.{
  queued, skipped, stopped, terminal, status_eq, Run, Db, Idempotency, Result, ok, err, insert_run,
}
use minicrond.Store.Lifecycle.{
  create_run, admit_idempotent_run, start_run, finish_run, Ending, recover, delete_runs,
}
use minicrond.Store.Queue.{
  QueueLimits, enqueue_run, expire_queued, expired_page, listed, drop_queued, cancel_queued,
  end_queued, drop_definition_queued, dequeue_run,
}
use minicrond.Store.Sound.Invariant.{
  IsSound, after, end_listed-IsSound, dequeue_run-IsSound, drop_definition_queued-IsSound,
  start_run-IsSound, finish_run-IsSound, recover-IsSound,
}
use minicrond.Store.Sound.Inserts.{
  insert_run-IsSound, enqueue_run-IsSound, admit_idempotent_run-IsSound,
}
use minicrond.Store.Sound.Deletes.{delete_runs-IsSound}

-- The writes of the two source files, with their arguments.
pub data Op : Type 0 where
  create : Run → Op
  admit : Run → Idempotency → ℕ → ℕ → Op
  enqueue : Run → Option Idempotency → QueueLimits → Bool → ℕ → ℕ → Op
  start : String → ℕ → ℕ → String → ℕ → Op
  finish : String → Ending → Op
  recovers : ℕ → Op
  deletes : List String → ℕ → Op
  expire : ℕ → ℕ → Op
  drop : String → String → ℕ → Op
  cancel : String → ℕ → Op
  drop_definition : ℕ → String → ℕ → Op
  dequeue : String → ℕ → String → String → Op

abbrev pub after_pair {ℓ} : {A : Type ℓ} → Db → Result (A × Db) → Db
after_pair db (ok (a, db')) = db'
after_pair db (err e) = db

unfoldable pub apply : Op → Db → Db
apply (create r) db = after db (create_run r db)
apply (admit r i at now) db = after_pair db (admit_idempotent_run r i at now db)
apply (enqueue r idem lim unique at now) db =
    after_pair db (enqueue_run r idem lim unique at now db)
apply (start id pid pgid start_id at) db = after db (start_run id pid pgid start_id at db)
apply (finish id e) db = after db (finish_run id e db)
apply (recovers now) db = recover now db
apply (deletes ids at) db = delete_runs ids at db
apply (expire now limit) db = (expire_queued now limit db).1
apply (drop id reason now) db = (drop_queued id reason now db).1
apply (cancel id now) db = (cancel_queued id now db).1
apply (drop_definition d reason now) db = drop_definition_queued d reason now db
apply (dequeue id revision hash boot) db = after db (dequeue_run id revision hash boot db)

unfoldable pub run_all : List Op → Db → Db
unfolding apply
run_all [] db = db
run_all (o ∷ os) db = run_all os (apply o db)

-- How the callers use the operations: a run is created or admitted in a state other than queued
-- (only an enqueue makes queued rows), and finishes in a terminal one.
abbrev pub Legal : Op → Type 0
Legal (create r) = r.status == queued ≡ false
Legal (admit r i at now) = r.status == queued ≡ false
Legal (finish id e) = terminal e.status ≡ true
Legal _ = Unit {0}

after-IsSound :
    (db : Db) (m : Result Db)
    → IsSound db
    → ((db' : Db) → m ≡ ok db' → IsSound db')
    → IsSound (after db m)
after-IsSound db (ok db') v h = h db' refl
after-IsSound db (err e) v h = v

after_pair-IsSound {ℓ} :
    {A : Type ℓ} (db : Db) (m : Result (A × Db))
    → IsSound db
    → ((a : A) (db' : Db) → m ≡ ok (a, db') → IsSound db')
    → IsSound (after_pair db m)
after_pair-IsSound db (ok (a, db')) v h = h a db' refl
after_pair-IsSound db (err e) v h = v

pub apply-IsSound : (o : Op) (db : Db) → Legal o → IsSound db → IsSound (apply o db)
unfolding apply create_run expire_queued drop_queued cancel_queued end_queued
apply-IsSound (create r) db l v =
    after-IsSound db (insert_run r db) v (λ db' h. insert_run-IsSound r db db' l h v)
apply-IsSound (admit r i at now) db l v =
    after_pair-IsSound db (admit_idempotent_run r i at now db) v
      (λ o db' h. admit_idempotent_run-IsSound r i at now db db' o l h v)
apply-IsSound (enqueue r idem lim unique at now) db l v =
    after_pair-IsSound db (enqueue_run r idem lim unique at now db) v
      (λ o db' h. enqueue_run-IsSound r idem lim unique at now db db' o h v)
apply-IsSound (start id pid pgid start_id at) db l v =
    start_run-IsSound id pid pgid start_id at db v
apply-IsSound (finish id e) db l v = finish_run-IsSound id e db l v
apply-IsSound (recovers now) db l v = recover-IsSound now db v
apply-IsSound (deletes ids at) db l v = delete_runs-IsSound ids at db v
apply-IsSound (expire now limit) db l v =
    end_listed-IsSound (listed (expired_page now limit db)) skipped "queue_expired" now db refl v
apply-IsSound (drop id reason now) db l v =
    end_listed-IsSound (λ x. x == id) skipped reason now db refl v
apply-IsSound (cancel id now) db l v =
    end_listed-IsSound (λ x. x == id) stopped "queue_cancelled" now db refl v
apply-IsSound (drop_definition d reason now) db l v =
    drop_definition_queued-IsSound d reason now db v
apply-IsSound (dequeue id revision hash boot) db l v =
    dequeue_run-IsSound id revision hash boot db v

abbrev pub empty : Db
empty = record { runs = []; queue = []; keys = []; next_seq = 1 }

pub empty-IsSound : IsSound empty
empty-IsSound = record { in_sync = λ id. refl; distinct = tt; keyed = tt; ascends = tt; fresh = tt }

-- After any sequence of operations, each used as its callers use it and failed ones included, on a
-- database that satisfies the invariant: a run is queued exactly when the queue has a row for it,
-- no run and no row of the queue has a twin, and the rows ascend below the counter.
pub run_all-IsSound : (os : List Op) (db : Db) → All Legal os → IsSound db → IsSound (run_all os db)
unfolding run_all
run_all-IsSound [] db l v = v
run_all-IsSound (o ∷ os) db l v = run_all-IsSound os (apply o db) l.1 (apply-IsSound o db l.0 v)
