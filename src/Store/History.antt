-- ===== src/Store/History.antt =====
-- The life of a run, over the operations of internal/store: the order of its statuses, and its
-- outcome.
use minicrond.Prelude.{
  nat_eq, string_eq, ℕ, String, ◌≡◌, ◌≤◌, refl, Bool, true, false, not, Option, none, some, List,
  [], ◌∷◌, arith, find, has, select, update, str_iff, Bool-cases, inl, inr, if◌then◌else◌, subst,
  ◌⊎◌,
}
use minicrond.Store.Tables.{
  Status, queued, pending, running, skipped, stopped, terminal, status_eq, Run, Db, has_id, Result,
  ok, err, KeyRow, invalid_transition,
}
use minicrond.Store.Lifecycle.{
  create_run, admit_idempotent_run, start_run, start_guard, finish_run, finish_guard, finish_row,
  recover, recover_guard, delete_runs, deletable,
}
use minicrond.Store.Queue.{
  enqueue_run, expire_queued, end_listed, drop_queued, cancel_queued, end_queued,
  drop_definition_queued, dequeue_run, end_row,
}
use minicrond.Store.Sound.Rows.{Keyed, has-select-false}
use minicrond.Store.Sound.Inserted.{Inserted, enqueue_run-Inserted, admit_idempotent_run-Inserted}
use minicrond.Store.Sound.Inserts.{insert_run_ok}
use minicrond.Store.Sound.Invariant.{after}
use minicrond.Store.Sound.Steps.{
  Op, create, admit, enqueue, start, finish, recovers, deletes, expire, drop, cancel,
  drop_definition, dequeue, apply, after_pair, Legal,
}

-- How far a run has come.
abbrev pub stage : Status → ℕ
stage queued = 0
stage pending = 1
stage running = 2
stage _ = 3

-- A step of one row: forward, and an outcome stays.
abbrev pub Onward : Run → Run → Type 0
Onward r r' = (stage r.status ≤ stage r'.status) × (terminal r.status ≡ true → r'.status ≡ r.status)

-- What an operation may do to the row of one identity: write it anew, move it onward, or delete it
-- once its run has ended.
abbrev pub Advances : Option Run → Option Run → Type 0
Advances none o = Unit {0}
Advances (some r) none = terminal r.status ≡ true
Advances (some r) (some r') = Onward r r'

abbrev pub run_of : String → Db → Option Run
run_of id db = find (has_id id) db.runs

Advances-same : (o : Option Run) → Advances o o
Advances-same none = tt
Advances-same (some r) = (omega arith, λ e. refl)

Advances-update :
    (p : Run → Bool) (f : Run → Run) (id : String)
    → ((r : Run) → (f r).id ≡ r.id)
    → ((r : Run) → p r ≡ true → Onward r (f r))
    → (rs : List Run) → Advances (find (has_id id) rs) (find (has_id id) (update p f rs))
Advances-update p f id same on [] = tt
Advances-update p f id same on (r ∷ rs) =
    ground (arith, same r, on r, Advances-update p f id same on rs)

Advances-if :
    (b : Bool) (id : String) (db db' : Db)
    → Advances (run_of id db) (run_of id db')
    → Advances (run_of id db) (run_of id (after db (if b then ok db' else err invalid_transition)))
Advances-if true id db db' h = h
Advances-if false id db db' h = Advances-same (run_of id db)

find-has-false :
    (id : String) (rs : List Run) → has (has_id id) rs ≡ false → find (has_id id) rs ≡ none
find-has-false id [] h = refl
find-has-false id (r ∷ rs) h = ground (arith, find-has-false id rs)

-- A run that was not there joins the table.
Advances-insert :
    (r : Run) (id : String) (db db' : Db)
    → Inserted r db db'
    → Advances (run_of id db) (run_of id db')
Advances-insert r id db db' i = rw i.row (elim (Bool-cases (has_id id r)) [
  | inl e ↦
      rw
        (find-has-false id db.runs
          (subst (λ x. has (has_id x) db.runs ≡ false) ((str_iff r.id id).0 e) i.new))
        tt
  | inr e ↦ rw e (Advances-same (run_of id db))
])

Advances-maybe :
    (r : Run) (id : String) (db db' : Db)
    → (db'.runs ≡ db.runs) ⊎ Inserted r db db'
    → Advances (run_of id db) (run_of id db')
Advances-maybe r id db db' (inl e) = rw e (Advances-same (run_of id db))
Advances-maybe r id db db' (inr i) = Advances-insert r id db db' i

module _ (id : String) (db : Db) where
  Advances-after :
      (m : Result Db)
      → ((db' : Db) → m ≡ ok db' → Advances (run_of id db) (run_of id db'))
      → Advances (run_of id db) (run_of id (after db m))
  Advances-after (ok db') h = h db' refl
  Advances-after (err e) h = Advances-same (run_of id db)

  Advances-after_pair {ℓ} :
      {A : Type ℓ} (m : Result (A × Db))
      → ((a : A) (db' : Db) → m ≡ ok (a, db') → Advances (run_of id db) (run_of id db'))
      → Advances (run_of id db) (run_of id (after_pair db m))
  Advances-after_pair (ok (a, db')) h = h a db' refl
  Advances-after_pair (err e) h = Advances-same (run_of id db)

-- A deleted run had ended.
Advances-delete :
    (ids : List String) (at : ℕ) (keys : List KeyRow) (id : String) (rs : List Run)
    → Keyed rs
    → Advances
        (find (has_id id) rs)
        (find (has_id id) (select (λ r. not (deletable ids at keys r)) rs))
Advances-delete ids at keys id [] k = tt
Advances-delete ids at keys id (r ∷ rs) k = elim (Bool-cases (has_id id r)) [
  | inl e ↦
      let gone : find (has_id id) (select (λ r. not (deletable ids at keys r)) rs) ≡ none =
        find-has-false id _ (
          has-select-false _ (has_id id) rs
            (subst (λ x. has (has_id x) rs ≡ false) ((str_iff r.id id).0 e) k.0)) in
      ground (arith, e, gone)
  | inr e ↦ ground (arith, e, Advances-delete ids at keys id rs k.1)
]

Advances-end :
    (p : String → Bool) (s : Status) (reason : String) (now : ℕ) (id : String) (db : Db)
    → Advances (run_of id db) (run_of id (end_listed p s reason now db))
unfolding end_listed
Advances-end p s reason now id db =
    Advances-update _ (end_row s reason now) id (λ r. refl) (λ r h. (ground arith, ground arith))
      db.runs

-- An operation, used as its callers use it, on tables without duplicate runs: it leaves the row of
-- a run where it was, moves it onward, or deletes the row of a run that has ended. A terminal
-- status is never overwritten by another.
pub apply-Advances :
    (o : Op) (id : String) (db : Db)
    → Legal o
    → Keyed db.runs
    → Advances (run_of id db) (run_of id (apply o db))
unfolding apply create_run expire_queued drop_queued cancel_queued end_queued start_run finish_run
    recover delete_runs drop_definition_queued dequeue_run
apply-Advances (create r) id db l k = Advances-after id db (create_run r db) λ db' h.
    let (n, e) = insert_run_ok r db db' h in
    Advances-insert r id db db' (record { new = n; row = ground (arith, e) })
apply-Advances (admit r i at now) id db l k =
    Advances-after_pair id db (admit_idempotent_run r i at now db)
      λ o db' h. Advances-maybe r id db db' (admit_idempotent_run-Inserted r i at now db db' o h)
apply-Advances (enqueue r idem lim unique at now) id db l k =
    Advances-after_pair id db (enqueue_run r idem lim unique at now db) λ o db' h.
      Advances-maybe _ id db db' (enqueue_run-Inserted r idem lim unique at now db db' o h)
apply-Advances (start x pid pgid start_id at) id db l k =
    Advances-if _ id db _ (
      Advances-update (start_guard x) _ id (λ r. refl) (λ r h. (ground arith, ground arith))
        db.runs)
apply-Advances (finish x e) id db l k = Advances-if _ id db _ (
    Advances-update (finish_guard x e.status) (finish_row e) id (λ r. refl)
      (λ r h. (ground arith, ground arith)) db.runs)
apply-Advances (recovers now) id db l k =
    Advances-update (recover_guard db.queue) _ id (λ r. refl) (λ r h. (ground arith, ground arith))
      db.runs
apply-Advances (deletes ids at) id db l k = Advances-delete ids at db.keys id db.runs k
apply-Advances (expire now limit) id db l k = Advances-end _ skipped "queue_expired" now id db
apply-Advances (drop x reason now) id db l k = Advances-end _ skipped reason now id db
apply-Advances (cancel x now) id db l k = Advances-end _ stopped "queue_cancelled" now id db
apply-Advances (drop_definition d reason now) id db l k =
    Advances-update _ (end_row skipped reason now) id (λ r. refl)
      (λ r h. (ground arith, ground arith)) db.runs
apply-Advances (dequeue x revision hash boot) id db l k =
    Advances-if _ id db _
      (Advances-update _ _ id (λ r. refl) (λ r h. (ground arith, ground arith)) db.runs)
