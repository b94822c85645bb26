-- ===== src/Store/Queue/Dequeue.antt =====
-- Taking a run out of the queue: when it succeeds, and what may follow.
use mathlib.Core.Option
use minicrond.Prelude.{
  nat_eq, string_eq, ℕ, String, ◌≡◌, refl, Bool, true, false, ◌&&◌, List, [], ◌∷◌, arith, ◌==◌, has,
  find, select, update, not, if◌then◌else◌, ◌∙◌, count, str_iff, subst,
}
use minicrond.Store.Tables.{
  queued, pending, status_eq, Run, Db, has_id, ok, err, invalid_transition,
}
use minicrond.Store.Lifecycle.{queued_for}
use minicrond.Store.Queue.{dequeue_run, cancel_queued, drop_queued}
use minicrond.Store.Queue.Expired.{find-listed}
use minicrond.Store.Sound.Rows.{still, Keyed, queued_for-delete, still-end}
use minicrond.Store.Sound.Invariant.{IsSound}

count-has-false : (p : Run → Bool) (rs : List Run) → has p rs ≡ false → count p rs ≡ 0
count-has-false p [] h = refl
count-has-false p (r ∷ rs) h = ground (arith, count-has-false p rs)

none_still : (id : String) (rs : List Run) → has (has_id id) rs ≡ false → count (still id) rs ≡ 0
none_still id [] h = refl
none_still id (r ∷ rs) h = ground (arith, none_still id rs)

only_still :
    (id : String) (r : Run) (rs : List Run)
    → has (has_id r.id) rs ≡ false
    → has_id id r ≡ true
    → count (still id) rs ≡ 0
only_still id r rs h e =
    none_still id rs (subst (λ x. has (has_id x) rs ≡ false) ((str_iff r.id id).0 e) h)

-- Without duplicate runs the guard of an update finds one row or none.
count-still :
    (id : String) (rs : List Run)
    → Keyed rs
    → count (still id) rs ≡ (if has (still id) rs then 1 else 0)
count-still id [] k = refl
count-still id (r ∷ rs) k = ground (arith, only_still id r rs k.0, count-still id rs k.1)

abbrev pub taken : ℕ → String → String → Run → Run
taken revision hash boot r = record r {
  status = pending;
  revision = revision;
  definition_hash = hash;
  boot_id = boot;
}

-- On sound tables a run that the queue holds is dequeued: it is pending then, under the revision,
-- the hash and the boot that the caller names, and the queue no longer holds it.
pub dequeue_run_total :
    (id : String) (revision : ℕ) (hash boot : String) (db : Db)
    → IsSound db
    → has (queued_for id) db.queue ≡ true
    → (db' : Db) × (dequeue_run id revision hash boot db ≡ ok db')
      × (find (has_id id) db'.runs
          ≡ Option.map (taken revision hash boot) (find (has_id id) db.runs))
      × (has (queued_for id) db'.queue ≡ false)
unfolding dequeue_run
dequeue_run_total id revision hash boot db v h =
    let held = v.in_sync id ∙ h in
    (
      record db {
        runs = update (λ r. r.status == queued && has_id id r) (taken revision hash boot) db.runs;
        queue = select (λ q. not (queued_for id q)) db.queue;
      },
      ground (arith, count-still id db.runs v.keyed, held),
      find-listed (λ x. x == id) (taken revision hash boot) (λ r. refl) id db.runs v.keyed
          (ground (arith, str_iff id id)) held,
      queued_for-delete (λ x. x == id) id db.queue ∙ ground (arith, str_iff id id),
    )

-- A run is taken out of the queue once: after a dequeue that succeeds, another dequeue, a
-- cancellation and a drop of the same run are all refused.
pub dequeue_run_once :
    (id : String) (revision : ℕ) (hash boot : String) (db db' : Db)
    → dequeue_run id revision hash boot db ≡ ok db'
    → ((revision' : ℕ) (hash' boot' : String)
        → dequeue_run id revision' hash' boot' db' ≡ err invalid_transition)
      × ((now : ℕ) → (cancel_queued id now db').0 ≡ err invalid_transition)
      × ((reason : String) (now : ℕ) → (drop_queued id reason now db').0 ≡ err invalid_transition)
unfolding dequeue_run cancel_queued drop_queued
dequeue_run_once id revision hash boot db db' h = (
  λ revision' hash' boot'. ground (arith, gone),
  λ now. ground (arith, gone),
  λ reason now. ground (arith, gone),
)
  where
    rows : List Run
    rows = update (λ r. r.status == queued && has_id id r) (taken revision hash boot) db.runs

    left : has (still id) rows ≡ false
    left =
        still-end (λ x. x == id) id (taken revision hash boot) (λ r. refl) db.runs
        ∙ ground (arith, str_iff id id)

    gone : count (still id) db'.runs ≡ 0
    gone = ground (arith, h, count-has-false (still id) rows left)
