-- ===== src/Store/Sound/Invariant.antt =====
-- The invariant itself, and each operation that keeps it.
use minicrond.Prelude.{
  nat_eq, string_eq, ℕ, String, ◌≡◌, refl, sym, ap, Bool, true, false, ◌&&◌, arith, ◌==◌, has,
  select, update, not, if◌then◌else◌, All-select, ◌∙◌, count, eqb,
}
use minicrond.Store.Tables.{
  invalid_transition, Status, queued, pending, terminal, status_eq, Run, Db, has_id, Result, ok,
  err,
}
use minicrond.Store.Lifecycle.{
  queued_for, start_run, start_guard, finish_run, finish_guard, finish_row, Ending, recover,
  recover_guard,
}
use minicrond.Store.Queue.{end_listed, end_row, drop_definition_queued, dequeue_run, of_definition}
use minicrond.Store.Sound.Rows.{
  still, Distinct, Ascends, Keyed, still-end, queued_for-delete, still-keep, still-recover,
  queued_for-drop, Distinct-select,
}
use minicrond.Store.Sound.Order.{Keyed-update, Ascends-select, Fresh}

-- A run is queued exactly when the queue has a row for it; rows and runs are unique, and the
-- queue's rows ascend below the counter.
pub record IsSound (db : Db) : Type 0 where
  pub in_sync : (id : String) → has (still id) db.runs ≡ has (queued_for id) db.queue
  pub distinct : Distinct db.queue
  pub keyed : Keyed db.runs
  pub ascends : Ascends db.queue
  pub fresh : Fresh db.next_seq db.queue

-- Rows of `runs` change and the queue stays.
runs-IsSound :
    (db : Db) (p : Run → Bool) (f : Run → Run)
    → ((r : Run) → (f r).id ≡ r.id)
    → ((id : String) → has (still id) (update p f db.runs) ≡ has (still id) db.runs)
    → IsSound db
    → IsSound (record db { runs = update p f db.runs })
runs-IsSound db p f same kept s = record {
  in_sync = λ id. kept id ∙ s.in_sync id;
  distinct = s.distinct;
  keyed = Keyed-update p f same db.runs s.keyed;
  ascends = s.ascends;
  fresh = s.fresh;
}

-- Queued runs leave that state, and their rows leave the queue.
leave-IsSound :
    (db : Db) (p : String → Bool) (f : Run → Run)
    → ((r : Run) → (f r).id ≡ r.id)
    → ((r : Run) → (f r).status == queued ≡ false)
    → IsSound db
    → IsSound (record db {
      runs = update (λ r. r.status == queued && p r.id) f db.runs;
      queue = select (λ q. not (p q.run_id)) db.queue;
    })
leave-IsSound db p f same ends s = record {
  in_sync = λ id.
      still-end p id f ends db.runs
      ∙ ap (◌&&◌ (not (p id))) (s.in_sync id)
      ∙ sym (queued_for-delete p id db.queue);
  distinct = Distinct-select _ db.queue s.distinct;
  keyed = Keyed-update _ f same db.runs s.keyed;
  ascends = Ascends-select _ db.queue s.ascends;
  fresh = All-select _ _ db.queue s.fresh;
}

abbrev pub after : Db → Result Db → Db
after db (ok db') = db'
after db (err e) = db

after_if {ℓ} :
    (P : Db → Type ℓ) (b : Bool) (db db' : Db)
    → P db
    → P db'
    → P (after db (if b then ok db' else err invalid_transition))
after_if P true db db' h h' = h'
after_if P false db db' h h' = h

pub end_listed-IsSound :
    (p : String → Bool) (s : Status) (reason : String) (now : ℕ) (db : Db)
    → s == queued ≡ false
    → IsSound db
    → IsSound (end_listed p s reason now db)
unfolding end_listed
end_listed-IsSound p s reason now db e v =
    leave-IsSound db p (end_row s reason now) (λ r. refl) (λ r. e) v

pub dequeue_run-IsSound :
    (id : String) (revision : ℕ) (hash boot : String) (db : Db)
    → IsSound db
    → IsSound (after db (dequeue_run id revision hash boot db))
unfolding dequeue_run
dequeue_run-IsSound id revision hash boot db v =
    after_if IsSound (eqb (count (λ r. r.status == queued && has_id id r) db.runs) 1) db _ v (
      leave-IsSound db (λ x. x == id)
        (λ r. record r {
          status = pending;
          revision = revision;
          definition_hash = hash;
          boot_id = boot;
        })
        (λ r. refl) (λ r. refl) v)

pub drop_definition_queued-IsSound :
    (d : ℕ) (reason : String) (now : ℕ) (db : Db)
    → IsSound db
    → IsSound (drop_definition_queued d reason now db)
unfolding drop_definition_queued
drop_definition_queued-IsSound d reason now db v = record {
  in_sync = λ id.
      still-end (λ x. has (λ q. queued_for x q && of_definition d q) db.queue) id _ (λ r. refl)
        db.runs
      ∙ ap (◌&&◌ (not (has (λ q. queued_for id q && of_definition d q) db.queue))) (v.in_sync id)
      ∙ sym (queued_for-drop d id db.queue v.distinct);
  distinct = Distinct-select _ db.queue v.distinct;
  keyed = Keyed-update _ _ (λ r. refl) db.runs v.keyed;
  ascends = Ascends-select _ db.queue v.ascends;
  fresh = All-select _ _ db.queue v.fresh;
}

pub start_run-IsSound :
    (id : String) (pid pgid : ℕ) (start_id : String) (at : ℕ) (db : Db)
    → IsSound db
    → IsSound (after db (start_run id pid pgid start_id at db))
unfolding start_run
start_run-IsSound id pid pgid start_id at db v =
    after_if IsSound (eqb (count (start_guard id) db.runs) 1) db _ v (
      runs-IsSound db (start_guard id) _ (λ r. refl)
        (λ x. still-keep (start_guard id) _ x (λ r g. ground arith) (λ r. refl) db.runs) v)

finish_guard_apart :
    (id : String) (s : Status) (r : Run)
    → terminal s ≡ true
    → finish_guard id s r ≡ true
    → r.status == queued ≡ false
finish_guard_apart id s r t g = ground arith

pub finish_run-IsSound :
    (id : String) (e : Ending) (db : Db)
    → terminal e.status ≡ true
    → IsSound db
    → IsSound (after db (finish_run id e db))
unfolding finish_run
finish_run-IsSound id e db t v =
    after_if IsSound (eqb (count (finish_guard id e.status) db.runs) 1) db _ v (
      runs-IsSound db (finish_guard id e.status) (finish_row e) (λ r. refl)
        (λ x.
          still-keep (finish_guard id e.status) (finish_row e) x
            (λ r. finish_guard_apart id e.status r t) (λ r. ground arith) db.runs)
        v)

pub recover-IsSound : (now : ℕ) (db : Db) → IsSound db → IsSound (recover now db)
unfolding recover
recover-IsSound now db v =
    runs-IsSound db (recover_guard db.queue) _ (λ r. refl)
      (λ id. still-recover db.queue _ id (λ r. refl) db.runs ∙ ground (arith, v.in_sync id)) v
