-- ===== src/Store/Queue/Expired.antt =====
-- The whole effect of `ExpireQueued`: which runs end, which stay, and what is left of the queue.
use mathlib.Core.Option
use minicrond.Prelude.{
  nat_eq, string_eq, ℕ, ◌≤◌, String, ◌≡◌, refl, Bool, true, false, ◌&&◌, List, [], ◌∷◌, arith, ◌==◌,
  has, find, select, update, not, if◌then◌else◌, inl, inr, ◌∙◌, length, str_iff, Bool-cases, subst,
}
use minicrond.Store.Tables.{queued, skipped, status_eq, Run, QueueRow, Db, has_id}
use minicrond.Store.Lifecycle.{queued_for}
use minicrond.Store.Queue.{expired_page, expire_queued, end_row, listed}
use minicrond.Store.Queue.Expiry.{due, page-queued, length-page, page-due, page-were_due}
use minicrond.Store.Sound.Rows.{still, Keyed, queued_for-delete}
use minicrond.Store.Sound.Invariant.{IsSound}

module _ (p : String → Bool) (f : Run → Run) (same : (r : Run) → (f r).id ≡ r.id)
    (id : String) where
  abbrev leaving : Run → Bool
  leaving r = r.status == queued && p r.id

  find-unlisted :
      (rs : List Run) → p id ≡ false → find (has_id id) (update leaving f rs) ≡ find (has_id id) rs
  find-unlisted [] e = refl
  find-unlisted (r ∷ rs) e = ground (arith, same r, str_iff r.id id, find-unlisted rs e)

  no_still : (rs : List Run) → has (has_id id) rs ≡ false → has (still id) rs ≡ false
  no_still [] h = refl
  no_still (r ∷ rs) h = ground (arith, no_still rs)

  alone :
      (r : Run) (rs : List Run)
      → has (has_id r.id) rs ≡ false
      → has_id id r ≡ true
      → has (still id) rs ≡ false
  alone r rs h e = no_still rs (subst (λ x. has (has_id x) rs ≡ false) ((str_iff r.id id).0 e) h)

  pub find-listed :
      (rs : List Run)
      → Keyed rs
      → p id ≡ true
      → has (still id) rs ≡ true
      → find (has_id id) (update leaving f rs) ≡ Option.map f (find (has_id id) rs)
  find-listed [] k e h = refl
  find-listed (r ∷ rs) k e h =
      ground (arith, same r, str_iff r.id id, alone r rs k.0, find-listed rs k.1 e)

remaining :
    (p : String → Bool) (now : ℕ) (qs : List QueueRow)
    → ((id : String) → has (queued_for id) (select (due now) qs) ≡ true → p id ≡ true)
    → has (due now) (select (λ q. not (p q.run_id)) qs) ≡ false
remaining p now [] h = refl
remaining p now (q ∷ qs) h =
    ground
      (arith, h q.run_id, str_iff q.run_id q.run_id, remaining p now qs (λ id e. h id (later id e)))
  where
    later :
        (id : String)
        → has (queued_for id) (select (due now) qs) ≡ true
        → has (queued_for id) (select (due now) (q ∷ qs)) ≡ true
    later id e = ground arith

-- The tables before and after a pass, and the runs that it names.
pub record Expires (now limit : ℕ) (db : Db) (ids : List String) (db' : Db) : Type 0 where
  pub bounded : length ids ≤ limit
  pub were_queued : (id : String) → listed ids id ≡ true → has (still id) db.runs ≡ true
  pub runs :
      (id : String)
      → find (has_id id) db'.runs ≡ (
          if listed ids id
          then Option.map (end_row skipped "queue_expired" now) (find (has_id id) db.runs)
          else find (has_id id) db.runs)
  pub were_due :
      (id : String) → listed ids id ≡ true → has (λ q. queued_for id q && due now q) db.queue ≡ true
  pub queue : db'.queue ≡ select (λ q. not (listed ids q.run_id)) db.queue
  pub others : (db'.keys ≡ db.keys) × (db'.next_seq ≡ db.next_seq)
  pub rows :
      (id : String)
      → has (queued_for id) db'.queue ≡ (not (listed ids id) && has (queued_for id) db.queue)
  pub none_due : length (select (due now) db.queue) ≤ limit → has (due now) db'.queue ≡ false

-- On sound tables a pass names at most `limit` runs, all of them queued and with a row of the queue that is due. Each run that it names is
-- afterwards skipped with the reason `queue_expired` and the time of the pass, and has left the
-- queue; every other run is as it was, the other rows of the queue are the same rows in
-- the same order, and the keys and the row counter have not changed. Where the rows that are
-- due fit in one page, none of them is left.
pub expire_queued-Expires :
    (now limit : ℕ) (db : Db)
    → IsSound db
    → let (ids, db') = expire_queued now limit db in Expires now limit db ids db'
unfolding expire_queued
expire_queued-Expires now limit db v = record {
  bounded = length-page now limit db;
  were_queued = λ id h. v.in_sync id ∙ page-queued now limit db id h;
  runs = λ id. elim (Bool-cases (listed ids id)) [
    | inl e ↦ rw e (
        find-listed (listed ids) (end_row skipped "queue_expired" now) (λ r. refl) id db.runs
          v.keyed e (v.in_sync id ∙ page-queued now limit db id e))
    | inr e ↦
        rw e (
          find-unlisted (listed ids) (end_row skipped "queue_expired" now) (λ r. refl) id db.runs e)
  ];
  were_due = λ id h. page-were_due now limit db id h;
  queue = refl;
  others = (refl, refl);
  rows = λ id. queued_for-delete (listed ids) id db.queue;
  none_due = λ room. remaining (listed ids) now db.queue (λ id. page-due now limit db id room);
}
  where
    ids : List String
    ids = expired_page now limit db
