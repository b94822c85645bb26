-- ===== src/Executor/Writer/Stored.antt =====
-- internal/executor/finalizer.go: the row that the stages of an item leave, and that of a run whose
-- history was written when it happened.
use minicrond.Prelude.{
  nat_eq, string_eq, ◌≡◌, refl, ap, ◌∙◌, subst, sym, Bool, true, false, ◌&&◌, ◌||◌, if◌then◌else◌,
  Option, none, some, List, [], ◌∷◌, has, count, update, arith, ◌==◌, str_iff,
}
use minicrond.Store.Tables.{
  Run, Db, ok, has_id, same_occurrence, pending, running, status_eq, unix_micro, insert_run,
}
use minicrond.Store.Registry.Found.{update-none}
use minicrond.Store.Lifecycle.{
  Ending, start_run, finish_run, finish_row, start_guard, finish_guard, update_one, create_run,
}
use minicrond.Executor.State.{FinalItem, StartInfo}
use minicrond.Executor.Writer.{
  Stage, creates, starts, finishes, Written, wrote, and_then, created, write_create, write_start,
  write_end_state, write_history,
}
use minicrond.Executor.Writer.Stages.{Calm}

-- What a run's history makes of its row: it has started, it has ended.
abbrev pub begun : Option StartInfo → Run → Run
begun none r = r
begun (some i) r = record r {
  status = running;
  pid = i.pid;
  pgid = i.pgid;
  process_start_id = i.id;
  started_us = some (unix_micro i.at);
}

abbrev pub over : Option Ending → Run → Run
over none r = r
over (some t) r = finish_row t r

-- A guarded UPDATE of a row that no other has the identity of.
update_first :
    (p : Run → Bool) (f : Run → Run) (r : Run) (rows : List Run) (db : Db)
    → p r ≡ true
    → count p rows ≡ 0
    → update_one p f (record db { runs = r ∷ rows }) ≡ ok (record db { runs = f r ∷ rows })
unfolding update_one
update_first p f r rows db h k =
    let c : count p (r ∷ rows) ≡ 1 = ground (arith, h, k) in
    let u : update p f (r ∷ rows) ≡ f r ∷ rows =
      ap (λ xs. (if p r then f r else r) ∷ xs) (update-none p f rows k)
      ∙ ap (λ b. (if b then f r else r) ∷ rows) h in
    ground (arith, c, u)

absent :
    (r : Run) (q : Run → Bool) (rows : List Run)
    → has (λ x. has_id r.id x || same_occurrence r x) rows ≡ false
    → count (λ x. has_id r.id x && q x) rows ≡ 0
absent r q [] h = refl
absent r q (x ∷ xs) h = ground (arith, absent r q xs, h)

abbrev pub first_row : Db → Run → Db
first_row db r = record db { runs = r ∷ db.runs }

-- An item written, with the row that it leaves first.
abbrev pub Leaves : FinalItem → Db → Run → Written → Type 0
Leaves it db r m =
    (a : FinalItem) × (m ≡ wrote a (first_row db r)) × (a.run ≡ it.run) × (a.done ≡ it.done)

abbrev pub Fresh : Run → Db → Type 0
Fresh r db = has (λ x. has_id r.id x || same_occurrence r x) db.runs ≡ false

open_status :
    (o : Option StartInfo) (r : Run)
    → r.status ≡ pending
    → ((begun o r).status == pending || (begun o r).status == running) ≡ true
open_status none r h = ground (arith, h)
open_status (some i) r h = refl

begun_id : (o : Option StartInfo) (r : Run) → (begun o r).id ≡ r.id
begun_id none r = refl
begun_id (some i) r = refl

module _ (fails : Stage → Bool) (calm : Calm fails) (db : Db) where
  create-Stored :
      (it : FinalItem)
      → it.create ≡ true
      → Fresh it.run db
      → write_create fails it db ≡ wrote (created it) (first_row db it.run)
  unfolding write_create create_run insert_run
  create-Stored it h k = rw (h, calm creates, k) refl

  start-Stored :
      (it : FinalItem) (o : Option StartInfo)
      → it.start ≡ o
      → it.run.status ≡ pending
      → Fresh it.run db
      → Leaves it db (begun o it.run) (write_start fails it (first_row db it.run))
  unfolding write_start start_run
  start-Stored it none e h k = (it, ground (arith, e), refl, refl)
  start-Stored it (some i) e h k =
      let u =
        update_first (start_guard it.run.id) (begun (some i)) it.run db.runs db
          (ground (arith, h, str_iff it.run.id it.run.id))
          (absent it.run (λ x. x.status == pending) db.runs k) in
      (record it { start = none }, ground (arith, e, calm starts, u), refl, refl)

  end-Stored :
      (it : FinalItem) (o : Option Ending) (r : Run)
      → it.done ≡ o
      → (r.status == pending || r.status == running) ≡ true
      → r.id ≡ it.run.id
      → Fresh it.run db
      → write_end_state fails it (first_row db r) ≡ wrote it (first_row db (over o r))
  unfolding write_end_state finish_run
  end-Stored it none r e h n k = ground (arith, e)
  end-Stored it (some t) r e h n k =
      let u =
        update_first (finish_guard it.run.id t.status) (finish_row t) r db.runs db
          (ground (arith, h, n, str_iff r.id it.run.id))
          (absent it.run (λ x. x.status == pending || x.status == running || x.status == t.status)
            db.runs k) in
      ground (arith, e, calm finishes, u)

  -- Where no call finds the database unavailable, and no row has the identity or the occurrence of
  -- a pending run that was never stored, writing its deferred history leaves exactly the row that
  -- the insert, the running transition and the end would have left when they happened, as far as
  -- the run has come, and changes nothing else.
  pub write_history-Stored :
      (it : FinalItem)
      → it.create ≡ true
      → it.run.status ≡ pending
      → Fresh it.run db
      → Leaves it db (over it.done (begun it.start it.run)) (write_history fails it db)
  unfolding write_history
  write_history-Stored it h p k =
      let c = create-Stored it h k in
      let s = start-Stored (created it) it.start refl p k in
      let a = s.0 in
      let r = begun it.start it.run in
      let f : Fresh a.run db = subst (λ x. Fresh x db) (sym s.2) k in
      let e =
        end-Stored a it.done r s.3 (open_status it.start it.run p)
          (begun_id it.start it.run ∙ ap (λ x. x.id) (sym s.2)) f in
      (
        a,
        ap (λ m. and_then m (λ x d. and_then (write_start fails x d) (write_end_state fails))) c
            ∙ ap (λ m. and_then m (write_end_state fails)) s.1
            ∙ e,
        s.2,
        s.3,
      )
