-- ===== src/Executor/Capacity/Retried.antt =====
-- internal/executor/retries.go: the books of the executor through a pass of the retry scheduler.
use minicrond.Prelude.{
  nat_eq, string_eq, refl, ℕ, Bool, true, false, ◌||◌, List, [], ◌∷◌, ◌==◌, not, if◌then◌else◌, ltb,
  length,
}
use minicrond.Store.Tables.{Db, Result, ok, err}
use minicrond.Store.Lifecycle.{Ending}
use minicrond.Store.Lifecycle
use minicrond.Model.{is_job, is_enabled}
use minicrond.Executor.State.{Service, RetryItem, Lookup, found, missing, unreadable, create_run}
use minicrond.Executor.Backlog.{
  World, Reply, answer, refuse, capacity, shutdown, canceled, disabled, queue_full,
  queue_unavailable, stored, call,
}
use minicrond.Executor.Trigger.{trigger}
use minicrond.Executor.Retries.{
  retry_now, retry_found, retried, retry_each, retry_step, retry_request, write_evidence,
  persist_retry_evidence, lose_evidence, dropped_run, pop_due, retry_batch,
}
use minicrond.Executor.Capacity.Frame.{Same, Same-refl, Same-trans, add_retry-Same}
use minicrond.Executor.Capacity.Books.{Held, Held-Same}
use minicrond.Executor.Capacity.Triggered.{trigger-Held}

retried-Held :
    (it : RetryItem) (w : World) (m : Service × Reply) → Held 0 m.0 → Held 0 (retried it w m)
unfolding retried
retried-Held it w (s, refuse capacity) h = Held-Same (add_retry-Same _ s) h
retried-Held it w (s, refuse shutdown) h = h
retried-Held it w (s, refuse canceled) h = h
retried-Held it w (s, refuse disabled) h = h
retried-Held it w (s, refuse queue_full) h = h
retried-Held it w (s, refuse queue_unavailable) h = h
retried-Held it w (s, refuse (stored e)) h = h
retried-Held it w (s, answer r b) h = h

Held-if : (b : Bool) (s t : Service) → Held 0 s → Held 0 t → Held 0 (if b then s else t)
Held-if true s t p q = p
Held-if false s t p q = q

pub retry_found-Held :
    (it : RetryItem) (w : World) (l : Lookup) (s : Service)
    → Held 0 s
    → Held 0 (retry_found it w l s)
unfolding retry_found
retry_found-Held it w (found d hash) s h =
    Held-if
      (not (d.id == it.def_id)
        || not (is_job d.kind)
        || not (is_enabled d)
        || ltb d.retries it.attempt)
      _ _ h
      (retried-Held it w (trigger (retry_request it d hash) w s)
        (trigger-Held (retry_request it d hash) w h))
retry_found-Held it w missing s h = h
retry_found-Held it w unreadable s h = Held-if w.canceled _ _ h (Held-Same (add_retry-Same _ s) h)

retry_each-Held :
    (its : List RetryItem) (world : RetryItem → World) (s : Service)
    → Held 0 s
    → Held 0 (retry_each its world s)
unfolding retry_each retry_now
retry_each-Held [] world s h = h
retry_each-Held (it ∷ its) world s h = Held-if s.closing _ _ h (
    retry_each-Held its world (retry_now it (world it) s)
      (retry_found-Held it (world it) ((world it).lookup it.name) s h))

pub write_evidence-Same :
    (its : List RetryItem) (world : RetryItem → World) (s : Service)
    → Same s (write_evidence its world s)
unfolding write_evidence
write_evidence-Same [] world s = Same-refl s
write_evidence-Same (it ∷ its) world s =
    persisted (λ t. write_evidence-Same its world t) s.closing
      (call (world it) create_run (Lifecycle.create_run (dropped_run it (world it) s.boot_id) s.db))
  where
    persisted :
        (rest : (t : Service) → Same t (write_evidence its world t)) (b : Bool) (m : Result Db)
        → (let t : Service = elim b [
          | true ↦ s
          | false ↦ elim m [
            | ok db ↦ write_evidence its world (record s { db = db })
            | err e ↦ lose_evidence (length (it ∷ its)) s
          ]
        ] in
            Same s t)
    persisted rest true m = Same-refl s
    persisted rest false (ok db) =
        Same-trans {s = s} {t = record s { db = db }}
          (record { in_use = refl; max_runs = refl; active = refl; by_job = refl })
          (rest (record s { db = db }))
    persisted rest false (err e) = record {
      in_use = refl;
      max_runs = refl;
      active = refl;
      by_job = refl;
    }

pub retry_step-Held :
    (now : ℕ) (world : RetryItem → World) (s : Service) → Held 0 s → Held 0 (retry_step now world s)
unfolding retry_step persist_retry_evidence
retry_step-Held now world s h = retry_each-Held taken.0 world left (Held-Same kept h)
  where
    cleared : Service
    cleared = record s { retries = record (s.retries) { evidence = [] } }

    persisted : Service
    persisted = write_evidence s.retries.evidence world cleared

    taken : List RetryItem × List RetryItem
    taken = pop_due retry_batch now persisted.retries.heap

    left : Service
    left = record persisted { retries = record (persisted.retries) { heap = taken.1 } }

    kept : Same s left
    kept =
        Same-trans {s = s} {t = cleared}
          (record { in_use = refl; max_runs = refl; active = refl; by_job = refl })
          (Same-trans {s = cleared} {t = persisted}
            (write_evidence-Same s.retries.evidence world cleared)
            (record { in_use = refl; max_runs = refl; active = refl; by_job = refl }))
