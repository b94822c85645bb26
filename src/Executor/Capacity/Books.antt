-- ===== src/Executor/Capacity/Books.antt =====
-- internal/executor/executor.go: what the slots, the active runs and the runs per name have to do
-- with each other, up to the launch of a run.
use minicrond.Prelude.{
  nat_eq, string_eq, ◌||◌, ◌≡◌, refl, ◌∙◌, sym, subst, ap, str_iff, ℕ, suc, ◌+◌, ◌≤◌, String, Bool,
  true, ◌&&◌, Option, none, some, positive, ◌∷◌, ◌==◌, not, if◌then◌else◌, arith, Option-cases,
  Bool-cases, inl, inr, count,
}
use minicrond.Store.Tables.{Run, Db, Result, ok, err}
use minicrond.Store.Lifecycle
use minicrond.Store.Lifecycle.{Ending, admit_idempotent_run}
use minicrond.Store.Queue.{live_key}
use minicrond.Model.{Definition, is_job}
use minicrond.Executor.State.{finish_run, Service, Active, release_slot}
use minicrond.Executor.Backlog.{
  World, Request, RowResult, recorded, unrecorded, refused, call, admit_row, spool,
  scheduled_lookup, Refusal,
}
use minicrond.Executor.Trigger.{
  start_error, release_job, launch, launched, admitted_keyed, start_unrecorded, admitted_row,
  start_run, bump, keep_db, drop_finalizer,
}
use minicrond.Executor.Capacity.Frame.{
  Same, Same-refl, Same-trans, Same-if, spool-Same, admit_row-Same, skip_unrecorded-Same,
}

-- A run of a job, and a run of the name.
abbrev pub of_job : Active → Bool
of_job a = is_job a.def.kind

abbrev pub named : String → Active → Bool
named name a = a.def.name == name

-- The slots that a run of the definition takes.
abbrev pub slots : Definition → ℕ
slots d = if is_job d.kind then 1 else 0

-- The books with `k` slots taken for runs that are not launched.
pub record Held (k : ℕ) (s : Service) : Type 0 where
  pub slots_taken : s.in_use ≡ count of_job s.active + k
  pub bounded : s.in_use ≤ s.max_runs
  pub by_name : (name : String) → s.by_job name ≡ count (named name) s.active

pub Held-Same : {k : ℕ} {s t : Service} → Same s t → Held k s → Held k t
Held-Same {k} {s} {t} p h = record {
  slots_taken = p.in_use ∙ h.slots_taken ∙ sym (ap (λ xs. count of_job xs + k) p.active);
  bounded = rw (p.in_use, p.max_runs) h.bounded;
  by_name =
      λ name. ap (λ f. f name) p.by_job ∙ h.by_name name ∙ sym (ap (count (named name)) p.active);
}

pub release_slot-Held : {k : ℕ} {s : Service} → Held (suc k) s → Held k (release_slot s)
unfolding release_slot
release_slot-Held {k} {s} h = elim (Bool-cases (positive s.queue.depth)) [
  | inl e ↦ rw (e) (record {
    slots_taken = omega (arith, h.slots_taken);
    bounded = omega (arith, h.bounded);
    by_name = h.by_name;
  })
  | inr e ↦ rw (e) (record {
    slots_taken = omega (arith, h.slots_taken);
    bounded = omega (arith, h.bounded);
    by_name = h.by_name;
  })
]

pub release_job-Held : (d : Definition) {s : Service} → Held (slots d) s → Held 0 (release_job d s)
unfolding release_job
release_job-Held d {s} h = elim (Bool-cases (is_job d.kind)) [
  | inl e ↦ rw (e) (release_slot-Held (subst (λ b. Held (if b then 1 else 0) s) e h))
  | inr e ↦ rw (e) (subst (λ b. Held (if b then 1 else 0) s) e h)
]

keep_db-Same : (m : Result Db) (s : Service) → Same s (keep_db m s)
keep_db-Same (ok db) s = record { in_use = refl; max_runs = refl; active = refl; by_job = refl }
keep_db-Same (err e) s = Same-refl s

registered-Held :
    (r : Run) (d : Definition) (row : Bool) {s : Service}
    → Held (slots d) s
    → Held 0 (record s {
      active = record { run = r; def = d; unrecorded = not row } ∷ s.active;
      by_job = bump d.name s.by_job;
    })
registered-Held r d row {s} h = record {
  slots_taken = omega (arith, h.slots_taken);
  bounded = h.bounded;
  by_name =
      λ name. ground (arith, h.by_name name, (str_iff d.name name).0, (str_iff name d.name).0);
}

pub launch-Held :
    (r : Run) (d : Definition) (row : Bool) (w : World) {s : Service}
    → Held (slots d) s
    → Held 0 (launch r d row w s).0
unfolding launch drop_finalizer
launch-Held r d row w {s} h = elim (Bool-cases (s.closing || w.closes_late)) [
  | inr e ↦ rw (e) (registered-Held r d row h)
  | inl e ↦ rw (e) (
      release_job-Held d (
        Held-Same
          (Same-if row
            (keep_db-Same
              (call w finish_run (Lifecycle.finish_run r.id (start_error w.now) closed.db)) closed)
            (Same-refl closed))
          (Held-Same {s = s} {t = closed}
            (record { in_use = refl; max_runs = refl; active = refl; by_job = refl }) h)))
]
  where
    closed : Service
    closed = drop_finalizer r.id (record s { closing = true })

launched-fst : (r : Run) (m : Service × Option Refusal) → (launched r m).0 ≡ m.0
unfolding launched
launched-fst r (s, none) = refl
launched-fst r (s, some e) = refl

launched-Held :
    (r : Run) (d : Definition) (row : Bool) (w : World) {s : Service}
    → Held (slots d) s
    → Held 0 (launched r (launch r d row w s)).0
launched-Held r d row w {s} h = rw (launched-fst r (launch r d row w s)) (launch-Held r d row w h)

admitted_keyed-Held :
    (q : Request) (r : Run) (m : Result (Option String × Db)) (w : World) {s : Service}
    → Held (slots q.def) s
    → Held 0 (admitted_keyed q r m w s).0
unfolding admitted_keyed
admitted_keyed-Held q r (err e) w h = release_job-Held q.def h
admitted_keyed-Held q r (ok (some id, db)) w h = release_job-Held q.def h
admitted_keyed-Held q r (ok (none, db)) w {s} h =
    launched-Held r q.def true w (
      Held-Same {s = s} (record { in_use = refl; max_runs = refl; active = refl; by_job = refl }) h)

start_unrecorded-Held :
    (q : Request) (r : Run) (w : World) {s : Service}
    → Held (slots q.def) s
    → Held 0 (start_unrecorded q r w s).0
unfolding start_unrecorded
start_unrecorded-Held q r w {s} h =
    elim (Bool-cases (is_job q.def.kind && q.def.on_history_unavailable == "skip")) [
      | inl e ↦ rw (e) (Held-Same (skip_unrecorded-Same r w _) (release_job-Held q.def h))
      | inr e ↦ rw (e) (
          launched-Held r q.def kept w (
            Held-Same
              (Same-trans
                (Same-trans
                  (record { in_use = refl; max_runs = refl; active = refl; by_job = refl })
                  (spool-Same r (λ it. record it { create = true }) w s1))
                (Same-if kept (Same-refl s2)
                  (record { in_use = refl; max_runs = refl; active = refl; by_job = refl })))
              h))
    ]
  where
    s1 : Service
    s1 = record s { health = record (s.health) { deferred = suc s.health.deferred } }

    s2 : Service
    s2 = (spool r (λ it. record it { create = true }) w s1).0

    kept : Bool
    kept = (spool r (λ it. record it { create = true }) w s1).1

admitted_row-Held :
    (q : Request) (r : Run) (w : World) (m : Service × RowResult)
    → Held (slots q.def) m.0
    → Held 0 (admitted_row q r w m).0
unfolding admitted_row
admitted_row-Held q r w (s, recorded) h = launched-Held r q.def true w h
admitted_row-Held q r w (s, unrecorded) h = start_unrecorded-Held q r w h
admitted_row-Held q r w (s, refused e) h =
    elim (Option-cases (scheduled_lookup q w (release_job q.def s))) [
      | inl n ↦ rw (n, admitted_row) (release_job-Held q.def h)
      | inr (x, n) ↦ rw (n, admitted_row) (release_job-Held q.def h)
    ]

pub start_run-Held :
    (q : Request) (w : World) {s : Service} → Held (slots q.def) s → Held 0 (start_run q w s).0
unfolding start_run
start_run-Held q w {s} h = elim (Option-cases (live_key q.idem)) [
  | inl e ↦
      rw (e, start_run)
        (admitted_row-Held q _ w (admit_row _ w s) (Held-Same (admit_row-Same _ w s) h))
  | inr (i, e) ↦ rw (e, start_run) (admitted_keyed-Held q _ _ w h)
]
