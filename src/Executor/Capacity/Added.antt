-- ===== src/Executor/Capacity/Added.antt =====
-- internal/executor/executor.go: the active runs before and after a launch.
use minicrond.Prelude.{
  nat_eq, string_eq, ◌≡◌, refl, ◌∙◌, sym, subst, suc, String, Bool, true, false, ◌&&◌, ◌||◌, ◌⊎◌,
  Option, none, some, List, ◌∷◌, ◌==◌, not, if◌then◌else◌, arith, Option-cases, Bool-cases, inl,
  inr,
}
use minicrond.Store.Tables.{Run, Db, Result, ok, err}
use minicrond.Store.Lifecycle.{admit_idempotent_run}
use minicrond.Store.Lifecycle
use minicrond.Store.Queue.{live_key}
use minicrond.Model.{Definition, is_job}
use minicrond.Executor.State.{Service, Active, release_slot, finish_run}
use minicrond.Executor.Backlog.{
  World, Request, RowResult, recorded, unrecorded, refused, admit_row, spool, history_lost,
  scheduled_lookup, Refusal, call,
}
use minicrond.Executor.Trigger.{
  release_job, launch, launched, admitted_keyed, start_unrecorded, admitted_row, start_run, keep_db,
  drop_finalizer, start_error,
}
use minicrond.Executor.Capacity.Frame.{
  Same, Same-trans, Same-if, spool-Same, admit_row-Same, skip_unrecorded-Same,
}

-- No run begins, or one of the definition.
pub record Adds (d : Definition) (xs ys : List Active) : Type 0 where
  pub new : (ys ≡ xs) ⊎ ((a : Active) × (a.def ≡ d) × (ys ≡ a ∷ xs))

pub none_new : {d : Definition} {xs ys : List Active} → ys ≡ xs → Adds d xs ys
none_new e = record { new = inl e }

pub Adds-before : {d : Definition} {xs ys zs : List Active} → xs ≡ ys → Adds d ys zs → Adds d xs zs
Adds-before {d} {xs} {ys} {zs} e h = subst (λ l. Adds d l zs) (sym e) h

pub release_job-active : (d : Definition) (s : Service) → (release_job d s).active ≡ s.active
unfolding release_job release_slot
release_job-active d s = ground arith

closed_active :
    (m : Result Db) (row : Bool) (s : Service) → (if row then keep_db m s else s).active ≡ s.active
closed_active (ok db) true s = refl
closed_active (err e) true s = refl
closed_active m false s = refl

pub launch-Adds :
    (r : Run) (d : Definition) (row : Bool) (w : World) (s : Service)
    → Adds d s.active (launch r d row w s).0.active
unfolding launch drop_finalizer
launch-Adds r d row w s = elim (Bool-cases (s.closing || w.closes_late)) [
  | inr e ↦
      rw (e) (record { new = inr (record { run = r; def = d; unrecorded = not row }, refl, refl) })
  | inl e ↦
      let closed = drop_finalizer r.id (record s { closing = true }) in
      let m = call w finish_run (Lifecycle.finish_run r.id (start_error w.now) closed.db) in
      rw (e) (
        none_new (
          release_job-active d (if row then keep_db m closed else closed)
          ∙ closed_active m row closed))
]

launched-Adds :
    (r : Run) (d : Definition) (row : Bool) (w : World) (s : Service)
    → Adds d s.active (launched r (launch r d row w s)).0.active
unfolding launched
launched-Adds r d row w s = kept (launch r d row w s) (launch-Adds r d row w s)
  where
    kept :
        (m : Service × Option Refusal)
        → Adds d s.active m.0.active
        → Adds d s.active (launched r m).0.active
    kept (t, none) a = a
    kept (t, some e) a = a

admitted_keyed-Adds :
    (q : Request) (r : Run) (m : Result (Option String × Db)) (w : World) (s : Service)
    → Adds q.def s.active (admitted_keyed q r m w s).0.active
unfolding admitted_keyed
admitted_keyed-Adds q r (err e) w s = none_new (release_job-active q.def s)
admitted_keyed-Adds q r (ok (some id, db)) w s = none_new (release_job-active q.def s)
admitted_keyed-Adds q r (ok (none, db)) w s = launched-Adds r q.def true w (record s { db = db })

start_unrecorded-Adds :
    (q : Request) (r : Run) (w : World) (s : Service)
    → Adds q.def s.active (start_unrecorded q r w s).0.active
unfolding start_unrecorded
start_unrecorded-Adds q r w s =
    elim (Bool-cases (is_job q.def.kind && q.def.on_history_unavailable == "skip")) [
      | inl e ↦ rw (e) (
          none_new
            ((skip_unrecorded-Same r w (release_job q.def s)).active ∙ release_job-active q.def s))
      | inr e ↦ rw (e) (
          Adds-before (sym (same.active))
            (launched-Adds r q.def m.1 w (if m.1 then m.0 else history_lost m.0)))
    ]
  where
    s1 : Service
    s1 = record s { health = record (s.health) { deferred = suc s.health.deferred } }

    m : Service × Bool
    m = spool r (λ it. record it { create = true }) w s1

    same : Same s (if m.1 then m.0 else history_lost m.0)
    same =
        Same-trans {s = s} {t = s1}
          (record { in_use = refl; max_runs = refl; active = refl; by_job = refl })
          (Same-if m.1 (spool-Same r (λ it. record it { create = true }) w s1) (
            Same-trans (spool-Same r (λ it. record it { create = true }) w s1)
              (record { in_use = refl; max_runs = refl; active = refl; by_job = refl })))

admitted_row-Adds :
    (q : Request) (r : Run) (w : World) (m : Service × RowResult)
    → Adds q.def m.0.active (admitted_row q r w m).0.active
unfolding admitted_row
admitted_row-Adds q r w (s, recorded) = launched-Adds r q.def true w s
admitted_row-Adds q r w (s, unrecorded) = start_unrecorded-Adds q r w s
admitted_row-Adds q r w (s, refused e) =
    elim (Option-cases (scheduled_lookup q w (release_job q.def s))) [
      | inl n ↦ rw (n, admitted_row) (none_new (release_job-active q.def s))
      | inr (x, n) ↦ rw (n, admitted_row) (none_new (release_job-active q.def s))
    ]

pub start_run-Adds :
    (q : Request) (w : World) (s : Service) → Adds q.def s.active (start_run q w s).0.active
unfolding start_run
start_run-Adds q w s = elim (Option-cases (live_key q.idem)) [
  | inl e ↦
      rw (e, start_run)
        (Adds-before (sym (admit_row-Same _ w s).active)
          (admitted_row-Adds q _ w (admit_row _ w s)))
  | inr (i, e) ↦ rw (e, start_run) (admitted_keyed-Adds q _ _ w s)
]
