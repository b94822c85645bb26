-- ===== src/Executor/Trigger.antt =====
-- internal/executor/executor.go: `trigger` from the overlap policy to the launch of the run.
use minicrond.Prelude.{
  nat_eq, string_eq, ◌||◌, ℕ, suc, String, Bool, true, false, ◌&&◌, Option, none, some, positive,
  ◌∷◌, ◌==◌, not, if◌then◌else◌, ltb, select,
}
use minicrond.Store.Tables.{Run, Db, pending, failed, Result, ok, err}
use minicrond.Store.Lifecycle.{Ending, admit_idempotent_run}
use minicrond.Store.Lifecycle
use minicrond.Store.Queue.{live_key}
use minicrond.Model.{Definition, is_enabled, is_job}
use minicrond.Executor.State.{Service, admit_run, finish_run, queueable, release_slot}
use minicrond.Executor.Backlog.{
  World, Request, Reply, answer, refuse, Refusal, shutdown, canceled, disabled, capacity, stored,
  call, make_run, of_run, spool, history_lost, RowResult, recorded, unrecorded, refused, admit_row,
  skip_unrecorded, scheduled_lookup,
}
use minicrond.Executor.Admission.{read, record_skipped, enqueue}

-- `dropFinalizer`.
unfoldable pub drop_finalizer : String → Service → Service
drop_finalizer id s = record s { finalizing = select (λ it. not (of_run id it)) s.finalizing }

-- The slot of a job; a worker has none.
unfoldable pub release_job : Definition → Service → Service
unfolding release_slot
release_job d s = if is_job d.kind then release_slot s else s

abbrev pub bump : String → (String → ℕ) → String → ℕ
bump name f x = if x == name then suc (f x) else f x

-- The end of a run that shutdown refuses at its launch.
abbrev pub start_error : ℕ → Ending
start_error now = record {
  status = failed;
  reason = "start_error";
  code = none;
  signal = "";
  at = now;
  bytes = 0;
  truncated = false;
  usage = none;
}

abbrev pub keep_db : Result Db → Service → Service
keep_db (ok db) s = record s { db = db }
keep_db (err e) s = s

-- `launch`, less the log writer: the run is registered, unless shutdown has begun.
unfoldable pub launch : Run → Definition → Bool → World → Service → Service × Option Refusal
unfolding drop_finalizer release_job
launch r d row w s =
    if s.closing || w.closes_late
    then (let closed = drop_finalizer r.id (record s { closing = true }) in
        let ended =
          if row
          then keep_db (call w finish_run (Lifecycle.finish_run r.id (start_error w.now) closed.db))
              closed
          else closed in
        (release_job d ended, some shutdown))
    else (
      record s {
        active = record { run = r; def = d; unrecorded = not row } ∷ s.active;
        by_job = bump d.name s.by_job;
      },
      none,
    )

unfoldable pub launched : Run → Service × Option Refusal → Service × Reply
launched r (s, none) = (s, answer r false)
launched r (s, some e) = (s, refuse e)

unfoldable pub admitted_keyed :
    Request → Run → Result (Option String × Db) → World → Service → Service × Reply
unfolding launch launched read release_job
admitted_keyed q r (err e) w s = (release_job q.def s, refuse (stored e))
admitted_keyed q r (ok (some id, db)) w s = let s' = release_job q.def s in (s', read id w s')
admitted_keyed q r (ok (none, db)) w s = launched r (launch r q.def true w (record s { db = db }))

-- A run without a row executes all the same, unless its job has opted out.
unfoldable pub start_unrecorded : Request → Run → World → Service → Service × Reply
unfolding launch launched spool skip_unrecorded release_job
start_unrecorded q r w s =
    if is_job q.def.kind && q.def.on_history_unavailable == "skip"
    then skip_unrecorded r w (release_job q.def s)
    else (let s1 = record s { health = record (s.health) { deferred = suc s.health.deferred } } in
        let (s2, kept) = spool r (λ it. record it { create = true }) w s1 in
        launched r (launch r q.def kept w (if kept then s2 else history_lost s2)))

unfoldable pub admitted_row : Request → Run → World → Service × RowResult → Service × Reply
unfolding launch launched start_unrecorded scheduled_lookup release_job
admitted_row q r w (s, recorded) = launched r (launch r q.def true w s)
admitted_row q r w (s, unrecorded) = start_unrecorded q r w s
admitted_row q r w (s, refused e) =
    let s' = release_job q.def s in
    elim (scheduled_lookup q w s') [ none ↦ (s', refuse e) | some x ↦ (s', answer x true) ]

-- `trigger` once a job holds its slot (a worker needs none).
unfoldable pub start_run : Request → World → Service → Service × Reply
unfolding admitted_keyed admitted_row make_run live_key admit_row
start_run q w s =
    let r = make_run q w s.boot_id pending in
    elim (live_key q.idem) [
      | none ↦ admitted_row q r w (admit_row r w s)
      | some i ↦
          admitted_keyed q r (call w admit_run (admit_idempotent_run r i w.now w.now s.db)) w s
    ]

-- A job without a slot: queued, deferred or recorded as skipped.
unfoldable pub no_slot : Request → World → Service → Service × Reply
unfolding enqueue record_skipped queueable
no_slot q w s =
    if queueable s.options q.trigger
    then enqueue q w s
    else if q.trigger == "retry"
    then (s, refuse capacity)
    else record_skipped q "queue_full" w s

-- The capacity gate of a job: newer work never overtakes queued work.
unfoldable pub gate : Request → World → Service → Service × Reply
unfolding start_run no_slot enqueue queueable
gate q w s =
    if queueable s.options q.trigger && positive s.queue.depth
    then enqueue q w s
    else if ltb s.in_use s.max_runs
    then start_run q w (record s { in_use = suc s.in_use })
    else no_slot q w s

-- `trigger` under the admission slot.
unfoldable pub admit : Request → World → Service → Service × Reply
unfolding gate start_run record_skipped
admit q w s =
    if s.closing
    then (s, refuse shutdown)
    else if w.canceled
    then (s, refuse canceled)
    else if not (is_enabled q.def)
    then (s, refuse disabled)
    else if is_job q.def.kind && q.def.on_overlap == "skip" && ltb 0 (s.by_job q.def.name)
    then record_skipped q "overlap_skip" w s
    else if is_job q.def.kind
    then gate q w s
    else start_run q w s

-- `trigger`: a shutdown may begin while the caller waits for the admission slot.
unfoldable pub trigger : Request → World → Service → Service × Reply
unfolding admit
trigger q w s = if s.closing then (s, refuse shutdown) else elim w.admitted [
  | some e ↦ (s, refuse e)
  | none ↦ admit q w (record s { closing = w.closes })
]
