-- ===== src/Executor/Completion.antt =====
-- internal/executor/executor.go: the end of a run. Its outcome is kept, announced and retried from
-- memory, whether or not the database takes it.
use minicrond.Prelude.{
  nat_eq, string_eq, ◌||◌, ℕ, ◌-◌, String, Bool, true, false, some, List, [], ◌∷◌, ◌==◌, not,
  if◌then◌else◌, leb, has, select, update, length,
}
use minicrond.Store.Tables.{Run, Db, Result, ok, err, invalid_transition, unix_micro}
use minicrond.Store.Lifecycle.{Ending}
use minicrond.Store.Lifecycle
use minicrond.Model.{Definition}
use minicrond.Executor.State.{Service, Active, finish_run, notify}
use minicrond.Executor.Backlog.{World, call, of_run, spool, history_lost, set_down}
use minicrond.Executor.Trigger.{release_job}
use minicrond.Executor.Retries.{schedule_retry}

abbrev pub max_outcomes : ℕ
max_outcomes = 1024

unfoldable pub drop_last : List Run → List Run
drop_last [] = []
drop_last (x ∷ []) = []
drop_last (x ∷ y ∷ xs) = x ∷ drop_last (y ∷ xs)

-- `recordOutcome`, for the runs of workers and init tasks. The map's own entry for the run is
-- replaced; a full map first loses an entry (here the oldest).
unfoldable pub record_outcome : Run → Service → Service
unfolding drop_last
record_outcome r s =
    if r.trigger == "startup"
    then (let kept =
          if leb max_outcomes (length s.outcomes) then drop_last s.outcomes else s.outcomes in
        record s { outcomes = r ∷ select (λ x. not (x.id == r.id)) kept })
    else s

-- The run as it ended.
abbrev pub ended_run : Ending → Run → Run
ended_run t r = record r {
  status = t.status;
  end_reason = t.reason;
  exit_code = t.code;
  signal = t.signal;
  ended_us = some (unix_micro t.at);
  resource_usage = t.usage;
}

-- `finished`.
unfoldable pub finished : Run → Definition → Ending → Bool → World → Service → Service
unfolding schedule_retry
finished r d t retry w s =
    let s' = notify (ended_run t r) s in
    if retry then schedule_retry (ended_run t r) d w.now s' else s'

-- The end waits for the history writer.
unfoldable pub spool_end : Run → Definition → Ending → Bool → World → Service → Service
unfolding spool finished
spool_end r d t retry w s =
    let (s', kept) = spool r (λ it. record it { done = some t }) w s in
    finished r d t retry w (if kept || s'.closing then s' else history_lost s')

unfoldable pub write_end : Run → Definition → Ending → Bool → World → Result Db → Service → Service
unfolding spool_end finished
write_end r d t retry w (ok db) s = finished r d t retry w (set_down false (record s { db = db }))
write_end r d t retry w (err invalid_transition) s = s
write_end r d t retry w (err e) s = spool_end r d t retry w (set_down true s)

-- `complete`.
unfoldable pub complete : Active → Ending → Bool → World → Service → Service
unfolding record_outcome write_end spool_end finished
complete a t retry w s =
    let r = a.run in
    let s1 = record_outcome (ended_run t r) s in
    if a.unrecorded
    then finished r a.def t retry w s1
    else if has (of_run r.id) s1.finalizing
    then finished r a.def t retry w (record s1 {
      finalizing = update (of_run r.id) (λ it. record it { done = some t }) s1.finalizing;
    })
    else if s1.health.down
    then spool_end r a.def t retry w s1
    else write_end r a.def t retry w (call w finish_run (Lifecycle.finish_run r.id t s1.db)) s1

-- Go's `byJob[name]--`, with the key deleted at 1.
abbrev pub lower : String → (String → ℕ) → String → ℕ
lower name f x = if x == name then f x - 1 else f x

abbrev pub is_run : String → Active → Bool
is_run id a = a.run.id == id

-- The deferred part of `execute`: the run leaves the service and frees its slot.
unfoldable pub leave : Active → Service → Service
unfolding release_job
leave a s = release_job a.def (record s {
  active = select (λ x. not (is_run a.run.id x)) s.active;
  by_job = lower a.def.name s.by_job;
})

-- `execute`, from the outcome of the process to the release of the slot.
unfoldable pub end_execution : Active → Ending → Bool → World → Service → Service
unfolding complete leave
end_execution a t retry w s = leave a (complete a t retry w s)
