-- ===== src/Executor/Retries.antt =====
-- internal/executor/retries.go: the heap of failed runs that wait for their next attempt. The
-- standard library's heap pops an item of the earliest due time; among equals the model takes the
-- one pushed first.
use minicrond.Prelude.{
  nat_eq, string_eq, ◌||◌, ℕ, zero, suc, ◌+◌, ◌*◌, String, true, false, none, some, max, List, [],
  ◌∷◌, ◌++◌, ◌==◌, not, if◌then◌else◌, leb, ltb, eqb, length,
}
use minicrond.Store.Tables.{Run, failed, skipped, Kind, unix_micro, ok, err, status_eq}
use minicrond.Store.Lifecycle
use minicrond.Model.{Definition, is_enabled, is_job}
use minicrond.Executor.State.{
  Service, RetryItem, RetryState, Lookup, found, missing, unreadable, create_run, second,
}
use minicrond.Executor.Backlog.{World, Request, Reply, refuse, capacity, call}
use minicrond.Executor.Trigger.{trigger}

abbrev pub retry_evidence_cap : ℕ
retry_evidence_cap = 64

abbrev pub retry_batch : ℕ
retry_batch = 16

-- `heap.Push`.
unfoldable pub push : RetryItem → List RetryItem → List RetryItem
push it [] = it ∷ []
push it (x ∷ xs) = if ltb it.due x.due then it ∷ x ∷ xs else x ∷ push it xs

-- The drop of an item at the cap: counted, and kept as evidence in a ring of the newest.
abbrev pub drop_retry : RetryItem → RetryState → RetryState
drop_retry it r =
    if leb retry_evidence_cap (length r.evidence)
    then record r {
      dropped = suc r.dropped;
      lost = suc r.lost;
      evidence = elim r.evidence [ [] ↦ it ∷ [] | x ∷ xs ↦ xs ++ it ∷ [] ];
      wake = true;
    }
    else record r { dropped = suc r.dropped; evidence = r.evidence ++ it ∷ []; wake = true }

-- `addRetry`.
unfoldable pub add_retry : RetryItem → Service → Service
unfolding push
add_retry it s =
    if s.closing
    then s
    else let r = record (s.retries) { started = true } in
      record s {
        retries =
            if leb s.options.max_pending_retries (length r.heap)
            then drop_retry it r
            else record r { heap = push it r.heap; wake = true };
      }

-- `scheduleRetry`: five seconds stand in for a delay of 0.
unfoldable pub schedule_retry : Run → Definition → ℕ → Service → Service
unfolding add_retry
schedule_retry r d now s =
    let delay = if eqb d.retry_delay 0 then 5 * second else d.retry_delay * second in
    if not (is_job d.kind) || not (r.status == failed) || ltb d.retries r.attempt
    then s
    else add_retry
        (record {
          due = now + delay;
          run_id = r.id;
          name = d.name;
          def_id = d.id;
          revision = r.revision;
          hash = r.definition_hash;
          attempt = r.attempt;
          scheduled = r.scheduled_for_us;
          delay = delay;
        })
        s

-- The items that one pass takes off the heap, and what it leaves.
unfoldable pub pop_due : ℕ → ℕ → List RetryItem → List RetryItem × List RetryItem
pop_due n now [] = ([], [])
pop_due zero now (it ∷ h) = ([], it ∷ h)
pop_due (suc n) now (it ∷ h) =
    let rest = pop_due n now h in if leb it.due now then (it ∷ rest.0, rest.1) else ([], it ∷ h)

-- The request of a retry that is due.
abbrev pub retry_request : RetryItem → Definition → String → Request
retry_request it d hash = record {
  def = d;
  hash = hash;
  trigger = "retry";
  scheduled = it.scheduled;
  idem = none;
  attempt = suc it.attempt;
  parent = it.run_id;
}

-- A retry that found no capacity waits another delay.
unfoldable pub retried : RetryItem → World → Service × Reply → Service
unfolding add_retry
retried it w (s, refuse capacity) = add_retry (record it { due = w.now + it.delay }) s
retried it w (s, _) = s

unfoldable pub retry_found : RetryItem → World → Lookup → Service → Service
unfolding trigger retried add_retry
retry_found it w (found d hash) s =
    if not (d.id == it.def_id)
      || not (is_job d.kind)
      || not (is_enabled d)
      || ltb d.retries it.attempt
    then s
    else retried it w (trigger (retry_request it d hash) w s)
retry_found it w missing s = s
retry_found it w unreadable s =
    if w.canceled then s else add_retry (record it { due = w.now + max it.delay second }) s

-- `retryNow`: the definition is read again when the retry is due.
unfoldable pub retry_now : RetryItem → World → Service → Service
unfolding retry_found
retry_now it w s = retry_found it w (w.lookup it.name) s

-- The run that is recorded for a dropped retry.
abbrev pub dropped_run : RetryItem → World → String → Run
dropped_run it w boot = record {
  id = w.id;
  definition_id = it.def_id;
  job_name = it.name;
  kind = Kind.job;
  revision = it.revision;
  definition_hash = it.hash;
  status = skipped;
  end_reason = "retry_dropped";
  trigger = "retry";
  attempt = suc it.attempt;
  parent_run_id = it.run_id;
  scheduled_for_us = it.scheduled;
  missed_count = 0;
  boot_id = boot;
  pid = 0;
  pgid = 0;
  process_start_id = "";
  exit_code = none;
  signal = "";
  queued_us = unix_micro w.now;
  started_us = none;
  ended_us = some (unix_micro w.now);
  log_ref = "";
  log_bytes = 0;
  log_truncated = false;
  resource_usage = none;
}

abbrev pub lose_evidence : ℕ → Service → Service
lose_evidence n s = record s { retries = record (s.retries) { lost = s.retries.lost + n } }

-- The loop of `persistRetryEvidence`: it stops at the first row that cannot be written, and at a
-- shutdown.
unfoldable pub write_evidence : List RetryItem → (RetryItem → World) → Service → Service
write_evidence [] world s = s
write_evidence (it ∷ its) world s =
    let w = world it in
    let created = call w create_run (Lifecycle.create_run (dropped_run it w s.boot_id) s.db) in
    elim s.closing [
      | true ↦ s
      | false ↦ elim created [
        | ok db ↦ write_evidence its world (record s { db = db })
        | err e ↦ lose_evidence (length (it ∷ its)) s
      ]
    ]

-- `persistRetryEvidence`.
unfoldable pub persist_retry_evidence : (RetryItem → World) → Service → Service
unfolding write_evidence
persist_retry_evidence world s =
    write_evidence s.retries.evidence world
      (record s { retries = record (s.retries) { evidence = [] } })

-- The loop over the retries that a pass has taken.
unfoldable pub retry_each : List RetryItem → (RetryItem → World) → Service → Service
unfolding retry_now
retry_each [] world s = s
retry_each (it ∷ its) world s =
    let rest = retry_each its world (retry_now it (world it) s) in if s.closing then s else rest

-- `retryStep`; `world` tells what each item meets.
unfoldable pub retry_step : ℕ → (RetryItem → World) → Service → Service
unfolding persist_retry_evidence retry_each pop_due
retry_step now world s =
    let s1 = persist_retry_evidence world s in
    let (due, rest) = pop_due retry_batch now s1.retries.heap in
    retry_each due world (record s1 { retries = record (s1.retries) { heap = rest } })
