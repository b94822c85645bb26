-- ===== src/Executor/Backlog.antt =====
-- internal/executor/finalizer.go, storage.go and executor.go: run rows that the database cannot
-- take now wait in memory, and runs are admitted with or without a row.
use minicrond.Prelude.{
  nat_eq, string_eq, ℕ, suc, ◌+◌, String, Bool, true, false, ◌&&◌, Option, none, some, ◌∷◌, ◌==◌,
  not, if◌then◌else◌, leb, ltb, has, find, update, length,
}
use Prim.Native.String.{◌++◌ as append}
use minicrond.Store.Tables.{
  terminal, Run, Db, Status, queued, pending, skipped, Error, storage, constraint,
  invalid_transition, idempotency_conflict, Result, ok, err, Idempotency, unix_micro, has_id,
}
use minicrond.Store.Tables
use minicrond.Store.Lifecycle.{Ending, admit_idempotent_run}
use minicrond.Store.Lifecycle
use minicrond.Model.{Definition}
use minicrond.Executor.State.{
  Service, FinalItem, Call, create_run, scheduled_run, Lookup, second, notify,
}

-- Why a trigger is refused.
pub data Refusal : Type 0 where
  shutdown canceled disabled capacity queue_full queue_unavailable : Refusal
  stored : Error → Refusal

-- The answer to a trigger: a run, and whether it is an earlier one; or an error.
pub data Reply : Type 0 where
  answer : Run → Bool → Reply
  refuse : Refusal → Reply

-- What a step meets outside the service: the clock, the next run identity, the outcome of waiting
-- for the admission slot, a shutdown that begins meanwhile, a caller that gives up, the storage
-- calls that fail, and the definition table.
pub record World : Type 0 where
  pub now : ℕ
  pub id : String
  pub admitted : Option Refusal
  pub closes : Bool
  pub closes_late : Bool
  pub canceled : Bool
  pub fails : Call → Bool
  pub lookup : String → Lookup

-- The arguments of `trigger`.
pub record Request : Type 0 where
  pub def : Definition
  pub hash : String
  pub trigger : String
  pub scheduled : Option ℕ
  pub idem : Option Idempotency
  pub attempt : ℕ
  pub parent : String

-- A storage call, unless the database is unavailable.
abbrev pub call {ℓ} : {A : Type ℓ} → World → Call → Result A → Result A
call w c m = if w.fails c then err storage else m

-- The run that a request asks for.
unfoldable pub make_run : Request → World → String → Status → Run
make_run q w boot s = record {
  id = w.id;
  definition_id = q.def.id;
  job_name = q.def.name;
  kind = q.def.kind;
  revision = q.def.revision;
  definition_hash = q.hash;
  status = s;
  end_reason = "";
  trigger = q.trigger;
  attempt = q.attempt;
  parent_run_id = q.parent;
  scheduled_for_us = q.scheduled;
  missed_count = 0;
  boot_id = boot;
  pid = 0;
  pgid = 0;
  process_start_id = "";
  exit_code = none;
  signal = "";
  queued_us = unix_micro w.now;
  started_us = none;
  ended_us = none;
  log_ref = if terminal s then "" else append "file:" w.id;
  log_bytes = 0;
  log_truncated = false;
  resource_usage = none;
}

abbrev pub of_run : String → FinalItem → Bool
of_run id it = it.run.id == id

abbrev new_item : Run → World → Bool → FinalItem
new_item r w down = record {
  run = r;
  create = false;
  start = none;
  done = none;
  backoff = second;
  next_try = if down then w.now + second else w.now;
  attempts = 0;
}

-- `spool`: the item of a run is made or changed, unless the daemon is closing or the budget is full.
unfoldable pub spool : Run → (FinalItem → FinalItem) → World → Service → Service × Bool
spool r change w s =
    if s.closing
    then (s, false)
    else if has (of_run r.id) s.finalizing
    then (
      record s { finalizing = update (of_run r.id) change s.finalizing; finals_started = true },
      true,
    )
    else if leb s.options.max_finalizers (length s.finalizing)
    then (s, false)
    else (
      record s {
        finalizing = change (new_item r w s.health.down) ∷ s.finalizing;
        finals_started = true;
      },
      true,
    )

-- `historyLost`.
abbrev pub history_lost : Service → Service
history_lost s = record s { health = record (s.health) { dropped = suc s.health.dropped } }

abbrev pub set_down : Bool → Service → Service
set_down b s = record s { health = record (s.health) { down = b } }

abbrev add_deferred : Service → Service
add_deferred s = record s { health = record (s.health) { deferred = suc s.health.deferred } }

pub data RowResult : Type 0 where
  recorded unrecorded : RowResult
  refused : Refusal → RowResult

-- `storageUnavailable`, for a caller that has not given up.
abbrev pub unavailable : Error → Bool
unavailable constraint = false
unavailable invalid_transition = false
unavailable idempotency_conflict = false
unavailable _ = true

unfoldable pub admit_created : Result Db → World → Service → Service × RowResult
admit_created (ok db) w s = (set_down false (record s { db = db }), recorded)
admit_created (err e) w s =
    if not w.canceled && unavailable e
    then (set_down true s, unrecorded)
    else (s, refused (stored e))

-- `admitRow`: while storage is down and history waits, the database is not tried.
unfoldable pub admit_row : Run → World → Service → Service × RowResult
unfolding admit_created
admit_row r w s =
    if s.health.down && ltb 0 (length s.finalizing)
    then (s, (if w.canceled then refused canceled else unrecorded))
    else admit_created (call w create_run (Lifecycle.create_run r s.db)) w s

-- `deferRecord`.
unfoldable pub defer_record : Run → World → Service → Service
unfolding spool
defer_record r w s =
    let (s', kept) = spool r (λ it. record it { create = true }) w (add_deferred s) in
    if kept then s' else history_lost s'

-- `skipUnrecorded`: the run of a job that does not run without a row.
unfoldable pub skip_unrecorded : Run → World → Service → Service × Reply
unfolding spool
skip_unrecorded r w s =
    let ending : Ending = record {
      status = skipped;
      reason = "history_unavailable";
      code = none;
      signal = "";
      at = w.now;
      bytes = 0;
      truncated = false;
      usage = none;
    } in
    let (s', kept) =
      spool r (λ it. record it { create = true; done = some ending }) w (add_deferred s) in
    let r' = record r {
      status = skipped;
      end_reason = "history_unavailable";
      ended_us = some (unix_micro w.now);
    } in
    (notify r' (if kept then s' else history_lost s'), answer r' false)

-- `Store.ScheduledRun` for the occurrence of a request; a trigger of another kind has none.
unfoldable pub scheduled_lookup : Request → World → Service → Option Run
unfolding make_run
scheduled_lookup q w s =
    if w.fails scheduled_run
    then none
    else find (λ r. Tables.same_occurrence (make_run q w s.boot_id pending) r) s.db.runs
