-- ===== src/Store/Lifecycle.antt =====
-- internal/store/store.go: the guarded statements that create, start, finish, recover and delete
-- runs, and the replay keys.
use minicrond.Prelude.{
  ℤ, nat_eq, string_eq, ◌||◌, ℕ, ◌-◌, String, Bool, ◌&&◌, Option, none, some, List, ◌==◌, eqb, ltb,
  has, find, select, update, count, not, if◌then◌else◌,
}
use minicrond.Store.Tables.{
  ResourceUsage, Status, queued, pending, running, interrupted, status_eq, Run, KeyRow, Db,
  Idempotency, Result, ok, err, ◌>>=◌, invalid_transition, idempotency_conflict, not_found,
  unix_micro, day, has_id, same_key, insert_run, insert_key, QueueRow,
}

-- `CreateRun`.
unfoldable pub create_run : Run → Db → Result Db
create_run r db = insert_run r db

-- `reserveIdempotency` on a clock reading `at`: the run of a live key, or the table without the key
-- if it has run out.
unfoldable pub reserve_idempotency : Idempotency → ℕ → Db → Result (Option String × Db)
reserve_idempotency i at db = elim (find (same_key i) db.keys) [
  | none ↦ ok (none, db)
  | some k ↦
      if ltb (unix_micro (at - day)) k.created_us
      then (if k.idem.request_hash == i.request_hash
          then ok (some k.run_id, db)
          else err idempotency_conflict)
      else ok (none, record db { keys = select (λ x. not (same_key i x)) db.keys })
]

-- What `AdmitIdempotentRun` does for a key that no live run holds.
unfoldable pub admit_new : Run → Idempotency → ℕ → Db → Result (Option String × Db)
unfolding insert_run insert_key
admit_new r i now db = do db1 ← insert_run r db; db2 ← insert_key i r.id now db1; ok (none, db2)

-- `AdmitIdempotentRun`: its two clock readings are `at` and `now`.
unfoldable pub admit_idempotent_run : Run → Idempotency → ℕ → ℕ → Db → Result (Option String × Db)
unfolding admit_new reserve_idempotency
admit_idempotent_run r i at now db = do
  (replay, db1) ← reserve_idempotency i at db
  elim replay [ some id ↦ ok (some id, db) | none ↦ admit_new r i now db1 ]

-- `IdempotentRun`.
unfoldable pub idempotent_run : Idempotency → ℕ → Db → Result String
idempotent_run i now db =
    elim (find (λ k. same_key i k && ltb (unix_micro (now - day)) k.created_us) db.keys) [
      | none ↦ err not_found
      | some k ↦
          if k.idem.request_hash == i.request_hash then ok k.run_id else err idempotency_conflict
    ]

-- A guarded UPDATE of one run: the primary key lets it touch one row at most, and a caller that
-- touched none is told so.
unfoldable pub update_one : (Run → Bool) → (Run → Run) → Db → Result Db
update_one p f db =
    if eqb (count p db.runs) 1
    then ok (record db { runs = update p f db.runs })
    else err invalid_transition

abbrev pub start_guard : String → Run → Bool
start_guard id r = has_id id r && r.status == pending

-- `StartRun`.
unfoldable pub start_run : String → ℕ → ℕ → String → ℕ → Db → Result Db
unfolding update_one
start_run id pid pgid start_id at = update_one (start_guard id) (λ r. record r {
  status = running;
  pid = pid;
  pgid = pgid;
  process_start_id = start_id;
  started_us = some (unix_micro at);
})

-- What a run ends with.
pub record Ending : Type 0 where
  pub status : Status
  pub reason : String
  pub code : Option ℤ
  pub signal : String
  pub at : ℕ
  pub bytes : ℕ
  pub truncated : Bool
  pub usage : Option ResourceUsage

abbrev pub finish_guard : String → Status → Run → Bool
finish_guard id s r = has_id id r && (r.status == pending || r.status == running || r.status == s)

abbrev pub finish_row : Ending → Run → Run
finish_row e r = record r {
  status = e.status;
  end_reason = e.reason;
  exit_code = e.code;
  signal = e.signal;
  ended_us = some (unix_micro e.at);
  log_bytes = e.bytes;
  log_truncated = e.truncated;
  resource_usage = e.usage;
}

-- `FinishRunWithUsage`.
unfoldable pub finish_run : String → Ending → Db → Result Db
unfolding update_one
finish_run id e = update_one (finish_guard id e.status) (finish_row e)

abbrev pub queued_for : String → QueueRow → Bool
queued_for id q = q.run_id == id

abbrev pub recover_guard : List QueueRow → Run → Bool
recover_guard queue r =
    r.status == pending
    || r.status == running
    || r.status == queued && not (has (queued_for r.id) queue)

-- `Recover` at boot.
unfoldable pub recover : ℕ → Db → Db
recover now db = record db {
  runs =
      update (recover_guard db.queue)
        (λ r. record r {
          status = interrupted;
          end_reason = "crash_recovery";
          ended_us = some (unix_micro now);
        })
        db.runs;
}

-- The rows that `DeleteRuns` takes: terminal runs of the page that no live replay key names.
abbrev pub deletable : List String → ℕ → List KeyRow → Run → Bool
deletable ids at keys r =
    has (λ id. id == r.id) ids
    && (not (r.status == pending || r.status == running || r.status == queued)
        && not (has (λ k. k.run_id == r.id && ltb (unix_micro (at - day)) k.created_us) keys))

-- `DeleteRuns`; the queue row of a deleted run would go with it (ON DELETE CASCADE).
unfoldable pub delete_runs : List String → ℕ → Db → Db
delete_runs ids at db = record db {
  runs = select (λ r. not (deletable ids at db.keys r)) db.runs;
  queue =
      select (λ q. not (has (λ r. has_id q.run_id r && deletable ids at db.keys r) db.runs))
        db.queue;
}
