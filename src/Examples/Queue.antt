-- ===== src/Examples/Queue.antt =====
-- The store and its queue: two jobs, one of them queued under a replay key.
use minicrond.Prelude.{nat_eq, string_eq, ◌≡◌, refl, true, false, none, some, List, [], ◌∷◌, arith}
use minicrond.Store.Tables.{
  Run, job, Db, Idempotency, pending, err, status_eq, idempotency_conflict,
}
use minicrond.Store.Queue.{QueueLimits, enqueue_run, expire_queued}
use minicrond.Store.Queue.Limits.{Within, enqueue_run-Within}
use minicrond.Store.Queue.Replay.{enqueue_run_replay}
use minicrond.Store.Queue.Expired.{Expires, expire_queued-Expires}
use minicrond.Store.Sound.Invariant.{IsSound}
use minicrond.Store.Sound.Steps.{
  Op, enqueue, dequeue, run_all, apply, empty, empty-IsSound, run_all-IsSound,
}
use minicrond.Store.History.{Advances, run_of, apply-Advances}

abbrev pub backup : Run
backup = record {
  id = "r1";
  definition_id = 7;
  job_name = "backup";
  kind = job;
  revision = 1;
  definition_hash = "h";
  status = pending;
  end_reason = "";
  trigger = "manual";
  attempt = 1;
  parent_run_id = "";
  scheduled_for_us = none;
  missed_count = 0;
  boot_id = "b";
  pid = 0;
  pgid = 0;
  process_start_id = "";
  exit_code = none;
  signal = "";
  queued_us = 3;
  started_us = none;
  ended_us = none;
  log_ref = "file:r1";
  log_bytes = 0;
  log_truncated = false;
  resource_usage = none;
}

abbrev pub report : Run
report = record backup { id = "r2"; definition_id = 8; job_name = "report" }

abbrev pub limits : QueueLimits
limits = record { max_items = 2; max_per_job = 1; max_bytes = 1000; max_age = 900000000000 }

abbrev key : Idempotency
key = record { principal = "p"; operation = "run"; key = "k"; request_hash = "x" }

abbrev two_queued : List Op
two_queued =
    enqueue backup (some key) limits true 90000000000000 90000000000000
    ∷ enqueue report none limits true 90000000001000 90000000001000
    ∷ []

abbrev pub busy : Db
busy = run_all two_queued empty

pub busy-IsSound : IsSound busy
busy-IsSound = run_all-IsSound two_queued empty (tt, (tt, tt)) empty-IsSound

run_all-IsSound_example : IsSound (run_all two_queued empty)
run_all-IsSound_example = run_all-IsSound two_queued empty (tt, (tt, tt)) empty-IsSound

apply-Advances_example :
    Advances (run_of "r1" busy) (run_of "r1" (apply (dequeue "r1" 2 "h2" "b2") busy))
apply-Advances_example = apply-Advances (dequeue "r1" 2 "h2" "b2") "r1" busy tt busy-IsSound.keyed

abbrev first_queued : Db
first_queued =
    run_all (enqueue backup (some key) limits true 90000000000000 90000000000000 ∷ []) empty

enqueue_run-Within_example : Within limits 7 first_queued.queue
unfolding enqueue_run run_all
enqueue_run-Within_example =
    (enqueue_run-Within backup (some key) limits true 90000000000000 90000000000000 empty
      first_queued refl).0

enqueue_run_replay_example :
    enqueue_run report
      (some (record key { request_hash = "y" }))
      limits
      true
      90000000005000
      90000000005000
      first_queued
    ≡ err idempotency_conflict
unfolding enqueue_run run_all
enqueue_run_replay_example =
    enqueue_run_replay backup report key "y" limits limits true true 90000000000000 90000000000000
      90000000005000 90000000005000 empty first_queued refl refl (omega arith)

expire_queued-Expires_example :
    Expires 90901000000000 10 busy
      (expire_queued 90901000000000 10 busy).0
      (expire_queued 90901000000000 10 busy).1
expire_queued-Expires_example = expire_queued-Expires 90901000000000 10 busy busy-IsSound
