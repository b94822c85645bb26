-- ===== src/Examples/Workers.antt =====
-- The supervisor: a worker with a budget of two failures, and one with a back-off cap.
use minicrond.Prelude.{nat_eq, ◌≡◌, refl, true, false, none, some, [], ◌∷◌, min, ◌*◌, arith}
use minicrond.Store.Tables.{Kind, Run, failed}
use minicrond.Model.{Definition}
use minicrond.Executor.State.{second}
use minicrond.Supervisor.{
  Supervisor, WorkerExhaustion, epoch_of, reset_exhaustion, Attempt, persist_exhaustion, saved,
  after_run, restart_delay,
}
use minicrond.Supervisor.Delay.{doubled, restart_delay_doubles}
use minicrond.Supervisor.Exhausted.{Numbered, persist_exhaustion-overtaken, undisturbed}
use minicrond.Supervisor.Ended.{Decided, after_run-Decided}
use minicrond.Examples.Queue.{backup}

abbrev daemon : Definition
daemon = record {
  id = 3;
  name = "daemon";
  kind = Kind.worker;
  revision = 1;
  enabled = none;
  schedule = "";
  timezone = "";
  catch_up = "";
  on_overlap = "";
  on_history_unavailable = "";
  retries = 0;
  retry_delay = 0;
  autostart = none;
  restart = "always";
  restart_delay = 2;
  max_restart_attempts = 2;
  restart_backoff_max = 60;
  healthy_after = 10;
}

abbrev fresh : Supervisor
fresh = record {
  epochs = λ _. none;
  epoch_base = 0;
  epoch_seq = 0;
  exhausted = λ _. none;
  awaiting = λ _. false;
  closing = false;
  holds = λ _. false;
  failures = λ _. 1;
  active = λ _. none;
  looping = λ _. true;
  retiring = λ _. false;
}

abbrev outcome : WorkerExhaustion
outcome = record { reason = "spent"; last_run_id = "r1"; attempts = 2; revision = 1; at = 0 }

restart_delay_doubles_example : restart_delay daemon 3 ≡ min (doubled 2 (2 * second)) (60 * second)
restart_delay_doubles_example = restart_delay_doubles daemon 3

abbrev after_reset : Attempt
after_reset = record {
  before = λ s. (reset_exhaustion "daemon" true s).0;
  canceled = false;
  save = saved;
  canceled_after = false;
}

persist_exhaustion-overtaken_example :
    Numbered (after_reset.before fresh)
    × (persist_exhaustion daemon (epoch_of "daemon" fresh) outcome (after_reset ∷ []) fresh
        ≡ (after_reset.before fresh, some false))
unfolding reset_exhaustion epoch_of
persist_exhaustion-overtaken_example =
    persist_exhaustion-overtaken daemon true outcome after_reset [] fresh (λ _. omega arith) refl
      refl

abbrev crashed : Run
crashed = record backup { status = failed; started_us = some 1000000; ended_us = some 2000000 }

after_run-Decided_example :
    Decided daemon crashed outcome fresh
      (after_run daemon crashed (undisturbed outcome 1) fresh).0
      (after_run daemon crashed (undisturbed outcome 1) fresh).1
after_run-Decided_example = after_run-Decided daemon crashed outcome 1 fresh
