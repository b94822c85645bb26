-- ===== src/Examples/Service.antt =====
-- The executor: one slot, a backup that skips overlapping runs, and a report that waits.
use minicrond.Prelude.{
  ◌≤◌, count, nat_eq, string_eq, ℕ, String, ◌≡◌, refl, false, none, List, [], ◌∷◌, arith, pos, ◌==◌,
  if◌then◌else◌,
}
use minicrond.Store.Tables.{Run, Kind, job, Db, succeeded, QueueRow}
use minicrond.Store.Lifecycle.{Ending}
use minicrond.Store.Queue
use minicrond.Store.Lifecycle
use minicrond.Store.Tables
use minicrond.Store.Sound.Steps.{empty, run_all}
use minicrond.Model.{Definition}
use minicrond.Executor.State.{queueable, Service, QueueOptions, RetryItem, with_defaults, found}
use minicrond.Executor.Backlog.{World, Request}
use minicrond.Executor.Trigger.{trigger, launch}
use minicrond.Executor.Drain.{best_of, Readings, next_item, queue_head_window}
use minicrond.Executor.Capacity.Frame.{Same}
use minicrond.Executor.Capacity.Books.{Held, named}
use minicrond.Executor.Capacity.Moves.{Move, request, make_moves, make_moves-Held}
use minicrond.Executor.SingleFlight.{make_moves-Lone}
use minicrond.Executor.Capacity.Launches.{Launches}
use minicrond.Executor.Fairness.{Among, next_item-Foremost, Foremost}
use minicrond.Executor.Overlap.{trigger-overlap}
use minicrond.Examples.Queue.{busy}

abbrev options : QueueOptions
options = with_defaults (record {
  disabled = false;
  max_items = 2;
  max_per_job = 0;
  max_bytes = 0;
  max_age = 0;
  drain_rate = 0;
  max_pending_retries = 1;
  max_finalizers = 1;
})

abbrev idle : Service
idle = record {
  db = empty;
  options = options;
  max_runs = 1;
  boot_id = "b";
  closing = false;
  in_use = 0;
  active = [];
  by_job = λ _. 0;
  queue = record {
    depth = pos 0;
    wake = false;
    started = false;
    served = [];
    tick = 0;
    next_start = 0;
    expired = 0;
    rejected = 0;
    unavailable = 0;
    dropped = 0;
  };
  retries = record {
    heap = [];
    started = false;
    wake = false;
    dropped = 0;
    evidence = [];
    lost = 0;
  };
  finalizing = [];
  finals_started = false;
  health = record { down = false; deferred = 0; dropped = 0 };
  outcomes = [];
  notified = [];
}

abbrev nightly : Definition
nightly = record {
  id = 7;
  name = "backup";
  kind = job;
  revision = 1;
  enabled = none;
  schedule = "@daily";
  timezone = "";
  catch_up = "";
  on_overlap = "skip";
  on_history_unavailable = "";
  retries = 1;
  retry_delay = 0;
  autostart = none;
  restart = "";
  restart_delay = 0;
  max_restart_attempts = 0;
  restart_backoff_max = 0;
  healthy_after = 0;
}

abbrev reporting : Definition
reporting = record nightly { id = 8; name = "report" }

abbrev ask : Definition → Request
ask d = record {
  def = d;
  hash = "h";
  trigger = "manual";
  scheduled = none;
  idem = none;
  attempt = 1;
  parent = "";
}

abbrev calm : String → ℕ → World
calm id now = record {
  now = now;
  id = id;
  admitted = none;
  closes = false;
  closes_late = false;
  canceled = false;
  fails = λ _. false;
  lookup = λ n. found (if n == "backup" then nightly else reporting) "h";
}

abbrev readings : ℕ → Readings
readings now = record {
  at_expire = now;
  at_rate = now;
  at_sleep = now;
  at_check = now;
  at_start = now;
  closes_mid = false;
}

idle-Held : Held 0 idle
idle-Held = record { slots_taken = refl; bounded = omega arith; by_name = λ _. refl }

abbrev two_requests : List Move
two_requests =
    request (ask nightly) (calm "r1" 90000000000000)
    ∷ request (ask reporting) (calm "r2" 90000000001000)
    ∷ []

abbrev full : Service
full = make_moves two_requests idle

-- The report waits in the queue for the slot of the backup.
full_depth : full.queue.depth ≡ pos 1
unfolding trigger with_defaults Lifecycle.create_run Tables.insert_run Queue.enqueue_run queueable
    launch
full_depth = refl

full-Held : Held 0 full
full-Held = make_moves-Held two_requests idle idle-Held (tt, (tt, tt))

make_moves-Held_example : Held 0 (make_moves two_requests idle)
make_moves-Held_example = make_moves-Held two_requests idle idle-Held (tt, (tt, tt))

trigger-overlap_example : Same full (trigger (ask nightly) (calm "r3" 90000000002000) full).0
unfolding trigger with_defaults Lifecycle.create_run Tables.insert_run Queue.enqueue_run queueable
    launch
trigger-overlap_example =
    trigger-overlap (ask nightly) (calm "r3" 90000000002000) full full-Held refl refl (omega arith)

abbrev later : RetryItem
later = record {
  due = 9;
  run_id = "r1";
  name = "backup";
  def_id = 7;
  revision = 1;
  hash = "h";
  attempt = 1;
  scheduled = none;
  delay = 5;
}

abbrev earlier : RetryItem
earlier = record later { due = 4; run_id = "r2" }

-- The row of the report: the backup was served at tick 1.
abbrev first_row : QueueRow
first_row = record {
  seq = 2;
  run_id = "r2";
  definition_id = 8;
  enqueued_us = 90000000001;
  expires_us = 90900000001;
  payload_bytes = 144;
}

next_item-Foremost_example :
    Among first_row (Queue.queue_heads queue_head_window busy)
    × Foremost ((7, 1) ∷ []) first_row (Queue.queue_heads queue_head_window busy)
unfolding next_item Queue.enqueue_run run_all Queue.queue_heads best_of
next_item-Foremost_example = next_item-Foremost ((7, 1) ∷ []) busy first_row refl

make_moves-Lone_example :
    count
      (named "backup")
      (make_moves (request (ask nightly) (calm "r3" 90000000002000) ∷ []) full).active
    ≤ 1
unfolding trigger with_defaults Lifecycle.create_run Tables.insert_run Queue.enqueue_run queueable
    launch
make_moves-Lone_example =
    make_moves-Lone "backup" (request (ask nightly) (calm "r3" 90000000002000) ∷ []) full
      ((λ _. refl), tt) (tt, tt) full-Held (omega arith)
