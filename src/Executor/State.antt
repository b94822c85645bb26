-- ===== src/Executor/State.antt =====
-- internal/executor/executor.go and queue.go: the state of the service that admission, the drain
-- loop, the retry scheduler and the history writer share. Clock readings are nanoseconds.
use minicrond.Prelude.{
  nat_eq, string_eq, ◌||◌, ℕ, ◌-◌, ◌*◌, String, Bool, true, ◌&&◌, Option, ℤ, positive, List, ◌∷◌,
  ◌==◌, not, if◌then◌else◌, min, eqb,
}
use minicrond.Store.Tables.{Run, Db}
use minicrond.Store.Lifecycle.{Ending}
use minicrond.Store.Queue.{QueueLimits}
use minicrond.Model.{Definition}

-- `QueueOptions`; a field that is 0 asks for its default.
pub record QueueOptions : Type 0 where
  pub disabled : Bool
  pub max_items : ℕ
  pub max_per_job : ℕ
  pub max_bytes : ℕ
  pub max_age : ℕ
  pub drain_rate : ℕ
  pub max_pending_retries : ℕ
  pub max_finalizers : ℕ

abbrev pub or_default : ℕ → ℕ → ℕ
or_default n d = if eqb n 0 then d else n

abbrev pub second : ℕ
second = 1000000000

-- `withDefaults`: the limit per job is taken from the limit of the queue.
unfoldable pub with_defaults : QueueOptions → QueueOptions
with_defaults o =
    let items = or_default o.max_items 100 in
    record {
      disabled = o.disabled;
      max_items = items;
      max_per_job = or_default o.max_per_job (min 25 items);
      max_bytes = or_default o.max_bytes 262144;
      max_age = or_default o.max_age (15 * 60 * second);
      drain_rate = or_default o.drain_rate 5;
      max_pending_retries = or_default o.max_pending_retries 500;
      max_finalizers = or_default o.max_finalizers 1024;
    }

-- `queueState`: `depth` mirrors the number of rows, `wake` is the one-slot wake-up channel, and a
-- definition that `served` does not name was last served at tick 0.
pub record QueueState : Type 0 where
  pub depth : ℤ
  pub wake : Bool
  pub started : Bool
  pub served : List (ℕ × ℕ)
  pub tick : ℕ
  pub next_start : ℕ
  pub expired : ℕ
  pub rejected : ℕ
  pub unavailable : ℕ
  pub dropped : ℕ

-- `retryItem`.
pub record RetryItem : Type 0 where
  pub due : ℕ
  pub run_id : String
  pub name : String
  pub def_id : ℕ
  pub revision : ℕ
  pub hash : String
  pub attempt : ℕ
  pub scheduled : Option ℕ
  pub delay : ℕ

-- `retryState`; the heap is the list of its items by due time.
pub record RetryState : Type 0 where
  pub heap : List RetryItem
  pub started : Bool
  pub wake : Bool
  pub dropped : ℕ
  pub evidence : List RetryItem
  pub lost : ℕ

-- `startInfo`.
pub record StartInfo : Type 0 where
  pub pid : ℕ
  pub pgid : ℕ
  pub id : String
  pub at : ℕ

-- `finalItem`: what of a run's history still has to be written.
pub record FinalItem : Type 0 where
  pub run : Run
  pub create : Bool
  pub start : Option StartInfo
  pub done : Option Ending
  pub backoff : ℕ
  pub next_try : ℕ
  pub attempts : ℕ

-- `storageHealth`.
pub record Health : Type 0 where
  pub down : Bool
  pub deferred : ℕ
  pub dropped : ℕ

-- `activeRun`, with the definition under which the run executes.
pub record Active : Type 0 where
  pub run : Run
  pub def : Definition
  pub unrecorded : Bool

-- `Service`. `in_use` counts the slots taken of the `capacity` channel, `active` lists the runs
-- being executed with their definitions' names, and `by_job` is the map of that name, whose
-- missing keys read 0. `notified` collects what `onFinished` was called with, newest first.
pub record Service : Type 0 where
  pub db : Db
  pub options : QueueOptions
  pub max_runs : ℕ
  pub boot_id : String
  pub closing : Bool
  pub in_use : ℕ
  pub active : List Active
  pub by_job : String → ℕ
  pub queue : QueueState
  pub retries : RetryState
  pub finalizing : List FinalItem
  pub finals_started : Bool
  pub health : Health
  pub outcomes : List Run
  pub notified : List Run

-- The storage calls of one step, any of which may find the database unavailable.
pub data Call : Type 0 where
  create_run enqueue_run admit_run read_run scheduled_run : Call
  expire_queued next_expiry queue_heads queue_stats drop_queued dequeue_run finish_run : Call

-- What the definition table answers for a name.
pub data Lookup : Type 0 where
  found : Definition → String → Lookup
  missing unreadable : Lookup

-- `queueable`.
unfoldable pub queueable : QueueOptions → String → Bool
queueable o trigger =
    not o.disabled && (trigger == "schedule" || trigger == "manual" || trigger == "retry")

-- `queueLimits`.
abbrev pub queue_limits : QueueOptions → QueueLimits
queue_limits o = record {
  max_items = o.max_items;
  max_per_job = o.max_per_job;
  max_bytes = o.max_bytes;
  max_age = o.max_age;
}

-- `signal` on the queue's channel.
abbrev pub signal_queue : Service → Service
signal_queue s = record s { queue = record (s.queue) { wake = true } }

-- `releaseSlot`.
unfoldable pub release_slot : Service → Service
release_slot s =
    let freed = record s { in_use = s.in_use - 1 } in
    if positive s.queue.depth then signal_queue freed else freed

abbrev pub notify : Run → Service → Service
notify r s = record s { notified = r ∷ s.notified }
