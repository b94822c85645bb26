-- ===== src/Config/Settings.antt =====
-- internal/config/config.go: the sections of the configuration file, their defaults and their conversions.
use minicrond.Prelude.{
  ℕ, String, Bool, true, Option, none, some, List, ℤ, pos, negsuc, ◌*◌, if◌then◌else◌,
}
use minicrond.Config.Values.{less, cmp_or, or_nil, zero_int, zero_text, mebibytes, int64, day_ns}
use minicrond.Config.Definition.{Definition}

-- `*b`, true where it is nil.
abbrev on : Option Bool → Bool
on none = true
on (some b) = b

-- `Server`, `TCPOn` and `UnixOn`.
pub record ServerSettings : Type 0 where
  pub bind : String
  pub tcp_enabled : Option Bool
  pub unix_socket : Option Bool
  pub allow_insecure_remote : Bool

abbrev pub tcp_on : ServerSettings → Bool
tcp_on s = on s.tcp_enabled

abbrev pub unix_on : ServerSettings → Bool
unix_on s = on s.unix_socket

-- `Scheduler`.
pub record SchedulerSettings : Type 0 where
  pub trusted_path : List String
  pub timezone : String
  pub max_concurrent_runs : ℤ
  pub shutdown_grace : ℤ

-- `Queue` and `On`.
pub record QueueSettings : Type 0 where
  pub enabled : Option Bool
  pub max_items : ℤ
  pub max_per_job : ℤ
  pub max_bytes : ℤ
  pub max_age : ℤ
  pub drain_rate : ℤ
  pub max_pending_retries : ℤ

abbrev pub queue_on : QueueSettings → Bool
queue_on q = on q.enabled

-- `Storage`.
pub record Storage : Type 0 where
  pub keep_runs_default : ℤ
  pub keep_for_default : ℤ
  pub audit_keep : ℤ
  pub synchronous : String

-- `Logs`.
pub record Logs : Type 0 where
  pub backend : String
  pub max_line : ℤ
  pub worker_flush_interval : ℤ
  pub db_keep_for : ℤ
  pub db_prune_at : String
  pub db_max_size : ℤ
  pub durability : String
  pub sync_interval : ℤ
  pub sync_max_dirty : ℤ
  pub disk_budget : ℤ
  pub disk_min_free : Option ℤ
  pub quarantine_keep_for : ℤ
  pub quarantine_max_size : ℤ

-- `DiskBudgetBytes`, `DiskMinFreeBytes`, `QuarantineMaxBytes` and `MaxSizeBytes`.
abbrev pub disk_budget_bytes : Logs → ℤ
disk_budget_bytes l = mebibytes l.disk_budget

abbrev min_free_bytes : Option ℤ → ℤ
min_free_bytes none = mebibytes (pos 512)
min_free_bytes (some v) = mebibytes v

abbrev pub disk_min_free_bytes : Logs → ℤ
disk_min_free_bytes l = min_free_bytes l.disk_min_free

abbrev pub quarantine_max_bytes : Logs → ℤ
quarantine_max_bytes l = mebibytes l.quarantine_max_size

abbrev pub max_size_bytes : Logs → ℤ
max_size_bytes l = mebibytes l.db_max_size

abbrev days : ℤ → ℕ
days (pos v) = v
days (negsuc v) = 0

-- `QuarantineKeepDuration`, in nanoseconds.
unfoldable pub quarantine_keep_duration : Logs → ℤ
quarantine_keep_duration l = int64 (days l.quarantine_keep_for * day_ns)

-- `Reads`.
pub record ReadSettings : Type 0 where
  pub slots : ℤ
  pub budget : ℤ
  pub work_timeout : ℤ

-- `Config`.
pub record Config : Type 0 where
  pub server : ServerSettings
  pub scheduler : SchedulerSettings
  pub queue : QueueSettings
  pub storage : Storage
  pub logs : Logs
  pub reads : ReadSettings
  pub defaults : Definition
  pub init : List Definition
  pub jobs : List Definition
  pub workers : List Definition

abbrev lesser : ℤ → ℤ → ℤ
lesser a b = if less a b then a else b

-- The assignments of `applyConfigDefaults` to one section.
abbrev queue_defaults : QueueSettings → QueueSettings
queue_defaults q =
    let items = cmp_or q.max_items (pos 100) in
    record q {
      max_items = items;
      max_per_job = cmp_or q.max_per_job (lesser (pos 25) items);
      max_bytes = cmp_or q.max_bytes (pos 256);
      max_age = cmp_or q.max_age (pos 900);
      drain_rate = cmp_or q.drain_rate (pos 5);
      max_pending_retries = cmp_or q.max_pending_retries (pos 500);
    }

abbrev storage_defaults : Storage → Storage
storage_defaults s = record s {
  keep_runs_default = cmp_or s.keep_runs_default (pos 10000);
  audit_keep = cmp_or s.audit_keep (pos 10000);
  keep_for_default = cmp_or s.keep_for_default (pos 7);
  synchronous = cmp_or s.synchronous "full";
}

abbrev logs_defaults : Logs → Logs
logs_defaults l = record l {
  backend = cmp_or l.backend "file";
  max_line = cmp_or l.max_line (pos 256);
  worker_flush_interval = cmp_or l.worker_flush_interval (pos 15);
  db_keep_for = cmp_or l.db_keep_for (pos 30);
  db_prune_at = cmp_or l.db_prune_at "03:30";
  durability = cmp_or l.durability "batch";
  sync_interval = cmp_or l.sync_interval (pos 2000);
  sync_max_dirty = cmp_or l.sync_max_dirty (pos 1024);
  disk_min_free = or_nil l.disk_min_free (some (pos 512));
}

-- `applyConfigDefaults`.
unfoldable pub apply_config_defaults : Config → Config
apply_config_defaults c = record c {
  server = record c.server { bind = cmp_or c.server.bind "127.0.0.1:7423" };
  scheduler = record c.scheduler {
    timezone = cmp_or c.scheduler.timezone "UTC";
    max_concurrent_runs = cmp_or c.scheduler.max_concurrent_runs (pos 32);
  };
  queue = queue_defaults c.queue;
  storage = storage_defaults c.storage;
  logs = logs_defaults c.logs;
  reads = record {
    slots = cmp_or c.reads.slots (pos 4);
    budget = cmp_or c.reads.budget (pos 32);
    work_timeout = cmp_or c.reads.work_timeout (pos 20);
  };
}
