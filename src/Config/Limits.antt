-- ===== src/Config/Limits.antt =====
-- internal/config/config.go: the limits that `validateConfig` ensures, and the sizes and durations computed
-- from what it lets through.
use minicrond.Prelude.{
  ℕ, ◌≤◌, ◌*◌, ◌≡◌, refl, ap, ◌∙◌, min, String, true, false, ◌||◌, Option, none, some, ℤ, pos,
  negsuc, arith, ◌==◌, string_eq,
}
use minicrond.Config.Values.{
  lower_than, less, mebibytes, max_int64, int64, too_long, minute_ns, day_ns, validate_clock,
}
use minicrond.Config.Check.{Host, first_problem}
use minicrond.Config.Settings.{
  Config, ServerSettings, Logs, tcp_on, unix_on, quarantine_keep_duration, max_size_bytes,
  disk_budget_bytes, quarantine_max_bytes,
}
use minicrond.Config.Load.{config_rules, validate_config, max_size_mib, after, bad_host}
use minicrond.Config.Rules.{rule_at, first_problem-none}
use minicrond.Config.Valid.{Within, lower_than-above-Within, days-Within}

int64-small : (n : ℕ) → n ≤ max_int64 → int64 n ≡ pos n
unfolding int64
int64-small n h = ground (arith, h)

-- A size in MiB, in bytes: the exact product wherever that fits `int64`, and the largest `int64` beyond.
pub mebibytes-saturates : (v : ℕ) → mebibytes (pos v) ≡ pos (min (v * 1048576) max_int64)
unfolding mebibytes int64
mebibytes-saturates v = ground arith

-- A configuration that the daemon starts with.
pub record Limits (o : Host) (c : Config) : Type 0 where
  pub listens : (tcp_on c.server || unix_on c.server) ≡ true
  -- plaintext HTTP stays on the loopback unless the configuration allows more
  pub loopback :
      tcp_on c.server ≡ true
      → c.server.allow_insecure_remote ≡ false
      → (h : String) × ((o.split_host c.server.bind ≡ some h)
          × ((h == "localhost" || o.is_loopback h) ≡ true))
  pub max_concurrent_runs : Within 1 1024 c.scheduler.max_concurrent_runs
  pub max_items : Within 1 10000 c.queue.max_items
  pub max_per_job : less c.queue.max_items c.queue.max_per_job ≡ false
  pub max_bytes : Within 1 65536 c.queue.max_bytes
  pub max_age : Within 1 604800 c.queue.max_age
  pub drain_rate : Within 1 1000 c.queue.drain_rate
  pub max_pending_retries : Within 1 100000 c.queue.max_pending_retries
  pub slots : Within 1 64 c.reads.slots
  pub budget : Within 8 4096 c.reads.budget
  pub clock : validate_clock c.logs.db_prune_at ≡ true
  -- in days and in minutes: in nanoseconds each fits `int64`
  pub keep_for_default : Within 0 106751 c.storage.keep_for_default
  pub db_keep_for : Within 0 106751 c.logs.db_keep_for
  pub worker_flush_interval : Within 0 153722867 c.logs.worker_flush_interval
  -- the conversions are exact
  pub max_size :
      (v : ℕ) × ((c.logs.db_max_size ≡ pos v) × (max_size_bytes c.logs ≡ pos (v * 1048576)))
  pub disk_budget :
      (v : ℕ) × ((c.logs.disk_budget ≡ pos v) × (disk_budget_bytes c.logs ≡ pos (v * 1048576)))
  pub quarantine_max :
      (v : ℕ) × ((c.logs.quarantine_max_size ≡ pos v)
        × (quarantine_max_bytes c.logs ≡ pos (v * 1048576)))
  pub quarantine_keep :
      (v : ℕ) × ((c.logs.quarantine_keep_for ≡ pos v)
        × (quarantine_keep_duration c.logs ≡ pos (v * day_ns)))

exact_size :
    (z : ℤ) → Within 0 max_size_mib z → (v : ℕ) × ((z ≡ pos v) × (mebibytes z ≡ pos (v * 1048576)))
exact_size z (v, (e, (l, h))) =
    (v, (e, ap mebibytes e ∙ mebibytes-saturates v ∙ ap pos (ground (arith, h))))

exact_days :
    (l : Logs)
    → Within 0 106751 l.quarantine_keep_for
    → (v : ℕ) × ((l.quarantine_keep_for ≡ pos v) × (quarantine_keep_duration l ≡ pos (v * day_ns)))
unfolding quarantine_keep_duration
exact_days l (v, (e, (m, h))) = (v, (e, rw e (int64-small (v * day_ns) (ground (arith, h)))))

minutes-Within :
    (z : ℤ) → lower_than z 1 ≡ false → too_long z minute_ns ≡ false → Within 0 153722867 z
unfolding too_long
minutes-Within (pos a) h k = (a, (refl, (ground arith, ground (arith, k))))
minutes-Within (negsuc a) h k = absurd (ground (arith, h))

at_least_one : (z : ℤ) → lower_than z 1 ≡ false → lower_than z 0 ≡ false
at_least_one (pos a) h = ground arith
at_least_one (negsuc a) h = absurd (ground (arith, h))

local_host :
    (o : Host) (s : ServerSettings) (p : Option String)
    → bad_host o s p ≡ false
    → s.allow_insecure_remote ≡ false
    → (h : String) × ((p ≡ some h) × ((h == "localhost" || o.is_loopback h) ≡ true))
local_host o s none b r = absurd (ground (arith, b))
local_host o s (some h) b r = (h, (refl, ground (arith, b, r)))

config_rules-Limits : (o : Host) (c : Config) → first_problem (config_rules o c) ≡ none → Limits o c
unfolding config_rules
config_rules-Limits o c h =
    let passed : (n : ℕ) → (rule_at n (config_rules o c)).0 ≡ false =
      λ n. first_problem-none n (config_rules o c) h in
    record {
      listens = ground (arith, passed 1);
      loopback =
          λ t r. local_host o c.server (o.split_host c.server.bind) (ground (arith, passed 2, t)) r;
      max_concurrent_runs =
          lower_than-above-Within 1 1024 c.scheduler.max_concurrent_runs (passed 3);
      max_items = lower_than-above-Within 1 10000 c.queue.max_items (passed 5);
      max_per_job = ground (arith, passed 6);
      max_bytes = lower_than-above-Within 1 65536 c.queue.max_bytes (passed 7);
      max_age = lower_than-above-Within 1 604800 c.queue.max_age (passed 8);
      drain_rate = lower_than-above-Within 1 1000 c.queue.drain_rate (passed 9);
      max_pending_retries =
          lower_than-above-Within 1 100000 c.queue.max_pending_retries (passed 10);
      slots = lower_than-above-Within 1 64 c.reads.slots (passed 31);
      budget = lower_than-above-Within 8 4096 c.reads.budget (passed 32);
      clock = ground (arith, passed 21);
      keep_for_default =
          days-Within c.storage.keep_for_default
            (at_least_one c.storage.keep_for_default (passed 12)) (passed 13);
      db_keep_for =
          days-Within c.logs.db_keep_for (at_least_one c.logs.db_keep_for (passed 19)) (passed 20);
      worker_flush_interval = minutes-Within c.logs.worker_flush_interval (passed 17) (passed 18);
      max_size =
          exact_size c.logs.db_max_size
            (lower_than-above-Within 0 max_size_mib c.logs.db_max_size (passed 22));
      disk_budget =
          exact_size c.logs.disk_budget
            (lower_than-above-Within 0 max_size_mib c.logs.disk_budget (passed 26));
      quarantine_max =
          exact_size c.logs.quarantine_max_size
            (lower_than-above-Within 0 max_size_mib c.logs.quarantine_max_size (passed 27));
      quarantine_keep =
          exact_days c.logs (days-Within c.logs.quarantine_keep_for (passed 29) (passed 30));
    }

after-none : (p q : Option String) → after p q ≡ none → p ≡ none
after-none none q h = refl
after-none (some m) q h = absurd (ground (arith, h))

-- A configuration that `validateConfig` lets through has a listener, keeps plaintext HTTP on the loopback
-- unless it allows more, has its limits in range with a job's share of the queue not above the whole,
-- and its sizes and durations are converted exactly: nothing saturates, nothing wraps.
pub validate_config-Limits : (o : Host) (c : Config) → validate_config o c ≡ none → Limits o c
unfolding validate_config
validate_config-Limits o c h =
    config_rules-Limits o c (after-none (first_problem (config_rules o c)) _ h)
