-- ===== src/Config/Load.antt =====
-- internal/config/config.go: the whole configuration validated, and `Load` on the decoded file.
use minicrond.Prelude.{
  ℕ, zero, suc, String, Bool, true, false, not, ◌&&◌, ◌||◌, inl, inr, Option, none, some, List, [],
  ◌∷◌, ◌++◌, ℤ, pos, ◌==◌, string_eq, length, take, ◌+◌,
}
use minicrond.Config.Values.{
  lower_than, above, less, is_zero, zero_int, zero_text, too_long, minute_ns, day_ns,
  validate_clock,
}
use minicrond.Config.Definition.{Definition, Explicit, zero_definition, given}
use minicrond.Config.Fill.{apply_definition_defaults}
use minicrond.Config.Check.{Host, Rule, first_problem, no_rows}
use minicrond.Config.Validate.{Checked, answer, chain, validate_definitions}
use minicrond.Config.Settings.{Config, ServerSettings, Logs, tcp_on, unix_on, apply_config_defaults}

-- `net.SplitHostPort` fails, or the address is plaintext beyond the loopback.
abbrev pub bad_host : Host → ServerSettings → Option String → Bool
bad_host o s none = true
bad_host o s (some host) =
    not s.allow_insecure_remote && not (host == "localhost") && not (o.is_loopback host)

-- `value < lo || value > hi`.
abbrev outside : ℤ → ℕ → ℕ → Bool
outside z lo hi = lower_than z lo || above z hi

-- `MaxDBMaxSizeMiB`.
abbrev pub max_size_mib : ℕ
max_size_mib = 1073741824

abbrev bad_min_free : Option ℤ → Bool
bad_min_free none = false
bad_min_free (some z) = outside z 0 max_size_mib

abbrev logs_rules : Logs → List Rule
logs_rules l =
    (not (l.backend == "file"), "logs.backend")
    ∷ (outside l.max_line 1 16384, "logs.max_line")
    ∷ (lower_than l.worker_flush_interval 1, "logs.worker_flush_interval")
    ∷ (too_long l.worker_flush_interval minute_ns, "logs.worker_flush_interval")
    ∷ (lower_than l.db_keep_for 1, "logs.db_keep_for")
    ∷ (too_long l.db_keep_for day_ns, "logs.db_keep_for")
    ∷ (not (validate_clock l.db_prune_at), "logs.db_prune_at")
    ∷ (outside l.db_max_size 0 max_size_mib, "logs.db_max_size")
    ∷ (not (l.durability == "batch") && not (l.durability == "frame"), "logs.durability")
    ∷ (outside l.sync_interval 100 60000, "logs.sync_interval")
    ∷ (outside l.sync_max_dirty 1 65536, "logs.sync_max_dirty")
    ∷ (outside l.disk_budget 0 max_size_mib, "logs.disk_budget")
    ∷ (outside l.quarantine_max_size 0 max_size_mib, "logs.quarantine_max_size")
    ∷ (bad_min_free l.disk_min_free, "logs.disk_min_free")
    ∷ (lower_than l.quarantine_keep_for 0, "logs.quarantine_keep_for")
    ∷ (too_long l.quarantine_keep_for day_ns, "logs.quarantine_keep_for")
    ∷ []

abbrev not_common : Definition → Bool
not_common d =
    not (is_zero d.name)
    || not (is_zero d.command)
    || not (no_rows d.argv)
    || not (is_zero d.schedule)
    || given d.autostart
    || not (is_zero d.restart)
    || not (is_zero d.restart_delay)
    || not (is_zero d.healthy_after)
    || not (is_zero d.max_restart_attempts)
    || not (is_zero d.restart_backoff_max)

-- The tests of `validateConfig` up to the defaults, in their order.
unfoldable pub config_rules : Host → Config → List Rule
config_rules o c =
    let s = c.server in
    let q = c.queue in
    ((not (o.trusted c.scheduler.trusted_path), "scheduler.trusted_path")
      ∷ (
        not (tcp_on s) && not (unix_on s),
        "server: tcp_enabled and unix_socket cannot both be false",
      )
      ∷ (tcp_on s && bad_host o s (o.split_host s.bind), "server.bind")
      ∷ (outside c.scheduler.max_concurrent_runs 1 1024, "scheduler.max_concurrent_runs")
      ∷ (outside c.scheduler.shutdown_grace 0 3600, "scheduler.shutdown_grace")
      ∷ (outside q.max_items 1 10000, "queue.max_items")
      ∷ (lower_than q.max_per_job 1 || less q.max_items q.max_per_job, "queue.max_per_job")
      ∷ (outside q.max_bytes 1 65536, "queue.max_bytes")
      ∷ (outside q.max_age 1 604800, "queue.max_age")
      ∷ (outside q.drain_rate 1 1000, "queue.drain_rate")
      ∷ (outside q.max_pending_retries 1 100000, "queue.max_pending_retries")
      ∷ (
        lower_than c.storage.keep_runs_default 1 || lower_than c.storage.audit_keep 1,
        "storage retention counts must be positive",
      )
      ∷ (lower_than c.storage.keep_for_default 1, "storage.keep_for_default")
      ∷ (too_long c.storage.keep_for_default day_ns, "storage.keep_for_default")
      ∷ (not (o.load_location c.scheduler.timezone), "scheduler.timezone")
      ∷ [])
    ++ logs_rules c.logs
    ++ (outside c.reads.slots 1 64, "reads.slots")
      ∷ (outside c.reads.budget 8 4096, "reads.budget")
      ∷ (outside c.reads.work_timeout 1 300, "reads.work_timeout")
      ∷ (
        not (c.storage.synchronous == "full") && not (c.storage.synchronous == "normal"),
        "storage.synchronous",
      )
      ∷ (not_common c.defaults, "defaults: only common job settings are allowed")
      ∷ []

-- The job that the defaults are tried on.
abbrev probe_job : Config → Definition
probe_job c =
    apply_definition_defaults
      (record zero_definition { name = "defaults"; kind = "job"; command = "true" }) c.defaults
      (record { timeout = false; retries = false })

abbrev pub after : Option String → Option String → Option String
after (some m) p = some m
after none p = p

abbrev problem : {A : Type 0} → Checked A → Option String
problem (inl m) = some m
problem (inr a) = none

-- `validateConfig`.
unfoldable pub validate_config : Host → Config → Option String
validate_config o c =
    after (first_problem (config_rules o c))
      (problem (validate_definitions o c.scheduler.timezone [] (probe_job c ∷ [])))

-- `presenceAt`.
unfoldable pub presence_at : List Explicit → ℕ → Explicit
presence_at [] i = record { timeout = false; retries = false }
presence_at (e ∷ es) zero = e
presence_at (e ∷ es) (suc i) = presence_at es i

-- One turn of a loop of `Load`, on one section's kind.
unfoldable pub load_init : Definition → Explicit → Definition → Checked Definition
load_init defaults ex d =
    answer
      (first_problem (
        (not (is_zero d.schedule), "init cannot have schedule")
        ∷ (not (is_zero d.retries), "init cannot have retries")
        ∷ []))
      (record (apply_definition_defaults
        (record d { kind = "job"; source = "config"; run_on_start = true }) defaults ex) {
          retries = pos 0;
        })

unfoldable pub load_job : Definition → Explicit → Definition → Checked Definition
load_job defaults ex d =
    answer
      (first_problem (
        (d.run_on_start, "job: use [[init]] for startup tasks")
        ∷ (is_zero d.schedule, "job: schedule is required for config-owned jobs")
        ∷ []))
      (apply_definition_defaults (record d { kind = "job"; source = "config" }) defaults ex)

unfoldable pub load_worker : Definition → Explicit → Definition → Checked Definition
load_worker defaults ex d =
    inr (apply_definition_defaults (record d { kind = "worker"; source = "config" }) defaults ex)

-- A loop of `Load` over one section, from the index i on.
abbrev pub load_all :
    (Explicit → Definition → Checked Definition)
    → List Explicit
    → ℕ
    → List Definition
    → Checked (List Definition)
load_all f present i [] = inr []
load_all f present i (d ∷ ds) =
    let rest = load_all f present (suc i) ds in
    elim (f (presence_at present i) d) [ inl m ↦ inl m | inr e ↦ chain rest (λ es. e ∷ es) ]

-- `Definitions`.
abbrev pub definitions : Config → List Definition
definitions c = c.init ++ (c.jobs ++ c.workers)

-- `presenceFile`.
pub record PresenceFile : Type 0 where
  pub init : List Explicit
  pub jobs : List Explicit
  pub workers : List Explicit

abbrev pub drop_rows : {A : Type 0} → ℕ → List A → List A
drop_rows zero xs = xs
drop_rows (suc n) [] = []
drop_rows (suc n) (x ∷ xs) = drop_rows n xs

-- The three copies at the end of `Load`.
abbrev pub split_up : Config → List Definition → Config
split_up c defs = record c {
  init = take (length c.init) defs;
  jobs = take (length c.jobs) (drop_rows (length c.init) defs);
  workers = drop_rows (length c.init + length c.jobs) defs;
}

abbrev pub bind : {A B : Type 0} → Checked A → (A → Checked B) → Checked B
bind (inl m) f = inl m
bind (inr a) f = f a

-- `Load` on the decoded file.
unfoldable pub load : Host → Config → PresenceFile → Checked Config
load o raw present =
    let c = apply_config_defaults raw in
    elim (validate_config o c) [
      | some m ↦ inl m
      | none ↦ bind (load_all (load_init c.defaults) present.init 0 c.init) λ init.
          bind (load_all (load_job c.defaults) present.jobs 0 c.jobs) λ jobs.
            bind (load_all (load_worker c.defaults) present.workers 0 c.workers) λ workers.
              let filled = record c { init = init; jobs = jobs; workers = workers } in
              chain (validate_definitions o c.scheduler.timezone [] (definitions filled))
                (split_up filled)
    ]
