-- ===== src/Config/Check.antt =====
-- internal/config/config.go: what a definition must satisfy, and the daemon's reading of a list of them.
-- The time zones, the schedule parser, the users and the paths of the host are parameters.
use minicrond.Prelude.{
  ℕ, String, Bool, true, false, not, ◌&&◌, ◌||◌, Option, none, some, List, [], ◌∷◌, ℤ,
  if◌then◌else◌, has, ◌==◌, string_eq, eqb,
}
use minicrond.Config.Values.{
  lower_than, above, less, is_zero, cmp_or, zero_int, zero_text, too_long, second_ns, day_ns,
  cut_prefix, trim_prefix, before, has_any, name_pattern,
}
use minicrond.Config.Definition.{Definition, job_kind, worker_kind}

-- What the host and the libraries answer.
pub record Host : Type 0 where
  -- `time.LoadLocation`, `filepath.IsAbs`, `cronParser.Parse` and `trustedpath.Validate` succeed.
  pub load_location : String → Bool
  pub is_abs : String → Bool
  pub cron_parse : String → Bool
  pub trusted : List String → Bool
  -- `time.ParseDuration`, in nanoseconds.
  pub parse_duration : String → Option ℤ
  -- `os.Geteuid`, and whether `strconv.Atoi`, `user.LookupId` and `user.Lookup` succeed.
  pub geteuid : ℕ
  pub atoi : String → Bool
  pub lookup_id : String → Bool
  pub lookup : String → Bool
  -- `net.SplitHostPort`, and whether `net.ParseIP` reads a loopback address.
  pub split_host : String → Option String
  pub is_loopback : String → Bool

-- A test with its message: the first test that holds is the error.
abbrev pub Rule : Type 0
Rule = Bool × String

abbrev pub first_problem : List Rule → Option String
first_problem [] = none
first_problem (r ∷ rs) = let rest = first_problem rs in if r.0 then some r.1 else rest

-- `validSignal`.
abbrev pub valid_signal : String → Bool
valid_signal v =
    let s = trim_prefix v "SIG" in
    s == "INT"
    || s == "HUP"
    || s == "QUIT"
    || s == "USR1"
    || s == "USR2"
    || s == "TERM"
    || s == "KILL"

abbrev short_interval : Option ℤ → Bool
short_interval none = true
short_interval (some z) = lower_than z second_ns

-- `ValidateSchedule` fails.
abbrev pub bad_schedule : Host → String → Bool
bad_schedule o v = elim (cut_prefix v "@every ") [
  | some rest ↦ short_interval (o.parse_duration rest)
  | none ↦ not (o.cron_parse v)
]

abbrev absolute_file : Host → Option String → Bool
absolute_file o none = false
absolute_file o (some path) = o.is_abs path

-- `validSecretRef`.
abbrev pub valid_secret_ref : Host → String → Bool
valid_secret_ref o ref = elim (cut_prefix ref "env:") [
  | some name ↦ not (is_zero name) && not (has_any name)
  | none ↦ absolute_file o (cut_prefix ref "file:")
]

-- `validateRunAsPrivilege` and `validateRunAs` fail.
abbrev pub bad_privilege : String → ℕ → Bool
bad_privilege v euid = not (is_zero v) && not (eqb euid 0)

abbrev pub bad_run_as : Host → String → Bool
bad_run_as o v =
    let name = before 58 v in
    bad_privilege v o.geteuid
    || (not (is_zero v) && (if o.atoi name then not (o.lookup_id name) else not (o.lookup name)))

abbrev pub rows : {A : Type 0} → Option (List A) → List A
rows none = []
rows (some l) = l

abbrev pub no_rows : List String → Bool
no_rows [] = true
no_rows (a ∷ l) = false

abbrev same_bool : Bool → Bool → Bool
same_bool true b = b
same_bool false b = not b

-- The four durations that are checked alike (the loop over a map visits them in any order).
abbrev pub seconds_rules : String → ℤ → Bool → List Rule → List Rule
seconds_rules field z may_be_zero rest =
    ((lower_than z 0 || (not may_be_zero && is_zero z)), field)
    ∷ (too_long z second_ns, field)
    ∷ rest

-- The tests of `validateDefinitions` on one definition, in their order.
unfoldable pub definition_rules : Host → String → List String → Definition → List Rule
definition_rules o zone seen d =
    (not (name_pattern d.name), "invalid definition name")
    ∷ (has (◌==◌ d.name) seen, "duplicate definition")
    ∷ (same_bool (is_zero d.command) (no_rows d.argv), "exactly one of command or argv is required")
    ∷ seconds_rules "timeout" d.timeout true (
        seconds_rules "grace" d.grace false (
          seconds_rules "restart_delay" d.restart_delay false (
            seconds_rules "healthy_after" d.healthy_after false (
              (not (d.env_base == "clean" || d.env_base == "inherit"), "env_base")
              ∷ (
                not (d.restart == "always" || d.restart == "on-failure" || d.restart == "never"),
                "restart",
              )
              ∷ (lower_than d.retries 0 || above d.retries 1000, "retries")
              ∷ (
                job_kind d && (lower_than d.retry_delay 1 || above d.retry_delay 86400),
                "retry_delay",
              )
              ∷ (worker_kind d && not (is_zero d.retries), "worker cannot have retries")
              ∷ (worker_kind d && not (is_zero d.retry_delay), "worker cannot have retry_delay")
              ∷ (
                lower_than d.max_restart_attempts 1 || above d.max_restart_attempts 1000,
                "max_restart_attempts",
              )
              ∷ (
                not (is_zero d.restart_backoff_max)
                    && (less d.restart_backoff_max d.restart_delay
                        || above d.restart_backoff_max 86400),
                "restart_backoff_max",
              )
              ∷ (has (λ c. lower_than c 0 || above c 255) (rows d.success_codes), "success_codes")
              ∷ (lower_than d.keep_runs 0, "keep_runs")
              ∷ (not (is_zero d.priority), "priority is not supported")
              ∷ (
                d.run_on_start
                    && (not (d.source == "config") || not (job_kind d) || not (is_zero d.schedule)),
                "run_on_start is not supported",
              )
              ∷ (job_kind d && not (is_zero d.schedule) && bad_schedule o d.schedule, "schedule")
              ∷ (not (o.load_location (cmp_or d.timezone zone)), "timezone")
              ∷ (not (d.catch_up == "none" || d.catch_up == "latest"), "catch_up")
              ∷ (not (d.on_overlap == "skip" || d.on_overlap == "parallel"), "on_overlap")
              ∷ (
                worker_kind d && not (is_zero d.on_history_unavailable),
                "worker cannot have on_history_unavailable",
              )
              ∷ (
                not (
                    is_zero d.on_history_unavailable
                    || d.on_history_unavailable == "run"
                    || d.on_history_unavailable == "skip"),
                "on_history_unavailable",
              )
              ∷ (not (d.log_on_full == "drop_old" || d.log_on_full == "drop_new"), "log_on_full")
              ∷ (not (valid_signal d.stop_signal), "stop_signal")
              ∷ (lower_than d.keep_for 0, "keep_for")
              ∷ (too_long d.keep_for day_ns, "keep_for")
              ∷ (lower_than d.log_max 0 || above d.log_max 1048576, "log_max")
              ∷ (not (is_zero d.env_file) && not (o.is_abs d.env_file), "env_file")
              ∷ (
                has (λ e. is_zero e.0 || not (valid_secret_ref o e.1)) (rows d.secret_env),
                "secret_env",
              )
              ∷ (worker_kind d && not (is_zero d.schedule), "worker cannot have schedule")
              ∷ (bad_run_as o d.run_as, "run_as")
              ∷ []))))
