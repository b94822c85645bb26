-- ===== src/Config/Fill.antt =====
-- internal/config/config.go: a definition filled from the configured defaults and the built-in ones.
use minicrond.Prelude.{not, ◌&&◌, Option, none, some, List, [], ◌∷◌, ℤ, pos, if◌then◌else◌}
use minicrond.Config.Values.{cmp_or, or_nil, zero_int, zero_text}
use minicrond.Config.Definition.{Definition, Explicit, job_kind, worker_kind}

-- `mergeDefinitionDefaults`.
unfoldable pub merge_definition_defaults : Definition → Definition → Explicit → Definition
merge_definition_defaults d defaults ex =
    let is_job = job_kind d in
    let is_worker = worker_kind d in
    record d {
      shell = cmp_or d.shell defaults.shell;
      timezone = cmp_or d.timezone defaults.timezone;
      catch_up = cmp_or d.catch_up defaults.catch_up;
      on_overlap = cmp_or d.on_overlap defaults.on_overlap;
      retries = if is_job && not ex.retries then cmp_or d.retries defaults.retries else d.retries;
      retry_delay = if is_job then cmp_or d.retry_delay defaults.retry_delay else d.retry_delay;
      on_history_unavailable =
          if is_job
          then cmp_or d.on_history_unavailable defaults.on_history_unavailable
          else d.on_history_unavailable;
      run_as = cmp_or d.run_as defaults.run_as;
      working_dir = cmp_or d.working_dir defaults.working_dir;
      env_base = cmp_or d.env_base defaults.env_base;
      env = or_nil d.env defaults.env;
      secret_env = or_nil d.secret_env defaults.secret_env;
      env_file = cmp_or d.env_file defaults.env_file;
      timeout = if not ex.timeout then cmp_or d.timeout defaults.timeout else d.timeout;
      grace = cmp_or d.grace defaults.grace;
      stop_signal = cmp_or d.stop_signal defaults.stop_signal;
      success_codes = or_nil d.success_codes defaults.success_codes;
      keep_runs = cmp_or d.keep_runs defaults.keep_runs;
      keep_for = cmp_or d.keep_for defaults.keep_for;
      log_max = cmp_or d.log_max defaults.log_max;
      log_on_full = cmp_or d.log_on_full defaults.log_on_full;
      labels = or_nil d.labels defaults.labels;
      alerts = or_nil d.alerts defaults.alerts;
      enabled = or_nil d.enabled defaults.enabled;
      autostart = if is_worker then or_nil d.autostart defaults.autostart else d.autostart;
      restart = if is_worker then cmp_or d.restart defaults.restart else d.restart;
      restart_delay =
          if is_worker then cmp_or d.restart_delay defaults.restart_delay else d.restart_delay;
      healthy_after =
          if is_worker then cmp_or d.healthy_after defaults.healthy_after else d.healthy_after;
      max_restart_attempts =
          if is_worker
          then cmp_or d.max_restart_attempts defaults.max_restart_attempts
          else d.max_restart_attempts;
      restart_backoff_max =
          if is_worker
          then cmp_or d.restart_backoff_max defaults.restart_backoff_max
          else d.restart_backoff_max;
    }

-- `if len(d.SuccessCodes) == 0 { d.SuccessCodes = []int{0} }`.
abbrev pub or_success : Option (List ℤ) → Option (List ℤ)
or_success none = some (pos 0 ∷ [])
or_success (some []) = some (pos 0 ∷ [])
or_success (some (c ∷ cs)) = some (c ∷ cs)

-- The built-in defaults.
unfoldable pub built_in : Definition → Definition
built_in d = record d {
  shell = cmp_or d.shell "/bin/sh";
  catch_up = cmp_or d.catch_up "none";
  on_overlap = cmp_or d.on_overlap "skip";
  retry_delay = if job_kind d then cmp_or d.retry_delay (pos 5) else d.retry_delay;
  env_base = cmp_or d.env_base "clean";
  grace = cmp_or d.grace (pos 10);
  stop_signal = cmp_or d.stop_signal "SIGTERM";
  restart = cmp_or d.restart "always";
  restart_delay = cmp_or d.restart_delay (pos 5);
  healthy_after = cmp_or d.healthy_after (pos 30);
  log_on_full = cmp_or d.log_on_full "drop_old";
  success_codes = or_success d.success_codes;
  max_restart_attempts = cmp_or d.max_restart_attempts (pos 5);
}

-- `applyDefinitionDefaults`.
unfoldable pub apply_definition_defaults : Definition → Definition → Explicit → Definition
apply_definition_defaults d defaults ex = built_in (merge_definition_defaults d defaults ex)
