-- ===== src/Examples/Settings.antt =====
-- A small configuration: a startup task, a job and a worker, loaded, imported and edited.
use minicrond.Prelude.{◌≡◌, refl, ◌⊎◌, true, false, none, some, [], ◌∷◌, inl, inr, pos, String}
use minicrond.Config.Definition.{
  Definition, DefinitionInput, zero_definition, editable_input, resolve, in_json, input_explicit,
}
use minicrond.Config.Fill.{apply_definition_defaults, merge_definition_defaults, built_in}
use minicrond.Config.Check.{Host, definition_rules}
use minicrond.Config.Validate.{
  validate_definition_input, validate_definition, validate_definitions, check_definition,
  fill_import,
}
use minicrond.Config.Values.{too_long, name_pattern, name_rest, mebibytes, validate_clock}
use minicrond.Config.Settings.{Config, apply_config_defaults}
use minicrond.Config.Load.{PresenceFile, load, config_rules, validate_config}
use minicrond.Config.RoundTrip.{validate-editable}
use minicrond.Config.Valid.{Accepted, validate_definitions-Accepted}
use minicrond.Config.Layers.{inherited, fill_import-inherited}
use minicrond.Config.Limits.{Limits, validate_config-Limits, mebibytes-saturates}
use minicrond.Config.Loaded.{Loaded}

abbrev host : Host
host = record {
  load_location = λ z. true;
  is_abs = λ p. true;
  cron_parse = λ s. true;
  trusted = λ p. true;
  parse_duration = λ s. some (pos 5000000000);
  geteuid = 0;
  atoi = λ s. false;
  lookup_id = λ s. true;
  lookup = λ s. true;
  split_host = λ s. some "127.0.0.1";
  is_loopback = λ s. true;
}

abbrev defaults : Definition
defaults = record zero_definition { timeout = pos 60; env = some (("A", "1") ∷ []) }

abbrev backup : Definition
backup = record zero_definition { name = "backup"; command = "run"; schedule = "@every 5s" }

abbrev sent : DefinitionInput
sent = record { definition = backup; timeout = some (pos 0); retries = none }

abbrev stored : Definition
stored = record backup {
  kind = "job";
  timezone = "UTC";
  shell = "/bin/sh";
  catch_up = "none";
  on_overlap = "skip";
  retry_delay = pos 5;
  env_base = "clean";
  env = some (("A", "1") ∷ []);
  grace = pos 10;
  stop_signal = "SIGTERM";
  success_codes = some (pos 0 ∷ []);
  log_on_full = "drop_old";
  restart = "always";
  restart_delay = pos 5;
  max_restart_attempts = pos 5;
  healthy_after = pos 30;
}

accepted : validate_definition_input host sent (some defaults) ≡ inr stored
unfolding validate_definition_input validate_definition validate_definitions check_definition
    definition_rules too_long name_pattern name_rest apply_definition_defaults
    merge_definition_defaults built_in resolve input_explicit
accepted = refl

validate-editable_example :
    validate_definition_input host (in_json (editable_input stored (some defaults))) (some defaults)
    ≡ inr stored
validate-editable_example = validate-editable host sent (some defaults) stored accepted refl refl

-- An empty environment that was given explicitly is left out of the JSON, and comes back as the
-- defaults' environment.
bare : DefinitionInput
unfolding editable_input
bare = in_json (editable_input (record stored { env = some [] }) (some defaults))

refilled : validate_definition_input host bare (some defaults) ≡ inr stored
unfolding bare editable_input validate_definition_input validate_definition validate_definitions
    check_definition definition_rules too_long name_pattern name_rest apply_definition_defaults
    merge_definition_defaults built_in resolve input_explicit
refilled = refl

checked : validate_definitions host "UTC" [] (stored ∷ []) ≡ inr (stored ∷ [])
unfolding validate_definitions check_definition definition_rules too_long name_pattern name_rest
checked = refl

validate_definitions-Accepted_example : Accepted host "UTC" [] (stored ∷ []) (stored ∷ [])
validate_definitions-Accepted_example =
    validate_definitions-Accepted host "UTC" [] (stored ∷ []) (stored ∷ []) checked

fill_import-inherited_example :
    fill_import "job" (record zero_definition { grace = pos 3 }) (some defaults) sent
    ≡ inherited "job" (record zero_definition { grace = pos 3 }) defaults sent
fill_import-inherited_example =
    fill_import-inherited "job" (record zero_definition { grace = pos 3 }) defaults sent

mebibytes-saturates_example : mebibytes (pos 8796093022208) ≡ pos 9223372036854775807
mebibytes-saturates_example = mebibytes-saturates 8796093022208

abbrev raw : Config
raw = record {
  server = record {
    bind = "";
    tcp_enabled = none;
    unix_socket = none;
    allow_insecure_remote = false;
  };
  scheduler = record {
    trusted_path = [];
    timezone = "";
    max_concurrent_runs = pos 0;
    shutdown_grace = pos 0;
  };
  queue = record {
    enabled = none;
    max_items = pos 10;
    max_per_job = pos 0;
    max_bytes = pos 0;
    max_age = pos 0;
    drain_rate = pos 0;
    max_pending_retries = pos 0;
  };
  storage = record {
    keep_runs_default = pos 0;
    keep_for_default = pos 0;
    audit_keep = pos 0;
    synchronous = "";
  };
  logs = record {
    backend = "";
    max_line = pos 0;
    worker_flush_interval = pos 0;
    db_keep_for = pos 0;
    db_prune_at = "";
    db_max_size = pos 0;
    durability = "";
    sync_interval = pos 0;
    sync_max_dirty = pos 0;
    disk_budget = pos 100;
    disk_min_free = none;
    quarantine_keep_for = pos 7;
    quarantine_max_size = pos 0;
  };
  reads = record { slots = pos 0; budget = pos 0; work_timeout = pos 0 };
  defaults = zero_definition;
  init = record zero_definition { name = "setup"; command = "prepare" } ∷ [];
  jobs = backup ∷ [];
  workers = record zero_definition { name = "serve"; command = "serve" } ∷ [];
}

abbrev keys : PresenceFile
keys = record { init = []; jobs = []; workers = [] }

within : validate_config host (apply_config_defaults raw) ≡ none
unfolding validate_config config_rules apply_config_defaults validate_clock validate_definitions
    check_definition definition_rules too_long name_pattern name_rest apply_definition_defaults
    merge_definition_defaults built_in
within = refl

validate_config-Limits_example : Limits host (apply_config_defaults raw)
validate_config-Limits_example = validate_config-Limits host (apply_config_defaults raw) within

abbrev value : {A : Type 0} → String ⊎ A → A → A
value (inl m) b = b
value (inr a) b = a

abbrev config : Config
config = value (load host raw keys) raw
