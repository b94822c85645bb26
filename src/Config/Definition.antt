-- ===== src/Config/Definition.antt =====
-- internal/model/model.go: a definition with all its settings; internal/config/config.go: its decoded
-- form, in which an omitted `timeout` or `retries` differs from an explicit zero.
use minicrond.Prelude.{
  ℕ, String, Bool, true, false, ◌||◌, ◌&&◌, not, Option, none, some, List, [], ◌∷◌, ℤ, pos, ◌==◌,
  string_eq,
}
use minicrond.Config.Values.{is_zero, zero_int}

-- A map from texts to texts.
abbrev pub Texts : Type 0
Texts = List (String × String)

-- `model.Definition`. A map or a list that may be nil is an `Option`: `none` is nil.
pub record Definition : Type 0 where
  pub id : ℕ
  pub name : String
  pub kind : String
  pub revision : ℕ
  pub source : String
  pub enabled : Option Bool
  pub command : String
  pub argv : List String
  pub shell : String
  pub schedule : String
  pub timezone : String
  pub catch_up : String
  pub on_overlap : String
  pub on_history_unavailable : String
  pub retries : ℤ
  pub retry_delay : ℤ
  pub run_on_start : Bool
  pub run_as : String
  pub working_dir : String
  pub env_base : String
  pub env : Option Texts
  pub secret_env : Option Texts
  pub env_file : String
  pub timeout : ℤ
  pub grace : ℤ
  pub stop_signal : String
  pub success_codes : Option (List ℤ)
  pub keep_runs : ℤ
  pub keep_for : ℤ
  pub log_max : ℤ
  pub log_on_full : String
  pub labels : Option Texts
  pub alerts : Option (List String)
  pub autostart : Option Bool
  pub restart : String
  pub restart_delay : ℤ
  pub max_restart_attempts : ℤ
  pub restart_backoff_max : ℤ
  pub healthy_after : ℤ
  pub priority : ℤ
  pub next_fire_at : Option ℕ

-- `model.Definition{}`.
abbrev pub zero_definition : Definition
zero_definition = record {
  id = 0;
  name = "";
  kind = "";
  revision = 0;
  source = "";
  enabled = none;
  command = "";
  argv = [];
  shell = "";
  schedule = "";
  timezone = "";
  catch_up = "";
  on_overlap = "";
  on_history_unavailable = "";
  retries = pos 0;
  retry_delay = pos 0;
  run_on_start = false;
  run_as = "";
  working_dir = "";
  env_base = "";
  env = none;
  secret_env = none;
  env_file = "";
  timeout = pos 0;
  grace = pos 0;
  stop_signal = "";
  success_codes = none;
  keep_runs = pos 0;
  keep_for = pos 0;
  log_max = pos 0;
  log_on_full = "";
  labels = none;
  alerts = none;
  autostart = none;
  restart = "";
  restart_delay = pos 0;
  max_restart_attempts = pos 0;
  restart_backoff_max = pos 0;
  healthy_after = pos 0;
  priority = pos 0;
  next_fire_at = none;
}

-- `Kind == model.KindJob` and `Kind == model.KindWorker`.
abbrev pub job_kind : Definition → Bool
job_kind d = d.kind == "job"

abbrev pub worker_kind : Definition → Bool
worker_kind d = d.kind == "worker"

-- `DefinitionInput`: the pointers shadow the fields of the definition.
pub record DefinitionInput : Type 0 where
  pub definition : Definition
  pub timeout : Option ℤ
  pub retries : Option ℤ

-- `explicit`.
pub record Explicit : Type 0 where
  pub timeout : Bool
  pub retries : Bool

abbrev pub given : {A : Type 0} → Option A → Bool
given none = false
given (some a) = true

abbrev pub or_field : {A : Type 0} → Option A → A → A
or_field none b = b
or_field (some a) b = a

-- `Resolve`.
unfoldable pub resolve : DefinitionInput → Definition
resolve i = record i.definition {
  timeout = or_field i.timeout i.definition.timeout;
  retries = or_field i.retries i.definition.retries;
}

-- `inputExplicit`.
unfoldable pub input_explicit : DefinitionInput → Explicit
input_explicit i = record { timeout = given i.timeout; retries = given i.retries }

-- `jobDefaults`, of which the first is read.
abbrev pub first_defaults : Option Definition → Definition
first_defaults none = zero_definition
first_defaults (some d) = d

abbrev pub spelled : Bool → ℤ → Option ℤ
spelled true z = some z
spelled false z = none

-- `EditableInput`.
unfoldable pub editable_input : Definition → Option Definition → DefinitionInput
editable_input d defaults =
    let base = first_defaults defaults in
    record {
      definition = record d { timeout = pos 0; retries = pos 0 };
      timeout = spelled (not (is_zero d.timeout) || not (is_zero base.timeout)) d.timeout;
      retries =
          spelled (job_kind d && (not (is_zero d.retries) || not (is_zero base.retries))) d.retries;
    }

-- `omitempty`: a nil map or list and an empty one are both left out of the JSON.
abbrev omit_empty : {A : Type 0} → Option (List A) → Option (List A)
omit_empty none = none
omit_empty (some []) = none
omit_empty (some (a ∷ l)) = some (a ∷ l)

-- A definition as its JSON, read back.
abbrev pub omitted : Definition → Definition
omitted d = record d {
  env = omit_empty d.env;
  secret_env = omit_empty d.secret_env;
  success_codes = omit_empty d.success_codes;
  labels = omit_empty d.labels;
  alerts = omit_empty d.alerts;
}

abbrev pub in_json : DefinitionInput → DefinitionInput
in_json i = record i { definition = omitted i.definition }
