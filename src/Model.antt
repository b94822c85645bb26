-- ===== src/Model.antt =====
-- internal/model/model.go: the fields of a job or worker definition that the modelled code reads.
-- Durations and counts are not negative (the configuration is validated before it is used).
use minicrond.Prelude.{ℕ, String, Bool, true, false, Option, none, some}
use minicrond.Store.Tables.{Kind}

-- `model.Definition`.
pub record Definition : Type 0 where
  pub id : ℕ
  pub name : String
  pub kind : Kind
  pub revision : ℕ
  pub enabled : Option Bool
  pub schedule : String
  pub timezone : String
  pub catch_up : String
  pub on_overlap : String
  pub on_history_unavailable : String
  pub retries : ℕ
  pub retry_delay : ℕ
  pub autostart : Option Bool
  pub restart : String
  pub restart_delay : ℕ
  pub max_restart_attempts : ℕ
  pub restart_backoff_max : ℕ
  pub healthy_after : ℕ

abbrev or_true : Option Bool → Bool
or_true none = true
or_true (some b) = b

-- `IsEnabled`.
abbrev pub is_enabled : Definition → Bool
is_enabled d = or_true d.enabled

-- `DoesAutostart`.
abbrev pub does_autostart : Definition → Bool
does_autostart d = or_true d.autostart

abbrev pub is_job : Kind → Bool
is_job Kind.job = true
is_job Kind.worker = false
