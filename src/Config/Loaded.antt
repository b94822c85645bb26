-- ===== src/Config/Loaded.antt =====
-- internal/config/config.go: what a configuration that `Load` returns satisfies.
use minicrond.Prelude.{[], All, string_eq}
use minicrond.Config.Values.{zero_int, zero_text}
use minicrond.Config.Definition.{Definition}
use minicrond.Config.Check.{Host}
use minicrond.Config.Settings.{Config}
use minicrond.Config.Load.{definitions}
use minicrond.Config.Valid.{Valid, Distinct}
use minicrond.Config.Limits.{Limits}
use minicrond.Config.Sections.{InitDefinition, JobDefinition, WorkerDefinition}

pub record Loaded (o : Host) (c : Config) : Type 0 where
  pub limits : Limits o c
  pub valid : All (Valid o) (definitions c)
  pub distinct : Distinct [] (definitions c)
  pub init : All InitDefinition c.init
  pub jobs : All JobDefinition c.jobs
  pub workers : All WorkerDefinition c.workers
