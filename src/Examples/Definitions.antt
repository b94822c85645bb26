-- ===== src/Examples/Definitions.antt =====
-- Definitions in the registry: one is created, and put again under its first revision.
use minicrond.Prelude.{
  nat_eq, string_eq, ◌≡◌, ◌≢◌, refl, true, false, none, some, [], ◌∷◌, find, arith, List,
}
use minicrond.Store.Tables.{job, Db, ok, err, revision_conflict}
use minicrond.Store.Registry.{
  Entry, DefinitionRow, Registry, has_name, check_alerts, write_new, write_change, add_revision,
}
use minicrond.Store.Registry.Changes.{put_definition}
use minicrond.Store.Registry.Chronicle.{Chronicle}
use minicrond.Store.Registry.Steps.{
  Change, put, enable, change_all, no_definitions, change_all-Chronicle,
}
use minicrond.Store.Registry.Expected.{put_definition_once}

abbrev nightly : Entry
nightly = record {
  name = "nightly";
  kind = job;
  enabled = true;
  alerts = "ops" ∷ [];
  spec = "a";
  spec_hash = "h";
}

abbrev weekly : Entry
weekly = record nightly { spec = "b"; spec_hash = "i" }

abbrev tables : Db
tables = record { runs = []; queue = []; keys = []; next_seq = 1 }

abbrev changes : List Change
changes = put true 0 nightly "cli" 5 ∷ put false 1 weekly "cli" 6 ∷ enable "nightly" false 7000 ∷ []

change_all-Chronicle_example :
    Chronicle
      (change_all changes (no_definitions ("ops" ∷ []), tables)).0.rows
      (change_all changes (no_definitions ("ops" ∷ []), tables)).0.revisions
change_all-Chronicle_example = change_all-Chronicle changes ("ops" ∷ []) tables

abbrev once : Registry
once = (change_all (put true 0 nightly "cli" 5 ∷ []) (no_definitions ("ops" ∷ []), tables)).0

once-Chronicle : Chronicle once.rows once.revisions
once-Chronicle = change_all-Chronicle (put true 0 nightly "cli" 5 ∷ []) ("ops" ∷ []) tables

abbrev first : DefinitionRow
first = record {
  definition_id = 1;
  name = "nightly";
  kind = job;
  spec = "a";
  spec_hash = "h";
  revision = 1;
  enabled = true;
  source = "";
  created_us = 5;
  updated_us = 5;
  deleted_us = none;
}

first-found : find (has_name "nightly") once.rows ≡ some first
unfolding change_all put_definition write_new add_revision
first-found = refl

checked : check_alerts once.channels ("ops" ∷ []) ≡ true
unfolding change_all put_definition write_new add_revision
checked = refl

abbrev twice : Registry
twice = (change_all (put false 1 weekly "cli" 6 ∷ []) (once, tables)).0

checked_twice : check_alerts twice.channels ("ops" ∷ []) ≡ true
unfolding change_all put_definition write_new write_change add_revision
checked_twice = refl

put_twice : put_definition false 1 weekly "cli" 6 once ≡ ok twice
unfolding change_all put_definition write_new write_change add_revision
put_twice = refl

there : find (has_name "nightly") once.rows ≢ none
there e = ground (arith, e, first-found)

put_definition_once_example : put_definition false 1 nightly "api" 7 twice ≡ err revision_conflict
put_definition_once_example =
    put_definition_once once twice weekly nightly 1 "cli" "api" 6 7 (omega arith) refl checked_twice
      there put_twice
