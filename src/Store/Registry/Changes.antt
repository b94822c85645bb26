-- ===== src/Store/Registry/Changes.antt =====
-- internal/store/store.go: the operations that change the definitions.
use minicrond.Prelude.{
  nat_eq, string_eq, ℕ, suc, ◌==◌, String, Bool, false, ◌&&◌, not, if◌then◌else◌, none, some, List,
  [], ◌∷◌, ◌++◌, eqb, has, find, select, update, map,
}
use minicrond.Store.Tables.{
  Db, Result, ok, err, ◌>>=◌, not_found, read_only, revision_conflict, unknown_alert_channel,
  source_conflict, unix_micro,
}
use minicrond.Store.Queue.{drop_definition_queued}
use minicrond.Store.Registry.{
  Entry, DefinitionRow, Registry, has_name, numbered, is_live, check_alerts, add_revision,
  add_audit, revision_row, audit_row, write_new, write_change,
}

-- `putDefinition`: `PutDefinition` under an expected revision, where 0 stands for any, and
-- `CreateDefinition`.
unfoldable pub put_definition : Bool → ℕ → Entry → String → ℕ → Registry → Result Registry
put_definition create_only expected e actor now g =
    if not (check_alerts g.channels e.alerts)
    then err unknown_alert_channel
    else elim (find (has_name e.name) g.rows) [
      | none ↦ write_new e "" actor "update" now g
      | some r ↦
          if r.source == "config"
          then err read_only
          else if create_only
          then err revision_conflict
          else if is_live r && not (eqb expected 0) && not (eqb expected r.revision)
          then err revision_conflict
          else if not (is_live r) && not (eqb expected 0)
          then err revision_conflict
          else write_change r e actor "update" now g
    ]

-- One definition of `ImportDefinitions`.
unfoldable pub import_definition : String → ℕ → Entry → Registry → Result Registry
import_definition actor now e g =
    if not (check_alerts g.channels e.alerts)
    then err unknown_alert_channel
    else elim (find (has_name e.name) g.rows) [
      | none ↦ write_new e "" actor "import" now g
      | some r ↦
          if r.source == "config" then err read_only else write_change r e actor "import" now g
    ]

-- One definition of `SyncConfigDefinitions`.
unfoldable pub sync_definition : ℕ → Entry → Registry → Result Registry
sync_definition now e g =
    if not (check_alerts g.channels e.alerts)
    then err unknown_alert_channel
    else elim (find (has_name e.name) g.rows) [
      | none ↦ write_new e "config" "config" "sync" now g
      | some r ↦
          if not (r.source == "config")
          then err source_conflict
          else if r.spec_hash == e.spec_hash && is_live r
          then ok g
          else write_change r e "config" "sync" now g
    ]

-- The loop over the definitions of a call: an error ends it, and the transaction with it.
unfoldable pub each : (Entry → Registry → Result Registry) → List Entry → Registry → Result Registry
each f [] g = ok g
each f (e ∷ es) g = f e g >>= each f es

-- `ImportDefinitions`.
unfoldable pub import_definitions : List Entry → String → ℕ → Registry → Result Registry
import_definitions es actor now g = each (import_definition actor now) es g

abbrev pub buried : ℕ → DefinitionRow → DefinitionRow
buried now r = record r { deleted_us = some now; enabled = false; updated_us = now }

-- The removal of the config-owned definitions that the configuration has no more.
unfoldable pub remove_missing : List Entry → ℕ → Registry → Registry
remove_missing es now g =
    let gone = λ (r : DefinitionRow).
      r.source == "config" && is_live r && not (has (λ e. e.name == r.name) es) in
    record g {
      rows = update gone (buried now) g.rows;
      audit =
          map (λ r. audit_row now "config" "remove" r.name "" "") (select gone g.rows) ++ g.audit;
    }

-- `SyncConfigDefinitions`.
unfoldable pub sync_config_definitions : List Entry → ℕ → Registry → Result Registry
sync_config_definitions es now g =
    each (sync_definition now) es g >>= λ h. ok (remove_missing es now h)

-- `DeleteDefinition`, at a reading of the clock in nanoseconds.
unfoldable pub delete_definition : String → String → ℕ → Registry × Db → Result (Registry × Db)
delete_definition name actor now (g, db) = elim (find (λ r. has_name name r && is_live r) g.rows) [
  | none ↦ err not_found
  | some r ↦
      if r.source == "config"
      then err read_only
      else ok (
        add_audit (audit_row (unix_micro now) actor "delete" name r.spec "")
            (record g { rows = update (has_name name) (buried (unix_micro now)) g.rows }),
        drop_definition_queued r.definition_id "definition_removed" now db,
      )
]

abbrev pub turned : Bool → ℕ → DefinitionRow → DefinitionRow → DefinitionRow
turned enabled now r x = record x {
  enabled = enabled;
  revision = suc r.revision;
  updated_us = unix_micro now;
}

-- `SetEnabled`.
unfoldable pub set_enabled : String → Bool → ℕ → Registry × Db → Result (Registry × Db)
set_enabled name enabled now (g, db) = elim (find (λ r. has_name name r && is_live r) g.rows) [
  | none ↦ err not_found
  | some r ↦
      if r.source == "config"
      then err read_only
      else let turn = turned enabled now r in
        add_revision (revision_row (turn r) "api" (unix_micro now))
          (record g { rows = update (numbered r.definition_id) turn g.rows })
        >>= λ h. ok (
          add_audit
              (audit_row (unix_micro now) "api" "set_enabled" name ""
                (if enabled then "{\"enabled\":true}" else "{\"enabled\":false}"))
              h,
          if enabled
              then db
              else drop_definition_queued r.definition_id "definition_disabled" now db,
        )
]
