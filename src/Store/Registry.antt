-- ===== src/Store/Registry.antt =====
-- internal/store/store.go: the definitions, their revisions and the audit, as the API, an import and
-- the configuration change them. `Entry` is a definition with what `config.Canonical` makes of it.
use minicrond.Prelude.{
  nat_eq, string_eq, ℕ, suc, ◌+◌, ◌==◌, String, Bool, true, false, ◌&&◌, ◌||◌, not, if◌then◌else◌,
  max, Option, none, some, List, [], ◌∷◌, ◌++◌, eqb, has, find, select, update, map,
}
use minicrond.Store.Tables.{
  Kind, Db, Result, ok, err, ◌>>=◌, constraint, not_found, read_only, revision_conflict,
  unknown_alert_channel, source_conflict, unix_micro,
}
use minicrond.Store.Queue.{drop_definition_queued}
pub mod Changes
pub mod Found
pub mod Chronicle
pub mod Writes
pub mod Steps
pub mod Expected

pub record Entry : Type 0 where
  pub name : String
  pub kind : Kind
  pub enabled : Bool
  pub alerts : List String
  pub spec : String
  pub spec_hash : String

-- A row of `definitions`.
pub record DefinitionRow : Type 0 where
  pub definition_id : ℕ
  pub name : String
  pub kind : Kind
  pub spec : String
  pub spec_hash : String
  pub revision : ℕ
  pub enabled : Bool
  pub source : String
  pub created_us : ℕ
  pub updated_us : ℕ
  pub deleted_us : Option ℕ

-- A row of `definition_revisions`.
pub record RevisionRow : Type 0 where
  pub definition_id : ℕ
  pub revision : ℕ
  pub spec : String
  pub spec_hash : String
  pub actor : String
  pub at_us : ℕ

-- A row of `audit`.
pub record AuditRow : Type 0 where
  pub at_us : ℕ
  pub actor : String
  pub action : String
  pub target : String
  pub before : String
  pub after : String

pub record Registry : Type 0 where
  pub rows : List DefinitionRow
  pub revisions : List RevisionRow
  pub audit : List AuditRow
  pub channels : List String

abbrev pub has_name : String → DefinitionRow → Bool
has_name n r = r.name == n

abbrev pub numbered : ℕ → DefinitionRow → Bool
numbered i r = eqb r.definition_id i

abbrev pub is_live : DefinitionRow → Bool
is_live r = elim (r.deleted_us) [ none ↦ true | some t ↦ false ]

-- SQLite numbers a new row after the greatest row.
abbrev pub greatest_id : List DefinitionRow → ℕ
greatest_id [] = 0
greatest_id (r ∷ rs) = max r.definition_id (greatest_id rs)

-- `validateAlertReferencesTx`: the channels exist, and none is has_name twice.
abbrev pub check_alerts : List String → List String → Bool
check_alerts channels [] = true
check_alerts channels (a ∷ rest) =
    has (λ c. c == a) channels && not (has (λ b. b == a) rest) && check_alerts channels rest

-- The insert into `definition_revisions`, under its primary key.
unfoldable pub add_revision : RevisionRow → Registry → Result Registry
add_revision v g =
    if has (λ x. eqb x.definition_id v.definition_id && eqb x.revision v.revision) g.revisions
    then err constraint
    else ok (record g { revisions = v ∷ g.revisions })

abbrev pub add_audit : AuditRow → Registry → Registry
add_audit a g = record g { audit = a ∷ g.audit }

abbrev pub new_row : Entry → String → ℕ → List DefinitionRow → DefinitionRow
new_row e source now rows = record {
  definition_id = suc (greatest_id rows);
  name = e.name;
  kind = e.kind;
  spec = e.spec;
  spec_hash = e.spec_hash;
  revision = 1;
  enabled = e.enabled;
  source = source;
  created_us = now;
  updated_us = now;
  deleted_us = none;
}

abbrev pub changed_row : Entry → ℕ → DefinitionRow → DefinitionRow
changed_row e now r = record r {
  kind = e.kind;
  spec = e.spec;
  spec_hash = e.spec_hash;
  revision = suc r.revision;
  enabled = e.enabled;
  updated_us = now;
  deleted_us = none;
}

abbrev pub revision_row : DefinitionRow → String → ℕ → RevisionRow
revision_row r actor now = record {
  definition_id = r.definition_id;
  revision = r.revision;
  spec = r.spec;
  spec_hash = r.spec_hash;
  actor = actor;
  at_us = now;
}

abbrev pub audit_row : ℕ → String → String → String → String → String → AuditRow
audit_row now actor action target before after = record {
  at_us = now;
  actor = actor;
  action = action;
  target = target;
  before = before;
  after = after;
}

-- A name that has no row yet: the row, its first revision and the audit.
unfoldable pub write_new : Entry → String → String → String → ℕ → Registry → Result Registry
write_new e source actor action now g =
    let r = new_row e source now g.rows in
    add_revision (revision_row r actor now) (record g { rows = g.rows ++ r ∷ [] }) >>= λ h.
    ok (add_audit (audit_row now actor action e.name "" e.spec) h)

-- A name that has a row, which a deleted definition keeps: the change, its revision and the audit.
unfoldable pub write_change :
    DefinitionRow → Entry → String → String → ℕ → Registry → Result Registry
write_change r e actor action now g =
    add_revision (revision_row (changed_row e now r) actor now)
      (record g { rows = update (numbered r.definition_id) (changed_row e now) g.rows })
    >>= λ h. ok (add_audit (audit_row now actor action e.name r.spec e.spec) h)
