-- ===== src/Config/Validate.antt =====
-- internal/config/config.go: `validateDefinitions` and its callers for a decoded definition and for an import.
use minicrond.Prelude.{String, ◌⊎◌, inl, inr, Option, none, some, List, [], ◌∷◌, ◌++◌}
use minicrond.Config.Values.{cmp_or, zero_text}
use minicrond.Config.Definition.{
  Definition, DefinitionInput, Explicit, resolve, input_explicit, first_defaults,
}
use minicrond.Config.Fill.{apply_definition_defaults, merge_definition_defaults}
use minicrond.Config.Check.{Host, first_problem, definition_rules}

-- An error message or a value.
abbrev pub Checked : Type 0 → Type 0
Checked A = String ⊎ A

abbrev pub answer : {A : Type 0} → Option String → A → Checked A
answer none a = inr a
answer (some m) a = inl m

-- `d.Timezone = schedulerTimezone` where it is empty.
abbrev pub with_zone : String → Definition → Definition
with_zone zone d = record d { timezone = cmp_or d.timezone zone }

-- One turn of the loop of `validateDefinitions`.
unfoldable pub check_definition : Host → String → List String → Definition → Checked Definition
check_definition o zone seen d =
    answer (first_problem (definition_rules o zone seen d)) (with_zone zone d)

abbrev pub chain : {A B : Type 0} → Checked A → (A → B) → Checked B
chain (inl m) f = inl m
chain (inr a) f = inr (f a)

-- `validateDefinitions`: the definitions with their time zones filled.
unfoldable pub validate_definitions :
    Host → String → List String → List Definition → Checked (List Definition)
validate_definitions o zone seen [] = inr []
validate_definitions o zone seen (d ∷ ds) =
    let rest = validate_definitions o zone (d.name ∷ seen) ds in
    elim (check_definition o zone seen d) [ inl m ↦ inl m | inr e ↦ chain rest (λ es. e ∷ es) ]

abbrev pub filled_kind : Definition → Definition
filled_kind d = record d { kind = cmp_or d.kind "job" }

abbrev pub only : List Definition → Definition → Definition
only [] d = d
only (e ∷ es) d = e

-- `validateDefinition` with the scheduler's time zone "UTC".
unfoldable pub validate_definition :
    Host → Definition → Explicit → Option Definition → Checked Definition
validate_definition o d ex defaults =
    let filled = apply_definition_defaults (filled_kind d) (first_defaults defaults) ex in
    chain (validate_definitions o "UTC" [] (filled ∷ [])) (λ ds. only ds filled)

-- `ValidateDefinitionInput`.
unfoldable pub validate_definition_input :
    Host → DefinitionInput → Option Definition → Checked Definition
validate_definition_input o i defaults =
    validate_definition o (resolve i) (input_explicit i) defaults

-- `importBundle`.
pub record ImportBundle : Type 0 where
  pub defaults : Definition
  pub jobs : List DefinitionInput
  pub workers : List DefinitionInput

-- One turn of a loop of `ParseImport`: with the daemon's defaults they fill what the bundle's leave.
unfoldable pub fill_import : String → Definition → Option Definition → DefinitionInput → Definition
fill_import kind bundled none i =
    apply_definition_defaults (record (resolve i) { kind = kind }) bundled (input_explicit i)
fill_import kind bundled (some defaults) i =
    let ex = input_explicit i in
    apply_definition_defaults
      (merge_definition_defaults (record (resolve i) { kind = kind }) bundled ex) defaults ex

abbrev pub import_all :
    String → Definition → Option Definition → List DefinitionInput → List Definition
import_all kind bundled defaults [] = []
import_all kind bundled defaults (i ∷ is) =
    fill_import kind bundled defaults i ∷ import_all kind bundled defaults is

-- `ParseImport` on the decoded bundle.
unfoldable pub parse_import : Host → ImportBundle → Option Definition → Checked (List Definition)
parse_import o part defaults = validate_definitions o "UTC" [] (
    import_all "job" part.defaults defaults part.jobs
    ++ import_all "worker" part.defaults defaults part.workers)
