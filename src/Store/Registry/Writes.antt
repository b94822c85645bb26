-- ===== src/Store/Registry/Writes.antt =====
-- internal/store/store.go: every change of the definitions keeps their history, and a write under an
-- expected revision is the next one.
use minicrond.Prelude.{
  nat_eq, string_eq, ℕ, ◌≡◌, refl, sym, subst, ◌==◌, String, Bool, ◌&&◌, none, some, Option-cases,
  List, [], ◌∷◌, ◌++◌, arith, find, update, Bool-cases, inl, inr,
}
use minicrond.Store.Tables.{Db, Result, ok, ◌>>=◌, >>=-eq-ok, unix_micro}
use minicrond.Store.Registry.{
  Entry, DefinitionRow, RevisionRow, Registry, AuditRow, has_name, numbered, is_live, add_revision,
  revision_row, new_row, changed_row, add_audit, write_new, write_change,
}
use minicrond.Store.Registry.Changes.{
  put_definition, import_definition, sync_definition, remove_missing, sync_config_definitions, each,
  delete_definition, set_enabled, buried, turned, turned,
}
use minicrond.Store.Registry.Found.{find-Split, find-none}
use minicrond.Store.Registry.Chronicle.{
  Chronicle, changed-Chronicle, added-Chronicle, kept-Chronicle,
}

abbrev pub IsChronicle : Registry → Type 0
IsChronicle g = Chronicle g.rows g.revisions

moved :
    {a b : List DefinitionRow} {v w : List RevisionRow}
    → a ≡ b
    → v ≡ w
    → Chronicle b w
    → Chronicle a v
moved {a = a} {w = w} p q c =
    subst (λ x. Chronicle a x) (sym q) (subst (λ x. Chronicle x w) (sym p) c)

-- What a write with an entry and an audit leaves of a registry.
recorded :
    (v : RevisionRow) (a : AuditRow) (g h : Registry)
    → (add_revision v g >>= λ x. ok (add_audit a x)) ≡ ok h
    → (h.rows ≡ g.rows) × (h.revisions ≡ v ∷ g.revisions)
unfolding add_revision
recorded v a g h e = ground (arith, e)

write_new-Chronicle :
    (e : Entry) (source actor action : String) (now : ℕ) (g h : Registry)
    → IsChronicle g
    → find (has_name e.name) g.rows ≡ none
    → write_new e source actor action now g ≡ ok h
    → IsChronicle h
unfolding write_new
write_new-Chronicle e source actor action now g h c n w =
    let o = recorded _ _ (record g { rows = g.rows ++ new_row e source now g.rows ∷ [] }) h w in
    moved o.0 o.1 (
      added-Chronicle g.rows g.revisions (new_row e source now g.rows) _ c
        (find-none (has_name e.name) g.rows n) refl refl refl refl)

write_change-Chronicle :
    (r : DefinitionRow) (p : DefinitionRow → Bool) (e : Entry) (actor action : String) (now : ℕ)
    (g h : Registry)
    → IsChronicle g
    → find p g.rows ≡ some r
    → write_change r e actor action now g ≡ ok h
    → IsChronicle h
unfolding write_change
write_change-Chronicle r p e actor action now g h c f w =
    let o =
      recorded _ _
        (record g { rows = update (numbered r.definition_id) (changed_row e now) g.rows }) h w in
    moved o.0 o.1 (
      changed-Chronicle g.rows g.revisions r _ (changed_row e now) c (find-Split p g.rows r f).0
        refl refl refl refl refl)

pub put_definition-Chronicle :
    (create_only : Bool) (expected : ℕ) (e : Entry) (actor : String) (now : ℕ) (g h : Registry)
    → IsChronicle g
    → put_definition create_only expected e actor now g ≡ ok h
    → IsChronicle h
unfolding put_definition
put_definition-Chronicle create_only expected e actor now g h c w =
    elim (Option-cases (find (has_name e.name) g.rows)) [
      | inl n ↦ write_new-Chronicle e "" actor "update" now g h c n (ground (arith, w, n))
      | inr (r, f) ↦
          write_change-Chronicle r (has_name e.name) e actor "update" now g h c f
            (ground (arith, w, f))
    ]

pub import_definition-Chronicle :
    (actor : String) (now : ℕ) (e : Entry) (g h : Registry)
    → IsChronicle g
    → import_definition actor now e g ≡ ok h
    → IsChronicle h
unfolding import_definition
import_definition-Chronicle actor now e g h c w =
    elim (Option-cases (find (has_name e.name) g.rows)) [
      | inl n ↦ write_new-Chronicle e "" actor "import" now g h c n (ground (arith, w, n))
      | inr (r, f) ↦
          write_change-Chronicle r (has_name e.name) e actor "import" now g h c f
            (ground (arith, w, f))
    ]

sync_definition-Chronicle :
    (now : ℕ) (e : Entry) (g h : Registry)
    → IsChronicle g
    → sync_definition now e g ≡ ok h
    → IsChronicle h
unfolding sync_definition
sync_definition-Chronicle now e g h c w = elim (Option-cases (find (has_name e.name) g.rows)) [
  | inl n ↦ write_new-Chronicle e "config" "config" "sync" now g h c n (ground (arith, w, n))
  | inr (r, f) ↦ elim (Bool-cases (r.spec_hash == e.spec_hash && is_live r)) [
    | inl k ↦ let q : g ≡ h = ground (arith, w, f, k) in subst IsChronicle q c
    | inr k ↦
        write_change-Chronicle r (has_name e.name) e "config" "sync" now g h c f
          (ground (arith, w, f, k))
  ]
]

pub each-Chronicle :
    (f : Entry → Registry → Result Registry)
    → ((e : Entry) (g h : Registry) → IsChronicle g → f e g ≡ ok h → IsChronicle h)
    → (es : List Entry) (g h : Registry) → IsChronicle g
    → each f es g ≡ ok h
    → IsChronicle h
unfolding each
each-Chronicle f keep [] g h c w = let q : g ≡ h = ground (arith, w) in subst IsChronicle q c
each-Chronicle f keep (e ∷ es) g h c w =
    let q = >>=-eq-ok (f e g) (each f es) w in
    each-Chronicle f keep es q.0 h (keep e g q.0 c q.1) q.2

remove_missing-Chronicle :
    (es : List Entry) (now : ℕ) (g : Registry)
    → IsChronicle g
    → IsChronicle (remove_missing es now g)
unfolding remove_missing
remove_missing-Chronicle es now g c =
    kept-Chronicle g.rows g.revisions _ (buried now) c (λ r. refl) (λ r. refl) (λ r. refl)

pub sync_config_definitions-Chronicle :
    (es : List Entry) (now : ℕ) (g h : Registry)
    → IsChronicle g
    → sync_config_definitions es now g ≡ ok h
    → IsChronicle h
unfolding sync_config_definitions
sync_config_definitions-Chronicle es now g h c w =
    let q = >>=-eq-ok (each (sync_definition now) es g) (λ x. ok (remove_missing es now x)) w in
    let e : remove_missing es now q.0 ≡ h = ground (arith, q.2) in
    subst IsChronicle e (
      remove_missing-Chronicle es now q.0
        (each-Chronicle (sync_definition now) (sync_definition-Chronicle now) es g q.0 c q.1))

pub delete_definition-Chronicle :
    (name actor : String) (now : ℕ) (g h : Registry) (db dc : Db)
    → IsChronicle g
    → delete_definition name actor now (g, db) ≡ ok (h, dc)
    → IsChronicle h
unfolding delete_definition
delete_definition-Chronicle name actor now g h db dc c w =
    let rows : h.rows ≡ update (has_name name) (buried (unix_micro now)) g.rows =
      ground (arith, w) in
    let revisions : h.revisions ≡ g.revisions = ground (arith, w) in
    moved rows revisions (
      kept-Chronicle g.rows g.revisions (has_name name) (buried (unix_micro now)) c (λ r. refl)
        (λ r. refl) (λ r. refl))

pub set_enabled-Chronicle :
    (name : String) (enabled : Bool) (now : ℕ) (g h : Registry) (db dc : Db)
    → IsChronicle g
    → set_enabled name enabled now (g, db) ≡ ok (h, dc)
    → IsChronicle h
unfolding set_enabled add_revision
set_enabled-Chronicle name enabled now g h db dc c w =
    elim (Option-cases (find (λ r. has_name name r && is_live r) g.rows)) [
      | inl n ↦ absurd (ground (arith, w, n))
      | inr (r, f) ↦
          let rows : h.rows ≡ update (numbered r.definition_id) (turned enabled now r) g.rows =
            ground (arith, w, f) in
          let revisions : h.revisions
              ≡ revision_row (turned enabled now r r) "api" (unix_micro now) ∷ g.revisions =
            ground (arith, w, f) in
          moved rows revisions (
            changed-Chronicle g.rows g.revisions r _ (turned enabled now r) c
              (find-Split (λ r. has_name name r && is_live r) g.rows r f).0 refl refl refl refl
              refl)
    ]
