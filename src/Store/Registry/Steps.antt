-- ===== src/Store/Registry/Steps.antt =====
-- internal/store/store.go: the definitions through any sequence of changes by the API, imports and
-- the configuration. One that fails has rolled its transaction back.
use minicrond.Prelude.{ℕ, String, Bool, List, [], ◌∷◌, ◌≡◌, refl, arith}
use minicrond.Store.Tables.{Db, Result, ok, err}
use minicrond.Store.Registry.{Entry, Registry}
use minicrond.Store.Registry.Changes.{
  put_definition, import_definition, import_definitions, sync_config_definitions, delete_definition,
  set_enabled,
}
use minicrond.Store.Registry.Chronicle.{Chronicle}
use minicrond.Store.Registry.Writes.{
  IsChronicle, put_definition-Chronicle, import_definition-Chronicle, each-Chronicle,
  sync_config_definitions-Chronicle, delete_definition-Chronicle, set_enabled-Chronicle,
}

pub data Change : Type 0 where
  put : Bool → ℕ → Entry → String → ℕ → Change
  import : List Entry → String → ℕ → Change
  sync : List Entry → ℕ → Change
  delete : String → String → ℕ → Change
  enable : String → Bool → ℕ → Change

abbrev pub beside : Db → Result Registry → Result (Registry × Db)
beside db (ok g) = ok (g, db)
beside db (err e) = err e

abbrev pub attempt : Change → Registry × Db → Result (Registry × Db)
attempt (put create_only expected e actor now) (g, db) =
    beside db (put_definition create_only expected e actor now g)
attempt (import es actor now) (g, db) = beside db (import_definitions es actor now g)
attempt (sync es now) (g, db) = beside db (sync_config_definitions es now g)
attempt (delete name actor now) s = delete_definition name actor now s
attempt (enable name b now) s = set_enabled name b now s

abbrev pub or_same : Registry × Db → Result (Registry × Db) → Registry × Db
or_same s (ok t) = t
or_same s (err e) = s

unfoldable pub change_all : List Change → Registry × Db → Registry × Db
change_all [] s = s
change_all (c ∷ cs) s = change_all cs (or_same s (attempt c s))

abbrev pub no_definitions : List String → Registry
no_definitions channels = record { rows = []; revisions = []; audit = []; channels = channels }

beside-Chronicle :
    (g : Registry) (db : Db) (r : Result Registry)
    → IsChronicle g
    → ((h : Registry) → r ≡ ok h → IsChronicle h)
    → IsChronicle (or_same (g, db) (beside db r)).0
beside-Chronicle g db (ok h) c k = k h refl
beside-Chronicle g db (err e) c k = c

both-Chronicle :
    (s : Registry × Db) (r : Result (Registry × Db))
    → IsChronicle s.0
    → ((h : Registry) (dc : Db) → r ≡ ok (h, dc) → IsChronicle h)
    → IsChronicle (or_same s r).0
both-Chronicle s (ok (h, dc)) c k = k h dc refl
both-Chronicle s (err e) c k = c

attempt-Chronicle :
    (c : Change) (s : Registry × Db) → IsChronicle s.0 → IsChronicle (or_same s (attempt c s)).0
unfolding import_definitions
attempt-Chronicle (put create_only expected e actor now) (g, db) i =
    beside-Chronicle g db _ i (λ h. put_definition-Chronicle create_only expected e actor now g h i)
attempt-Chronicle (import es actor now) (g, db) i = beside-Chronicle g db _ i (λ h.
    each-Chronicle (import_definition actor now) (import_definition-Chronicle actor now) es g h i)
attempt-Chronicle (sync es now) (g, db) i =
    beside-Chronicle g db _ i (λ h. sync_config_definitions-Chronicle es now g h i)
attempt-Chronicle (delete name actor now) (g, db) i =
    both-Chronicle (g, db) _ i (λ h dc. delete_definition-Chronicle name actor now g h db dc i)
attempt-Chronicle (enable name b now) (g, db) i =
    both-Chronicle (g, db) _ i (λ h dc. set_enabled-Chronicle name b now g h db dc i)

kept : (cs : List Change) (s : Registry × Db) → IsChronicle s.0 → IsChronicle (change_all cs s).0
unfolding change_all
kept [] s i = i
kept (c ∷ cs) s i = kept cs (or_same s (attempt c s)) (attempt-Chronicle c s i)

-- After any sequence of puts, creations, imports, synchronisations with the configuration, deletions
-- and switches, names and ids of definitions are unique, and the history of revisions holds exactly
-- one entry for every revision, from 1 to the present one, of every definition and nothing else. The
-- operations write the history only: `PruneMetadata`, which deletes all revisions of a definition but
-- the newest 100, is not among them.
pub change_all-Chronicle :
    (cs : List Change) (channels : List String) (db : Db)
    → Chronicle
        (change_all cs (no_definitions channels, db)).0.rows
        (change_all cs (no_definitions channels, db)).0.revisions
change_all-Chronicle cs channels db =
    kept cs (no_definitions channels, db)
      (record { names = λ n. omega arith; ids = λ i. omega arith; history = λ i k. refl })
