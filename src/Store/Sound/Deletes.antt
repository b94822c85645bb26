-- ===== src/Store/Sound/Deletes.antt =====
-- Deleting a page of runs, and the invariant.
use minicrond.Prelude.{
  subst, nat_eq, string_eq, ℕ, String, ◌≡◌, refl, sym, Bool, true, false, ◌&&◌, List, [], ◌∷◌,
  arith, has, select, not, All-select, str_iff, ◌∙◌,
}
use minicrond.Store.Tables.{status_eq, Run, Db, has_id, KeyRow}
use minicrond.Store.Lifecycle.{queued_for, delete_runs, deletable}
use minicrond.Store.Sound.Rows.{still, Distinct-select, Keyed, queued_for-delete}
use minicrond.Store.Sound.Order.{Keyed-select, Ascends-select}
use minicrond.Store.Sound.Invariant.{IsSound}

module _ (ids : List String) (at : ℕ) (keys : List KeyRow) where
  abbrev doomed : String → Run → Bool
  doomed id r = has_id id r && deletable ids at keys r

  still-deletable :
      (id : String) (rs : List Run)
      → has (still id) (select (λ r. not (deletable ids at keys r)) rs) ≡ has (still id) rs
  still-deletable id [] = refl
  still-deletable id (r ∷ rs) = ground (arith, still-deletable id rs)

  doomed_unkeyed :
      (id : String) (rs : List Run) → has (has_id id) rs ≡ false → has (doomed id) rs ≡ false
  doomed_unkeyed id [] h = refl
  doomed_unkeyed id (r ∷ rs) h = ground (arith, doomed_unkeyed id rs)

  still_unkeyed :
      (id : String) (rs : List Run) → has (has_id id) rs ≡ false → has (still id) rs ≡ false
  still_unkeyed id [] h = refl
  still_unkeyed id (r ∷ rs) h = ground (arith, still_unkeyed id rs)

  same_id :
      (r : Run) (id : String) (rs : List Run)
      → has (has_id r.id) rs ≡ false
      → has_id id r ≡ true
      → has (has_id id) rs ≡ false
  same_id r id rs h e = subst (λ x. has (has_id x) rs ≡ false) ((str_iff r.id id).0 e) h

  -- A queued run is not doomed.
  still-doomed :
      (id : String) (rs : List Run)
      → Keyed rs
      → has (still id) rs ≡ true
      → has (doomed id) rs ≡ false
  still-doomed id [] k h = refl
  still-doomed id (r ∷ rs) k h = ground (
    arith,
    same_id r id rs k.0,
    doomed_unkeyed id rs,
    still_unkeyed id rs,
    still-doomed id rs k.1,
  )

pub delete_runs-IsSound :
    (ids : List String) (at : ℕ) (db : Db) → IsSound db → IsSound (delete_runs ids at db)
unfolding delete_runs
delete_runs-IsSound ids at db v = record {
  in_sync = λ id.
      still-deletable ids at db.keys id db.runs
      ∙ v.in_sync id
      ∙ untouched id
      ∙ sym (queued_for-delete (λ x. has (doomed ids at db.keys x) db.runs) id db.queue);
  distinct = Distinct-select _ db.queue v.distinct;
  keyed = Keyed-select _ db.runs v.keyed;
  ascends = Ascends-select _ db.queue v.ascends;
  fresh = All-select _ _ db.queue v.fresh;
}
  where
    untouched :
        (id : String)
        → has (queued_for id) db.queue
          ≡ (not (has (doomed ids at db.keys id) db.runs) && has (queued_for id) db.queue)
    untouched id = ground (arith, v.in_sync id, still-doomed ids at db.keys id db.runs v.keyed)
