-- ===== src/Executor/Writer.antt =====
-- internal/executor/finalizer.go: the background writer of deferred history. `fails` tells which
-- call of the store finds the database unavailable, and `arrive` what a run adds to its item while
-- the item is being written.
use minicrond.Prelude.{
  nat_eq, string_eq, ℕ, zero, suc, ◌+◌, ◌*◌, min, String, Bool, true, false, ◌&&◌, ◌||◌, not,
  if◌then◌else◌, Option, none, some, List, [], ◌∷◌, ◌++◌, leb, select, has, ◌==◌,
}
use minicrond.Store.Tables.{
  Run, Db, Result, ok, err, Error, storage, constraint, invalid_transition, not_found, has_id,
}
use minicrond.Store.Lifecycle
use minicrond.Store.Lifecycle.{Ending, start_run, finish_run}
use minicrond.Executor.State.{FinalItem, StartInfo, second}
pub mod Stages
pub mod Stored
pub mod Pass
pub mod Due

-- The calls of `writeHistory`, in their order.
pub data Stage : Type 0 where
  creates looks_up starts finishes : Stage

abbrev pub final_backoff_max : ℕ
final_backoff_max = 30 * second

-- `finalizerFailStreak`.
abbrev pub fail_streak : ℕ
fail_streak = 3

-- Why a write stops: the occurrence has another run, or a row refuses it; or storage fails.
pub data Stop : Type 0 where
  conflict refused unavailable : Stop

-- An item and the tables, or why the write stops, with what it has written.
pub data Written : Type 0 where
  wrote : FinalItem → Db → Written
  stopped : Stop → FinalItem → Db → Written

abbrev pub and_then : Written → (FinalItem → Db → Written) → Written
and_then (wrote it db) rest = rest it db
and_then (stopped why it db) rest = stopped why it db

abbrev pub created : FinalItem → FinalItem
created it = record it { create = false }

-- The insert: a row that is there already is that of an earlier attempt, or another run's.
unfoldable pub write_create : (Stage → Bool) → FinalItem → Db → Written
write_create fails it db =
    if not it.create
    then wrote it db
    else if fails creates
    then stopped unavailable it db
    else elim (Lifecycle.create_run it.run db) [
      | ok next ↦ wrote (created it) next
      | err e ↦
          if fails looks_up || not (has (has_id it.run.id) db.runs)
          then stopped conflict it db
          else wrote (created it) db
    ]

-- The running transition: a row that refuses it has passed it.
unfoldable pub write_start : (Stage → Bool) → FinalItem → Db → Written
write_start fails it db = elim (it.start) [
  | none ↦ wrote it db
  | some i ↦
      if fails starts
      then stopped unavailable it db
      else elim (start_run it.run.id i.pid i.pgid i.id i.at db) [
        | ok next ↦ wrote (record it { start = none }) next
        | err e ↦ wrote (record it { start = none }) db
      ]
]

-- The terminal state.
unfoldable pub write_end_state : (Stage → Bool) → FinalItem → Db → Written
write_end_state fails it db = elim (it.done) [
  | none ↦ wrote it db
  | some t ↦
      if fails finishes then stopped unavailable it db else elim (finish_run it.run.id t db) [
        | ok next ↦ wrote it next
        | err e ↦ stopped refused it db
      ]
]

unfoldable pub write_history : (Stage → Bool) → FinalItem → Db → Written
write_history fails it db =
    and_then (write_create fails it db)
      λ a d. and_then (write_start fails a d) (write_end_state fails)

abbrev pub no_start : FinalItem → Bool
no_start it = elim (it.start) [ none ↦ true | some i ↦ false ]

abbrev pub is_done : FinalItem → Bool
is_done it = elim (it.done) [ none ↦ false | some t ↦ true ]

-- Whether a written item leaves the map: unless a stage has arrived meanwhile. `was_done` tells
-- whether the item was done when the write began.
abbrev pub retires : Bool → FinalItem → Bool
retires was_done it = not it.create && no_start it && (was_done || not (is_done it))

abbrev pub backed_off : ℕ → FinalItem → FinalItem
backed_off now it =
    let wait = min (it.backoff * 2) final_backoff_max in
    record it { attempts = suc it.attempts; backoff = wait; next_try = now + wait }

-- What a pass leaves: the items that stay, the tables, and whether storage has ended it early.
pub record Passed : Type 0 where
  pub items : List FinalItem
  pub db : Db
  pub failed_early : Bool

abbrev pub keep : List FinalItem → Passed → Passed
keep items p = record p { items = items ++ p.items }

-- The items of a pass in turn; `streak` counts the failures of storage one after the other.
unfoldable pub write_each :
    (String → Stage → Bool) → (FinalItem → FinalItem) → ℕ → ℕ → List FinalItem → Db → Passed
write_each fails arrive now streak [] db = record { items = []; db = db; failed_early = false }
write_each fails arrive now streak (it ∷ rest) db = elim (write_history (fails it.run.id) it db) [
  | wrote a next ↦
      keep (if retires (is_done it) (arrive a) then [] else arrive a ∷ [])
        (write_each fails arrive now 0 rest next)
  | stopped why a next ↦ elim why [
    | conflict ↦ write_each fails arrive now 0 rest next
    | refused ↦ write_each fails arrive now 0 rest next
    | unavailable ↦
        if leb fail_streak (suc streak)
        then record { items = backed_off now a ∷ rest; db = next; failed_early = true }
        else keep (backed_off now a ∷ []) (write_each fails arrive now (suc streak) rest next)
  ]
]

abbrev pub older : FinalItem → FinalItem → Bool
older a b = leb a.run.queued_us b.run.queued_us

-- `slices.SortFunc` by the time that a run was queued.
unfoldable pub put_in_order : FinalItem → List FinalItem → List FinalItem
put_in_order it [] = it ∷ []
put_in_order it (x ∷ xs) = if older it x then it ∷ x ∷ xs else x ∷ put_in_order it xs

unfoldable pub oldest_first : List FinalItem → List FinalItem
oldest_first [] = []
oldest_first (x ∷ xs) = put_in_order x (oldest_first xs)

-- `finalizePass`, for a daemon that stays open: the due items, the oldest first.
unfoldable pub finalize_pass :
    (String → Stage → Bool) → (FinalItem → FinalItem) → ℕ → List FinalItem → Db → Passed
finalize_pass fails arrive now items db =
    keep (select (λ it. not (leb it.next_try now)) items)
      (write_each fails arrive now 0 (oldest_first (select (λ it. leb it.next_try now) items)) db)
