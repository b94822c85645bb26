-- ===== src/Scheduler/Restart.antt =====
-- internal/store/store.go: `LastScheduledFire`, and what a restarted loop fires beside the stored runs.
use minicrond.Prelude.{
  nat_eq, string_eq, ℕ, ◌+◌, ◌*◌, ◌≤◌, ◌≡◌, Bool, true, ◌&&◌, Option, none, some, List, [], ◌∷◌,
  if◌then◌else◌, ltb, ◌==◌,
}
use minicrond.Store.Tables.{Run}
use minicrond.Scheduler.{second}

-- `time.UnixMicro`: nanoseconds from the zero time, of microseconds from 1970.
abbrev pub from_micro : ℕ → ℕ
from_micro us = 62135596800 * second + us * 1000

abbrev pub greater : Option ℕ → ℕ → ℕ
greater none n = n
greater (some m) n = if ltb n m then m else n

-- The row has a scheduled occurrence of the definition.
abbrev pub is_scheduled : ℕ → Run → Bool
is_scheduled id r = r.definition_id == id && r.trigger == "schedule"

-- `MAX(scheduled_for_us)`, of the rows that have one.
unfoldable pub newest_us : ℕ → List Run → Option ℕ
newest_us id [] = none
newest_us id (r ∷ rs) =
    let rest = newest_us id rs in
    if is_scheduled id r
    then elim r.scheduled_for_us [ none ↦ rest | some us ↦ some (greater rest us) ]
    else rest

-- `LastScheduledFire`.
unfoldable pub last_scheduled_fire : ℕ → List Run → Option ℕ
unfolding newest_us
last_scheduled_fire id runs = elim (newest_us id runs) [
  | none ↦ none
  | some us ↦ some (from_micro us)
]

-- The stored occurrences of the definition are no later than the answer.
Bounded : ℕ → Option ℕ → Run → Type 0
Bounded id o r =
    is_scheduled id r ≡ true
    → (us : ℕ) → r.scheduled_for_us ≡ some us
    → (v : ℕ) × ((o ≡ some v) × (us ≤ v))
