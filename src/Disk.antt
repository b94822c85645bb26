-- ===== src/Disk.antt =====
-- internal/logstore/budget.go: the disk budget of the logs. What the file system, the archive and the
-- walk over the buffers answer in the course of one pass is the record `DiskReadings`.
use minicrond.Prelude.{
  ℕ, suc, ◌+◌, ◌-◌, ◌*◌, ◌/◌, ◌^◌, min, max, Bool, true, false, ◌&&◌, ◌||◌, not, if◌then◌else◌,
  Option, none, some, List, [], ◌∷◌, ltb, leb, eqb,
}
pub mod Relief
pub mod Measure
pub mod Verdict

-- `DiskPolicy`; a limit of 0 is disabled.
pub record DiskPolicy : Type 0 where
  pub budget_bytes : ℕ
  pub min_free_bytes : ℕ

-- `DiskUsage`, as far as the budget applies to it.
pub record DiskUsage : Type 0 where
  pub archive_bytes : ℕ
  pub sealed_bytes : ℕ
  pub hot_bytes : ℕ

-- `LogBytes`.
abbrev pub log_bytes : DiskUsage → ℕ
log_bytes u = u.archive_bytes + u.sealed_bytes + u.hot_bytes

-- `DiskStatus`, less its times.
pub record DiskStatus : Type 0 where
  pub enabled : Bool
  pub free_bytes : ℕ
  pub total_bytes : ℕ
  pub statfs_failed : Bool
  pub min_free : ℕ
  pub budget : ℕ
  pub usage : DiskUsage
  pub pressure : Bool
  pub insufficient : Bool
  pub passes : ℕ
  pub pressure_passes : ℕ
  pub insufficient_passes : ℕ
  pub pruned_runs : ℕ
  pub pruned_chunks : ℕ
  pub pruned_bytes : ℕ
  pub sealed_runs_deleted : ℕ
  pub sealed_bytes_deleted : ℕ

-- `freeInt`.
abbrev pub free_int : DiskStatus → ℕ
free_int st = min st.free_bytes (2 ^ 62)

-- `headroomLow`.
abbrev pub headroom_low : DiskStatus → Bool
headroom_low st = ltb 0 st.min_free && not st.statfs_failed && ltb (free_int st) st.min_free

-- The two parts of `pressure`: the bytes by which headroom and budget miss their low watermarks.
abbrev pub headroom_want : DiskStatus → ℕ
headroom_want st = if headroom_low st then st.min_free + st.min_free / 4 - free_int st else 0

abbrev pub over_budget : DiskPolicy → DiskStatus → Bool
over_budget p st = ltb 0 p.budget_bytes && ltb (p.budget_bytes / 100 * 90) (log_bytes st.usage)

abbrev pub budget_want : DiskPolicy → DiskStatus → ℕ
budget_want p st = if over_budget p st then log_bytes st.usage - p.budget_bytes / 100 * 80 else 0

-- `pressure`: whether a high watermark is passed, and the bytes to free.
unfoldable pub pressure_of : DiskPolicy → DiskStatus → Bool × ℕ
pressure_of p st = (headroom_low st || over_budget p st, max (headroom_want st) (budget_want p st))

-- `probe`, for what statfs answers: the free and the total bytes, or an error.
unfoldable pub probe : DiskPolicy → Option (ℕ × ℕ) → DiskStatus → DiskStatus
probe p none st = record st {
  budget = p.budget_bytes;
  statfs_failed = true;
  free_bytes = 0;
  total_bytes = 0;
  min_free = p.min_free_bytes;
}
probe p (some (free, total)) st = record st {
  budget = p.budget_bytes;
  statfs_failed = false;
  free_bytes = free;
  total_bytes = total;
  min_free = min p.min_free_bytes (min total (2 ^ 62) / 4);
}

-- `finishPass`.
unfoldable pub finish_pass : Bool → DiskStatus → DiskStatus
finish_pass unresolved st = record st {
  insufficient = unresolved;
  insufficient_passes = if unresolved then suc st.insufficient_passes else st.insufficient_passes;
}

-- What comes of the attempt to delete a sealed buffer: it is owned, or has become active; it
-- cannot be deleted; or its bytes are freed.
pub data Deletion : Type 0 where
  passed_over failing : Deletion
  freed : ℕ → Deletion

-- The loop of `pruneSealed` over the candidates, the oldest first, with the runs and bytes so far.
unfoldable pub prune_sealed : ℕ → ℕ → ℕ → List Deletion → ℕ × ℕ
prune_sealed want runs bytes [] = (runs, bytes)
prune_sealed want runs bytes (c ∷ cs) = elim (leb want bytes) [
  | true ↦ (runs, bytes)
  | false ↦ elim c [
    | passed_over ↦ prune_sealed want runs bytes cs
    | failing ↦ prune_sealed want runs bytes cs
    | freed n ↦ prune_sealed want (suc runs) (bytes + n) cs
  ]
]

-- What the archive has pruned: `PruneOldest`.
pub record Pruned : Type 0 where
  pub runs : ℕ
  pub chunks : ℕ
  pub bytes : ℕ

-- The answers that a pass gets in their order, and where its context has ended: at the first
-- measurement, after either stage, or at the return.
pub record DiskReadings : Type 0 where
  pub statfs : Option (ℕ × ℕ)
  pub usage : DiskUsage
  pub canceled_early : Bool
  pub prune : ℕ → Pruned
  pub canceled_pruned : Bool
  pub statfs_pruned : Option (ℕ × ℕ)
  pub usage_pruned : DiskUsage
  pub sealed : List Deletion
  pub canceled_deleted : Bool
  pub statfs_deleted : Option (ℕ × ℕ)
  pub usage_deleted : DiskUsage
  pub canceled : Bool

abbrev pub measured : DiskUsage → DiskStatus → DiskStatus
measured u st = record st { usage = u }

-- The return of a pass: one whose context has ended keeps the verdict of the pass before.
abbrev pub returned : Bool → DiskStatus → DiskStatus → DiskStatus
returned gone prev st =
    if gone then record st { pressure = prev.pressure; insufficient = prev.insufficient } else st

abbrev pub count_pruned : Pruned → DiskStatus → DiskStatus
count_pruned x st = if eqb x.chunks 0 then st else record st {
  pruned_runs = st.pruned_runs + x.runs;
  pruned_chunks = st.pruned_chunks + x.chunks;
  pruned_bytes = st.pruned_bytes + x.bytes;
}

abbrev pub count_deleted : ℕ × ℕ → DiskStatus → DiskStatus
count_deleted (runs, bytes) st = if eqb runs 0 then st else record st {
  sealed_runs_deleted = st.sealed_runs_deleted + runs;
  sealed_bytes_deleted = st.sealed_bytes_deleted + bytes;
}

-- The second stage, where pressure remains after the first, and the verdict.
unfoldable pub second_stage : DiskPolicy → DiskReadings → DiskStatus → DiskStatus → DiskStatus
second_stage p r prev st =
    if not (pressure_of p st).0
    then returned r.canceled prev (finish_pass false st)
    else let st1 = count_deleted (prune_sealed (pressure_of p st).1 0 0 r.sealed) st in
      if r.canceled_deleted
      then returned true prev st1
      else let st2 = measured r.usage_deleted (probe p r.statfs_deleted st1) in
        returned r.canceled prev (finish_pass (pressure_of p st2).0 st2)

-- The first stage, under pressure.
unfoldable pub first_stage : DiskPolicy → DiskReadings → DiskStatus → DiskStatus → DiskStatus
first_stage p r prev st0 =
    let st = record st0 { pressure = true; pressure_passes = suc st0.pressure_passes } in
    let st1 = count_pruned (r.prune (pressure_of p st0).1) st in
    if r.canceled_pruned
    then returned true prev st1
    else second_stage p r prev (measured r.usage_pruned (probe p r.statfs_pruned st1))

-- `EnforceDiskBudget` under a policy.
unfoldable pub enforce : DiskPolicy → DiskReadings → DiskStatus → DiskStatus
enforce p r prev =
    let st = probe p r.statfs (record prev {
      enabled = true;
      pressure = false;
      insufficient = false;
      passes = suc prev.passes;
    }) in
    if not (headroom_low st) && eqb p.budget_bytes 0
    then returned r.canceled prev (finish_pass false st)
    else let st1 = measured r.usage st in
      if r.canceled_early
      then returned true prev st1
      else if not (pressure_of p st1).0
      then returned r.canceled prev (finish_pass false st1)
      else first_stage p r prev st1
