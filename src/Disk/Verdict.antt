-- ===== src/Disk/Verdict.antt =====
-- internal/logstore/budget.go: the verdict of a pass and its counters, from what the pass reads.
use minicrond.Prelude.{
  ℕ, suc, ◌+◌, ◌≡◌, ap, subst, Bool, true, false, ◌&&◌, not, if◌then◌else◌, arith, eqb,
}
use minicrond.Disk.{
  DiskPolicy, DiskStatus, DiskReadings, pressure_of, probe, finish_pass, second_stage, first_stage,
  enforce, measured, count_deleted, count_pruned, prune_sealed, Pruned,
}
use minicrond.Disk.Measure.{reading, pressure-reading, probe-Probed, idle}

abbrev pub one : Bool → ℕ
one b = if b then 1 else 0

pub record Uncanceled (r : DiskReadings) : Type 0 where
  pub early : r.canceled_early ≡ false
  pub pruned : r.canceled_pruned ≡ false
  pub deleted : r.canceled_deleted ≡ false
  pub end : r.canceled ≡ false

-- The status t after a pass from the status s, counted n times, where l0, l1 and l2 tell what its three measurements
-- say, x is what the archive has pruned and y what was deleted of the sealed buffers.
pub record Judged (n : ℕ) (l0 l1 l2 : Bool) (x : Pruned) (y : ℕ × ℕ) (s t : DiskStatus)
    : Type 0 where
  pub pressure : t.pressure ≡ l0
  pub insufficient : t.insufficient ≡ (l0 && l1 && l2)
  pub passes : t.passes ≡ n + s.passes
  pub pressure_passes : t.pressure_passes ≡ s.pressure_passes + one l0
  pub insufficient_passes : t.insufficient_passes ≡ s.insufficient_passes + one (l0 && l1 && l2)
  pub pruned_runs :
      t.pruned_runs ≡ s.pruned_runs + (if l0 && not (eqb x.chunks 0) then x.runs else 0)
  pub pruned_chunks : t.pruned_chunks ≡ s.pruned_chunks + (if l0 then x.chunks else 0)
  pub pruned_bytes :
      t.pruned_bytes ≡ s.pruned_bytes + (if l0 && not (eqb x.chunks 0) then x.bytes else 0)
  pub sealed_runs : t.sealed_runs_deleted ≡ s.sealed_runs_deleted + (if l0 && l1 then y.0 else 0)
  pub sealed_bytes :
      t.sealed_bytes_deleted
      ≡ s.sealed_bytes_deleted + (if l0 && l1 && not (eqb y.0 0) then y.1 else 0)

-- What a pass that nothing interrupts says: under pressure by its first measurement it prunes the
-- archive by the bytes that this one asks for, where the second still asks for some it deletes that
-- much of the sealed buffers, and the third says whether this was enough.
abbrev pub Verdict : DiskPolicy → DiskReadings → DiskStatus → DiskStatus → Type 0
Verdict p r prev st =
    Judged 1 (reading p r.statfs r.usage).0 (reading p r.statfs_pruned r.usage_pruned).0
      (reading p r.statfs_deleted r.usage_deleted).0 (r.prune (reading p r.statfs r.usage).1)
      (prune_sealed (reading p r.statfs_pruned r.usage_pruned).1 0 0 r.sealed) prev st

module _ (p : DiskPolicy) (r : DiskReadings) (prev : DiskStatus) (u : Uncanceled r) where
  -- The pass from a status s whose last measurement says l1, after the first stage.
  pub record Second (s t : DiskStatus) (l1 l2 : Bool) (y : ℕ × ℕ) : Type 0 where
    pub pressure : t.pressure ≡ s.pressure
    pub insufficient : t.insufficient ≡ (l1 && l2)
    pub passes : t.passes ≡ s.passes
    pub pressure_passes : t.pressure_passes ≡ s.pressure_passes
    pub insufficient_passes : t.insufficient_passes ≡ s.insufficient_passes + one (l1 && l2)
    pub pruned_runs : t.pruned_runs ≡ s.pruned_runs
    pub pruned_chunks : t.pruned_chunks ≡ s.pruned_chunks
    pub pruned_bytes : t.pruned_bytes ≡ s.pruned_bytes
    pub sealed_runs : t.sealed_runs_deleted ≡ s.sealed_runs_deleted + (if l1 then y.0 else 0)
    pub sealed_bytes :
        t.sealed_bytes_deleted ≡ s.sealed_bytes_deleted + (if l1 && not (eqb y.0 0) then y.1 else 0)

  second_stage-Second :
      (s : DiskStatus)
      → Second s
          (second_stage p r prev s)
          (pressure_of p s).0
          (reading p r.statfs_deleted r.usage_deleted).0
          (prune_sealed (pressure_of p s).1 0 0 r.sealed)
  unfolding second_stage finish_pass
  second_stage-Second s =
      let st1 = count_deleted (prune_sealed (pressure_of p s).1 0 0 r.sealed) s in
      let q = probe-Probed p r.statfs_deleted st1 in
      let e = pressure-reading p r.statfs_deleted r.usage_deleted st1 in
      record {
        pressure = ground (arith, u.deleted, u.end, q.pressure);
        insufficient = ground (arith, u.deleted, u.end, ap (λ x. x.0) e);
        passes = ground (arith, u.deleted, u.end, q.passes);
        pressure_passes = ground (arith, u.deleted, u.end, q.pressure_passes);
        insufficient_passes =
            ground (arith, u.deleted, u.end, ap (λ x. x.0) e, q.insufficient_passes);
        pruned_runs = ground (arith, u.deleted, u.end, q.pruned_runs);
        pruned_chunks = ground (arith, u.deleted, u.end, q.pruned_chunks);
        pruned_bytes = ground (arith, u.deleted, u.end, q.pruned_bytes);
        sealed_runs = ground (arith, u.deleted, u.end, q.sealed_runs_deleted);
        sealed_bytes = ground (arith, u.deleted, u.end, q.sealed_bytes_deleted);
      }

  first_stage-Judged :
      (s : DiskStatus)
      → Judged 0 true
          (reading p r.statfs_pruned r.usage_pruned).0
          (reading p r.statfs_deleted r.usage_deleted).0
          (r.prune (pressure_of p s).1)
          (prune_sealed (reading p r.statfs_pruned r.usage_pruned).1 0 0 r.sealed)
          s
          (first_stage p r prev s)
  unfolding first_stage
  first_stage-Judged s =
      let st = record s { pressure = true; pressure_passes = suc s.pressure_passes } in
      let st1 = count_pruned (r.prune (pressure_of p s).1) st in
      let st2 = measured r.usage_pruned (probe p r.statfs_pruned st1) in
      let q = probe-Probed p r.statfs_pruned st1 in
      let e = pressure-reading p r.statfs_pruned r.usage_pruned st1 in
      let l2 = (reading p r.statfs_deleted r.usage_deleted).0 in
      let m =
        subst (λ v. Second st2 (second_stage p r prev st2) v.0 l2 (prune_sealed v.1 0 0 r.sealed)) e
          (second_stage-Second st2) in
      record {
        pressure = ground (arith, u.pruned, m.pressure, q.pressure);
        insufficient = ground (arith, u.pruned, m.insufficient);
        passes = ground (arith, u.pruned, m.passes, q.passes);
        pressure_passes = ground (arith, u.pruned, m.pressure_passes, q.pressure_passes);
        insufficient_passes =
            ground (arith, u.pruned, m.insufficient_passes, q.insufficient_passes);
        pruned_runs = ground (arith, u.pruned, m.pruned_runs, q.pruned_runs);
        pruned_chunks = ground (arith, u.pruned, m.pruned_chunks, q.pruned_chunks);
        pruned_bytes = ground (arith, u.pruned, m.pruned_bytes, q.pruned_bytes);
        sealed_runs = ground (arith, u.pruned, m.sealed_runs, q.sealed_runs_deleted);
        sealed_bytes = ground (arith, u.pruned, m.sealed_bytes, q.sealed_bytes_deleted);
      }

  -- A pass whose context does not end meanwhile is under pressure exactly where its first measurement
  -- passes a watermark. It then prunes the archive by what that measurement lacks, where the second
  -- measurement still passes one it deletes that much of the sealed buffers, and it says that the
  -- pressure is not relieved exactly where the third does too. It counts itself once, among the passes
  -- under pressure and the insufficient ones exactly where it is one, and counts what it freed. A free
  -- space below the floor (at most a quarter of the disk) and logs of more than 90 % of the budget pass
  -- a watermark.
  pub enforce-Verdict : Verdict p r prev (enforce p r prev)
  unfolding enforce finish_pass
  enforce-Verdict =
      let s = record prev {
        enabled = true;
        pressure = false;
        insufficient = false;
        passes = suc prev.passes;
      } in
      let st = probe p r.statfs s in
      let st1 = measured r.usage st in
      let q = probe-Probed p r.statfs s in
      let e = pressure-reading p r.statfs r.usage s in
      let i = idle p r.usage st in
      let m =
        subst
          (λ v.
            Judged 0 true (reading p r.statfs_pruned r.usage_pruned).0
              (reading p r.statfs_deleted r.usage_deleted).0 (r.prune v.1)
              (prune_sealed (reading p r.statfs_pruned r.usage_pruned).1 0 0 r.sealed) st1
              (first_stage p r prev st1))
          e (first_stage-Judged st1) in
      record {
        pressure = ground (arith, u.early, u.end, i, ap (λ x. x.0) e, m.pressure, q.pressure);
        insufficient = ground (arith, u.early, u.end, i, ap (λ x. x.0) e, m.insufficient);
        passes = ground (arith, u.early, u.end, i, ap (λ x. x.0) e, m.passes, q.passes);
        pressure_passes =
            ground
              (arith, u.early, u.end, i, ap (λ x. x.0) e, m.pressure_passes, q.pressure_passes);
        insufficient_passes = ground (
          arith,
          u.early,
          u.end,
          i,
          ap (λ x. x.0) e,
          m.insufficient_passes,
          q.insufficient_passes,
        );
        pruned_runs =
            ground (arith, u.early, u.end, i, ap (λ x. x.0) e, m.pruned_runs, q.pruned_runs);
        pruned_chunks =
            ground (arith, u.early, u.end, i, ap (λ x. x.0) e, m.pruned_chunks, q.pruned_chunks);
        pruned_bytes =
            ground (arith, u.early, u.end, i, ap (λ x. x.0) e, m.pruned_bytes, q.pruned_bytes);
        sealed_runs =
            ground
              (arith, u.early, u.end, i, ap (λ x. x.0) e, m.sealed_runs, q.sealed_runs_deleted);
        sealed_bytes =
            ground
              (arith, u.early, u.end, i, ap (λ x. x.0) e, m.sealed_bytes, q.sealed_bytes_deleted);
      }

-- A pass whose context has ended keeps the verdict of the pass before.
pub enforce_canceled :
    (p : DiskPolicy) (r : DiskReadings) (prev : DiskStatus)
    → r.canceled ≡ true
    → ((enforce p r prev).pressure ≡ prev.pressure)
      × ((enforce p r prev).insufficient ≡ prev.insufficient)
unfolding enforce first_stage second_stage
enforce_canceled p r prev c = ground (arith, c)
