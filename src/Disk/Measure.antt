-- ===== src/Disk/Measure.antt =====
-- internal/logstore/budget.go: what a measurement of a pass says, in terms of what it reads.
use minicrond.Prelude.{
  ℕ, ◌+◌, ◌-◌, ◌*◌, ◌/◌, ◌^◌, min, max, ◌≡◌, refl, Bool-cases, inl, inr, Bool, true, false, ◌&&◌,
  ◌||◌, not, if◌then◌else◌, Option, none, some, arith, eqb, ltb,
}
use minicrond.Disk.{
  DiskPolicy, DiskStatus, DiskUsage, pressure_of, probe, measured, headroom_low, log_bytes,
}

-- The bytes to keep free: no more than a quarter of the file system.
abbrev pub floor : DiskPolicy → ℕ → ℕ
floor p total = min p.min_free_bytes (min total (2 ^ 62) / 4)

-- There is less free space than the policy keeps; a failed statfs tells nothing.
abbrev pub short : DiskPolicy → Option (ℕ × ℕ) → Bool
short p none = false
short p (some (free, total)) = ltb 0 (floor p total) && ltb (min free (2 ^ 62)) (floor p total)

-- The logs fill more than 90 % of a budget.
abbrev pub over : DiskPolicy → DiskUsage → Bool
over p u = ltb 0 p.budget_bytes && ltb (p.budget_bytes / 100 * 90) (log_bytes u)

-- What the two lack: up to the floor and a quarter of it, and down to 80 % of the budget.
abbrev pub lacking : DiskPolicy → Option (ℕ × ℕ) → ℕ
lacking p none = 0
lacking p (some (free, total)) =
    if short p (some (free, total))
    then floor p total + floor p total / 4 - min free (2 ^ 62)
    else 0

abbrev pub excess : DiskPolicy → DiskUsage → ℕ
excess p u = if over p u then log_bytes u - p.budget_bytes / 100 * 80 else 0

-- A measurement: whether a watermark is passed, and how many bytes are to be freed.
abbrev pub reading : DiskPolicy → Option (ℕ × ℕ) → DiskUsage → Bool × ℕ
reading p o u = (short p o || over p u, max (lacking p o) (excess p u))

pub pressure-reading :
    (p : DiskPolicy) (o : Option (ℕ × ℕ)) (u : DiskUsage) (st : DiskStatus)
    → pressure_of p (measured u (probe p o st)) ≡ reading p o u
unfolding probe pressure_of
pressure-reading p none u st = elim (Bool-cases (ltb 0 p.min_free_bytes)) [
  | inl e ↦ rw e refl
  | inr e ↦ rw e refl
]
pressure-reading p (some (free, total)) u st = elim (Bool-cases (ltb 0 (floor p total))) [
  | inl e ↦ rw e refl
  | inr e ↦ rw e refl
]

-- A probe writes five fields, and leaves the verdict and the counters alone.
pub record Probed (s t : DiskStatus) : Type 0 where
  pub passes : t.passes ≡ s.passes
  pub pressure_passes : t.pressure_passes ≡ s.pressure_passes
  pub insufficient_passes : t.insufficient_passes ≡ s.insufficient_passes
  pub pruned_runs : t.pruned_runs ≡ s.pruned_runs
  pub pruned_chunks : t.pruned_chunks ≡ s.pruned_chunks
  pub pruned_bytes : t.pruned_bytes ≡ s.pruned_bytes
  pub sealed_runs_deleted : t.sealed_runs_deleted ≡ s.sealed_runs_deleted
  pub sealed_bytes_deleted : t.sealed_bytes_deleted ≡ s.sealed_bytes_deleted
  pub pressure : t.pressure ≡ s.pressure

pub probe-Probed : (p : DiskPolicy) (o : Option (ℕ × ℕ)) (s : DiskStatus) → Probed s (probe p o s)
unfolding probe
probe-Probed p none s = record {
  passes = refl;
  pressure_passes = refl;
  insufficient_passes = refl;
  pruned_runs = refl;
  pruned_chunks = refl;
  pruned_bytes = refl;
  sealed_runs_deleted = refl;
  sealed_bytes_deleted = refl;
  pressure = refl;
}
probe-Probed p (some (free, total)) s = record {
  passes = refl;
  pressure_passes = refl;
  insufficient_passes = refl;
  pruned_runs = refl;
  pruned_chunks = refl;
  pruned_bytes = refl;
  sealed_runs_deleted = refl;
  sealed_bytes_deleted = refl;
  pressure = refl;
}

pub idle :
    (p : DiskPolicy) (u : DiskUsage) (st : DiskStatus)
    → (not (headroom_low st) && eqb p.budget_bytes 0) ≡ true
    → (pressure_of p (measured u st)).0 ≡ false
unfolding pressure_of
idle p u st e = ground (arith, e)
