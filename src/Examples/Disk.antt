-- ===== src/Examples/Disk.antt =====
-- The disk budget: a file system that is nearly full, before and after a pass.
use minicrond.Prelude.{◌≡◌, refl, false, true, none, some, List, [], ◌∷◌}
use minicrond.Disk.{
  DiskPolicy, DiskUsage, DiskStatus, DiskReadings, Deletion, passed_over, failing, freed,
  pressure_of, enforce,
}
use minicrond.Disk.Verdict.{Verdict, enforce-Verdict}

abbrev policy : DiskPolicy
policy = record { budget_bytes = 1000; min_free_bytes = 100 }

abbrev full : DiskUsage
full = record { archive_bytes = 500; sealed_bytes = 400; hot_bytes = 60 }

abbrev lean : DiskUsage
lean = record { archive_bytes = 300; sealed_bytes = 400; hot_bytes = 60 }

abbrev low : DiskStatus
low = record {
  enabled = true;
  free_bytes = 50;
  total_bytes = 5000;
  statfs_failed = false;
  min_free = 100;
  budget = 1000;
  usage = full;
  pressure = true;
  insufficient = false;
  passes = 1;
  pressure_passes = 1;
  insufficient_passes = 0;
  pruned_runs = 0;
  pruned_chunks = 0;
  pruned_bytes = 0;
  sealed_runs_deleted = 0;
  sealed_bytes_deleted = 0;
}

abbrev relieved : DiskStatus
relieved = record low { free_bytes = 250; usage = lean }

missed : (pressure_of policy low).1 ≡ 160
unfolding pressure_of
missed = refl

abbrev candidates : List Deletion
candidates = passed_over ∷ freed 90 ∷ failing ∷ freed 80 ∷ freed 70 ∷ []

abbrev readings : DiskReadings
readings = record {
  statfs = some (50, 5000);
  usage = full;
  canceled_early = false;
  prune = λ want. record { runs = 1; chunks = 2; bytes = 100 };
  canceled_pruned = false;
  statfs_pruned = some (90, 5000);
  usage_pruned = full;
  sealed = candidates;
  canceled_deleted = false;
  statfs_deleted = none;
  usage_deleted = full;
  canceled = false;
}

enforce-Verdict_example : Verdict policy readings low (enforce policy readings low)
enforce-Verdict_example =
    enforce-Verdict policy readings low
      (record { early = refl; pruned = refl; deleted = refl; end = refl })
