-- ===== src/Examples/Writer.antt =====
-- Deferred history: a run that was never stored, beside one whose writes fail.
use minicrond.Prelude.{
  nat_eq, string_eq, String, ◌≡◌, refl, Bool, true, false, none, some, [], ◌∷◌, arith, ◌==◌, map,
}
use minicrond.Store.Tables.{Db, succeeded}
use minicrond.Store.Lifecycle.{Ending}
use minicrond.Executor.State.{FinalItem, second}
use minicrond.Executor.Writer.{
  Stage, write_history, write_each, finalize_pass, backed_off, oldest_first, put_in_order,
}
use minicrond.Executor.Writer.Stages.{Calm}
use minicrond.Executor.Writer.Stored.{Leaves, begun, over, write_history-Stored}
use minicrond.Executor.Writer.Pass.{still, failed_lookup-drops}
use minicrond.Executor.Writer.Due.{row_of, finalize_pass-Written}
use minicrond.Examples.Queue.{backup}

abbrev tables : Db
tables = record { runs = []; queue = []; keys = []; next_seq = 1 }

abbrev stored : Db
stored = record tables { runs = backup ∷ [] }

abbrev ending : Ending
ending = record {
  status = succeeded;
  reason = "exited";
  code = none;
  signal = "";
  at = 9000;
  bytes = 0;
  truncated = false;
  usage = none;
}

abbrev whole : FinalItem
whole = record {
  run = backup;
  create = true;
  start = some (record { pid = 4; pgid = 4; id = "p"; at = 8000 });
  done = some ending;
  backoff = second;
  next_try = 0;
  attempts = 0;
}

abbrev other : FinalItem
other = record whole { run = record backup { id = "r2" } }

abbrev healthy : Stage → Bool
healthy _ = false

abbrev poisoned : String → Stage → Bool
poisoned id s = id == "r2"

write_history-Stored_example :
    Leaves whole tables
      (over (some ending) (begun whole.start backup))
      (write_history healthy whole tables)
write_history-Stored_example = write_history-Stored healthy (λ s. refl) tables whole refl refl refl

good : (id : String) → id == "r2" ≡ false → Calm (poisoned id)
good id h s = h

finalize_pass-Written_example :
    finalize_pass poisoned still 5 (other ∷ whole ∷ []) tables ≡ record {
      items = map (backed_off 5) (other ∷ []);
      db = record tables { runs = row_of whole ∷ [] };
      failed_early = false;
    }
unfolding oldest_first put_in_order
finalize_pass-Written_example =
    finalize_pass-Written poisoned (λ id. id == "r2") 5 good (λ id h. h) (other ∷ whole ∷ []) tables
      (omega arith) (refl, ((λ e. absurd (ground (arith, e))), (refl, ((λ _. (refl, refl)), tt))))

abbrev unreadable : String → Stage → Bool
unreadable _ Stage.looks_up = true
unreadable _ _ = false

failed_lookup-drops_example :
    write_each unreadable still 5 0 (whole ∷ []) stored
    ≡ record { items = []; db = stored; failed_early = false }
failed_lookup-drops_example = failed_lookup-drops unreadable 5 whole stored refl refl refl refl
