-- ===== src/Supervisor/Exhausted.antt =====
-- internal/supervisor: the failure budget of a worker, and resets that overtake an exhaustion record.
use minicrond.Prelude.{
  nat_eq, string_eq, ◌≡◌, refl, ℕ, zero, suc, ◌≤◌, ◌<◌, String, Bool, true, false, not, Option,
  some, List, [], ◌∷◌, if◌then◌else◌, arith, eqb_iff, ==_refl,
}
use minicrond.Model.{Definition}
use minicrond.Supervisor.{
  Supervisor, WorkerExhaustion, put, epoch_of, reset, reset_exhaustion, Attempt, saved, failed,
  persist_exhaustion, Meets, account, wait_restart, retire, restart_after,
}

-- No epoch is newer than the last token given out.
abbrev pub Numbered : Supervisor → Type 0
Numbered s = (name : String) → epoch_of name s ≤ s.epoch_seq

-- A reset that goes through gives its worker an epoch that no reset before it gave.
reset_exhaustion-renews :
    (name : String) (cleared : Bool) (s : Supervisor)
    → Numbered s
    → (reset_exhaustion name cleared s).1 ≡ reset
    → epoch_of name s < epoch_of name (reset_exhaustion name cleared s).0
unfolding reset_exhaustion epoch_of
reset_exhaustion-renews name cleared s n e = ground (arith, n name, e, ==_refl name)

reset_exhaustion-Numbered :
    (name : String) (cleared : Bool) (s : Supervisor)
    → Numbered s
    → Numbered (reset_exhaustion name cleared s).0
unfolding reset_exhaustion epoch_of
reset_exhaustion-Numbered name cleared s n x = ground (arith, n x)

-- An exhaustion record in the making is given up, with nothing changed, once a reset of its worker
-- has gone through: the round that follows meets the state that the reset left. No epoch was newer
-- than the last token, and none is after the reset.
pub persist_exhaustion-overtaken :
    (d : Definition) (cleared : Bool) (o : WorkerExhaustion) (a : Attempt) (attempts : List Attempt)
    (s : Supervisor)
    → Numbered s
    → (reset_exhaustion d.name cleared s).1 ≡ reset
    → a.before s ≡ (reset_exhaustion d.name cleared s).0
    → Numbered (a.before s)
      × (persist_exhaustion d (epoch_of d.name s) o (a ∷ attempts) s ≡ (a.before s, some false))
unfolding persist_exhaustion
persist_exhaustion-overtaken d cleared o a attempts s n e b = (
  rw (b) (reset_exhaustion-Numbered d.name cleared s n),
  ground (arith, newer, (eqb_iff (epoch_of d.name (a.before s)) (epoch_of d.name s)).0),
)
  where
    newer : epoch_of d.name s < epoch_of d.name (a.before s)
    newer = rw (b) (reset_exhaustion-renews d.name cleared s n e)

-- A store that fails `n` times and then takes the record, with nothing else happening.
abbrev pub refusals : ℕ → List Attempt
refusals zero =
    record { before = λ s. s; canceled = false; save = saved; canceled_after = false } ∷ []
refusals (suc n) =
    record { before = λ s. s; canceled = false; save = failed; canceled_after = false } ∷ refusals n

abbrev pub undisturbed : WorkerExhaustion → ℕ → Meets
undisturbed o n = record {
  canceled = false;
  outcome = o;
  attempts = refusals n;
  meanwhile = λ s. s;
  sleeps = λ s. s;
  canceled_wait = false;
}

-- The record of an undisturbed writer.
record Saved (d : Definition) (o : WorkerExhaustion) (s : Supervisor) (m : Supervisor × Option Bool)
    : Type 0 where
  pub answered : m.1 ≡ some true
  pub evidence : m.0.exhausted d.name ≡ some o
  pub failures : m.0.failures ≡ s.failures
  pub epoch : epoch_of d.name m.0 ≡ epoch_of d.name s

persist_exhaustion-Saved :
    (d : Definition) (epoch : ℕ) (o : WorkerExhaustion) (n : ℕ) (s : Supervisor)
    → epoch_of d.name s ≡ epoch
    → Saved d o s (persist_exhaustion d epoch o (refusals n) s)
unfolding persist_exhaustion epoch_of
persist_exhaustion-Saved d epoch o zero s e =
    ground (arith, e, ==_refl d.name, (eqb_iff (epoch_of d.name s) epoch).1 e)
persist_exhaustion-Saved d epoch o (suc n) s e =
    let rec =
      persist_exhaustion-Saved d epoch o n
        (record s {
          exhausted = put d.name (some o) s.exhausted;
          awaiting = put d.name true s.awaiting;
        })
        e in
    ground (
      arith,
      (eqb_iff (epoch_of d.name s) epoch).1 e,
      rec.answered,
      rec.evidence,
      rec.failures,
      rec.epoch,
    )

-- What the end of a worker's run comes to when no context ends and nothing interferes.
pub record Verdict (d : Definition) (healthy : Bool) (o : WorkerExhaustion) (s s' : Supervisor)
    (again : Option Bool) : Type 0 where
  pub counted : s'.failures d.name ≡ (if healthy then 0 else suc (s.failures d.name))
  pub crash_loop : 0 < d.restart_backoff_max → again ≡ some (not (s.holds d.name))
  pub within : s'.failures d.name < d.max_restart_attempts → again ≡ some (not (s.holds d.name))
  pub spent :
      d.restart_backoff_max ≡ 0
      → d.max_restart_attempts ≤ s'.failures d.name
      → (again ≡ some false) × (s'.retiring d.name ≡ true) × (s'.exhausted d.name ≡ some o)

-- Where the restart policy asks for another start, a worker whose run ended is started again unless it
-- is held, with the failures in a row counted, while its budget lasts and always under a back-off cap.
-- When the budget is spent it retires and its exhaustion is recorded. The store takes the record after
-- any number of refusals; no context ends and nothing else happens meanwhile.
pub restart_after-Verdict :
    (d : Definition) (healthy : Bool) (o : WorkerExhaustion) (n : ℕ) (s : Supervisor)
    → Verdict d healthy o s
        (restart_after d healthy (undisturbed o n) s).0
        (restart_after d healthy (undisturbed o n) s).1
unfolding restart_after wait_restart retire
restart_after-Verdict d healthy o n s =
    let s1 = account d healthy s in
    let m = persist_exhaustion d (epoch_of d.name s1) o (refusals n) s1 in
    let rec = persist_exhaustion-Saved d (epoch_of d.name s1) o n s1 refl in
    record {
      counted = ground (arith, ==_refl d.name, rec.failures, rec.answered, rec.epoch);
      crash_loop = λ b. ground (arith, b);
      within = λ l. ground (arith, l, ==_refl d.name);
      spent = λ b l. ground (
        arith,
        b,
        l,
        ==_refl d.name,
        rec.answered,
        rec.evidence,
        rec.epoch,
        (eqb_iff (epoch_of d.name m.0) (epoch_of d.name s1)).1,
      );
    }
