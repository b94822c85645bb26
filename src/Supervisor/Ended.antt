-- ===== src/Supervisor/Ended.antt =====
-- internal/supervisor/supervisor.go: what the worker's loop does with the stored end of its run.
use minicrond.Prelude.{
  nat_eq, string_eq, ◌≡◌, refl, ℕ, Bool, true, false, Option, some, if◌then◌else◌, arith, ◌⊎◌, ◌↔◌,
  inl, inr, Bool-cases, str_iff, ◌==◌, ◌||◌, ◌&&◌,
}
use minicrond.Store.Tables.{Run, succeeded, status_eq}
use minicrond.Model.{Definition}
use minicrond.Supervisor.{Supervisor, WorkerExhaustion, restart_after, after_run, healthy_end}
use minicrond.Supervisor.Exhausted.{undisturbed, Verdict, restart_after-Verdict}

-- The policy asks for no further start.
abbrev pub Declined : Definition → Run → Type 0
Declined d r = (d.restart ≡ "never") ⊎ ((d.restart ≡ "on-failure") × (r.status ≡ succeeded))

-- What the loop of a worker does with the stored end of its run.
pub record Decided (d : Definition) (r : Run) (o : WorkerExhaustion) (s s' : Supervisor)
    (again : Option Bool) : Type 0 where
  pub held : s.holds d.name ≡ true → (s' ≡ s) × (again ≡ some false)
  pub declined : Declined d r → (s' ≡ s) × (again ≡ some false)
  pub asked : s.holds d.name ≡ false → ¬ Declined d r → Verdict d (healthy_end d r) o s s' again

Declined-iff :
    (d : Definition) (r : Run)
    → (d.restart == "never" || (d.restart == "on-failure" && r.status == succeeded)) ≡ true
      ↔ Declined d r
Declined-iff d r = (forth, back)
  where
    forth :
        (d.restart == "never" || (d.restart == "on-failure" && r.status == succeeded)) ≡ true
        → Declined d r
    forth h = elim (Bool-cases (d.restart == "never")) [
      | inl e ↦ inl ((str_iff d.restart "never").0 e)
      | inr e ↦ inr (
        (str_iff d.restart "on-failure").0 (ground (arith, h, e)),
        (status_eq.same_iff r.status succeeded).0 (ground (arith, h, e)),
      )
    ]

    back :
        Declined d r
        → (d.restart == "never" || (d.restart == "on-failure" && r.status == succeeded)) ≡ true
    back (inl e) = ground (arith, (str_iff d.restart "never").1 e)
    back (inr (e, f)) =
        ground
          (arith, (str_iff d.restart "on-failure").1 e, (status_eq.same_iff r.status succeeded).1 f)

decide-Decided :
    (d : Definition) (r : Run) (o : WorkerExhaustion) (s : Supervisor) (h q : Bool)
    → (m : Supervisor × Option Bool) → s.holds d.name ≡ h
    → (d.restart == "never" || (d.restart == "on-failure" && r.status == succeeded)) ≡ q
    → Verdict d (healthy_end d r) o s m.0 m.1
    → (let k : Supervisor × Option Bool =
          if h then (s, some false) else if q then (s, some false) else m in
        Decided d r o s k.0 k.1)
decide-Decided d r o s true q m e f v = record {
  held = λ _. (refl, refl);
  declined = λ _. (refl, refl);
  asked = λ g. absurd (ground (arith, e, g));
}
decide-Decided d r o s false true m e f v = record {
  held = λ _. (refl, refl);
  declined = λ _. (refl, refl);
  asked = λ _ n. absurd (n ((Declined-iff d r).0 f));
}
decide-Decided d r o s false false m e f v = record {
  held = λ g. absurd (ground (arith, e, g));
  declined = λ x. absurd (ground (arith, f, (Declined-iff d r).1 x));
  asked = λ _ _. v;
}

-- After the stored end of its run a worker that is held is not started again, nor one whose policy is
-- `never`, nor one under `on-failure` whose run succeeded; nothing changes then. Any other is started
-- again while its budget lasts, and always under a back-off cap. Its failures in a row are counted, and
-- start anew where the run succeeded or the process lived for `healthy_after`. When the budget is spent
-- it retires and its exhaustion is recorded. The store takes the record after any number of refusals;
-- no context ends and nothing else happens meanwhile.
pub after_run-Decided :
    (d : Definition) (r : Run) (o : WorkerExhaustion) (n : ℕ) (s : Supervisor)
    → Decided d r o s (after_run d r (undisturbed o n) s).0 (after_run d r (undisturbed o n) s).1
unfolding after_run
after_run-Decided d r o n s =
    decide-Decided d r o s _ _ (restart_after d (healthy_end d r) (undisturbed o n) s) refl refl
      (restart_after-Verdict d (healthy_end d r) o n s)
