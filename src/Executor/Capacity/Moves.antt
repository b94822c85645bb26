-- ===== src/Executor/Capacity/Moves.antt =====
-- internal/executor: the moves that admit, start and end runs, in any order, and the books of the
-- executor.
use minicrond.Prelude.{
  nat_eq, string_eq, ◌≡◌, refl, ◌∙◌, sym, subst, ℕ, ◌+◌, String, Bool, some, List, [], ◌∷◌, ◌==◌,
  not, if◌then◌else◌, arith, Bool-cases, inl, inr, find, count, select, str_iff,
}
use minicrond.Store.Lifecycle.{Ending}
use minicrond.Executor.State.{Service, Active, RetryItem}
use minicrond.Executor.Backlog.{World, Request}
use minicrond.Executor.Trigger.{trigger}
use minicrond.Executor.Retries.{retry_step}
use minicrond.Executor.Completion.{end_execution, leave, complete, is_run, lower}
use minicrond.Executor.Drain.{Readings}
use minicrond.Executor.Step.{drain_step}
use minicrond.Executor.Capacity.Frame.{complete-Same}
use minicrond.Executor.Capacity.Books.{Held, Held-Same, of_job, named, slots, release_job-Held}
use minicrond.Executor.Capacity.Triggered.{trigger-Held}
use minicrond.Executor.Capacity.Stepped.{drain_step-Held}
use minicrond.Executor.Capacity.Retried.{retry_step-Held}

-- A run that its identity finds, and that no other shares.
pub record Sole (a : Active) (xs : List Active) : Type 0 where
  pub there : find (is_run a.run.id) xs ≡ some a
  pub once : count (is_run a.run.id) xs ≡ 1

count-none :
    (p q : Active → Bool) (xs : List Active)
    → count p xs ≡ 0
    → count q (select (λ x. not (p x)) xs) ≡ count q xs
count-none p q [] e = refl
count-none p q (x ∷ xs) e = ground (arith, e, count-none p q xs)

count-leave :
    (p q : Active → Bool) (a : Active) (xs : List Active)
    → find p xs ≡ some a
    → count p xs ≡ 1
    → count q xs ≡ (if q a then 1 else 0) + count q (select (λ x. not (p x)) xs)
count-leave p q a [] f e = absurd (omega (arith, e))
count-leave p q a (x ∷ xs) f e = elim (Bool-cases (p x)) [
  | inl t ↦
      let same : x ≡ a = ground (arith, t, f) in
      subst
        (λ y.
          count q (x ∷ xs) ≡ (if q y then 1 else 0) + count q (select (λ z. not (p z)) (x ∷ xs)))
        same (ground (arith, t, e, count-none p q xs))
  | inr t ↦ ground (arith, t, e, f, count-leave p q a xs)
]

lower_count :
    (n name : String) (f : String → ℕ) (c : ℕ)
    → f n ≡ (if name == n then 1 else 0) + c
    → lower name f n ≡ c
lower_count n name f c e = ground (arith, e, (str_iff n name).0, (str_iff name n).0)

leave-Held : (a : Active) (s : Service) → Sole a s.active → Held 0 s → Held 0 (leave a s)
unfolding leave
leave-Held a s sole h = release_job-Held a.def removed-Held
  where
    removed : Service
    removed = record s {
      active = select (λ x. not (is_run a.run.id x)) s.active;
      by_job = lower a.def.name s.by_job;
    }

    split : (q : Active → Bool) → count q s.active ≡ (if q a then 1 else 0) + count q removed.active
    split q = count-leave (is_run a.run.id) q a s.active sole.there sole.once

    removed-Held : Held (slots a.def) removed
    removed-Held = record {
      slots_taken = omega (arith, h.slots_taken, split of_job);
      bounded = h.bounded;
      by_name = λ name.
          lower_count name a.def.name s.by_job (count (named name) removed.active)
            (h.by_name name ∙ split (named name));
    }

end_execution-Held :
    (a : Active) (t : Ending) (retry : Bool) (w : World) (s : Service)
    → Sole a s.active
    → Held 0 s
    → Held 0 (end_execution a t retry w s)
unfolding end_execution
end_execution-Held a t retry w s sole h =
    let p = complete-Same a t retry w s in
    leave-Held a (complete a t retry w s) (subst (Sole a) (sym p.active) sole) (Held-Same p h)

-- What admits, starts and ends runs.
pub data Move : Type 0 where
  request : Request → World → Move
  drain : World → Readings → Move
  retry : ℕ → (RetryItem → World) → Move
  end : Active → Ending → Bool → World → Move

abbrev pub make_move : Move → Service → Service
make_move (request q w) s = (trigger q w s).0
make_move (drain w t) s = (drain_step w t s).0
make_move (retry now world) s = retry_step now world s
make_move (end a t may_retry w) s = end_execution a t may_retry w s

-- A run that ends is one of those being executed.
abbrev pub Fits : Move → Service → Type 0
Fits (end a t may_retry w) s = Sole a s.active
Fits _ s = Unit

abbrev pub make_moves : List Move → Service → Service
make_moves [] s = s
make_moves (m ∷ ms) s = make_moves ms (make_move m s)

abbrev pub AllFit : List Move → Service → Type 0
AllFit [] s = Unit
AllFit (m ∷ ms) s = Fits m s × AllFit ms (make_move m s)

pub make_move-Held : (m : Move) (s : Service) → Held 0 s → Fits m s → Held 0 (make_move m s)
make_move-Held (request q w) s h f = trigger-Held q w h
make_move-Held (drain w t) s h f = drain_step-Held w t s h
make_move-Held (retry now world) s h f = retry_step-Held now world s h
make_move-Held (end a t may_retry w) s h f = end_execution-Held a t may_retry w s f h

-- Through every sequence of triggers, drain steps, retry passes and ends of runs, the slots taken are
-- as many as the jobs being executed and never more than `max_runs`, and the count kept for
-- each name is that of its runs being executed, if this held at first and only a run being
-- executed, alone with its identity, ends.
pub make_moves-Held :
    (ms : List Move) (s : Service) → Held 0 s → AllFit ms s → Held 0 (make_moves ms s)
make_moves-Held [] s h f = h
make_moves-Held (m ∷ ms) s h f = make_moves-Held ms (make_move m s) (make_move-Held m s h f.0) f.1
