-- ===== src/Executor/SingleFlight.antt =====
-- internal/executor: the runs of one name, whichever of triggers, queue and retries starts them, under
-- the policy that skips overlapping runs.
use minicrond.Prelude.{
  nat_eq, string_eq, ◌≡◌, refl, ◌∙◌, sym, subst, ℕ, ◌≤◌, String, Bool, true, false, ◌&&◌, ◌||◌,
  List, [], ◌∷◌, ◌==◌, not, if◌then◌else◌, arith, Bool-cases, inl, inr, count, select, ltb, str_iff,
}
use minicrond.Store.Lifecycle.{Ending}
use minicrond.Model.{Definition, is_job, is_enabled}
use minicrond.Executor.State.{Service, Active, RetryItem, Lookup, found, missing, unreadable}
use minicrond.Executor.Backlog.{
  World, Reply, answer, refuse, capacity, shutdown, canceled, disabled, queue_full,
  queue_unavailable, stored,
}
use minicrond.Executor.Trigger.{trigger}
use minicrond.Executor.Retries.{
  retry_now, retry_found, retried, retry_each, retry_step, retry_request, write_evidence,
  persist_retry_evidence, pop_due, retry_batch,
}
use minicrond.Executor.Completion.{end_execution, leave, complete, is_run, lower}
use minicrond.Executor.Capacity.Frame.{Same, Same-trans, add_retry-Same, complete-Same}
use minicrond.Executor.Capacity.Books.{Held, Held-Same, named}
use minicrond.Executor.Capacity.Added.{release_job-active}
use minicrond.Executor.Capacity.Launches.{Launches, overlaps, trigger-Launches}
use minicrond.Executor.Capacity.Drains.{drain_step-Launches}
use minicrond.Executor.Capacity.Retried.{retry_found-Held, write_evidence-Same}
use minicrond.Executor.Capacity.Moves.{
  Move, request, drain, retry, end, make_move, make_moves, AllFit, make_move-Held,
}

module _ (n : String) where
  abbrev pub Lone : List Active → Type 0
  Lone xs = count (named n) xs ≤ 1

  -- A definition of the name is a job that skips overlapping runs.
  abbrev pub Exclusive : Definition → Type 0
  Exclusive d = d.name ≡ n → is_job d.kind && d.on_overlap == "skip" ≡ true

  abbrev pub Answers : World → Type 0
  Answers w = (d : Definition) (name hash : String) → w.lookup name ≡ found d hash → Exclusive d

  begun-Lone :
      (a : Active) (s : Service)
      → Held 0 s
      → Lone s.active
      → Exclusive a.def
      → is_job a.def.kind && overlaps a.def s ≡ false
      → Lone (a ∷ s.active)
  begun-Lone a s h l x o = elim (Bool-cases (a.def.name == n)) [
    | inr e ↦ ground (arith, e, l)
    | inl e ↦
        let same = (str_iff a.def.name n).0 e in
        let skips = x same in
        let idle : s.by_job a.def.name ≡ 0 = ground (arith, skips, o) in
        let gone =
          subst (λ m. count (named m) s.active ≡ 0) same (sym (h.by_name a.def.name) ∙ idle) in
        ground (arith, e, gone)
  ]

  Launches-Lone :
      (From : Definition → Type 0) (s : Service) (ys : List Active)
      → ((d : Definition) → From d → Exclusive d)
      → Held 0 s
      → Lone s.active
      → Launches From s ys
      → Lone ys
  Launches-Lone From s ys x h l p = elim p.new [
    | inl e ↦ subst Lone (sym e) l
    | inr (a, f, o, e) ↦ subst Lone (sym e) (begun-Lone a s h l (x a.def f) o)
  ]

  retried-active :
      (it : RetryItem) (w : World) (m : Service × Reply) → (retried it w m).active ≡ m.0.active
  unfolding retried
  retried-active it w (s, refuse capacity) = (add_retry-Same _ s).active
  retried-active it w (s, refuse shutdown) = refl
  retried-active it w (s, refuse canceled) = refl
  retried-active it w (s, refuse disabled) = refl
  retried-active it w (s, refuse queue_full) = refl
  retried-active it w (s, refuse queue_unavailable) = refl
  retried-active it w (s, refuse (stored e)) = refl
  retried-active it w (s, answer r b) = refl

  Lone-if :
      (b : Bool) (s t : Service) → Lone s.active → Lone t.active → Lone (if b then s else t).active
  Lone-if true s t p q = p
  Lone-if false s t p q = q

  retry_found-Lone :
      (it : RetryItem) (w : World) (name : String) (k : Lookup) (s : Service)
      → Answers w
      → w.lookup name ≡ k
      → Held 0 s
      → Lone s.active
      → Lone (retry_found it w k s).active
  unfolding retry_found
  retry_found-Lone it w name (found d hash) s x e h l =
      let q = retry_request it d hash in
      Lone-if
        (not (d.id == it.def_id)
          || not (is_job d.kind)
          || not (is_enabled d)
          || ltb d.retries it.attempt)
        _ _ l
        (subst Lone (sym (retried-active it w (trigger q w s))) (
          Launches-Lone (λ d'. d' ≡ d) s _ (λ d' f. subst Exclusive (sym f) (x d name hash e)) h l
            (trigger-Launches q w s)))
  retry_found-Lone it w name missing s x e h l = l
  retry_found-Lone it w name unreadable s x e h l =
      Lone-if w.canceled _ _ l (subst Lone (sym (add_retry-Same _ s).active) l)

  retry_each-Lone :
      (its : List RetryItem) (world : RetryItem → World) (s : Service)
      → ((it : RetryItem) → Answers (world it))
      → Held 0 s
      → Lone s.active
      → Lone (retry_each its world s).active
  unfolding retry_each retry_now
  retry_each-Lone [] world s x h l = l
  retry_each-Lone (it ∷ its) world s x h l = Lone-if s.closing _ _ l (
      retry_each-Lone its world (retry_now it (world it) s) x
        (retry_found-Held it (world it) ((world it).lookup it.name) s h)
        (retry_found-Lone it (world it) it.name ((world it).lookup it.name) s (x it) refl h l))

  retry_step-Lone :
      (now : ℕ) (world : RetryItem → World) (s : Service)
      → ((it : RetryItem) → Answers (world it))
      → Held 0 s
      → Lone s.active
      → Lone (retry_step now world s).active
  unfolding retry_step persist_retry_evidence
  retry_step-Lone now world s x h l =
      retry_each-Lone taken.0 world left x (Held-Same kept h) (subst Lone (sym kept.active) l)
    where
      cleared : Service
      cleared = record s { retries = record (s.retries) { evidence = [] } }

      persisted : Service
      persisted = write_evidence s.retries.evidence world cleared

      taken : List RetryItem × List RetryItem
      taken = pop_due retry_batch now persisted.retries.heap

      left : Service
      left = record persisted { retries = record (persisted.retries) { heap = taken.1 } }

      kept : Same s left
      kept =
          Same-trans {s = s} {t = cleared}
            (record { in_use = refl; max_runs = refl; active = refl; by_job = refl })
            (Same-trans {s = cleared} {t = persisted}
              (write_evidence-Same s.retries.evidence world cleared)
              (record { in_use = refl; max_runs = refl; active = refl; by_job = refl }))

  count-select-le : (p q : Active → Bool) (xs : List Active) → count q (select p xs) ≤ count q xs
  count-select-le p q [] = omega arith
  count-select-le p q (x ∷ xs) = ground (arith, count-select-le p q xs)

  end_execution-Lone :
      (a : Active) (t : Ending) (may_retry : Bool) (w : World) (s : Service)
      → Lone s.active
      → Lone (end_execution a t may_retry w s).active
  unfolding end_execution leave
  end_execution-Lone a t may_retry w s l =
      let u = complete a t may_retry w s in
      let e : u.active ≡ s.active = (complete-Same a t may_retry w s).active in
      let left : Service = record u {
        active = select (λ x. not (is_run a.run.id x)) u.active;
        by_job = lower a.def.name u.by_job;
      } in
      let few : Lone left.active = omega (
        arith,
        count-select-le (λ x. not (is_run a.run.id x)) (named n) u.active,
        subst Lone (sym e) l,
      ) in
      subst Lone (sym (release_job-active a.def left)) few

  -- Every definition of the name that a move meets skips overlapping runs.
  abbrev pub Heeds : Move → Type 0
  Heeds (request q w) = Exclusive q.def
  Heeds (drain w t) = Answers w
  Heeds (retry now world) = (it : RetryItem) → Answers (world it)
  Heeds (end a t may_retry w) = Unit

  abbrev pub AllHeed : List Move → Type 0
  AllHeed [] = Unit
  AllHeed (m ∷ ms) = Heeds m × AllHeed ms

  make_move-Lone :
      (m : Move) (s : Service) → Heeds m → Held 0 s → Lone s.active → Lone (make_move m s).active
  make_move-Lone (request q w) s x h l =
      Launches-Lone (λ d. d ≡ q.def) s _ (λ d f. subst Exclusive (sym f) x) h l
        (trigger-Launches q w s)
  make_move-Lone (drain w t) s x h l =
      Launches-Lone _ s _ (λ d f. let r = f.1.1 in x d r.run.job_name r.looked_up.0 r.looked_up.1) h
        l (drain_step-Launches w t s)
  make_move-Lone (retry now world) s x h l = retry_step-Lone now world s x h l
  make_move-Lone (end a t may_retry w) s x h l = end_execution-Lone a t may_retry w s l

-- Through every sequence of triggers, drain steps, retry passes and ends of runs, at most one run of
-- a name is being executed, where every definition of the name that a move meets is a job that
-- skips overlapping runs. The books are kept and at most one such run is there at first, and only a
-- run being executed, alone with its identity, ends.
pub make_moves-Lone :
    (n : String) (ms : List Move) (s : Service)
    → AllHeed n ms
    → AllFit ms s
    → Held 0 s
    → count (named n) s.active ≤ 1
    → count (named n) (make_moves ms s).active ≤ 1
make_moves-Lone n [] s x f h l = l
make_moves-Lone n (m ∷ ms) s x f h l =
    make_moves-Lone n ms (make_move m s) x.1 f.1 (make_move-Held m s h f.0)
      (make_move-Lone n m s x.0 h l)
