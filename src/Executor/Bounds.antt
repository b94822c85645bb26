-- ===== src/Executor/Bounds.antt =====
-- internal/executor: the bounds of what the executor keeps in memory (the retry heap, the evidence of
-- dropped retries, the deferred history), and the options that set them.
use minicrond.Prelude.{
  nat_eq, string_eq, ◌≡◌, refl, ℕ, zero, suc, ◌≤◌, ◌<◌, Bool, true, false, List, [], ◌∷◌, ◌++◌,
  arith, ltb, leb, ltb→lt, ltb→le, leb→le, leb→lt, All, length, length-append, has, update,
  Bool-cases, inl, inr, ap,
}
use minicrond.Store.Tables.{Run}
use minicrond.Executor.State.{Service, QueueOptions, with_defaults, RetryItem, FinalItem}
use minicrond.Executor.Backlog.{World, spool, of_run}
use minicrond.Executor.Retries.{push, add_retry, pop_due, retry_evidence_cap}

-- The items by due time.
abbrev pub Sorted : List RetryItem → Type 0
Sorted [] = Unit
Sorted (it ∷ its) = All (λ x. it.due ≤ x.due) its × Sorted its

All-push :
    (n : ℕ) (it : RetryItem) (h : List RetryItem)
    → n ≤ it.due
    → All (λ x. n ≤ x.due) h
    → All (λ x. n ≤ x.due) (push it h)
unfolding push
All-push n it [] p a = (p, tt)
All-push n it (x ∷ h) p a = elim (Bool-cases (ltb it.due x.due)) [
  | inl e ↦ rw (e) (p, a)
  | inr e ↦ rw (e) (a.0, All-push n it h p a.1)
]

All-below : (m n : ℕ) (h : List RetryItem) → m ≤ n → All (λ x. n ≤ x.due) h → All (λ x. m ≤ x.due) h
All-below m n [] p a = tt
All-below m n (x ∷ h) p a = (omega (arith, p, a.0), All-below m n h p a.1)

push-Sorted : (it : RetryItem) (h : List RetryItem) → Sorted h → Sorted (push it h)
unfolding push
push-Sorted it [] s = (tt, tt)
push-Sorted it (x ∷ h) s = elim (Bool-cases (ltb it.due x.due)) [
  | inl e ↦
      let p = ltb→lt it.due x.due e in
      rw (e) ((omega (arith, p), All-below it.due x.due h (omega (arith, p)) s.0), s)
  | inr e ↦ rw (e) (All-push x.due it h (ltb→le it.due x.due e) s.0, push-Sorted it h s.1)
]

length-push : (it : RetryItem) (h : List RetryItem) → length (push it h) ≡ suc (length h)
unfolding push
length-push it [] = refl
length-push it (x ∷ h) = ground (arith, length-push it h)

shifted :
    (it : RetryItem) (xs : List RetryItem)
    → leb retry_evidence_cap (length xs) ≡ true
    → length xs ≤ retry_evidence_cap
    → length (elim xs [ [] ↦ it ∷ [] | x ∷ ys ↦ ys ++ it ∷ [] ]) ≤ retry_evidence_cap
shifted it [] e p = omega arith
shifted it (x ∷ xs) e p = omega (arith, p, length-append xs (it ∷ []))

-- The retries within their bounds, in order.
pub record Kept (s : Service) : Type 0 where
  pub heap : length s.retries.heap ≤ s.options.max_pending_retries
  pub evidence : length s.retries.evidence ≤ retry_evidence_cap
  pub ordered : Sorted s.retries.heap

-- `addRetry` keeps at most `max_pending_retries` retries, by due time, and the evidence of at most
-- 64 dropped ones, if this held before.
pub add_retry-Kept : (it : RetryItem) (s : Service) → Kept s → Kept (add_retry it s)
unfolding add_retry
add_retry-Kept it s k = record {
  heap = ground (arith, k.heap, length-push it s.retries.heap);
  evidence = ground (
    arith,
    k.evidence,
    length-append s.retries.evidence (it ∷ []),
    shifted it s.retries.evidence,
  );
  ordered = ground (arith, k.ordered, push-Sorted it s.retries.heap k.ordered);
}

-- A heap, what a pass takes off it and what the pass leaves.
pub record Popped (n now : ℕ) (h due rest : List RetryItem) : Type 0 where
  pub whole : due ++ rest ≡ h
  pub few : length due ≤ n
  pub early : All (λ x. x.due ≤ now) due
  pub late : length due < n → All (λ x. now < x.due) rest

All-late :
    (now : ℕ) (it : RetryItem) (h : List RetryItem)
    → now < it.due
    → All (λ x. it.due ≤ x.due) h
    → All (λ x. now < x.due) h
All-late now it [] p a = tt
All-late now it (x ∷ h) p a = (omega (arith, p, a.0), All-late now it h p a.1)

-- What one pass takes off the retry heap, in order, and what it leaves make up the heap. It takes at
-- most `n` items, all due, and leaves no item that is due unless it took `n`; the heap is by due time.
pub pop_due-Popped :
    (n now : ℕ) (h : List RetryItem)
    → Sorted h
    → Popped n now h (pop_due n now h).0 (pop_due n now h).1
unfolding pop_due
pop_due-Popped n now [] s = record { whole = refl; few = omega arith; early = tt; late = λ _. tt }
pop_due-Popped zero now (it ∷ h) s = record {
  whole = refl;
  few = omega arith;
  early = tt;
  late = λ l. absurd (omega (arith, l));
}
pop_due-Popped (suc n) now (it ∷ h) s = elim (Bool-cases (leb it.due now)) [
  | inl e ↦
      let p = pop_due-Popped n now h s.1 in
      rw (e) (record {
        whole = ap (◌∷◌ it) p.whole;
        few = omega (arith, p.few);
        early = (leb→le it.due now e, p.early);
        late = λ l. p.late (omega (arith, l));
      })
  | inr e ↦
      let p = leb→lt it.due now e in
      rw (e) (record {
        whole = refl;
        few = omega arith;
        early = tt;
        late = λ _. (p, All-late now it h p s.0);
      })
]

-- Options, and the same with their defaults.
pub record Filled (o d : QueueOptions) : Type 0 where
  pub positive :
      (0 < d.max_items)
      × (0 < d.max_per_job)
      × (0 < d.max_bytes)
      × (0 < d.max_age)
      × (0 < d.drain_rate)
  pub bounded : (0 < d.max_pending_retries) × (0 < d.max_finalizers)
  pub per_job : o.max_per_job ≡ 0 → d.max_per_job ≤ d.max_items
  pub stable : with_defaults d ≡ d

-- With their defaults, all limits are positive, a limit per job that was not set is at most the limit
-- of the queue, and taking the defaults again changes nothing.
pub with_defaults-Filled : (o : QueueOptions) → Filled o (with_defaults o)
unfolding with_defaults
with_defaults-Filled o = record {
  positive = (ground arith, ground arith, ground arith, ground arith, ground arith);
  bounded = (ground arith, ground arith);
  per_job = λ e. ground (arith, e);
  stable = ground arith;
}

length-update :
    (p : FinalItem → Bool) (f : FinalItem → FinalItem) (xs : List FinalItem)
    → length (update p f xs) ≡ length xs
length-update p f [] = refl
length-update p f (x ∷ xs) = ground (arith, length-update p f xs)

-- The service before and after the history of a run is deferred, and whether it was.
pub record Spooled (r : Run) (s s' : Service) (kept : Bool) : Type 0 where
  pub budget :
      length s.finalizing ≤ s.options.max_finalizers
      → length s'.finalizing ≤ s.options.max_finalizers
  pub refused : kept ≡ false → s' ≡ s
  pub why : kept ≡ false → s.closing ≡ false → s.options.max_finalizers ≤ length s.finalizing
  pub new : kept ≡ false → s.closing ≡ false → has (of_run r.id) s.finalizing ≡ false

-- Deferred history stays within its budget. When it is not kept the service is unchanged, and either
-- the daemon is closing, or the budget is used up and nothing is kept for the run.
pub spool-Spooled :
    (r : Run) (f : FinalItem → FinalItem) (w : World) (s : Service)
    → Spooled r s (spool r f w s).0 (spool r f w s).1
unfolding spool
spool-Spooled r f w s = record {
  budget = λ b. ground (arith, b, length-update (of_run r.id) f s.finalizing);
  refused = λ e. ground (arith, e);
  why = λ e c. ground (arith, e, c);
  new = λ e c. ground (arith, e, c);
}
