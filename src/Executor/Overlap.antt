-- ===== src/Executor/Overlap.antt =====
-- internal/executor/executor.go and queue.go: requests that must not launch a run.
use minicrond.Prelude.{
  nat_eq, string_eq, ◌≡◌, refl, ◌<◌, Bool, true, false, ◌&&◌, Option, none, some, positive, ◌==◌,
  if◌then◌else◌, arith, ltb, count, not, str_iff,
}
use minicrond.Model.{is_job, is_enabled}
use minicrond.Executor.State.{Service, queueable}
use minicrond.Executor.Backlog.{World, Request, Reply, refuse, Refusal}
use minicrond.Executor.Trigger.{trigger, admit, gate}
use minicrond.Executor.Capacity.Frame.{
  Same, Same-refl, Same-trans, record_skipped-Same, enqueue-Same,
}
use minicrond.Executor.Capacity.Books.{Held, named}

Same-closing : (b : Bool) (s : Service) → Same s (record s { closing = b })
Same-closing b s = record { in_use = refl; max_runs = refl; active = refl; by_job = refl }

Same-pick :
    {A : Type 0} (s : Service) (b : Bool) (m m' : Service × A)
    → Same s m.0
    → (b ≡ false → Same s m'.0)
    → Same s (if b then m else m').0
Same-pick s true m m' p p' = p
Same-pick s false m m' p p' = p' refl

Same-when :
    {A : Type 0} (s : Service) (b : Bool) (m m' : Service × A)
    → b ≡ true
    → Same s m.0
    → Same s (if b then m else m').0
Same-when s true m m' e p = p
Same-when s false m m' e p = ground (arith, e)

module _ (q : Request) (w : World) (is_of_job : is_job q.def.kind ≡ true) where
  admit-overlap :
      (s : Service) → q.def.on_overlap ≡ "skip" → 0 < s.by_job q.def.name → Same s (admit q w s).0
  unfolding admit
  admit-overlap s o b = Same-pick s s.closing _ _ (Same-refl s) (λ _.
      Same-pick s w.canceled _ _ (Same-refl s) (λ _.
        Same-pick s (not (is_enabled q.def)) _ _ (Same-refl s) (λ _.
          Same-when s
            (is_job q.def.kind && q.def.on_overlap == "skip" && ltb 0 (s.by_job q.def.name)) _ _
            (ground (arith, is_of_job, b, (str_iff q.def.on_overlap "skip").1 o))
            (record_skipped-Same q "overlap_skip" w s))))

  admit-queued :
      (s : Service)
      → queueable s.options q.trigger ≡ true
      → positive s.queue.depth ≡ true
      → Same s (admit q w s).0
  unfolding admit gate
  admit-queued s e d = Same-pick s s.closing _ _ (Same-refl s) (λ _.
      Same-pick s w.canceled _ _ (Same-refl s) (λ _.
        Same-pick s (not (is_enabled q.def)) _ _ (Same-refl s) (λ _.
          Same-pick s
            (is_job q.def.kind && q.def.on_overlap == "skip" && ltb 0 (s.by_job q.def.name)) _ _
            (record_skipped-Same q "overlap_skip" w s)
            (λ _. Same-when s (is_job q.def.kind) _ _ is_of_job (
              Same-when s (queueable s.options q.trigger && positive s.queue.depth) _ _
                (ground (arith, e, d)) (enqueue-Same q w s))))))

  module _ (s : Service) (admitted : Same s (admit q w (record s { closing = w.closes })).0) where
    trigger-Same : Same s (trigger q w s).0
    unfolding trigger
    trigger-Same = Same-pick s s.closing _ _ (Same-refl s) (λ _. waited-Same w.admitted)
      where
        waited-Same :
            (o : Option Refusal)
            → (let m : Service × Reply = elim o [
              | some e ↦ (s, refuse e)
              | none ↦ admit q w (record s { closing = w.closes })
            ] in
                Same s m.0)
        waited-Same (some e) = Same-refl s
        waited-Same none = admitted

-- A job that skips overlapping runs is not launched, and takes no slot, while a run of its name is
-- being executed, whatever the storage answers, if the books are kept.
pub trigger-overlap :
    (q : Request) (w : World) (s : Service)
    → Held 0 s
    → is_job q.def.kind ≡ true
    → q.def.on_overlap ≡ "skip"
    → 0 < count (named q.def.name) s.active
    → Same s (trigger q w s).0
trigger-overlap q w s h j o b = trigger-Same q w j s (
    Same-trans (Same-closing w.closes s) (
      admit-overlap q w j (record s { closing = w.closes }) o
        (omega (arith, b, h.by_name q.def.name))))

-- While the service counts queued runs, a trigger of a job that may be queued takes no slot and begins
-- no run.
pub trigger-queued :
    (q : Request) (w : World) (s : Service)
    → is_job q.def.kind ≡ true
    → queueable s.options q.trigger ≡ true
    → positive s.queue.depth ≡ true
    → Same s (trigger q w s).0
trigger-queued q w s j e d = trigger-Same q w j s (
    Same-trans (Same-closing w.closes s) (admit-queued q w j (record s { closing = w.closes }) e d))
