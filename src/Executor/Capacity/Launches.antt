-- ===== src/Executor/Capacity/Launches.antt =====
-- internal/executor/executor.go: what a trigger launches, and the overlap policy.
use minicrond.Prelude.{
  nat_eq, string_eq, ◌≡◌, refl, sym, subst, suc, Bool, true, false, ◌&&◌, ◌⊎◌, Option, none, some,
  positive, List, ◌∷◌, ◌==◌, not, if◌then◌else◌, arith, Bool-cases, inl, inr, ltb,
}
use minicrond.Store.Tables.{status_eq}
use minicrond.Model.{Definition, is_job, is_enabled}
use minicrond.Executor.State.{Service, Active, queueable}
use minicrond.Executor.Backlog.{World, Request, Reply, refuse, Refusal}
use minicrond.Executor.Trigger.{trigger, admit, gate, start_run, no_slot}
use minicrond.Executor.Capacity.Frame.{Same, Same-refl, record_skipped-Same, enqueue-Same}
use minicrond.Executor.Capacity.Added.{Adds, none_new, start_run-Adds}

-- Whether the policy keeps another run of the definition from starting.
abbrev pub overlaps : Definition → Service → Bool
overlaps d s = d.on_overlap == "skip" && ltb 0 (s.by_job d.name)

-- From `s` to the active runs `ys` no run begins, or one of a definition of the kind `From` that the
-- overlap policy lets start.
pub record Launches (From : Definition → Type 0) (s : Service) (ys : List Active) : Type 0 where
  pub new :
      (ys ≡ s.active)
      ⊎ ((a : Active) × From a.def
          × (is_job a.def.kind && overlaps a.def s ≡ false)
          × (ys ≡ a ∷ s.active))

pub Launches-Same :
    {From : Definition → Type 0} {s t : Service} → Same s t → Launches From s t.active
Launches-Same p = record { new = inl p.active }

pub Launches-Adds :
    (d : Definition) (From : Definition → Type 0) (s : Service) (ys : List Active)
    → From d
    → is_job d.kind && overlaps d s ≡ false
    → Adds d s.active ys
    → Launches From s ys
Launches-Adds d From s ys f o h = elim h.new [
  | inl e ↦ record { new = inl e }
  | inr (a, e, p) ↦ record {
    new =
        inr (
          a,
          subst From (sym e) f,
          subst (λ x. is_job x.kind && overlaps x s ≡ false) (sym e) o,
          p,
        );
  }
]

pub Launches-if :
    {A : Type 0} (From : Definition → Type 0) (s : Service) (b : Bool) (m m' : Service × A)
    → Launches From s m.0.active
    → (b ≡ false → Launches From s m'.0.active)
    → Launches From s (if b then m else m').0.active
Launches-if From s true m m' p p' = p
Launches-if From s false m m' p p' = p' refl

no_slot-Same : (q : Request) (w : World) (s : Service) → Same s (no_slot q w s).0
unfolding no_slot
no_slot-Same q w s = elim (Bool-cases (queueable s.options q.trigger)) [
  | inl e ↦ rw (e) (enqueue-Same q w s)
  | inr e ↦ elim (Bool-cases (q.trigger == "retry")) [
    | inl f ↦ rw (e, f) (Same-refl s)
    | inr f ↦ rw (e, f) (record_skipped-Same q "queue_full" w s)
  ]
]

gate-Adds : (q : Request) (w : World) (s : Service) → Adds q.def s.active (gate q w s).0.active
unfolding gate
gate-Adds q w s = elim (Bool-cases (queueable s.options q.trigger && positive s.queue.depth)) [
  | inl e ↦ rw (e) (none_new (enqueue-Same q w s).active)
  | inr e ↦ elim (Bool-cases (ltb s.in_use s.max_runs)) [
    | inl f ↦ rw (e, f) (start_run-Adds q w (record s { in_use = suc s.in_use }))
    | inr f ↦ rw (e, f) (none_new (no_slot-Same q w s).active)
  ]
]

module _ (q : Request) (w : World) where
  abbrev pub Asked : Definition → Type 0
  Asked d = d ≡ q.def

  started :
      (s : Service)
      → Adds q.def s.active (if is_job q.def.kind then gate q w s else start_run q w s).0.active
  started s = elim (Bool-cases (is_job q.def.kind)) [
    | inl e ↦ rw (e) (gate-Adds q w s)
    | inr e ↦ rw (e) (start_run-Adds q w s)
  ]

  admit-Launches : (s : Service) → Launches Asked s (admit q w s).0.active
  unfolding admit
  admit-Launches s = Launches-if Asked s s.closing _ _ (Launches-Same (Same-refl s)) (λ _.
      Launches-if Asked s w.canceled _ _ (Launches-Same (Same-refl s)) (λ _.
        Launches-if Asked s (not (is_enabled q.def)) _ _ (Launches-Same (Same-refl s)) (λ _.
          Launches-if Asked s
            (is_job q.def.kind && q.def.on_overlap == "skip" && ltb 0 (s.by_job q.def.name)) _ _
            (Launches-Same (record_skipped-Same q "overlap_skip" w s))
            (λ o. Launches-Adds q.def Asked s _ refl (ground (arith, o)) (started s)))))

  pub trigger-Launches : (s : Service) → Launches Asked s (trigger q w s).0.active
  unfolding trigger
  trigger-Launches s =
      Launches-if Asked s s.closing _ _ (Launches-Same (Same-refl s))
        (λ _. waited-Launches w.admitted)
    where
      waited-Launches :
          (o : Option Refusal)
          → (let m : Service × Reply = elim o [
            | some e ↦ (s, refuse e)
            | none ↦ admit q w (record s { closing = w.closes })
          ] in
              Launches Asked s m.0.active)
      waited-Launches (some e) = Launches-Same (Same-refl s)
      waited-Launches none = record { new = (admit-Launches (record s { closing = w.closes })).new }
