-- ===== src/Executor/Capacity/Triggered.antt =====
-- internal/executor/executor.go: the books through the gates of `trigger`.
use minicrond.Prelude.{
  nat_eq, string_eq, ◌≡◌, refl, sym, subst, suc, Bool, true, false, ◌&&◌, Option, none, some,
  positive, ◌==◌, not, if◌then◌else◌, arith, Bool-cases, inl, inr, ltb, ltb→lt,
}
use minicrond.Model.{Definition, is_job, is_enabled}
use minicrond.Executor.State.{queueable, Service}
use minicrond.Executor.Backlog.{
  World, Request, Reply, refuse, Refusal, shutdown, canceled, disabled,
}
use minicrond.Executor.Admission.{record_skipped}
use minicrond.Executor.Trigger.{start_run, no_slot, gate, admit, trigger}
use minicrond.Executor.Capacity.Frame.{record_skipped-Same, enqueue-Same}
use minicrond.Executor.Capacity.Books.{Held, Held-Same, slots, start_run-Held}

no_slot-Held : (q : Request) (w : World) {s : Service} → Held 0 s → Held 0 (no_slot q w s).0
unfolding no_slot
no_slot-Held q w {s} h = elim (Bool-cases (queueable s.options q.trigger)) [
  | inl e ↦ rw (e) (Held-Same (enqueue-Same q w s) h)
  | inr e ↦ elim (Bool-cases (q.trigger == "retry")) [
    | inl f ↦ rw (e, f) h
    | inr f ↦ rw (e, f) (Held-Same (record_skipped-Same q "queue_full" w s) h)
  ]
]

pub gate-Held :
    (q : Request) (w : World) {s : Service}
    → is_job q.def.kind ≡ true
    → Held 0 s
    → Held 0 (gate q w s).0
unfolding gate
gate-Held q w {s} j h =
    elim (Bool-cases (queueable s.options q.trigger && positive s.queue.depth)) [
      | inl e ↦ rw (e) (Held-Same (enqueue-Same q w s) h)
      | inr e ↦ elim (Bool-cases (ltb s.in_use s.max_runs)) [
        | inl f ↦
            rw (e, f)
              (start_run-Held q w
                (subst (λ b. Held (if b then 1 else 0) taken) (sym j) (take_slot f)))
        | inr f ↦ rw (e, f) (no_slot-Held q w h)
      ]
    ]
  where
    taken : Service
    taken = record s { in_use = suc s.in_use }

    take_slot : ltb s.in_use s.max_runs ≡ true → Held 1 taken
    take_slot e = record {
      slots_taken = omega (arith, h.slots_taken);
      bounded = omega (arith, ltb→lt s.in_use s.max_runs e);
      by_name = h.by_name;
    }

Held-if :
    (b : Bool) (m m' : Service × Reply)
    → (b ≡ true → Held 0 m.0)
    → (b ≡ false → Held 0 m'.0)
    → Held 0 (if b then m else m').0
Held-if true m m' p p' = p refl
Held-if false m m' p p' = p' refl

worker-Held : (d : Definition) {s : Service} → is_job d.kind ≡ false → Held 0 s → Held (slots d) s
worker-Held d {s} e h = subst (λ b. Held (if b then 1 else 0) s) (sym e) h

pub admit-Held : (q : Request) (w : World) {s : Service} → Held 0 s → Held 0 (admit q w s).0
unfolding admit
admit-Held q w {s} h =
    let m4 = if is_job q.def.kind then gate q w s else start_run q w s in
    let skip = is_job q.def.kind && q.def.on_overlap == "skip" && ltb 0 (s.by_job q.def.name) in
    let m3 = if skip then record_skipped q "overlap_skip" w s else m4 in
    let m2 = if not (is_enabled q.def) then (s, refuse disabled) else m3 in
    let m1 = if w.canceled then (s, refuse canceled) else m2 in
    Held-if s.closing (s, refuse shutdown) m1 (λ _. h)
      (λ _.
        Held-if w.canceled (s, refuse canceled) m2 (λ _. h)
          (λ _.
            Held-if (not (is_enabled q.def)) (s, refuse disabled) m3 (λ _. h)
              (λ _.
                Held-if skip (record_skipped q "overlap_skip" w s) m4
                  (λ _. Held-Same (record_skipped-Same q "overlap_skip" w s) h)
                  (λ _.
                    Held-if (is_job q.def.kind) (gate q w s) (start_run q w s)
                      (λ e. gate-Held q w e h) (λ e. start_run-Held q w (worker-Held q.def e h))))))

pub trigger-Held : (q : Request) (w : World) {s : Service} → Held 0 s → Held 0 (trigger q w s).0
unfolding trigger
trigger-Held q w {s} h =
    Held-if s.closing (s, refuse shutdown) (waited w.admitted) (λ _. h)
      (λ _. waited-Held w.admitted)
  where
    waited : Option Refusal → Service × Reply
    waited o = elim o [
      | some e ↦ (s, refuse e)
      | none ↦ admit q w (record s { closing = w.closes })
    ]

    waited-Held : (o : Option Refusal) → Held 0 (waited o).0
    waited-Held (some e) = h
    waited-Held none =
        admit-Held q w {s = record s { closing = w.closes }}
          (record { slots_taken = h.slots_taken; bounded = h.bounded; by_name = h.by_name })
