-- ===== src/Alerts/Account.antt =====
-- internal/alerts/alerts.go: what becomes of the alerts of one run.
use minicrond.Prelude.{
  string_eq, ◌==◌, str_iff, ◌<◌, All, map, has, ◌&&◌, ◌⊎◌, ℕ, ◌+◌, ◌≤◌, ◌≡◌, refl, String, Bool,
  true, false, Option, none, some, List, [], ◌∷◌, ◌++◌, length, count, if◌then◌else◌, ltb, arith,
  Bool-cases, inl, inr, length-append, ltb→lt, ap, ◌∙◌, sym, subst,
}
use minicrond.Alerts.Drops.{Record, observe_all, max_drop_observations}
use minicrond.Alerts.Newest.{append_assoc, append-nil}
use minicrond.Alerts.Notify.{
  Dispatcher, Delivery, LoadedChannel, notify_alerts, notify_one, notify_each, wants, deliver, shed,
  queue_size, channel_of, delivery_record_name,
}

-- The channel of this name is to be told of the status: it is one of the six that a channel can
-- choose, and the channel chose it. A channel that is not loaded counts as one that has chosen the
-- three failures.
abbrev pub delivers : List LoadedChannel → String → String → Bool
delivers [] status name = has (◌==◌ status) ("failed" ∷ "timeout" ∷ "exhausted" ∷ [])
delivers (c ∷ cs) status name =
    let rest = delivers cs status name in
    if c.name == name
    then has (◌==◌ status)
        ("succeeded" ∷ "failed" ∷ "timeout" ∷ "skipped" ∷ "missed" ∷ "exhausted" ∷ [])
      && has (◌==◌ status) c.notify_on
    else rest

wants-delivers :
    (cs : List LoadedChannel) (status name : String)
    → wants cs status name ≡ delivers cs status name
wants-delivers [] status name = ground arith
wants-delivers (c ∷ cs) status name = elim (Bool-cases (c.name == name)) [
  | inl e ↦ rw e refl
  | inr e ↦ rw e (wants-delivers cs status name)
]

-- The note of a lost alert, from its channel's name and the reason.
abbrev pub lost_note : String → String → String × String → Record
lost_note run_id status x = record {
  run_id = run_id;
  channel = delivery_record_name x.0 status;
  status = "dropped";
  attempts = 0;
  reason = x.1;
}

-- A delivery of the run to a loaded channel, with the channel's window.
abbrev pub Meant : String → String → Dispatcher → Delivery → Type 0
Meant run_id status d x =
    (c : LoadedChannel) × ((channel_of d.channels x.name ≡ some c)
      × (x ≡ record { run_id = run_id; status = status; name = x.name; window = c.window }))

-- Why an alert was lost: its channel is not loaded, or the queue is full.
abbrev pub Reason : Dispatcher → Dispatcher → String × String → Type 0
Reason d e x =
    ((channel_of d.channels x.0 ≡ none) × (x.1 ≡ "alert channel is unavailable"))
    ⊎ ((queue_size ≤ length e.queue) × (x.1 ≡ "alert queue is full"))

-- What the alerts of one run make of the dispatcher d.
pub record Accounted (run_id status : String) (alerts : List String) (d e : Dispatcher)
    : Type 0 where
  pub queued : List Delivery
  pub lost : List (String × String)
  pub queue : e.queue ≡ d.queue ++ queued
  pub drops :
      e.drops ≡ observe_all max_drop_observations (map (lost_note run_id status) lost) d.drops
  pub once :
      (n : String)
      → count (λ x. x.name == n) queued + count (λ x. x.0 == n) lost
        ≡ (if delivers d.channels status n then count (λ a. a == n) alerts else 0)
  pub meant : All (Meant run_id status d) queued
  pub reasons : All (Reason d e) lost
  pub channels : e.channels ≡ d.channels
  pub pending : e.pending + length d.queue ≡ d.pending + length e.queue
  pub bounded : length d.queue ≤ queue_size → length e.queue ≤ queue_size

module _ (run_id status name : String) (names : List String) (d : Dispatcher) where
  -- The count of an alert's name, with the alert in front.
  front :
      (b : Bool) (q l : ℕ) (n : String)
      → delivers d.channels status name ≡ b
      → q + l ≡ (if delivers d.channels status n then count (λ a. a == n) names else 0)
      → (if b && name == n then 1 else 0) + (q + l)
        ≡ (if delivers d.channels status n then count (λ a. a == n) (name ∷ names) else 0)
  front b q l n h k = elim (Bool-cases (name == n)) [
    | inl e ↦ ground (arith, e, k, h, ap (delivers d.channels status) ((str_iff name n).0 e))
    | inr e ↦ ground (arith, e, k)
  ]

  unwanted-Accounted :
      (e : Dispatcher)
      → delivers d.channels status name ≡ false
      → Accounted run_id status names d e
      → Accounted run_id status (name ∷ names) d e
  unwanted-Accounted e h a = record {
    queued = a.queued;
    lost = a.lost;
    queue = a.queue;
    drops = a.drops;
    once = λ n. omega (arith, front false _ _ n h (a.once n));
    meant = a.meant;
    reasons = a.reasons;
    channels = a.channels;
    pending = a.pending;
    bounded = a.bounded;
  }

  lost-Accounted :
      (e : Dispatcher) (reason : String)
      → delivers d.channels status name ≡ true
      → Accounted run_id status names (shed run_id status name reason d) e
      → Reason d e (name, reason)
      → Accounted run_id status (name ∷ names) d e
  lost-Accounted e reason h a r = record {
    queued = a.queued;
    lost = (name, reason) ∷ a.lost;
    queue = a.queue;
    drops = a.drops;
    once = λ n. omega (arith, front true _ _ n h (a.once n));
    meant = a.meant;
    reasons = (r, a.reasons);
    channels = a.channels;
    pending = a.pending;
    bounded = a.bounded;
  }

  queued-Accounted :
      (e : Dispatcher) (c : LoadedChannel)
      → delivers d.channels status name ≡ true
      → channel_of d.channels name ≡ some c
      → length d.queue < queue_size
      → (let x : Delivery = record {
        run_id = run_id;
        status = status;
        name = name;
        window = c.window;
      } in
          Accounted run_id status names
            (record d { queue = d.queue ++ (x ∷ []); pending = d.pending + 1 })
            e
          → Accounted run_id status (name ∷ names) d e)
  queued-Accounted e c h f l a = record {
    queued = record { run_id = run_id; status = status; name = name; window = c.window } ∷ a.queued;
    lost = a.lost;
    queue = a.queue ∙ sym (append_assoc d.queue (_ ∷ []) a.queued);
    drops = a.drops;
    once = λ n. omega (arith, front true _ _ n h (a.once n));
    meant = ((c, (f, refl)), a.meant);
    reasons = a.reasons;
    channels = a.channels;
    pending = omega (arith, a.pending, length-append d.queue (_ ∷ []));
    bounded = λ k. a.bounded (omega (arith, l, length-append d.queue (_ ∷ [])));
  }

  -- One alert, before the others.
  turn-Accounted :
      (b : Bool) (o : Option LoadedChannel)
      → delivers d.channels status name ≡ b
      → channel_of d.channels name ≡ o
      → ((d1 : Dispatcher) → Accounted run_id status names d1 (notify_each run_id status names d1))
      → Accounted run_id status
          (name ∷ names)
          d
          (notify_each run_id status names (if b then deliver run_id status name o d else d))
  turn-Accounted false o h f a = unwanted-Accounted _ h (a d)
  turn-Accounted true none h f a =
      lost-Accounted _ "alert channel is unavailable" h (a _) (inl (f, refl))
  turn-Accounted true (some c) h f a = elim (Bool-cases (ltb (length d.queue) queue_size)) [
    | inl e ↦ rw e (queued-Accounted _ c h f (ltb→lt (length d.queue) queue_size e) (a _))
    | inr e ↦ rw e (
        let d1 = shed run_id status name "alert queue is full" d in
        let r = a d1 in
        lost-Accounted _ "alert queue is full" h r
          (inr (ground (arith, e, ap length r.queue, length-append d.queue r.queued), refl)))
  ]

stay-Accounted : (run_id status : String) (d : Dispatcher) → Accounted run_id status [] d d
stay-Accounted run_id status d = record {
  queued = [];
  lost = [];
  queue = sym (append-nil d.queue);
  drops = refl;
  once = λ n. ground arith;
  meant = tt;
  reasons = tt;
  channels = refl;
  pending = refl;
  bounded = λ h. h;
}

notify_each-Accounted :
    (run_id status : String) (names : List String) (d : Dispatcher)
    → Accounted run_id status names d (notify_each run_id status names d)
unfolding notify_one
notify_each-Accounted run_id status [] d = stay-Accounted run_id status d
notify_each-Accounted run_id status (name ∷ names) d =
    turn-Accounted run_id status name names d (wants d.channels status name)
      (channel_of d.channels name) (sym (wants-delivers d.channels status name)) refl
      (notify_each-Accounted run_id status names)

-- On an open dispatcher, an alert of the run for each name of the definition's list whose channel is to
-- be told of the run's status is added to the queue or noted as shed, exactly once, and no other name
-- gets either. What is queued stands behind the queue, is for the run and its status, and has the
-- window of a loaded channel; each note names the channel, and its reason is true: the channel is not
-- loaded, or the queue is full. The count of pending alerts grows by the deliveries queued, and a queue
-- within its 256 places stays within them.
pub notify_alerts-Accounted :
    (run_id status : String) (alerts : List String) (d : Dispatcher)
    → d.closed ≡ false
    → Accounted run_id status alerts d (notify_alerts run_id status alerts d)
unfolding notify_alerts
notify_alerts-Accounted run_id status alerts d h =
    subst
      (λ b. Accounted run_id status alerts d (if b then d else notify_each run_id status alerts d))
      (sym h) (notify_each-Accounted run_id status alerts d)
