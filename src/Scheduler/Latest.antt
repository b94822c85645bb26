-- ===== src/Scheduler/Latest.antt =====
-- internal/scheduler/scheduler.go: the backward search of a cron schedule, and the count.
use native.Mathlib.Nat.{mul_assoc, mul_comm, pow-suc}
use minicrond.Prelude.{
  ℕ, zero, suc, ◌-◌, ◌*◌, ◌/◌, ◌%◌, ◌^◌, ◌≤◌, ◌<◌, ◌≡◌, ◌⊎◌, inl, inr, refl, sym, ap, subst, ◌∙◌,
  Bool, true, false, ◌&&◌, ◌||◌, arith, ltb, leb, eqb, Bool-cases,
}
use minicrond.Scheduler.{
  max_duration, Schedule, Fire, at, failed, NextError, too_dense, cancelled, span,
  next_fire_distinct,
}
use minicrond.Scheduler.Advance.{Lawful, Later, next_fire_distinct-Later}
use minicrond.Scheduler.CatchUp.{
  hour, or_else, max_catch_up, scan_window, latest_within, latest_fire,
}

-- A fire that is not past now, and whose next one is.
pub record IsLast (s : Schedule) (anchor last now t : ℕ) : Type 0 where
  pub reached : t ≤ now
  pub following : (u : ℕ) × (next_fire_distinct s anchor last t ≡ at u) × (now < u)

-- What a search makes of the best fire so far, which follows when nothing is found after `cursor`.
pub data Found (s : Schedule) (anchor last now cursor best : ℕ) : Fire → Type 0 where
  stays :
      (u : ℕ)
      → next_fire_distinct s anchor last cursor ≡ at u
      → now < u
      → Found s anchor last now cursor best (at best)
  found :
      (t start : ℕ)
      → cursor ≤ start
      → next_fire_distinct s anchor last start ≡ at t
      → IsLast s anchor last now t
      → Found s anchor last now cursor best (at t)
  gives_up : (e : NextError) → Found s anchor last now cursor best (failed e)

later_fire :
    (s : Schedule)
    → Lawful s
    → (anchor last t u : ℕ) → next_fire_distinct s anchor last t ≡ at u
    → t < u
later_fire s l anchor last t u e = subst (Later t) e (next_fire_distinct-Later s l anchor last t)

module _ (s : Schedule) (l : Lawful s) (gone : ℕ → Bool) (anchor last now : ℕ) where
  -- A search that finds something finds it from where it has gone on.
  forget :
      {f : Fire} (cursor best t : ℕ)
      → next_fire_distinct s anchor last cursor ≡ at t
      → t ≤ now
      → Found s anchor last now t t f
      → Found s anchor last now cursor best f
  forget cursor best t e h (stays u q k) =
      found t cursor (omega arith) e (record { reached = h; following = (u, q, k) })
  forget cursor best t e h (found x start c q p) =
      found x start (omega (arith, c, later_fire s l anchor last cursor t e)) q p
  forget cursor best t e h (gives_up x) = gives_up x

  scan_window-Found :
      (n steps cursor best : ℕ)
      → Found s anchor last now cursor best (scan_window n s gone anchor last now steps cursor best)
  unfolding scan_window
  scan_window-Found zero steps cursor best = gives_up too_dense
  scan_window-Found (suc n) steps cursor best =
      elim (Bool-cases (eqb (steps % 4096) 4095 && gone steps)) [
        | inl e ↦ rw e (gives_up cancelled)
        | inr e ↦ rw e (
            follow (λ u. scan_window-Found n (suc steps) u u)
              (next_fire_distinct s anchor last cursor) refl)
      ]
    where
      follow :
          ((u : ℕ)
            → Found s anchor last now u u (scan_window n s gone anchor last now (suc steps) u u))
          → (f : Fire) → next_fire_distinct s anchor last cursor ≡ f
          → Found s anchor last now cursor best (elim f [
            | failed e ↦ failed e
            | at following ↦ elim (ltb now following) [
              | true ↦ at best
              | false ↦ scan_window n s gone anchor last now (suc steps) following following
            ]
          ])
      follow rest (failed e) q = gives_up e
      follow rest (at u) q = elim (Bool-cases (ltb now u)) [
        | inl z ↦ rw z (stays u q (ground (arith, z)))
        | inr z ↦ rw z (forget cursor best u q (ground (arith, z)) (rest u))
      ]

  -- The latest occurrence, as `first` or as the fire that follows some instant.
  unfoldable pub Latest : ℕ → Fire → Type 0
  Latest first (failed e) = e ≡ e
  Latest first (at t) =
      IsLast s anchor last now t
      × (first ≤ t)
      × ((t ≡ first) ⊎ ((start : ℕ) × (next_fire_distinct s anchor last start ≡ at t)))

  kept-Latest :
      (first t : ℕ) (rest : Fire)
      → Latest first (at t)
      → Latest first rest
      → Latest first (or_else (at t) rest)
  kept-Latest first t rest h r = elim (Bool-cases (eqb t 0)) [
    | inl z ↦ rw (or_else, z) r
    | inr z ↦ rw (or_else, z) h
  ]

  whole-Latest :
      (first : ℕ) (f rest : Fire)
      → first ≤ now
      → Found s anchor last now first first f
      → Latest first rest
      → Latest first (or_else f rest)
  unfolding Latest
  whole-Latest first f rest h (stays u q k) r =
      kept-Latest first first rest
        (record { reached = h; following = (u, q, k) }, omega arith, inl refl) r
  whole-Latest first f rest h (found t start c q p) r =
      kept-Latest first t rest
        (p, omega (arith, c, later_fire s l anchor last start t q), inr (start, q)) r
  whole-Latest first f rest h (gives_up e) r = refl

  window-Latest :
      (first cursor : ℕ) (f rest : Fire)
      → first ≤ cursor
      → Found s anchor last now cursor 0 f
      → Latest first rest
      → Latest first (or_else f rest)
  unfolding Latest
  window-Latest first cursor f rest g (stays u q k) r = r
  window-Latest first cursor f rest g (found t start c q p) r =
      kept-Latest first t rest
        (p, omega (arith, g, c, later_fire s l anchor last start t q), inr (start, q)) r
  window-Latest first cursor f rest g (gives_up e) r = refl

  latest_within-Latest :
      (r first window : ℕ)
      → first ≤ now
      → Latest first (latest_within r s gone first anchor last now window)
  unfolding latest_within Latest
  latest_within-Latest zero first window h = refl
  latest_within-Latest (suc r) first window h =
      elim (Bool-cases (leb (span now first) window || ltb (max_duration / 8) window)) [
        | inl e ↦ rw e (
            whole-Latest first _ _ h (scan_window-Found max_catch_up 0 first first)
              (latest_within-Latest r first (window * 8) h))
        | inr e ↦ rw e (
            window-Latest first (now - window) _ _ (ground (arith, e))
              (scan_window-Found max_catch_up 0 (now - window) 0)
              (latest_within-Latest r first (window * 8) h))
      ]

  -- For a lawful schedule and a first occurrence that is not past now: what the backward search
  -- answers without an error is the latest occurrence. It is not past now, the fire after it is,
  -- and it is itself the first occurrence or a later fire.
  pub latest_fire-Latest :
      (first : ℕ) → first ≤ now → Latest first (latest_fire s gone first anchor last now)
  unfolding latest_fire
  latest_fire-Latest first h = latest_within-Latest 8 first hour h

scale : (w n : ℕ) → w * 8 ^ suc n ≡ w * 8 * 8 ^ n
scale w n = ap (λ x. w * x) (pow-suc 8 n ∙ mul_comm (8 ^ n) 8) ∙ sym (mul_assoc w 8 (8 ^ n))

-- More windows than eight find nothing else: the eighth starts at the first occurrence.
module _ (s : Schedule) (l : Lawful s) (gone : ℕ → Bool) (anchor last now first : ℕ)
    (h : 0 < first) where
  whole_or_else :
      (f rest rest2 : Fire)
      → Found s anchor last now first first f
      → or_else f rest ≡ or_else f rest2
  whole_or_else f rest rest2 (stays u q k) =
      let z : eqb first 0 ≡ false = ground arith in rw (or_else, z) refl
  whole_or_else f rest rest2 (found t start c q x) =
      let p : start < t = later_fire s l anchor last start t q in
      let z : eqb t 0 ≡ false = ground (arith, p) in rw (or_else, z) refl
  whole_or_else f rest rest2 (gives_up e) = refl

  latest_within_enough :
      (m n window : ℕ)
      → n ≤ m
      → max_duration / 8 < window * 8 ^ n
      → latest_within (suc m) s gone first anchor last now window
        ≡ latest_within (suc n) s gone first anchor last now window
  unfolding latest_within
  latest_within_enough m zero window k wide =
      let e : (leb (span now first) window || ltb (max_duration / 8) window) ≡ true =
        ground (arith, wide) in
      rw e (
        whole_or_else _ _ _ (scan_window-Found s l gone anchor last now max_catch_up 0 first first))
  latest_within_enough zero (suc n) window k wide = absurd (omega (arith, k))
  latest_within_enough (suc m) (suc n) window k wide =
      rw (latest_within_enough m n (window * 8) (omega (arith, k)) (rw (scale window n) at wide))
        refl

  -- For a lawful schedule and a first occurrence after the zero time, the backward search ends
  -- within its eight windows, whatever the downtime: more of them would not change its answer.
  pub latest_fire_enough :
      (m : ℕ)
      → 7 ≤ m
      → latest_within (suc m) s gone first anchor last now hour
        ≡ latest_fire s gone first anchor last now
  unfolding latest_fire
  latest_fire_enough m k = latest_within_enough m 7 hour k (ground arith)
