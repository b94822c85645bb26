-- ===== src/Alerts/Parked.antt =====
-- internal/daemon/alert_park.go: which observations the loop of `park` keeps, and which runs it checks again.
use minicrond.Prelude.{
  ℕ, suc, ◌+◌, ◌≤◌, ◌<◌, ◌≡◌, refl, sym, ◌∙◌, ap, subst, String, Bool, true, false, not, ◌&&◌, List,
  [], ◌∷◌, ◌++◌, length, has, has-append, select, take, if◌then◌else◌, leb, ◌==◌, string_eq,
  str_iff, ==_refl, arith, Bool-cases, inl, inr, length-append,
}
use minicrond.Alerts.Deliveries.{AlertUpdate}
use minicrond.Alerts.Newest.{append_assoc, append-nil}
use minicrond.Alerts.Park.{
  AlertPark, max_parked_alerts, of_run_id, park_one, park_each, Exact, park_one-Exact,
}

-- The observations whose runs still wait in the history writer, and the others.
abbrev pub waiting : (String → Bool) → List AlertUpdate → List AlertUpdate
waiting pending us = select (λ u. pending u.run_id) us

abbrev pub landed : (String → Bool) → List AlertUpdate → List AlertUpdate
landed pending us = select (λ u. not (pending u.run_id)) us

-- The park's places, or what it holds if that is more.
abbrev pub places : ℕ → ℕ
places c = if leb max_parked_alerts c then c else max_parked_alerts

-- The run is checked again: it no longer waits, is missing, and had nothing parked before.
abbrev pub Again : (String → Bool) → List AlertUpdate → AlertPark → List String → String → Type 0
Again pending us p ids id =
    has (λ x. x == id) ids
    ≡ (not (pending id) && has (of_run_id id) us && not (has (of_run_id id) p.parked))

-- What the loop of `park` makes of the observations `us` and the park `p`.
pub record Parked (pending : String → Bool) (us : List AlertUpdate) (p : AlertPark)
    (k : List String × (ℕ × AlertPark)) : Type 0 where
  pub exact : Exact k.1.1
  pub kept : List AlertUpdate
  pub parked : k.1.1.parked ≡ p.parked ++ kept
  pub all_landed : landed pending kept ≡ landed pending us
  pub some_waiting : ℕ
  pub first_waiting : waiting pending kept ≡ take some_waiting (waiting pending us)
  pub overflow : some_waiting + k.1.0 ≡ length (waiting pending us)
  pub at_once : max_parked_alerts ≤ p.count → some_waiting ≡ 0
  pub full : 0 < k.1.0 → max_parked_alerts ≤ k.1.1.count
  pub bounded : k.1.1.count ≤ places p.count + length (landed pending us)
  pub checked_again : (id : String) → Again pending us p k.0 id

pushed-Again :
    (pending : String → Bool) (us : List AlertUpdate) (u : AlertUpdate) (p : AlertPark)
    → (ids : List String) → ((id : String) → Again pending us (park_one u p) ids id)
    → (id : String)
    → Again pending
        (u ∷ us)
        p
        (if not (pending u.run_id) && not (has (of_run_id u.run_id) p.parked)
          then u.run_id ∷ ids
          else ids)
        id
pushed-Again pending us u p ids a id = elim (Bool-cases (u.run_id == id)) [
  | inl e ↦ subst (Again pending (u ∷ us) p _) ((str_iff u.run_id id).0 e) (
      ground
        (arith, a u.run_id, has-append (of_run_id u.run_id) p.parked (u ∷ []), ==_refl u.run_id))
  | inr e ↦ ground (arith, a id, has-append (of_run_id id) p.parked (u ∷ []), e)
]

dropped-Again :
    (pending : String → Bool) (us : List AlertUpdate) (u : AlertUpdate) (p : AlertPark)
    → (ids : List String) → pending u.run_id ≡ true
    → ((id : String) → Again pending us p ids id)
    → (id : String) → Again pending (u ∷ us) p ids id
dropped-Again pending us u p ids h a id = elim (Bool-cases (u.run_id == id)) [
  | inl e ↦
      subst (Again pending (u ∷ us) p ids) ((str_iff u.run_id id).0 e)
        (ground (arith, a u.run_id, h))
  | inr e ↦ ground (arith, a id, e)
]

push_landed :
    (pending : String → Bool) (u : AlertUpdate) (us vs : List AlertUpdate)
    → landed pending us ≡ landed pending vs
    → landed pending (u ∷ us) ≡ landed pending (u ∷ vs)
push_landed pending u us vs h = elim (Bool-cases (pending u.run_id)) [
  | inl e ↦ rw e h
  | inr e ↦ rw e (ap (◌∷◌ u) h)
]

push_waiting :
    (pending : String → Bool) (u : AlertUpdate) (us vs : List AlertUpdate) (n : ℕ)
    → waiting pending us ≡ take n (waiting pending vs)
    → waiting pending (u ∷ us)
      ≡ take (if pending u.run_id then suc n else n) (waiting pending (u ∷ vs))
push_waiting pending u us vs n h = elim (Bool-cases (pending u.run_id)) [
  | inl e ↦ rw e (ap (◌∷◌ u) h)
  | inr e ↦ rw e h
]

-- An observation that is parked, before the rest.
pushed-Parked :
    (pending : String → Bool) (us : List AlertUpdate) (u : AlertUpdate) (p : AlertPark)
    → (k : List String × (ℕ × AlertPark))
    → (pending u.run_id ≡ true → leb max_parked_alerts p.count ≡ false)
    → Exact p
    → Parked pending us (park_one u p) k
    → Parked pending (u ∷ us) p (
      (if not (pending u.run_id) && not (has (of_run_id u.run_id) p.parked)
          then u.run_id ∷ k.0
          else k.0),
      k.1,
    )
pushed-Parked pending us u p k h x a = record {
  exact = a.exact;
  kept = u ∷ a.kept;
  parked = a.parked ∙ sym (append_assoc p.parked (u ∷ []) a.kept);
  all_landed = push_landed pending u a.kept us a.all_landed;
  some_waiting = if pending u.run_id then suc a.some_waiting else a.some_waiting;
  first_waiting = push_waiting pending u a.kept us a.some_waiting a.first_waiting;
  overflow = ground (arith, a.overflow);
  at_once = ground (arith, h, a.at_once);
  full = a.full;
  bounded = ground (arith, h, a.bounded);
  checked_again = pushed-Again pending us u p k.0 a.checked_again;
}

dropped-Parked :
    (pending : String → Bool) (us : List AlertUpdate) (u : AlertUpdate) (p : AlertPark)
    → (k : List String × (ℕ × AlertPark)) → pending u.run_id ≡ true
    → max_parked_alerts ≤ p.count
    → Exact p
    → Parked pending us p k
    → Parked pending (u ∷ us) p (k.0, (suc k.1.0, k.1.1))
dropped-Parked pending us u p k h f x a = record {
  exact = a.exact;
  kept = a.kept;
  parked = a.parked;
  all_landed = rw h a.all_landed;
  some_waiting = 0;
  first_waiting = a.first_waiting ∙ ap (λ n. take n (waiting pending us)) (a.at_once f);
  overflow = ground (arith, a.overflow, a.at_once f, h);
  at_once = λ _. refl;
  full = λ _. omega (arith, x, f, a.exact, ap length a.parked, length-append p.parked a.kept);
  bounded = ground (arith, h, a.bounded);
  checked_again = dropped-Again pending us u p k.0 h a.checked_again;
}

-- One turn of the loop, from what it makes of the rest either way.
turn-Parked :
    (pending : String → Bool) (us : List AlertUpdate) (u : AlertUpdate) (p : AlertPark)
    → (b c f : Bool) (k l : List String × (ℕ × AlertPark))
    → ((b ≡ true → f ≡ false)
        → Parked pending (u ∷ us) p ((if not b && not c then u.run_id ∷ k.0 else k.0), k.1))
    → (b ≡ true → f ≡ true → Parked pending (u ∷ us) p (l.0, (suc l.1.0, l.1.1)))
    → Parked pending (u ∷ us) p (
        if not b
        then (if c then k else (u.run_id ∷ k.0, k.1))
        else if f
        then (l.0, (suc l.1.0, l.1.1))
        else k)
turn-Parked pending us u p true c true k l x y = y refl refl
turn-Parked pending us u p true c false k l x y = x (λ _. refl)
turn-Parked pending us u p false true f k l x y = x (λ e. absurd (ground (arith, e)))
turn-Parked pending us u p false false f k l x y = x (λ e. absurd (ground (arith, e)))

-- From a park whose counter is right, the loop of `park` appends the missing observations of runs that no
-- longer wait in the history writer, all in their order, and of the others the first ones, until the
-- park has 256 observations; the rest are counted as overflow. The counter is right again, and passes
-- 256 (or what it was) by no more than the observations of runs that no longer wait. The runs to check
-- again are those that no longer wait, are missing and had nothing parked before.
pub park_each-Parked :
    (pending : String → Bool) (us : List AlertUpdate) (p : AlertPark)
    → Exact p
    → Parked pending us p (park_each pending us p)
unfolding park_each
park_each-Parked pending [] p h = record {
  exact = h;
  kept = [];
  parked = sym (append-nil p.parked);
  all_landed = refl;
  some_waiting = 0;
  first_waiting = refl;
  overflow = refl;
  at_once = λ _. refl;
  full = λ f. absurd (omega (arith, f));
  bounded = ground arith;
  checked_again = λ id. ground arith;
}
park_each-Parked pending (u ∷ us) p h =
    let k = park_each pending us (park_one u p) in
    let a = park_each-Parked pending us (park_one u p) (park_one-Exact u p h) in
    let b = park_each-Parked pending us p h in
    turn-Parked pending us u p _ _ _ k (park_each pending us p)
      (λ g. pushed-Parked pending us u p k g h a)
      (λ e f. dropped-Parked pending us u p _ e (ground (arith, f)) h b)
