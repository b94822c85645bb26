-- ===== src/Alerts/Newest.antt =====
-- internal/alerts/alerts.go: the ring of observations is the list of the newest ones.
use minicrond.Prelude.{
  ℕ, zero, suc, ◌+◌, ◌-◌, ◌%◌, ◌≤◌, ◌<◌, min, ◌≡◌, refl, sym, ap, ◌∙◌, subst, List, [], ◌∷◌, ◌++◌,
  length, take, if◌then◌else◌, ltb, arith, inl, inr, Bool-cases, length-append, ltb→lt, ltb→le,
  lt→ltb,
}
use native.Mathlib.Nat.{mod_self, mod-eq_of_lt}
use minicrond.Alerts.Drops.{
  Record, Drops, no_drops, observe_drop, observe_all, flushed, skip, set_at,
}

module _ {A : Type 0} where
  pub append_assoc : (xs ys zs : List A) → xs ++ (ys ++ zs) ≡ (xs ++ ys) ++ zs
  append_assoc [] ys zs = refl
  append_assoc (x ∷ xs) ys zs = ap (◌∷◌ x) (append_assoc xs ys zs)

  pub append-nil : (xs : List A) → xs ++ [] ≡ xs
  append-nil [] = refl
  append-nil (x ∷ xs) = ap (◌∷◌ x) (append-nil xs)

  skip-length : (xs ys : List A) → skip (length xs) (xs ++ ys) ≡ ys
  skip-length [] ys = refl
  skip-length (x ∷ xs) ys = skip-length xs ys

  take-length : (xs ys : List A) → take (length xs) (xs ++ ys) ≡ xs
  take-length [] ys = refl
  take-length (x ∷ xs) ys = ap (◌∷◌ x) (take-length xs ys)

  set_at-length :
      (xs ys : List A) (a y : A) → set_at (length xs) a (xs ++ (y ∷ ys)) ≡ xs ++ (a ∷ ys)
  set_at-length [] ys a y = refl
  set_at-length (x ∷ xs) ys a y = ap (◌∷◌ x) (set_at-length xs ys a y)

  skip-append : (n : ℕ) (xs ys : List A) → n ≤ length xs → skip n (xs ++ ys) ≡ skip n xs ++ ys
  skip-append zero xs ys h = refl
  skip-append (suc n) [] ys h = absurd (omega (arith, h))
  skip-append (suc n) (x ∷ xs) ys h = skip-append n xs ys (omega (arith, h))

  skip-suc : (n : ℕ) (xs : List A) (y : A) (ys : List A) → skip n xs ≡ y ∷ ys → skip (suc n) xs ≡ ys
  skip-suc zero [] y ys h = absurd (ground (arith, h))
  skip-suc zero (x ∷ xs) y ys h = ground (arith, h)
  skip-suc (suc n) [] y ys h = absurd (ground (arith, h))
  skip-suc (suc n) (x ∷ xs) y ys h = skip-suc n xs y ys h

-- The last c of a list.
abbrev pub newest : ℕ → List Record → List Record
newest c rs = skip (length rs - c) rs

-- The ring behind its oldest entry, b, and before it, a, after the observations `seen`.
record Ring (c : ℕ) (seen : List Record) (d : Drops) : Type 0 where
  a : List Record
  b : List Record
  drops : d.drops ≡ a ++ b
  start : d.start ≡ length a
  holds : newest c seen ≡ b ++ a
  count : length a + length b ≡ min (length seen) c
  inside : length a < c
  early : length seen < c → a ≡ []
  overflow : d.overflow ≡ length seen - c

rotated :
    (a b ds : List Record) (n : ℕ)
    → n ≡ length a
    → ds ≡ a ++ b
    → (if ltb 0 n then skip n ds ++ take n ds else ds) ≡ b ++ a
rotated [] b ds n h e = rw h (e ∙ sym (append-nil b))
rotated (x ∷ a) b ds n h e =
    rw (lt→ltb 0 n (omega (arith, h)))
      (rw (h, e) (λ j. skip-length (x ∷ a) b j ++ take-length (x ∷ a) b j))

flushed-newest :
    (c : ℕ) (seen : List Record) (d : Drops) → Ring c seen d → flushed d ≡ newest c seen
unfolding flushed
flushed-newest c seen d r = rotated r.a r.b d.drops d.start r.start r.drops ∙ sym r.holds

held :
    (c : ℕ) (seen : List Record) (d : Drops) → Ring c seen d → length d.drops ≡ min (length seen) c
held c seen d r = ap length r.drops ∙ length-append r.a r.b ∙ r.count

-- A full list of observations loses its oldest one.
newest-older :
    (c : ℕ) (seen bs fs : List Record) (b rec : Record)
    → c ≤ length seen
    → newest c seen ≡ (b ∷ bs) ++ fs
    → newest c (seen ++ (rec ∷ [])) ≡ bs ++ (fs ++ (rec ∷ []))
newest-older c seen bs fs b rec h e =
    let k = length seen - c in
    let n : length (seen ++ (rec ∷ [])) - c ≡ suc k =
      omega (arith, h, length-append seen (rec ∷ [])) in
    ap (λ m. skip m (seen ++ (rec ∷ []))) n
    ∙ skip-suc k (seen ++ (rec ∷ [])) b (bs ++ (fs ++ (rec ∷ []))) (
        skip-append k seen (rec ∷ []) (omega arith)
        ∙ ap (λ x. x ++ (rec ∷ [])) e
        ∙ sym (append_assoc (b ∷ bs) fs (rec ∷ [])))

room-Ring :
    (c : ℕ) (seen : List Record) (d : Drops) (rec : Record)
    → Ring c seen d
    → length d.drops < c
    → Ring c (seen ++ (rec ∷ [])) (record d { drops = d.drops ++ (rec ∷ []) })
room-Ring c seen d rec r h =
    let few : length seen < c = omega (arith, h, held c seen d r) in
    let none = r.early few in
    let more = length-append seen (rec ∷ []) in
    let none_skipped : length seen - c ≡ 0 = omega (arith, few) in
    let one_more : length (seen ++ (rec ∷ [])) - c ≡ 0 = omega (arith, few, more) in
    let all : seen ≡ r.b =
      sym (ap (λ m. skip m seen) none_skipped) ∙ r.holds ∙ ap (◌++◌ r.b) none ∙ append-nil r.b in
    record {
      a = [];
      b = r.b ++ (rec ∷ []);
      drops = ap (λ x. x ++ (rec ∷ [])) (r.drops ∙ ap (λ x. x ++ r.b) none);
      start = r.start ∙ ap length none;
      holds =
          ap (λ m. skip m (seen ++ (rec ∷ []))) one_more
          ∙ ap (λ x. x ++ (rec ∷ [])) all
          ∙ sym (append-nil (r.b ++ (rec ∷ [])));
      count = omega (arith, few, more, length-append r.b (rec ∷ []), ap length all);
      inside = omega (arith, few);
      early = λ e. refl;
      overflow = omega (arith, r.overflow, few, more);
    }

full-Ring :
    (c : ℕ) (seen : List Record) (d : Drops) (rec : Record) (a b : List Record)
    → Ring c seen d
    → c ≤ length d.drops
    → d.drops ≡ a ++ b
    → d.start ≡ length a
    → newest c seen ≡ b ++ a
    → length a + length b ≡ min (length seen) c
    → length a < c
    → Ring c (seen ++ (rec ∷ [])) (record {
      drops = set_at d.start rec d.drops;
      start = (d.start + 1) % c;
      overflow = d.overflow + 1;
    })
full-Ring c seen d rec a [] r h e s n k l = absurd (omega (arith, h, held c seen d r, k, l))
full-Ring c seen d rec a (x ∷ []) r h e s n k l =
    let many : c ≤ length seen = omega (arith, h, held c seen d r) in
    let more = length-append seen (rec ∷ []) in
    record {
      a = [];
      b = a ++ (rec ∷ []);
      drops = (λ j. set_at (s j) rec (e j)) ∙ set_at-length a [] rec x;
      start = ap (λ m. (m + 1) % c) s ∙ ap (λ m. m % c) (omega (arith, many, k)) ∙ mod_self c;
      holds = newest-older c seen [] a x rec many n ∙ sym (append-nil (a ++ (rec ∷ [])));
      count = omega (arith, many, more, k, length-append a (rec ∷ []));
      inside = omega (arith, l);
      early = λ f. refl;
      overflow = omega (arith, r.overflow, many, more);
    }
full-Ring c seen d rec a (x ∷ y ∷ b) r h e s n k l =
    let many : c ≤ length seen = omega (arith, h, held c seen d r) in
    let more = length-append seen (rec ∷ []) in
    record {
      a = a ++ (rec ∷ []);
      b = y ∷ b;
      drops =
          (λ j. set_at (s j) rec (e j))
          ∙ set_at-length a (y ∷ b) rec x
          ∙ append_assoc a (rec ∷ []) (y ∷ b);
      start =
          ap (λ m. (m + 1) % c) s
          ∙ mod-eq_of_lt (omega (arith, many, k))
          ∙ sym (length-append a (rec ∷ []));
      holds = newest-older c seen (y ∷ b) a x rec many n;
      count = omega (arith, many, more, k, length-append a (rec ∷ []));
      inside = omega (arith, many, k, length-append a (rec ∷ []));
      early = λ f. absurd (omega (arith, f, many, more));
      overflow = omega (arith, r.overflow, many, more);
    }

observe_drop-Ring :
    (c : ℕ) (seen : List Record) (d : Drops) (rec : Record)
    → Ring c seen d
    → Ring c (seen ++ (rec ∷ [])) (observe_drop c rec d)
unfolding observe_drop
observe_drop-Ring c seen d rec r = elim (Bool-cases (ltb (length d.drops) c)) [
  | inl e ↦ rw e (room-Ring c seen d rec r (ltb→lt (length d.drops) c e))
  | inr e ↦ rw e (
      full-Ring c seen d rec r.a r.b r (ltb→le (length d.drops) c e) r.drops r.start r.holds r.count
        r.inside)
]

observe_all-Ring :
    (c : ℕ) (seen rs : List Record) (d : Drops)
    → Ring c seen d
    → Ring c (seen ++ rs) (observe_all c rs d)
observe_all-Ring c seen [] d r = subst (λ x. Ring c x d) (sym (append-nil seen)) r
observe_all-Ring c seen (rec ∷ rs) d r =
    subst (λ x. Ring c x (observe_all c rs (observe_drop c rec d)))
      (sym (append_assoc seen (rec ∷ []) rs))
      (observe_all-Ring c (seen ++ (rec ∷ [])) rs (observe_drop c rec d)
        (observe_drop-Ring c seen d rec r))

skip-none : {A : Type 0} (n : ℕ) → ◌≡◌ {A = List A} (skip n []) []
skip-none zero = refl
skip-none (suc n) = refl

no_drops-Ring : (c : ℕ) → 0 < c → Ring c [] no_drops
no_drops-Ring c h = record {
  a = [];
  b = [];
  drops = refl;
  start = refl;
  holds = skip-none (0 - c);
  count = omega (arith, h);
  inside = h;
  early = λ e. refl;
  overflow = omega arith;
}

-- A flush after any observations, in a ring with at least one place, gives the newest of them, as many as
-- the ring has places, the oldest first, and the overflow counts the others.
pub flushed-observe_all :
    (c : ℕ) (rs : List Record)
    → 0 < c
    → (flushed (observe_all c rs no_drops) ≡ newest c rs)
      × ((observe_all c rs no_drops).overflow ≡ length rs - c)
flushed-observe_all c rs h =
    let r = observe_all-Ring c [] rs no_drops (no_drops-Ring c h) in
    (flushed-newest c rs (observe_all c rs no_drops) r, r.overflow)
