-- ===== src/Config/Rules.antt =====
-- internal/config/config.go: what a passed list of tests says, and `cmp.Or` used twice with one default.
use minicrond.Prelude.{
  ℕ, zero, suc, ◌≡◌, refl, sym, ap, ◌∙◌, Bool, true, false, not, ◌&&◌, ◌||◌, Option, none, some,
  List, [], ◌∷◌, ℤ, pos, negsuc, if◌then◌else◌, arith, Bool-cases, inl, inr, nat_eq, eqb_iff,
}
use minicrond.Config.Values.{Zero, is_zero, cmp_or, or_nil, zero_int, zero_text}
use minicrond.Config.Definition.{given, or_field, spelled}
use minicrond.Config.Fill.{or_success}
use minicrond.Config.Check.{Rule, first_problem}

abbrev pub rule_at : ℕ → List Rule → Rule
rule_at n [] = (false, "")
rule_at zero (r ∷ rs) = r
rule_at (suc n) (r ∷ rs) = rule_at n rs

pub first_problem-none :
    (n : ℕ) (rs : List Rule) → first_problem rs ≡ none → (rule_at n rs).0 ≡ false
first_problem-none n [] h = refl
first_problem-none zero (r ∷ rs) h = ground (arith, h)
first_problem-none (suc n) (r ∷ rs) h =
    first_problem-none n rs (elim (Bool-cases r.0) [
      | inl e ↦ absurd (ground (arith, h, e))
      | inr e ↦ ground (arith, h, e)
    ])

module _ {A : Type 0} ⦃z : Zero A⦄ where
  pub or_kept : (a b : A) → is_zero a ≡ false → cmp_or a b ≡ a
  or_kept a b e = rw e refl

  pub or_same : (a b : A) → cmp_or (cmp_or a b) b ≡ cmp_or a b
  or_same a b = elim (Bool-cases (is_zero a)) [
    | inl e ↦ rw e (elim (Bool-cases (is_zero b)) [ inl f ↦ rw f refl | inr f ↦ rw f refl ])
    | inr e ↦ rw (e, e) refl
  ]

  or-nonzero : (a c : A) → is_zero c ≡ false → is_zero (cmp_or a c) ≡ false
  or-nonzero a c h = elim (Bool-cases (is_zero a)) [ inl e ↦ rw e h | inr e ↦ rw e e ]

  pub or_skip :
      (a b c : A) → is_zero c ≡ false → cmp_or (cmp_or (cmp_or a b) c) b ≡ cmp_or (cmp_or a b) c
  or_skip a b c h = or_kept (cmp_or (cmp_or a b) c) b (or-nonzero (cmp_or a b) c h)

  -- Filled again from the same defaults.
  pub or_again :
      (a b c : A)
      → is_zero c ≡ false
      → cmp_or (cmp_or (cmp_or (cmp_or a b) c) b) c ≡ cmp_or (cmp_or a b) c
  or_again a b c h = ap (λ x. cmp_or x c) (or_skip a b c h) ∙ or_same (cmp_or a b) c

  pub or_again_if :
      (w : Bool) (a b c : A)
      → is_zero c ≡ false
      → cmp_or
          (if w
            then cmp_or (cmp_or (if w then cmp_or a b else a) c) b
            else cmp_or (if w then cmp_or a b else a) c)
          c
        ≡ cmp_or (if w then cmp_or a b else a) c
  or_again_if true a b c h = or_again a b c h
  or_again_if false a b c h = or_same a c

  -- Only for one kind.
  pub or_same_if :
      (w : Bool) (a b : A)
      → (if w then cmp_or (if w then cmp_or a b else a) b else (if w then cmp_or a b else a))
        ≡ (if w then cmp_or a b else a)
  or_same_if true a b = or_same a b
  or_same_if false a b = refl

  pub or_retry :
      (w : Bool) (a b c : A)
      → is_zero c ≡ false
      → (let v =
            if w then cmp_or (if w then cmp_or a b else a) c else (if w then cmp_or a b else a) in
          if w then cmp_or (if w then cmp_or v b else v) c else (if w then cmp_or v b else v))
        ≡ (if w then cmp_or (if w then cmp_or a b else a) c else (if w then cmp_or a b else a))
  or_retry true a b c h = or_again a b c h
  or_retry false a b c h = refl

pub or_nil_same : {A : Type 0} (a b : Option A) → or_nil (or_nil a b) b ≡ or_nil a b
or_nil_same none none = refl
or_nil_same none (some b) = refl
or_nil_same (some a) b = refl

pub or_nil_same_if :
    {A : Type 0} (w : Bool) (a b : Option A)
    → (if w then or_nil (if w then or_nil a b else a) b else (if w then or_nil a b else a))
      ≡ (if w then or_nil a b else a)
or_nil_same_if true a b = or_nil_same a b
or_nil_same_if false a b = refl

pub or_success_again : (a b : Option (List ℤ)) → or_success (or_nil (or_success a) b) ≡ or_success a
or_success_again none b = refl
or_success_again (some []) b = refl
or_success_again (some (c ∷ cs)) b = refl

pub zero_int-pos : (z : ℤ) → is_zero z ≡ true → z ≡ pos 0
zero_int-pos (pos a) h = ap pos ((eqb_iff a 0).0 h)
zero_int-pos (negsuc a) h = absurd (ground (arith, h))

-- A number that is spelled out where its zero would be filled.
pub or_spelled :
    (z t : ℤ)
    → (let o = spelled (not (is_zero z) || not (is_zero t)) z in
        if not (given o) then cmp_or (or_field o (pos 0)) t else or_field o (pos 0))
      ≡ z
or_spelled z t = elim (Bool-cases (is_zero z)) [
  | inl e ↦ elim (Bool-cases (is_zero t)) [
    | inl f ↦ rw (e, f) (zero_int-pos t f ∙ sym (zero_int-pos z e))
    | inr f ↦ rw (e, f) refl
  ]
  | inr e ↦ rw e refl
]

pub or_spelled_if :
    (w : Bool) (z t : ℤ)
    → (w ≡ false → z ≡ pos 0)
    → (let o = spelled (w && (not (is_zero z) || not (is_zero t))) z in
        if w && not (given o) then cmp_or (or_field o (pos 0)) t else or_field o (pos 0))
      ≡ z
or_spelled_if true z t h = or_spelled z t
or_spelled_if false z t h = sym (h refl)
