-- ===== src/Store/Registry/Found.antt =====
-- internal/store/store.go: what a SELECT of one row and an UPDATE of it do to a table.
use minicrond.Prelude.{
  ◌+◌, ◌≤◌, ◌≡◌, refl, ap, ◌∙◌, Bool, true, if◌then◌else◌, none, some, List, [], ◌∷◌, ◌++◌, arith,
  find, update, count, count-append, Bool-cases, inl, inr, subst,
}

-- A row between the others.
unfoldable pub Split : {A : Type 0} → A → List A → Type 0
Split {A = A} x xs = (before : List A) × (after : List A) × (xs ≡ before ++ x ∷ after)

pub find-Split :
    {A : Type 0} (p : A → Bool) (xs : List A) (x : A)
    → find p xs ≡ some x
    → Split x xs × (p x ≡ true)
unfolding Split
find-Split p [] x h = absurd (ground (arith, h))
find-Split p (y ∷ ys) x h = elim (Bool-cases (p y)) [
  | inl e ↦
      let q : y ≡ x = ground (arith, h, e) in
      (([], ys, ap (λ z. z ∷ ys) q), subst (λ z. p z ≡ true) q e)
  | inr e ↦
      let r = find-Split p ys x (ground (arith, h, e)) in
      ((y ∷ r.0.0, r.0.1, ap (λ zs. y ∷ zs) r.0.2), r.1)
]

pub find-none : {A : Type 0} (p : A → Bool) (xs : List A) → find p xs ≡ none → count p xs ≡ 0
find-none p [] h = refl
find-none p (x ∷ xs) h = ground (arith, find-none p xs, h)

pub update-none :
    {A : Type 0} (p : A → Bool) (f : A → A) (xs : List A) → count p xs ≡ 0 → update p f xs ≡ xs
update-none p f [] h = refl
update-none p f (x ∷ xs) h = ground (arith, update-none p f xs)

update-append :
    {A : Type 0} (p : A → Bool) (f : A → A) (xs ys : List A)
    → update p f (xs ++ ys) ≡ update p f xs ++ update p f ys
update-append p f [] ys = refl
update-append p f (x ∷ xs) ys = ap (λ zs. (if p x then f x else x) ∷ zs) (update-append p f xs ys)

-- The change of the one row under a test.
pub update-Split :
    {A : Type 0} (p : A → Bool) (f : A → A) (before after : List A) (x : A)
    → p x ≡ true
    → count p (before ++ x ∷ after) ≤ 1
    → update p f (before ++ x ∷ after) ≡ before ++ f x ∷ after
update-Split p f before after x h one =
    let c : count p (before ++ x ∷ after) ≡ count p before + (1 + count p after) =
      count-append p before (x ∷ after)
      ∙ ap (λ b. count p before + ((if b then 1 else 0) + count p after)) h in
    let a = update-none p f after (omega (arith, c, one)) in
    let b = update-none p f before (omega (arith, c, one)) in
    update-append p f before (x ∷ after)
    ∙ ap (λ zs. zs ++ update p f (x ∷ after)) b
    ∙ ap (λ y. before ++ y ∷ update p f after) (ap (λ t. if t then f x else x) h)
    ∙ ap (λ zs. before ++ f x ∷ zs) a

-- A change that a test does not see.
pub count-update :
    {A : Type 0} (q p : A → Bool) (f : A → A)
    → ((x : A) → q (f x) ≡ q x)
    → (xs : List A) → count q (update p f xs) ≡ count q xs
count-update q p f same [] = refl
count-update q p f same (x ∷ xs) = ground (arith, count-update q p f same xs, same x)
