-- ===== src/Crontab/Split.antt =====
-- Texts and their lines: split at the newlines, joined, and split again.
use Prim.Native.Char.{Char, char, code}
use text.Mathlib.TextEquality.{Char-path}
use Prim.Native.String.{String, [], ◌∷◌}
use mathlib.Core.List.{[] as nil, ◌∷◌ as cons, ◌++◌}
use minicrond.Prelude.{
  ◌≡◌, refl, sym, ap, ◌∙◌, Bool, true, false, ◌⊎◌, inl, inr, List, All, arith, if◌then◌else◌, eqb,
  Bool-cases,
}
use minicrond.Crontab.Text.{append, split, split_after, concat, trim_newline, glue, contains}

abbrev pub newline : String
newline = "\n"

-- The lines with their ends.
abbrev pub ended : List String → List String
ended nil = nil
ended (cons w nil) = cons w nil
ended (cons w (cons v ws)) = cons (append w newline) (ended (cons v ws))

abbrev pub Filled : List String → Type 0
Filled nil = ⊥
Filled (cons w ws) = Unit

-- Lines without a newline in them, at least one.
abbrev pub Lines : List String → Type 0
Lines ws = Filled ws × All (λ w. contains 10 w ≡ false) ws

glue-Lines : (c : Char) (ws : List String) → eqb (code c) 10 ≡ false → Lines ws → Lines (glue c ws)
glue-Lines c nil h l = absurd l.0
glue-Lines c (cons w ws) h (f, (k, l)) = (tt, (rw h k, l))

pub split-Lines : (s : String) → Lines (split s)
split-Lines [] = (tt, (refl, tt))
split-Lines (c ∷ s) = elim (Bool-cases (eqb (code c) 10)) [
  | inl e ↦ rw e (tt, (refl, (split-Lines s).1))
  | inr e ↦ rw e (glue-Lines c (split s) e (split-Lines s))
]

ended-glue : (c : Char) (ws : List String) → Filled ws → glue c (ended ws) ≡ ended (glue c ws)
ended-glue c nil f = absurd f
ended-glue c (cons w nil) f = refl
ended-glue c (cons w (cons v ws)) f = refl

ended-cons : (ws : List String) → Filled ws → ended (cons [] ws) ≡ cons newline (ended ws)
ended-cons nil f = absurd f
ended-cons (cons w ws) f = refl

-- A character that is a newline is that text.
newline-code : (c : Char) → eqb (code c) 10 ≡ true → c ∷ [] ≡ newline
newline-code c e = ap (λ d. d ∷ []) (Char-path c (char 10 tt) (ground (arith, e)))

-- `SplitAfter` gives the lines of `Split` with their ends.
pub split_after-ended : (s : String) → split_after s ≡ ended (split s)
split_after-ended [] = refl
split_after-ended (c ∷ s) = elim (Bool-cases (eqb (code c) 10)) [
  | inl e ↦ rw e (
      (λ j. cons (newline-code c e j) (split_after-ended s j))
      ∙ sym (ended-cons (split s) (split-Lines s).0))
  | inr e ↦ rw e (ap (glue c) (split_after-ended s) ∙ ended-glue c (split s) (split-Lines s).0)
]

-- A line in front, with its end.
split-line :
    (w t : String) → contains 10 w ≡ false → split (append (append w newline) t) ≡ cons w (split t)
split-line [] t h = refl
split-line (c ∷ w) t h =
    let e : eqb (code c) 10 ≡ false = ground (arith, h) in
    rw e (ap (glue c) (split-line w t (ground (arith, h, e))))

split-last : (w : String) → contains 10 w ≡ false → split (append w []) ≡ cons w nil
split-last [] h = refl
split-last (c ∷ w) h =
    let e : eqb (code c) 10 ≡ false = ground (arith, h) in
    rw e (ap (glue c) (split-last w (ground (arith, h, e))))

-- Lines that were joined with their ends are split into themselves.
pub split-concat : (ws : List String) → Lines ws → split (concat (ended ws)) ≡ ws
split-concat nil l = absurd l.0
split-concat (cons w nil) (f, (h, l)) = split-last w h
split-concat (cons w (cons v ws)) (f, (h, l)) =
    split-line w (concat (ended (cons v ws))) h ∙ ap (cons w) (split-concat (cons v ws) (tt, l))

-- The newline at the end is an empty line more.
glue-append : (c : Char) (ws vs : List String) → Filled ws → glue c (ws ++ vs) ≡ glue c ws ++ vs
glue-append c nil vs f = absurd f
glue-append c (cons w ws) vs f = refl

abbrev Trimmed : String → Type 0
Trimmed s = (split s ≡ split (trim_newline s)) ⊎ (split s ≡ split (trim_newline s) ++ cons [] nil)

trimmed-cons :
    (c : Char) (b : Bool) (ws vs : List String)
    → Filled vs
    → (ws ≡ vs) ⊎ (ws ≡ vs ++ cons [] nil)
    → ((if b then cons [] ws else glue c ws) ≡ (if b then cons [] vs else glue c vs))
      ⊎ ((if b then cons [] ws else glue c ws)
          ≡ (if b then cons [] vs else glue c vs) ++ cons [] nil)
trimmed-cons c b ws vs f (inl e) = inl (ap (λ x. if b then cons [] x else glue c x) e)
trimmed-cons c true ws vs f (inr e) = inr (ap (cons []) e)
trimmed-cons c false ws vs f (inr e) = inr (ap (glue c) e ∙ glue-append c vs (cons [] nil) f)

pub split-trim_newline : (s : String) → Trimmed s
split-trim_newline [] = inl refl
split-trim_newline (c ∷ []) = elim (Bool-cases (eqb (code c) 10)) [
  | inl e ↦ rw e (inr refl)
  | inr e ↦ rw (e, e) (inl refl)
]
split-trim_newline (c ∷ d ∷ s) =
    trimmed-cons c (eqb (code c) 10) (split (d ∷ s)) (split (trim_newline (d ∷ s)))
      (split-Lines (trim_newline (d ∷ s))).0 (split-trim_newline (d ∷ s))
