-- ===== src/Crontab/Comments.antt =====
-- cmd/minicrond/crontab.go: the crontab with its entries commented out, read again.
use Prim.Native.Char.{Char, char, code}
use Prim.Native.String.{◌∷◌ as ◌∷ₛ◌}
use minicrond.Prelude.{
  ℕ, suc, ◌-◌, ◌≤◌, ◌≡◌, refl, ap, ◌∙◌, subst, String, false, ◌||◌, ◌⊎◌, inl, inr, List, [], ◌∷◌,
  if◌then◌else◌, arith, All, Bool-cases,
}
use minicrond.Crontab.Text.{append, is_space, trim_right, is_empty, begins_with, assignment}
use minicrond.Crontab.Parse.{
  schedule_line, take_line, with_entry, new_entry, Origin, Env, CronEntry, Line, read_line,
  parse_lines, comment_line, comment_lines, imported, set_env,
}

-- The numbers of entries found from the index i on lie beyond i.
abbrev Beyond : ℕ → List CronEntry → Type 0
Beyond i es = All (λ e. suc i ≤ e.line) es

Beyond-suc : (i : ℕ) (es : List CronEntry) → Beyond (suc i) es → Beyond i es
Beyond-suc i [] h = tt
Beyond-suc i (e ∷ es) (h, k) = (ground (arith, h), Beyond-suc i es k)

comment_lines-behind :
    (b : ℕ) (w : String) (ws : List String) (es : List CronEntry)
    → Beyond (suc b) es
    → comment_lines b (w ∷ ws) es ≡ w ∷ comment_lines (suc b) ws es
unfolding comment_lines comment_line
comment_lines-behind b w ws [] h = refl
comment_lines-behind b w ws (e ∷ es) (h, k) =
    let n : e.line - 1 - b ≡ suc (e.line - 1 - suc b) = omega (arith, h) in
    rw n (comment_lines-behind b w (comment_line (e.line - 1 - suc b) ws) es k)

trim_right-keeps :
    (c : Char) (s : String) → is_space (code c) ≡ false → trim_right (c ∷ₛ s) ≡ c ∷ₛ trim_right s
trim_right-keeps c s h = elim (Bool-cases (is_empty (trim_right s))) [
  | inl e ↦ rw (e, h) refl
  | inr e ↦ rw e refl
]

comment-passed : (s : String) → read_line (char 35 tt ∷ₛ s) ≡ Line.passed
unfolding read_line
comment-passed s =
    ap (λ t. if is_empty t || begins_with 35 t then Line.passed else schedule_line t (assignment t))
      (trim_right-keeps (char 35 tt) s refl)

-- A commented line is passed over.
imported-passed : (w : String) → read_line (imported w) ≡ Line.passed
imported-passed w = comment-passed (append " minicrond imported: " w)

inr-same : (a b : List CronEntry) → ◌≡◌ {A = String ⊎ List CronEntry} (inr a) (inr b) → a ≡ b
inr-same a b e = ground (arith, e)

with_entry-inr :
    (e : CronEntry) (r : String ⊎ List CronEntry) (es : List CronEntry)
    → with_entry e r ≡ inr es
    → (fs : List CronEntry) × ((r ≡ inr fs) × (e ∷ fs ≡ es))
with_entry-inr e (inl m) es h = absurd (ground (arith, h))
with_entry-inr e (inr fs) es h = (fs, (refl, inr-same (e ∷ fs) es h))

-- Each entry that is found lies beyond the index the loop began at, and with those commented out the
-- loop finds none.
abbrev Quiet : Origin → Env → String → ℕ → List String → List CronEntry → Type 0
Quiet o env sh i ws es = Beyond i es × (parse_lines o env sh i (comment_lines i ws es) ≡ inr [])

-- A line that stays, in front of the others.
kept_line :
    (o : Origin) (env e : Env) (sh s : String) (i : ℕ) (raw : String) (ws : List String)
    → (es : List CronEntry)
    → take_line o env sh i raw
        (read_line raw)
        (λ f t. parse_lines o f t (suc i) (comment_lines (suc i) ws es))
      ≡ parse_lines o e s (suc i) (comment_lines (suc i) ws es)
    → Quiet o e s (suc i) ws es
    → Quiet o env sh i (raw ∷ ws) es
unfolding parse_lines
kept_line o env e sh s i raw ws es h q = (
  Beyond-suc i es q.0,
  ap (parse_lines o env sh i) (comment_lines-behind i raw ws es q.0) ∙ h ∙ q.1,
)

entry_line :
    (o : Origin) (env : Env) (sh : String) (i : ℕ) (raw : String) (ws : List String)
    → (e : CronEntry) (es : List CronEntry) → e.line ≡ suc i
    → Quiet o env sh (suc i) ws es
    → Quiet o env sh i (raw ∷ ws) (e ∷ es)
unfolding parse_lines comment_lines comment_line
entry_line o env sh i raw ws e es h q =
    let n : e.line - 1 - i ≡ 0 = omega (arith, h) in
    let c : comment_lines i (raw ∷ ws) (e ∷ es) ≡ imported raw ∷ comment_lines (suc i) ws es =
      rw n (comment_lines-behind i (imported raw) ws es q.0) in
    (
      (omega (arith, h), Beyond-suc i es q.0),
      ap (parse_lines o env sh i) c
          ∙ ap
              (λ l.
                take_line o env sh i (imported raw) l
                  (λ f t. parse_lines o f t (suc i) (comment_lines (suc i) ws es)))
              (imported-passed raw)
          ∙ q.1,
    )

take_line-Quiet :
    (o : Origin) (env : Env) (sh : String) (i : ℕ) (raw : String) (ws : List String)
    → ((e : Env) (s : String) (es : List CronEntry)
        → parse_lines o e s (suc i) ws ≡ inr es
        → Quiet o e s (suc i) ws es)
    → (l : Line) → read_line raw ≡ l
    → (es : List CronEntry)
    → take_line o env sh i raw l (λ e s. parse_lines o e s (suc i) ws) ≡ inr es
    → Quiet o env sh i (raw ∷ ws) es
take_line-Quiet o env sh i raw ws k Line.passed r es h =
    kept_line o env env sh sh i raw ws es (rw r refl) (k env sh es h)
take_line-Quiet o env sh i raw ws k (Line.shell s) r es h =
    kept_line o env env sh s i raw ws es (rw r refl) (k env s es h)
take_line-Quiet o env sh i raw ws k (Line.variable n v) r es h =
    kept_line o env (set_env n v env) sh sh i raw ws es (rw r refl) (k (set_env n v env) sh es h)
take_line-Quiet o env sh i raw ws k (Line.entry schedule command) r es h =
    let e = new_entry o env sh i raw schedule command in
    let found = with_entry-inr e (parse_lines o env sh (suc i) ws) es h in
    subst (Quiet o env sh i (raw ∷ ws)) found.1.1
      (entry_line o env sh i raw ws e found.0 refl (k env sh found.0 found.1.0))
take_line-Quiet o env sh i raw ws k (Line.refused m) r es h = absurd (ground (arith, h))

pub parse_lines-Quiet :
    (o : Origin) (env : Env) (sh : String) (i : ℕ) (ws : List String) (es : List CronEntry)
    → parse_lines o env sh i ws ≡ inr es
    → Quiet o env sh i ws es
unfolding parse_lines comment_lines
parse_lines-Quiet o env sh i [] es h = subst (Quiet o env sh i []) (inr-same [] es h) (tt, refl)
parse_lines-Quiet o env sh i (raw ∷ ws) es h =
    take_line-Quiet o env sh i raw ws (λ e s. parse_lines-Quiet o e s (suc i) ws) (read_line raw)
      refl es h
