-- ===== src/Crontab/Again.antt =====
-- cmd/minicrond/crontab.go: `parseCrontab` on what `commentCrontab` wrote.
use minicrond.Prelude.{
  ℕ, zero, suc, ◌≡◌, refl, sym, ap, ◌∙◌, String, ◌⊎◌, inl, inr, List, [], ◌∷◌, ◌++◌, ◌-◌,
}
use minicrond.Crontab.Text.{append, split, concat, trim_newline}
use minicrond.Crontab.Parse.{
  Origin, Env, CronEntry, Line, read_line, parse_lines, parse_crontab, comment_line, comment_lines,
  comment_crontab, take_line, set_env, with_entry, new_entry,
}
use minicrond.Crontab.Split.{
  Lines, Filled, ended, newline, split-Lines, split_after-ended, split-concat, split-trim_newline,
}
use minicrond.Crontab.Comments.{parse_lines-Quiet}

ended-front :
    (w : String) (ws : List String) → Filled ws → ended (w ∷ ws) ≡ append w newline ∷ ended ws
ended-front w [] f = absurd f
ended-front w (v ∷ vs) f = refl

comment_line-Filled : (n : ℕ) (w : String) (ws : List String) → Filled (comment_line n (w ∷ ws))
unfolding comment_line
comment_line-Filled zero w ws = tt
comment_line-Filled (suc n) w ws = tt

-- Commenting a line keeps its end.
comment_line-ended :
    (n : ℕ) (ws : List String) → comment_line n (ended ws) ≡ ended (comment_line n ws)
unfolding comment_line
comment_line-ended n [] = refl
comment_line-ended zero (w ∷ []) = refl
comment_line-ended zero (w ∷ v ∷ ws) = refl
comment_line-ended (suc n) (w ∷ []) = refl
comment_line-ended (suc n) (w ∷ v ∷ ws) =
    ap (◌∷◌ (append w newline)) (comment_line-ended n (v ∷ ws))
    ∙ sym (ended-front w (comment_line n (v ∷ ws)) (comment_line-Filled n v ws))

comment_lines-ended :
    (b : ℕ) (ws : List String) (es : List CronEntry)
    → comment_lines b (ended ws) es ≡ ended (comment_lines b ws es)
unfolding comment_lines
comment_lines-ended b ws [] = refl
comment_lines-ended b ws (e ∷ es) =
    ap (λ x. comment_lines b x es) (comment_line-ended (e.line - 1 - b) ws)
    ∙ comment_lines-ended b (comment_line (e.line - 1 - b) ws) es

comment_line-Lines : (n : ℕ) (ws : List String) → Lines ws → Lines (comment_line n ws)
unfolding comment_line
comment_line-Lines n [] l = absurd l.0
comment_line-Lines zero (w ∷ ws) (f, (h, l)) = (tt, (h, l))
comment_line-Lines (suc n) (w ∷ []) (f, (h, l)) = (tt, (h, l))
comment_line-Lines (suc n) (w ∷ v ∷ ws) (f, (h, l)) =
    (tt, (h, (comment_line-Lines n (v ∷ ws) (tt, l)).1))

comment_lines-Lines :
    (b : ℕ) (ws : List String) (es : List CronEntry) → Lines ws → Lines (comment_lines b ws es)
unfolding comment_lines
comment_lines-Lines b ws [] l = l
comment_lines-Lines b ws (e ∷ es) l =
    comment_lines-Lines b (comment_line (e.line - 1 - b) ws) es
      (comment_line-Lines (e.line - 1 - b) ws l)

-- The lines of the commented crontab.
split-comment_crontab :
    (s : String) (es : List CronEntry) → split (comment_crontab s es) ≡ comment_lines 0 (split s) es
unfolding comment_crontab
split-comment_crontab s es =
    ap (λ x. split (concat (comment_lines 0 x es))) (split_after-ended s)
    ∙ ap (λ x. split (concat x)) (comment_lines-ended 0 (split s) es)
    ∙ split-concat (comment_lines 0 (split s) es)
        (comment_lines-Lines 0 (split s) es (split-Lines s))

-- An empty line at the end changes nothing.
take_line-same :
    (o : Origin) (env : Env) (sh : String) (i : ℕ) (raw : String) (l : Line)
    → (g h : Env → String → String ⊎ List CronEntry) → ((e : Env) (s : String) → g e s ≡ h e s)
    → take_line o env sh i raw l g ≡ take_line o env sh i raw l h
take_line-same o env sh i raw Line.passed g h k = k env sh
take_line-same o env sh i raw (Line.shell s) g h k = k env s
take_line-same o env sh i raw (Line.variable n v) g h k = k (set_env n v env) sh
take_line-same o env sh i raw (Line.entry a b) g h k =
    ap (with_entry (new_entry o env sh i raw a b)) (k env sh)
take_line-same o env sh i raw (Line.refused m) g h k = refl

parse_lines-empty :
    (o : Origin) (env : Env) (sh : String) (i : ℕ) (ws : List String)
    → parse_lines o env sh i (ws ++ ("" ∷ [])) ≡ parse_lines o env sh i ws
unfolding parse_lines read_line
parse_lines-empty o env sh i [] = refl
parse_lines-empty o env sh i (w ∷ ws) =
    take_line-same o env sh i w (read_line w) (λ e s. parse_lines o e s (suc i) (ws ++ ("" ∷ [])))
      (λ e s. parse_lines o e s (suc i) ws) (λ e s. parse_lines-empty o e s (suc i) ws)

parse_crontab-split :
    (o : Origin) (s : String) → parse_crontab o s ≡ parse_lines o [] "/bin/sh" 0 (split s)
unfolding parse_crontab
parse_crontab-split o s = elim (split-trim_newline s) [
  | inl e ↦ ap (parse_lines o [] "/bin/sh" 0) (sym e)
  | inr e ↦ sym (
      ap (parse_lines o [] "/bin/sh" 0) e
      ∙ parse_lines-empty o [] "/bin/sh" 0 (split (trim_newline s)))
]

-- A crontab whose entries were read and commented out reads again without an error and without an entry:
-- its jobs are not imported twice.
pub parse-comment_crontab :
    (o : Origin) (content : String) (entries : List CronEntry)
    → parse_crontab o content ≡ inr entries
    → parse_crontab o (comment_crontab content entries) ≡ inr []
parse-comment_crontab o content entries h =
    parse_crontab-split o (comment_crontab content entries)
    ∙ ap (parse_lines o [] "/bin/sh" 0) (split-comment_crontab content entries)
    ∙ (parse_lines-Quiet o [] "/bin/sh" 0 (split content) entries
        (sym (parse_crontab-split o content) ∙ h)).1
