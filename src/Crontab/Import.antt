-- ===== src/Crontab/Import.antt =====
-- cmd/minicrond/crontab.go: `crontab`, the import's steps in their order. What the daemon, the terminal, the
-- system's `crontab` program and the account say is a parameter.
use minicrond.Prelude.{
  ℕ, String, ◌≡◌, refl, sym, ap, ◌∙◌, subst, Bool, true, false, not, ◌&&◌, ◌||◌, ◌⊎◌, inl, inr,
  Option, none, some, List, [], ◌∷◌, if◌then◌else◌, ◌==◌, string_eq, nat_eq, str_iff, eqb_iff,
  length, has, arith, eqb,
}
use minicrond.Crontab.Text.{is_empty, trim_space}
use minicrond.Crontab.Parse.{Origin, CronEntry, parse_crontab, comment_crontab}
use minicrond.Crontab.Again.{parse-comment_crontab}

-- The answers, in the order in which they are asked for: `none` is a call that fails.
pub record Session : Type 0 where
  pub user : String
  pub extra_args : ℕ
  pub geteuid : ℕ
  pub valid_user : Bool
  pub remote : Bool
  pub terminal : Bool
  pub run_as : Option Bool
  pub before : Option String
  pub jobs : Option (List String)
  pub marshal : Option String
  pub preview : Option String
  pub shown : Bool
  pub confirmation : Option String
  pub previewed : Option String
  pub applied : Option ℕ
  pub after : Option String
  pub installed : Bool

-- How the command ends: with a message and the crontab as it was, also where the daemon answered the import
-- with an error; with the jobs imported and the crontab as it was; or with the jobs imported and a new
-- crontab given to the system's program, which took it or refused it.
pub data ImportEnding : Type 0 where
  unchanged : String → ImportEnding
  imported_only : String → ImportEnding
  replaced : String → Bool → ImportEnding

abbrev pub demand : Bool → ImportEnding → ImportEnding → ImportEnding
demand b stop go = if b then go else stop

abbrev pub receive : {A : Type 0} → Option A → ImportEnding → (A → ImportEnding) → ImportEnding
receive none stop go = stop
receive (some a) stop go = go a

-- The account's checks with `--user`.
abbrev user_checks : Session → Bool
user_checks s = is_empty s.user || (eqb s.geteuid 0 && s.valid_user && not (s.user == "root"))

-- `slices.Contains(info.Capabilities, "run-as")`.
abbrev can_run_as : Session → Bool
can_run_as s = is_empty s.user || (elim s.run_as [ some b ↦ b | none ↦ false ])

-- `d.Name == entry.job.Name` for some entry.
abbrev pub conflicts : List String → List CronEntry → Bool
conflicts names es = has (λ e. has (◌==◌ e.job.name) names) es

abbrev some_entries : List CronEntry → Bool
some_entries [] = false
some_entries (e ∷ es) = true

abbrev parsed : String ⊎ List CronEntry → Option (List CronEntry)
parsed (inl m) = none
parsed (inr es) = some es

-- From the confirmed preview on.
unfoldable pub apply_import : Session → String → List CronEntry → ImportEnding
apply_import s original entries =
    receive s.previewed (ImportEnding.unchanged "reading the crontab") λ current.
      demand (current == original)
        (ImportEnding.unchanged "crontab changed since preview; nothing imported")
        (receive s.applied (ImportEnding.unchanged "import failed") λ n.
          demand (n == length entries)
            (ImportEnding.imported_only "unexpected number of jobs; crontab left unchanged")
            (receive s.after (ImportEnding.imported_only "crontab could not be re-read") λ last.
              demand (last == original) (ImportEnding.imported_only "crontab changed")
                (ImportEnding.replaced (comment_crontab original entries) s.installed)))

-- From the entries to the confirmation.
unfoldable pub confirm_import : Session → String → List CronEntry → ImportEnding
confirm_import s original entries =
    demand (some_entries entries) (ImportEnding.unchanged "no active cron jobs to import") (
      receive s.jobs (ImportEnding.unchanged "listing the jobs") λ names.
        demand (not (conflicts names entries))
          (ImportEnding.unchanged "job already exists in minicrond")
          (receive s.marshal (ImportEnding.unchanged "encoding the jobs") λ content.
            receive s.preview (ImportEnding.unchanged "preview failed") λ hash.
              demand s.shown (ImportEnding.unchanged "output failed") (
                receive s.confirmation (ImportEnding.unchanged "confirmation") λ answer.
                  demand (is_empty (trim_space answer))
                    (ImportEnding.unchanged "cancelled; crontab unchanged")
                    (apply_import s original entries))))

-- `crontab`.
unfoldable pub crontab : Origin → Session → ImportEnding
crontab o s = demand (eqb s.extra_args 0) (ImportEnding.unchanged "usage") (
    demand (user_checks s) (ImportEnding.unchanged "--user") (
      demand (not s.remote) (ImportEnding.unchanged "crontab import requires a local daemon") (
        demand s.terminal (ImportEnding.unchanged "crontab import requires an interactive terminal")
          (demand (can_run_as s) (ImportEnding.unchanged "--user requires run-as support") (
            receive s.before (ImportEnding.unchanged "reading the crontab") λ original.
              receive (parsed (parse_crontab o original))
                (ImportEnding.unchanged "unsupported crontab line")
                λ entries. confirm_import s original entries)))))

-- What stands behind a replaced crontab.
pub record Imported (o : Origin) (s : Session) (t : String) : Type 0 where
  pub original : String
  pub entries : List CronEntry
  pub read : parse_crontab o original ≡ inr entries
  -- the crontab was the same at the three readings
  pub before : s.before ≡ some original
  pub previewed : s.previewed ≡ some original
  pub after : s.after ≡ some original
  -- confirmed by an empty line, and every entry became a job
  pub confirmed : (a : String) × ((s.confirmation ≡ some a) × (is_empty (trim_space a) ≡ true))
  pub applied : s.applied ≡ some (length entries)
  -- no entry took the name of a job that was there
  pub jobs : (names : List String) × ((s.jobs ≡ some names) × (conflicts names entries ≡ false))
  pub text : t ≡ comment_crontab original entries
  -- a second import finds nothing
  pub quiet : parse_crontab o t ≡ inr []

abbrev Stops : ImportEnding → Type 0
Stops (ImportEnding.replaced t b) = ⊥
Stops _ = Unit

abbrev Replaces : ImportEnding → Type 0
Replaces (ImportEnding.replaced t b) = Unit
Replaces _ = ⊥

demand-replaced :
    (b : Bool) (stop go : ImportEnding) (t : String) (i : Bool)
    → Stops stop
    → demand b stop go ≡ ImportEnding.replaced t i
    → (b ≡ true) × (go ≡ ImportEnding.replaced t i)
demand-replaced true stop go t i s h = (refl, h)
demand-replaced false stop go t i s h = absurd (subst Stops h s)

receive-replaced :
    {A : Type 0} (p : Option A) (stop : ImportEnding) (go : A → ImportEnding) (t : String)
    (i : Bool)
    → Stops stop
    → receive p stop go ≡ ImportEnding.replaced t i
    → (a : A) × ((p ≡ some a) × (go a ≡ ImportEnding.replaced t i))
receive-replaced none stop go t i s h = absurd (subst Stops h s)
receive-replaced (some a) stop go t i s h = (a, (refl, h))

parsed-some : (p : String ⊎ List CronEntry) (es : List CronEntry) → parsed p ≡ some es → p ≡ inr es
parsed-some (inl m) es h = absurd (ground (arith, h))
parsed-some (inr fs) es h = ap inr (ground (arith, h))

replaced-text :
    (t u : String) (b c : Bool) → ImportEnding.replaced t b ≡ ImportEnding.replaced u c → t ≡ u
replaced-text t u b c h = ground (arith, h)

-- The command gives the system a new crontab only after an import: the user confirmed with an empty line,
-- no entry had the name of a job that was there, the daemon reported as many imported jobs as there
-- were entries, and the crontab read the same before, after the preview and after the import. What it gives is that crontab
-- with its entries commented out, in which a second import finds none.
pub crontab-Imported :
    (o : Origin) (s : Session) (t : String) (i : Bool)
    → crontab o s ≡ ImportEnding.replaced t i
    → Imported o s t
unfolding crontab confirm_import apply_import
crontab-Imported o s t i h =
    let a1 = demand-replaced (eqb s.extra_args 0) (ImportEnding.unchanged "usage") _ t i tt h in
    let a2 = demand-replaced (user_checks s) (ImportEnding.unchanged "--user") _ t i tt a1.1 in
    let a3 =
      demand-replaced (not s.remote)
        (ImportEnding.unchanged "crontab import requires a local daemon") _ t i tt a2.1 in
    let a4 =
      demand-replaced s.terminal
        (ImportEnding.unchanged "crontab import requires an interactive terminal") _ t i tt a3.1 in
    let a5 =
      demand-replaced (can_run_as s) (ImportEnding.unchanged "--user requires run-as support") _ t i
        tt a4.1 in
    let b =
      receive-replaced s.before (ImportEnding.unchanged "reading the crontab") _ t i tt a5.1 in
    let c =
      receive-replaced (parsed (parse_crontab o b.0))
        (ImportEnding.unchanged "unsupported crontab line") _ t i tt b.1.1 in
    let d =
      demand-replaced (some_entries c.0) (ImportEnding.unchanged "no active cron jobs to import") _
        t i tt c.1.1 in
    let e = receive-replaced s.jobs (ImportEnding.unchanged "listing the jobs") _ t i tt d.1 in
    let f =
      demand-replaced (not (conflicts e.0 c.0))
        (ImportEnding.unchanged "job already exists in minicrond") _ t i tt e.1.1 in
    let g = receive-replaced s.marshal (ImportEnding.unchanged "encoding the jobs") _ t i tt f.1 in
    let k = receive-replaced s.preview (ImportEnding.unchanged "preview failed") _ t i tt g.1.1 in
    let l = demand-replaced s.shown (ImportEnding.unchanged "output failed") _ t i tt k.1.1 in
    let m = receive-replaced s.confirmation (ImportEnding.unchanged "confirmation") _ t i tt l.1 in
    let n =
      demand-replaced (is_empty (trim_space m.0))
        (ImportEnding.unchanged "cancelled; crontab unchanged") _ t i tt m.1.1 in
    let p =
      receive-replaced s.previewed (ImportEnding.unchanged "reading the crontab") _ t i tt n.1 in
    let q =
      demand-replaced (p.0 == b.0)
        (ImportEnding.unchanged "crontab changed since preview; nothing imported") _ t i tt p.1.1 in
    let r = receive-replaced s.applied (ImportEnding.unchanged "import failed") _ t i tt q.1 in
    let u =
      demand-replaced (r.0 == length c.0)
        (ImportEnding.imported_only "unexpected number of jobs; crontab left unchanged") _ t i tt
        r.1.1 in
    let v =
      receive-replaced s.after (ImportEnding.imported_only "crontab could not be re-read") _ t i tt
        u.1 in
    let w =
      demand-replaced (v.0 == b.0) (ImportEnding.imported_only "crontab changed") _ t i tt v.1.1 in
    let x = sym (replaced-text (comment_crontab b.0 c.0) t s.installed i w.1) in
    let y = parsed-some (parse_crontab o b.0) c.0 c.1.0 in
    record {
      original = b.0;
      entries = c.0;
      read = y;
      before = b.1.0;
      previewed = p.1.0 ∙ ap some ((str_iff p.0 b.0).0 q.0);
      after = v.1.0 ∙ ap some ((str_iff v.0 b.0).0 w.0);
      confirmed = (m.0, (m.1.0, n.0));
      applied = r.1.0 ∙ ap some ((eqb_iff r.0 (length c.0)).0 u.0);
      jobs = (e.0, (e.1.0, ground (arith, f.0)));
      text = x;
      quiet = ap (parse_crontab o) x ∙ parse-comment_crontab o b.0 c.0 y;
    }
