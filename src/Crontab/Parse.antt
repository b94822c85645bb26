-- ===== src/Crontab/Parse.antt =====
-- cmd/minicrond/crontab.go: `parseCrontab` and `commentCrontab`. The job's name, from a SHA-256 digest of
-- its line, and the local time zone are parameters.
use minicrond.Prelude.{
  ℕ, zero, suc, ◌-◌, String, ◌||◌, ◌⊎◌, inl, inr, Option, none, some, List, [], ◌∷◌, if◌then◌else◌,
  ◌==◌, string_eq, length, take, ltb,
}
use minicrond.Crontab.Text.{
  append, is_empty, trim_space, split, split_after, concat, trim_newline, fields, after_field, join,
  begins_with, contains, unquote, assignment,
}

-- What the host gives: `"crontab-" + hex(sha256(line:raw)[:8])` and `time.Local`.
pub record Origin : Type 0 where
  pub job_name : ℕ → String → String
  pub local_zone : String

abbrev pub Env : Type 0
Env = List (String × String)

-- The fields of the job that an entry sets; the user of the flag, the same for all, is left out.
pub record CronJob : Type 0 where
  pub name : String
  pub schedule : String
  pub command : String
  pub shell : String
  pub timezone : String
  pub env : Env

-- `cronEntry`.
pub record CronEntry : Type 0 where
  pub line : ℕ
  pub text : String
  pub job : CronJob

-- `env[k] = v`.
abbrev pub set_env : String → String → Env → Env
set_env k v [] = (k, v) ∷ []
set_env k v (e ∷ es) = let rest = set_env k v es in if e.0 == k then (k, v) ∷ es else e ∷ rest

-- What one line is.
pub data Line : Type 0 where
  passed : Line
  shell : String → Line
  variable : String → String → Line
  entry : String → String → Line
  refused : String → Line

abbrev variable_line : String × String → Line
variable_line m =
    let value = unquote m.1 in
    if m.0 == "CRON_TZ" || m.0 == "TZ"
    then Line.refused "timezone variables need manual migration"
    else if m.0 == "SHELL"
    then (if begins_with 47 value
        then Line.shell value
        else Line.refused "SHELL must be an absolute path")
    else Line.variable m.0 value

-- `strings.Contains(command, "%")`.
abbrev command_line : String → String → Line
command_line schedule command =
    if contains 37 command
    then Line.refused "% stdin syntax is not supported"
    else Line.entry schedule command

abbrev first_field : List String → String
first_field [] = ""
first_field (w ∷ ws) = w

abbrev directive_line : String → Line
directive_line line =
    let parts = fields line in
    if ltb (length parts) 2 || first_field parts == "@reboot"
    then Line.refused "unsupported cron directive"
    else command_line (first_field parts) (trim_space (after_field line))

-- `for range 5`: the text behind five fields.
abbrev behind : ℕ → String → String
behind zero rest = rest
behind (suc n) rest = behind n (after_field (trim_space rest))

abbrev field_line : String → Line
field_line line =
    let parts = fields line in
    if ltb (length parts) 6
    then Line.refused "expected five fields and a command"
    else command_line (join (take 5 parts)) (trim_space (behind 5 line))

abbrev pub schedule_line : String → Option (String × String) → Line
schedule_line line (some m) = variable_line m
schedule_line line none = if begins_with 64 line then directive_line line else field_line line

-- One turn of the loop of `parseCrontab`, up to what it stores.
unfoldable pub read_line : String → Line
read_line raw =
    let line = trim_space raw in
    if is_empty line || begins_with 35 line
    then Line.passed
    else schedule_line line (assignment line)

abbrev pub with_entry : CronEntry → String ⊎ List CronEntry → String ⊎ List CronEntry
with_entry e (inl m) = inl m
with_entry e (inr es) = inr (e ∷ es)

abbrev pub new_entry : Origin → Env → String → ℕ → String → String → String → CronEntry
new_entry o env sh i raw schedule command = record {
  line = suc i;
  text = raw;
  job = record {
    name = o.job_name (suc i) raw;
    schedule = schedule;
    command = command;
    shell = sh;
    timezone = o.local_zone;
    env = env;
  };
}

-- What the loop does with a line, given how it goes on under an environment and a shell.
abbrev pub take_line :
    Origin
    → Env
    → String
    → ℕ
    → String
    → Line
    → (Env → String → String ⊎ List CronEntry)
    → String ⊎ List CronEntry
take_line o env sh i raw Line.passed go = go env sh
take_line o env sh i raw (Line.shell s) go = go env s
take_line o env sh i raw (Line.variable k v) go = go (set_env k v env) sh
take_line o env sh i raw (Line.entry schedule command) go =
    with_entry (new_entry o env sh i raw schedule command) (go env sh)
take_line o env sh i raw (Line.refused m) go = inl m

-- The loop of `parseCrontab`, from the line index i on.
unfoldable pub parse_lines : Origin → Env → String → ℕ → List String → String ⊎ List CronEntry
parse_lines o env sh i [] = inr []
parse_lines o env sh i (raw ∷ ws) =
    take_line o env sh i raw (read_line raw) (λ e s. parse_lines o e s (suc i) ws)

-- `parseCrontab`.
unfoldable pub parse_crontab : Origin → String → String ⊎ List CronEntry
parse_crontab o content = parse_lines o [] "/bin/sh" 0 (split (trim_newline content))

-- `append([]byte("# minicrond imported: "), line...)`.
abbrev pub imported : String → String
imported w = append "# minicrond imported: " w

-- `lines[n] = imported(lines[n])`.
unfoldable pub comment_line : ℕ → List String → List String
comment_line n [] = []
comment_line zero (w ∷ ws) = imported w ∷ ws
comment_line (suc n) (w ∷ ws) = w ∷ comment_line n ws

-- The loop of `commentCrontab`, on lines of which the first b are already behind.
unfoldable pub comment_lines : ℕ → List String → List CronEntry → List String
comment_lines b ws [] = ws
comment_lines b ws (e ∷ es) = comment_lines b (comment_line (e.line - 1 - b) ws) es

-- `commentCrontab`.
unfoldable pub comment_crontab : String → List CronEntry → String
comment_crontab original entries = concat (comment_lines 0 (split_after original) entries)
