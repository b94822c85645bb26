-- ===== src/Config/Valid.antt =====
-- internal/config/config.go: what `validateDefinitions` ensures of the definitions it lets through.
use minicrond.Prelude.{
  ℕ, ◌≤◌, ◌≡◌, refl, sym, subst, String, Bool, true, false, not, ◌&&◌, ◌||◌, inl, inr, none, List,
  [], ◌∷◌, ℤ, pos, negsuc, arith, has, All, ◌==◌, string_eq, map,
}
use minicrond.Config.Values.{
  lower_than, above, less, is_zero, zero_int, zero_text, name_pattern, second_ns, day_ns, too_long,
}
use minicrond.Config.Definition.{Definition, Texts, job_kind, worker_kind}
use minicrond.Config.Check.{
  no_rows, rows, bad_schedule, valid_signal, valid_secret_ref, bad_run_as, Host, first_problem,
  definition_rules,
}
use minicrond.Config.Validate.{check_definition, validate_definitions, with_zone, Checked, chain}
use minicrond.Config.Rules.{rule_at, first_problem-none, zero_int-pos}
use minicrond.Config.RoundTrip.{answer-inr}

-- A number that is not negative, between two bounds.
abbrev pub Within : ℕ → ℕ → ℤ → Type 0
Within lo hi z = (v : ℕ) × ((z ≡ pos v) × ((lo ≤ v) × (v ≤ hi)))

pub lower_than-above-Within :
    (lo hi : ℕ) (z : ℤ) → (lower_than z lo || above z hi) ≡ false → Within lo hi z
lower_than-above-Within lo hi (pos a) h = (a, (refl, (ground (arith, h), ground (arith, h))))
lower_than-above-Within lo hi (negsuc a) h = absurd (ground (arith, h))

-- A definition that the daemon runs.
pub record Valid (o : Host) (d : Definition) : Type 0 where
  pub named : name_pattern d.name ≡ true
  -- in seconds: in nanoseconds each fits `int64`
  pub timeout : Within 0 9223372036 d.timeout
  pub grace : Within 1 9223372036 d.grace
  pub restart_delay : Within 1 9223372036 d.restart_delay
  pub healthy_after : Within 1 9223372036 d.healthy_after
  pub retries : Within 0 1000 d.retries
  pub retry_delay : job_kind d ≡ true → Within 1 86400 d.retry_delay
  pub worker_retries : worker_kind d ≡ true → d.retries ≡ pos 0
  pub worker_schedule : worker_kind d ≡ true → is_zero d.schedule ≡ true
  pub max_restart_attempts : Within 1 1000 d.max_restart_attempts
  pub backoff :
      (is_zero d.restart_backoff_max || not (less d.restart_backoff_max d.restart_delay)) ≡ true
  pub backoff_max :
      (is_zero d.restart_backoff_max || not (above d.restart_backoff_max 86400)) ≡ true
  -- in days
  pub keep_for : Within 0 106751 d.keep_for
  pub timezone : o.load_location d.timezone ≡ true
  pub catch_up : (d.catch_up == "none" || d.catch_up == "latest") ≡ true
  -- exactly one of the two
  pub command : is_zero d.command ≡ not (no_rows d.argv)
  pub env_base : (d.env_base == "clean" || d.env_base == "inherit") ≡ true
  pub restart : (d.restart == "always" || d.restart == "on-failure" || d.restart == "never") ≡ true
  pub worker_retry_delay : worker_kind d ≡ true → is_zero d.retry_delay ≡ true
  pub success_codes : All (Within 0 255) (rows d.success_codes)
  pub keep_runs : lower_than d.keep_runs 0 ≡ false
  pub priority : is_zero d.priority ≡ true
  pub run_on_start :
      d.run_on_start ≡ true → (d.source == "config" && job_kind d && is_zero d.schedule) ≡ true
  pub schedule : job_kind d ≡ true → is_zero d.schedule ≡ false → bad_schedule o d.schedule ≡ false
  pub worker_history : worker_kind d ≡ true → is_zero d.on_history_unavailable ≡ true
  pub on_history_unavailable :
      (is_zero d.on_history_unavailable
        || d.on_history_unavailable == "run"
        || d.on_history_unavailable == "skip")
      ≡ true
  pub log_on_full : (d.log_on_full == "drop_old" || d.log_on_full == "drop_new") ≡ true
  pub stop_signal : valid_signal d.stop_signal ≡ true
  pub log_max : Within 0 1048576 d.log_max
  pub env_file : (is_zero d.env_file || o.is_abs d.env_file) ≡ true
  pub secret_env :
      All (λ e. (not (is_zero e.0) && valid_secret_ref o e.1) ≡ true) (rows d.secret_env)
  pub run_as : bad_run_as o d.run_as ≡ false
  pub on_overlap : (d.on_overlap == "skip" || d.on_overlap == "parallel") ≡ true

seconds-Within :
    (z : ℤ)
    → (lower_than z 0 || (not false && is_zero z)) ≡ false
    → too_long z second_ns ≡ false
    → Within 1 9223372036 z
unfolding too_long
seconds-Within (pos a) h k = (a, (refl, (ground (arith, h), ground (arith, k))))
seconds-Within (negsuc a) h k = absurd (ground (arith, h))

timeout-Within :
    (z : ℤ)
    → (lower_than z 0 || (not true && is_zero z)) ≡ false
    → too_long z second_ns ≡ false
    → Within 0 9223372036 z
unfolding too_long
timeout-Within (pos a) h k = (a, (refl, (ground arith, ground (arith, k))))
timeout-Within (negsuc a) h k = absurd (ground (arith, h))

pub days-Within : (z : ℤ) → lower_than z 0 ≡ false → too_long z day_ns ≡ false → Within 0 106751 z
unfolding too_long
days-Within (pos a) h k = (a, (refl, (ground arith, ground (arith, k))))
days-Within (negsuc a) h k = absurd (ground (arith, h))

codes-Within :
    (cs : List ℤ) → has (λ c. lower_than c 0 || above c 255) cs ≡ false → All (Within 0 255) cs
codes-Within [] h = tt
codes-Within (c ∷ cs) h =
    (lower_than-above-Within 0 255 c (ground (arith, h)), codes-Within cs (ground (arith, h)))

secrets-All :
    (o : Host) (es : Texts)
    → has (λ e. is_zero e.0 || not (valid_secret_ref o e.1)) es ≡ false
    → All (λ e. (not (is_zero e.0) && valid_secret_ref o e.1) ≡ true) es
secrets-All o [] h = tt
secrets-All o (e ∷ es) h = (ground (arith, h), secrets-All o es (ground (arith, h)))

both_bounds :
    (zero low high : Bool)
    → (not zero && (low || high)) ≡ false
    → ((zero || not low) ≡ true) × ((zero || not high) ≡ true)
both_bounds zero low high h = (ground (arith, h), ground (arith, h))

not-false : (b : Bool) → not b ≡ false → b ≡ true
not-false b h = ground (arith, h)

definition_rules-Valid :
    (o : Host) (zone : String) (seen : List String) (d : Definition)
    → first_problem (definition_rules o zone seen d) ≡ none
    → Valid o (with_zone zone d)
unfolding definition_rules
definition_rules-Valid o zone seen d h =
    let passed : (n : ℕ) → (rule_at n (definition_rules o zone seen d)).0 ≡ false =
      λ n. first_problem-none n (definition_rules o zone seen d) h in
    record {
      named = ground (arith, passed 0);
      timeout = timeout-Within d.timeout (passed 3) (passed 4);
      grace = seconds-Within d.grace (passed 5) (passed 6);
      restart_delay = seconds-Within d.restart_delay (passed 7) (passed 8);
      healthy_after = seconds-Within d.healthy_after (passed 9) (passed 10);
      retries = lower_than-above-Within 0 1000 d.retries (passed 13);
      retry_delay =
          λ j. lower_than-above-Within 1 86400 d.retry_delay (ground (arith, passed 14, j));
      worker_retries = λ w. zero_int-pos d.retries (ground (arith, passed 15, w));
      worker_schedule = λ w. ground (arith, passed 36, w);
      max_restart_attempts = lower_than-above-Within 1 1000 d.max_restart_attempts (passed 17);
      backoff = (both_bounds _ _ _ (passed 18)).0;
      keep_for = days-Within d.keep_for (passed 31) (passed 32);
      timezone = ground (arith, passed 24);
      catch_up = ground (arith, passed 25);
      backoff_max = (both_bounds _ _ _ (passed 18)).1;
      command = ground (arith, passed 2);
      env_base = ground (arith, passed 11);
      restart = ground (arith, passed 12);
      worker_retry_delay = λ w. ground (arith, passed 16, w);
      success_codes = codes-Within (rows d.success_codes) (passed 19);
      keep_runs = passed 20;
      priority = ground (arith, passed 21);
      run_on_start = λ r. ground (arith, passed 22, r);
      schedule = λ j z. ground (arith, passed 23, j, z);
      worker_history = λ w. ground (arith, passed 27, w);
      on_history_unavailable = ground (arith, passed 28);
      log_on_full = ground (arith, passed 29);
      stop_signal = not-false _ (passed 30);
      log_max = lower_than-above-Within 0 1048576 d.log_max (passed 33);
      env_file = ground (arith, passed 34);
      secret_env = secrets-All o (rows d.secret_env) (passed 35);
      run_as = passed 37;
      on_overlap = ground (arith, passed 26);
    }

pub check_definition-Valid :
    (o : Host) (zone : String) (seen : List String) (d e : Definition)
    → check_definition o zone seen d ≡ inr e
    → (first_problem (definition_rules o zone seen d) ≡ none) × (with_zone zone d ≡ e)
unfolding check_definition
check_definition-Valid o zone seen d e h =
    answer-inr (first_problem (definition_rules o zone seen d)) (with_zone zone d) e h

-- The names are fresh and pairwise different.
abbrev pub Distinct : List String → List Definition → Type 0
Distinct seen [] = Unit
Distinct seen (d ∷ ds) = (has (◌==◌ d.name) seen ≡ false) × Distinct (d.name ∷ seen) ds

-- What the loop gives: the definitions with their zones, each valid, with different names.
abbrev pub Accepted : Host → String → List String → List Definition → List Definition → Type 0
Accepted o zone seen ds es = (es ≡ map (with_zone zone) ds) × (All (Valid o) es × Distinct seen es)

pub inr-same : {A : Type 0} (a b : A) → (◌≡◌ {A = Checked A} (inr a) (inr b)) → a ≡ b
inr-same a b e = ground (arith, e)

fresh_name :
    (o : Host) (zone : String) (seen : List String) (d : Definition)
    → first_problem (definition_rules o zone seen d) ≡ none
    → has (◌==◌ d.name) seen ≡ false
unfolding definition_rules
fresh_name o zone seen d h = first_problem-none 1 (definition_rules o zone seen d) h

accept-cons :
    (o : Host) (zone : String) (seen : List String) (d : Definition) (ds : List Definition)
    → (c : Checked Definition) → (r : Checked (List Definition))
    → (check_definition o zone seen d ≡ c)
    → ((es : List Definition) → r ≡ inr es → Accepted o zone (d.name ∷ seen) ds es)
    → (es : List Definition) → elim c [ inl m ↦ inl m | inr e ↦ chain r (λ es. e ∷ es) ] ≡ inr es
    → Accepted o zone seen (d ∷ ds) es
accept-cons o zone seen d ds (inl m) r h k es e = absurd (ground (arith, e))
accept-cons o zone seen d ds (inr f) (inl m) h k es e = absurd (ground (arith, e))
accept-cons o zone seen d ds (inr f) (inr fs) h k es e =
    let c = check_definition-Valid o zone seen d f h in
    let rest = k fs refl in
    let valid = subst (Valid o) c.1 (definition_rules-Valid o zone seen d c.0) in
    let distinct =
      subst (λ g. Distinct seen (g ∷ fs)) c.1 (fresh_name o zone seen d c.0, rest.1.1) in
    subst (Accepted o zone seen (d ∷ ds)) (inr-same (f ∷ fs) es e)
      ((λ j. sym c.1 j ∷ rest.0 j), ((valid, rest.1.0), distinct))

-- Definitions that `validateDefinitions` lets through come back in their order, changed only in an empty
-- time zone, which becomes the scheduler's. Each passes every test of the source: its name fits the
-- pattern, it has a command or arguments but not both, its durations are in range and fit `int64`
-- nanoseconds, its counts, codes, sizes and choices are in range, its schedule, time zone, signal, file,
-- secrets and user are ones that the host accepts, and a worker has no retries, no schedule and no
-- history policy. No two have one name, nor one of those seen before.
pub validate_definitions-Accepted :
    (o : Host) (zone : String) (seen : List String) (ds es : List Definition)
    → validate_definitions o zone seen ds ≡ inr es
    → Accepted o zone seen ds es
unfolding validate_definitions
validate_definitions-Accepted o zone seen [] es h = ground (arith, h)
validate_definitions-Accepted o zone seen (d ∷ ds) es h =
    accept-cons o zone seen d ds (check_definition o zone seen d)
      (validate_definitions o zone (d.name ∷ seen) ds) refl
      (validate_definitions-Accepted o zone (d.name ∷ seen) ds) es h
