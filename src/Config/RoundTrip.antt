-- ===== src/Config/RoundTrip.antt =====
-- internal/config/config.go: `EditableInput` and the JSON that clients send back.
use minicrond.Prelude.{
  ◌≡◌, refl, sym, ap, subst, ◌∙◌, true, false, ◌||◌, String, Option, none, some, [], ◌∷◌, pos, inl,
  inr, arith, string_eq,
}
use minicrond.Config.Values.{cmp_or, or_nil, zero_int, zero_text}
use minicrond.Config.Definition.{
  Definition, DefinitionInput, Explicit, resolve, input_explicit, editable_input, first_defaults,
  in_json, omitted, job_kind, worker_kind,
}
use minicrond.Config.Fill.{apply_definition_defaults, merge_definition_defaults, built_in}
use minicrond.Config.Check.{Host, first_problem, definition_rules}
use minicrond.Config.Validate.{
  validate_definition_input, validate_definition, validate_definitions, check_definition, with_zone,
  filled_kind, answer, Checked, chain, only,
}
use minicrond.Config.Rules.{
  first_problem-none, or_same, or_skip, or_again, or_again_if, or_retry, or_same_if, or_nil_same,
  or_nil_same_if, or_success_again, zero_int-pos, or_spelled, or_spelled_if,
}

-- The definition that filling and checking give.
abbrev settled : Definition → Definition → Explicit → Definition
settled d base ex = with_zone "UTC" (apply_definition_defaults (filled_kind d) base ex)

-- Filled from the same defaults, the definition that the client sends back is the one it was given.
fill-again :
    (x : Definition) (defaults : Option Definition) (ex : Explicit)
    → (job_kind (filled_kind x) ≡ false → (settled x (first_defaults defaults) ex).retries ≡ pos 0)
    → (let d = settled x (first_defaults defaults) ex in
        let i = editable_input d defaults in
        apply_definition_defaults (resolve i) (first_defaults defaults) (input_explicit i))
      ≡ settled x (first_defaults defaults) ex
unfolding apply_definition_defaults merge_definition_defaults built_in resolve input_explicit
    editable_input
fill-again x defaults ex h =
    let b = first_defaults defaults in
    let d = settled x b ex in
    let is_job = job_kind (filled_kind x) in
    let is_worker = worker_kind (filled_kind x) in
    λ j. record d {
      shell = or_again x.shell b.shell "/bin/sh" refl j;
      catch_up = or_again x.catch_up b.catch_up "none" refl j;
      on_overlap = or_again x.on_overlap b.on_overlap "skip" refl j;
      timezone = or_skip x.timezone b.timezone "UTC" refl j;
      env_base = or_again x.env_base b.env_base "clean" refl j;
      grace = or_again x.grace b.grace (pos 10) refl j;
      stop_signal = or_again x.stop_signal b.stop_signal "SIGTERM" refl j;
      log_on_full = or_again x.log_on_full b.log_on_full "drop_old" refl j;
      run_as = or_same x.run_as b.run_as j;
      working_dir = or_same x.working_dir b.working_dir j;
      env_file = or_same x.env_file b.env_file j;
      keep_runs = or_same x.keep_runs b.keep_runs j;
      keep_for = or_same x.keep_for b.keep_for j;
      log_max = or_same x.log_max b.log_max j;
      env = or_nil_same x.env b.env j;
      secret_env = or_nil_same x.secret_env b.secret_env j;
      labels = or_nil_same x.labels b.labels j;
      alerts = or_nil_same x.alerts b.alerts j;
      enabled = or_nil_same x.enabled b.enabled j;
      retry_delay = or_retry is_job x.retry_delay b.retry_delay (pos 5) refl j;
      on_history_unavailable =
          or_same_if is_job x.on_history_unavailable b.on_history_unavailable j;
      autostart = or_nil_same_if is_worker x.autostart b.autostart j;
      restart = or_again_if is_worker x.restart b.restart "always" refl j;
      restart_delay = or_again_if is_worker x.restart_delay b.restart_delay (pos 5) refl j;
      healthy_after = or_again_if is_worker x.healthy_after b.healthy_after (pos 30) refl j;
      max_restart_attempts =
          or_again_if is_worker x.max_restart_attempts b.max_restart_attempts (pos 5) refl j;
      restart_backoff_max = or_same_if is_worker x.restart_backoff_max b.restart_backoff_max j;
      success_codes = or_success_again (or_nil x.success_codes b.success_codes) b.success_codes j;
      timeout = or_spelled d.timeout b.timeout j;
      retries = or_spelled_if is_job d.retries b.retries h j;
    }

one_checked :
    (c : Checked Definition) (f : Definition)
    → chain (elim c [ inl m ↦ inl m | inr e ↦ chain (inr []) (λ es. e ∷ es) ]) (λ ds. only ds f) ≡ c
one_checked (inl m) f = refl
one_checked (inr e) f = refl

validate_definition_lem :
    (o : Host) (x : Definition) (ex : Explicit) (defaults : Option Definition)
    → validate_definition o x ex defaults
      ≡ check_definition o "UTC" []
          (apply_definition_defaults (filled_kind x) (first_defaults defaults) ex)
unfolding validate_definition validate_definitions
validate_definition_lem o x ex defaults =
    let f = apply_definition_defaults (filled_kind x) (first_defaults defaults) ex in
    one_checked (check_definition o "UTC" [] f) f

pub answer-inr :
    {A : Type 0} (p : Option String) (a b : A) → answer p a ≡ inr b → (p ≡ none) × (a ≡ b)
answer-inr none a b h = (refl, ground (arith, h))
answer-inr (some m) a b h = absurd (ground (arith, h))

-- A filled time zone stays.
rules-with_zone :
    (o : Host) (d : Definition)
    → definition_rules o "UTC" [] (with_zone "UTC" d) ≡ definition_rules o "UTC" [] d
unfolding definition_rules
rules-with_zone o d = rw (or_same d.timezone "UTC") refl

no_retries :
    (o : Host) (d : Definition)
    → first_problem (definition_rules o "UTC" [] d) ≡ none
    → (job_kind d || worker_kind d) ≡ true
    → job_kind d ≡ false
    → d.retries ≡ pos 0
unfolding definition_rules
no_retries o d h k j =
    zero_int-pos d.retries
      (ground (arith, first_problem-none 15 (definition_rules o "UTC" [] d) h, k, j))

accepted :
    (o : Host) (i : DefinitionInput) (defaults : Option Definition) (d : Definition)
    → apply_definition_defaults
        (filled_kind (resolve i))
        (first_defaults defaults)
        (input_explicit i)
      ≡ d
    → first_problem (definition_rules o "UTC" [] d) ≡ none
    → with_zone "UTC" d ≡ d
    → validate_definition_input o i defaults ≡ inr d
unfolding validate_definition_input check_definition
accepted o i defaults d e h z =
    validate_definition_lem o (resolve i) (input_explicit i) defaults
    ∙ ap (check_definition o "UTC" []) e
    ∙ rw h (ap inr z)

sent_kind :
    (x : Definition) (d : Definition) (defaults : Option Definition)
    → d.kind ≡ cmp_or x.kind "job"
    → filled_kind (resolve (editable_input d defaults)) ≡ resolve (editable_input d defaults)
unfolding resolve editable_input
sent_kind x d defaults e =
    let r = resolve (editable_input d defaults) in
    λ j. record r { kind = (ap (λ t. cmp_or t "job") e ∙ or_same x.kind "job" ∙ sym e) j }

settled_kind :
    (x base : Definition) (ex : Explicit) → (settled x base ex).kind ≡ cmp_or x.kind "job"
unfolding apply_definition_defaults merge_definition_defaults built_in
settled_kind x base ex = refl

checked_again :
    (o : Host) (x : Definition) (defaults : Option Definition) (ex : Explicit)
    → (let f = apply_definition_defaults (filled_kind x) (first_defaults defaults) ex in
        first_problem (definition_rules o "UTC" [] f) ≡ none)
    → (let d = settled x (first_defaults defaults) ex in (job_kind d || worker_kind d) ≡ true)
    → (let d = settled x (first_defaults defaults) ex in
        validate_definition_input o (editable_input d defaults) defaults ≡ inr d)
unfolding apply_definition_defaults merge_definition_defaults built_in
checked_again o x defaults ex h k =
    let b = first_defaults defaults in
    let d = settled x b ex in
    let f = apply_definition_defaults (filled_kind x) b ex in
    let passed : first_problem (definition_rules o "UTC" [] d) ≡ none =
      ap first_problem (rules-with_zone o f) ∙ h in
    let i = editable_input d defaults in
    accepted o i defaults d
      (ap (λ r. apply_definition_defaults r b (input_explicit i)) (sent_kind x d defaults refl)
        ∙ fill-again x defaults ex (no_retries o d passed k))
      passed (λ j. record d { timezone = or_same f.timezone "UTC" j })

-- A job or worker that validation has accepted under some defaults, in which no map and no list is
-- empty but present, is accepted again, unchanged, when a client sends back as JSON the form it was
-- given under the same defaults.
pub validate-editable :
    (o : Host) (i : DefinitionInput) (defaults : Option Definition) (d : Definition)
    → validate_definition_input o i defaults ≡ inr d
    → (job_kind d || worker_kind d) ≡ true
    → omitted d ≡ d
    → validate_definition_input o (in_json (editable_input d defaults)) defaults ≡ inr d
unfolding validate_definition_input check_definition editable_input
validate-editable o i defaults d h k w =
    let x = resolve i in
    let ex = input_explicit i in
    let f = apply_definition_defaults (filled_kind x) (first_defaults defaults) ex in
    let checked =
      answer-inr (first_problem (definition_rules o "UTC" [] f)) (with_zone "UTC" f) d
        (sym (validate_definition_lem o x ex defaults) ∙ h) in
    let sent =
      subst
        (λ e.
          (job_kind e || worker_kind e) ≡ true
          → validate_definition_input o (editable_input e defaults) defaults ≡ inr e)
        checked.1 (checked_again o x defaults ex checked.0) k in
    ap (λ s. validate_definition_input o s defaults)
      (λ j. record (editable_input d defaults) {
        definition = record (w j) { timeout = pos 0; retries = pos 0 };
      })
    ∙ sent
