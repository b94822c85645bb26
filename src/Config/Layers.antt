-- ===== src/Config/Layers.antt =====
-- internal/config/config.go: what each field of an imported definition comes from.
use minicrond.Prelude.{
  ◌≡◌, refl, ap, ◌∙◌, Bool, true, false, not, ◌&&◌, String, Option, none, some, List, [], ◌∷◌, ℤ,
  pos, inl, inr, if◌then◌else◌, Bool-cases, ◌==◌, string_eq,
}
use minicrond.Config.Values.{Zero, cmp_or, or_nil, is_zero, zero_int, zero_text}
use minicrond.Config.Definition.{
  Definition, DefinitionInput, resolve, input_explicit, or_field, given,
}
use minicrond.Config.Fill.{
  apply_definition_defaults, merge_definition_defaults, built_in, or_success,
}
use minicrond.Config.Validate.{fill_import}

-- The first value that is not zero, and the last resort where all are.
abbrev pub first_of : {A : Type 0} ⦃z : Zero A⦄ → A → List A → A
first_of last [] = last
first_of last (a ∷ more) = let rest = first_of last more in if is_zero a then rest else a

-- The first value that is present.
abbrev pub first_set : {A : Type 0} → List (Option A) → Option A
first_set [] = none
first_set (none ∷ os) = first_set os
first_set (some a ∷ os) = some a

-- No list of success codes, or an empty one, stands for 0 alone.
abbrev pub codes_of : Option (List ℤ) → Option (List ℤ)
codes_of none = some (pos 0 ∷ [])
codes_of (some []) = some (pos 0 ∷ [])
codes_of (some (c ∷ cs)) = some (c ∷ cs)

-- The layers that a field of one kind of definition has; the other kind has only what was written.
abbrev pub chosen : {A : Type 0} → Bool → A → A → A → List A
chosen true a b c = a ∷ b ∷ c ∷ []
chosen false a b c = a ∷ []

-- A field that may be spelled out, zero included.
abbrev pub spelled_or : Bool → Option ℤ → ℤ → ℤ → ℤ → ℤ
spelled_or w (some z) a b c = z
spelled_or true none a b c = first_of c (a ∷ b ∷ [])
spelled_or false none a b c = a

-- The definition that an import's entry x is filled up to, from the import's defaults b and then the
-- daemon's d.
abbrev pub inherited : String → Definition → Definition → DefinitionInput → Definition
inherited kind b d x =
    let i = x.definition in
    let is_job = kind == "job" in
    let is_worker = kind == "worker" in
    record i {
      kind = kind;
      run_as = first_of d.run_as (i.run_as ∷ b.run_as ∷ []);
      working_dir = first_of d.working_dir (i.working_dir ∷ b.working_dir ∷ []);
      env_file = first_of d.env_file (i.env_file ∷ b.env_file ∷ []);
      timezone = first_of d.timezone (i.timezone ∷ b.timezone ∷ []);
      keep_runs = first_of d.keep_runs (i.keep_runs ∷ b.keep_runs ∷ []);
      keep_for = first_of d.keep_for (i.keep_for ∷ b.keep_for ∷ []);
      log_max = first_of d.log_max (i.log_max ∷ b.log_max ∷ []);
      shell = first_of "/bin/sh" (i.shell ∷ b.shell ∷ d.shell ∷ []);
      catch_up = first_of "none" (i.catch_up ∷ b.catch_up ∷ d.catch_up ∷ []);
      on_overlap = first_of "skip" (i.on_overlap ∷ b.on_overlap ∷ d.on_overlap ∷ []);
      env_base = first_of "clean" (i.env_base ∷ b.env_base ∷ d.env_base ∷ []);
      grace = first_of (pos 10) (i.grace ∷ b.grace ∷ d.grace ∷ []);
      stop_signal = first_of "SIGTERM" (i.stop_signal ∷ b.stop_signal ∷ d.stop_signal ∷ []);
      log_on_full = first_of "drop_old" (i.log_on_full ∷ b.log_on_full ∷ d.log_on_full ∷ []);
      env = first_set (i.env ∷ b.env ∷ d.env ∷ []);
      secret_env = first_set (i.secret_env ∷ b.secret_env ∷ d.secret_env ∷ []);
      labels = first_set (i.labels ∷ b.labels ∷ d.labels ∷ []);
      alerts = first_set (i.alerts ∷ b.alerts ∷ d.alerts ∷ []);
      enabled = first_set (i.enabled ∷ b.enabled ∷ d.enabled ∷ []);
      success_codes =
          codes_of (first_set (i.success_codes ∷ b.success_codes ∷ d.success_codes ∷ []));
      restart = first_of "always" (chosen is_worker i.restart b.restart d.restart);
      restart_delay =
          first_of (pos 5) (chosen is_worker i.restart_delay b.restart_delay d.restart_delay);
      healthy_after =
          first_of (pos 30) (chosen is_worker i.healthy_after b.healthy_after d.healthy_after);
      max_restart_attempts =
          first_of (pos 5)
            (chosen is_worker i.max_restart_attempts b.max_restart_attempts d.max_restart_attempts);
      restart_backoff_max =
          if is_worker
          then first_of d.restart_backoff_max (i.restart_backoff_max ∷ b.restart_backoff_max ∷ [])
          else i.restart_backoff_max;
      autostart =
          if is_worker
          then first_set (i.autostart ∷ b.autostart ∷ d.autostart ∷ [])
          else i.autostart;
      on_history_unavailable =
          if is_job
          then first_of d.on_history_unavailable
              (i.on_history_unavailable ∷ b.on_history_unavailable ∷ [])
          else i.on_history_unavailable;
      retry_delay =
          if is_job
          then first_of (pos 5) (i.retry_delay ∷ b.retry_delay ∷ d.retry_delay ∷ [])
          else i.retry_delay;
      timeout = spelled_or true x.timeout i.timeout b.timeout d.timeout;
      retries = spelled_or is_job x.retries i.retries b.retries d.retries;
    }

or_three : {A : Type 0} ⦃z : Zero A⦄ (a b c : A) → cmp_or (cmp_or a b) c ≡ first_of c (a ∷ b ∷ [])
or_three a b c = elim (Bool-cases (is_zero a)) [ inl e ↦ rw e refl | inr e ↦ rw (e, e) refl ]

or_four :
    {A : Type 0} ⦃z : Zero A⦄ (a b c d : A)
    → cmp_or (cmp_or (cmp_or a b) c) d ≡ first_of d (a ∷ b ∷ c ∷ [])
or_four a b c d = elim (Bool-cases (is_zero a)) [
  | inl e ↦ rw e (or_three b c d)
  | inr e ↦ rw (e, e, e) refl
]

or_three_if :
    {A : Type 0} ⦃z : Zero A⦄ (w : Bool) (a b c : A)
    → (if w then cmp_or (if w then cmp_or a b else a) c else (if w then cmp_or a b else a))
      ≡ (if w then first_of c (a ∷ b ∷ []) else a)
or_three_if true a b c = or_three a b c
or_three_if false a b c = refl

or_four_if :
    {A : Type 0} ⦃z : Zero A⦄ (w : Bool) (a b c d : A)
    → cmp_or (if w then cmp_or (if w then cmp_or a b else a) c else (if w then cmp_or a b else a)) d
      ≡ first_of d (chosen w a b c)
or_four_if true a b c d = or_four a b c d
or_four_if false a b c d = refl

or_four_job :
    {A : Type 0} ⦃z : Zero A⦄ (w : Bool) (a b c d : A)
    → (let v =
          if w then cmp_or (if w then cmp_or a b else a) c else (if w then cmp_or a b else a) in
        if w then cmp_or v d else v)
      ≡ (if w then first_of d (a ∷ b ∷ c ∷ []) else a)
or_four_job true a b c d = or_four a b c d
or_four_job false a b c d = refl

set_three : {A : Type 0} (a b c : Option A) → or_nil (or_nil a b) c ≡ first_set (a ∷ b ∷ c ∷ [])
set_three none none none = refl
set_three none none (some c) = refl
set_three none (some b) c = refl
set_three (some a) b c = refl

set_three_if :
    {A : Type 0} (w : Bool) (a b c : Option A)
    → (if w then or_nil (if w then or_nil a b else a) c else (if w then or_nil a b else a))
      ≡ (if w then first_set (a ∷ b ∷ c ∷ []) else a)
set_three_if true a b c = set_three a b c
set_three_if false a b c = refl

or_success-codes_of : (o : Option (List ℤ)) → or_success o ≡ codes_of o
or_success-codes_of none = refl
or_success-codes_of (some []) = refl
or_success-codes_of (some (c ∷ cs)) = refl

spelled_three :
    (w : Bool) (o : Option ℤ) (a b c : ℤ)
    → (let v = or_field o a in
        let u = if w && not (given o) then cmp_or v b else v in
        if w && not (given o) then cmp_or u c else u)
      ≡ spelled_or w o a b c
spelled_three true none a b c = or_three a b c
spelled_three false none a b c = refl
spelled_three true (some z) a b c = refl
spelled_three false (some z) a b c = refl

-- An imported definition keeps what its entry says, and takes from the import's defaults, then the
-- daemon's and then the built-in ones what the entry leaves out, field by field: a text or a number
-- that is zero, a list or a switch that is absent, and a timeout or a number of retries only where it
-- is not spelled out. The settings of jobs are not inherited by workers, nor those of workers by jobs.
pub fill_import-inherited :
    (kind : String) (b d : Definition) (x : DefinitionInput)
    → fill_import kind b (some d) x ≡ inherited kind b d x
unfolding fill_import apply_definition_defaults merge_definition_defaults built_in resolve
    input_explicit
fill_import-inherited kind b d x =
    let i = x.definition in
    let is_job = kind == "job" in
    let is_worker = kind == "worker" in
    λ j. record i {
      kind = kind;
      run_as = or_three i.run_as b.run_as d.run_as j;
      working_dir = or_three i.working_dir b.working_dir d.working_dir j;
      env_file = or_three i.env_file b.env_file d.env_file j;
      timezone = or_three i.timezone b.timezone d.timezone j;
      keep_runs = or_three i.keep_runs b.keep_runs d.keep_runs j;
      keep_for = or_three i.keep_for b.keep_for d.keep_for j;
      log_max = or_three i.log_max b.log_max d.log_max j;
      shell = or_four i.shell b.shell d.shell "/bin/sh" j;
      catch_up = or_four i.catch_up b.catch_up d.catch_up "none" j;
      on_overlap = or_four i.on_overlap b.on_overlap d.on_overlap "skip" j;
      env_base = or_four i.env_base b.env_base d.env_base "clean" j;
      grace = or_four i.grace b.grace d.grace (pos 10) j;
      stop_signal = or_four i.stop_signal b.stop_signal d.stop_signal "SIGTERM" j;
      log_on_full = or_four i.log_on_full b.log_on_full d.log_on_full "drop_old" j;
      env = set_three i.env b.env d.env j;
      secret_env = set_three i.secret_env b.secret_env d.secret_env j;
      labels = set_three i.labels b.labels d.labels j;
      alerts = set_three i.alerts b.alerts d.alerts j;
      enabled = set_three i.enabled b.enabled d.enabled j;
      success_codes =
          (ap or_success (set_three i.success_codes b.success_codes d.success_codes)
              ∙ or_success-codes_of _)
            j;
      restart = or_four_if is_worker i.restart b.restart d.restart "always" j;
      restart_delay =
          or_four_if is_worker i.restart_delay b.restart_delay d.restart_delay (pos 5) j;
      healthy_after =
          or_four_if is_worker i.healthy_after b.healthy_after d.healthy_after (pos 30) j;
      max_restart_attempts =
          or_four_if is_worker i.max_restart_attempts b.max_restart_attempts d.max_restart_attempts
            (pos 5) j;
      restart_backoff_max =
          or_three_if is_worker i.restart_backoff_max b.restart_backoff_max d.restart_backoff_max j;
      autostart = set_three_if is_worker i.autostart b.autostart d.autostart j;
      on_history_unavailable =
          or_three_if is_job i.on_history_unavailable b.on_history_unavailable
            d.on_history_unavailable j;
      retry_delay = or_four_job is_job i.retry_delay b.retry_delay d.retry_delay (pos 5) j;
      timeout = spelled_three true x.timeout i.timeout b.timeout d.timeout j;
      retries = spelled_three is_job x.retries i.retries b.retries d.retries j;
    }
