-- ===== src/Config/Sections.antt =====
-- internal/config/config.go: the three sections of definitions, and what the loops of `Load` make of them.
use minicrond.Prelude.{
  ℕ, suc, ◌≡◌, refl, subst, String, true, false, not, inl, inr, List, [], ◌∷◌, pos, arith, All, map,
  string_eq,
}
use minicrond.Config.Values.{is_zero, zero_int, zero_text}
use minicrond.Config.Definition.{Definition, Explicit}
use minicrond.Config.Fill.{apply_definition_defaults, merge_definition_defaults, built_in}
use minicrond.Config.Check.{first_problem, Rule}
use minicrond.Config.Validate.{Checked, chain, with_zone}
use minicrond.Config.Load.{load_all, load_init, load_job, load_worker, presence_at}
use minicrond.Config.Rules.{first_problem-none}
use minicrond.Config.RoundTrip.{answer-inr}
use minicrond.Config.Valid.{inr-same}

-- The definitions of the three sections.
pub record InitDefinition (d : Definition) : Type 0 where
  pub kind : d.kind ≡ "job"
  pub source : d.source ≡ "config"
  pub run_on_start : d.run_on_start ≡ true
  pub schedule : is_zero d.schedule ≡ true
  pub retries : d.retries ≡ pos 0

pub record JobDefinition (d : Definition) : Type 0 where
  pub kind : d.kind ≡ "job"
  pub source : d.source ≡ "config"
  pub run_on_start : d.run_on_start ≡ false
  pub schedule : is_zero d.schedule ≡ false

pub record WorkerDefinition (d : Definition) : Type 0 where
  pub kind : d.kind ≡ "worker"
  pub source : d.source ≡ "config"

pub load_init-InitDefinition :
    (defaults : Definition) (ex : Explicit) (d e : Definition)
    → load_init defaults ex d ≡ inr e
    → InitDefinition e
unfolding load_init apply_definition_defaults merge_definition_defaults built_in
load_init-InitDefinition defaults ex d e h =
    let rs : List Rule =
      (not (is_zero d.schedule), "init cannot have schedule")
      ∷ (not (is_zero d.retries), "init cannot have retries")
      ∷ [] in
    let s = answer-inr (first_problem rs) _ e h in
    subst InitDefinition s.1 (record {
      kind = refl;
      source = refl;
      run_on_start = refl;
      schedule = ground (arith, first_problem-none 0 rs s.0);
      retries = refl;
    })

pub load_job-JobDefinition :
    (defaults : Definition) (ex : Explicit) (d e : Definition)
    → load_job defaults ex d ≡ inr e
    → JobDefinition e
unfolding load_job apply_definition_defaults merge_definition_defaults built_in
load_job-JobDefinition defaults ex d e h =
    let rs : List Rule =
      (d.run_on_start, "job: use [[init]] for startup tasks")
      ∷ (is_zero d.schedule, "job: schedule is required for config-owned jobs")
      ∷ [] in
    let s = answer-inr (first_problem rs) _ e h in
    subst JobDefinition s.1 (record {
      kind = refl;
      source = refl;
      run_on_start = first_problem-none 0 rs s.0;
      schedule = first_problem-none 1 rs s.0;
    })

pub load_worker-WorkerDefinition :
    (defaults : Definition) (ex : Explicit) (d e : Definition)
    → load_worker defaults ex d ≡ inr e
    → WorkerDefinition e
unfolding load_worker apply_definition_defaults merge_definition_defaults built_in
load_worker-WorkerDefinition defaults ex d e h =
    subst WorkerDefinition (inr-same _ e h) (record { kind = refl; source = refl })

-- A loop whose every turn gives P.
module _ (P : Definition → Type 0) (f : Explicit → Definition → Checked Definition) where
  chain-All :
      (c : Checked Definition) (r : Checked (List Definition))
      → ((e : Definition) → c ≡ inr e → P e)
      → ((es : List Definition) → r ≡ inr es → All P es)
      → (es : List Definition) → elim c [ inl m ↦ inl m | inr e ↦ chain r (λ es. e ∷ es) ] ≡ inr es
      → All P es
  chain-All (inl m) r h k es e = absurd (ground (arith, e))
  chain-All (inr d) (inl m) h k es e = absurd (ground (arith, e))
  chain-All (inr d) (inr ds) h k es e = subst (All P) (inr-same (d ∷ ds) es e) (h d refl, k ds refl)

  pub load_all-All :
      ((ex : Explicit) (d e : Definition) → f ex d ≡ inr e → P e)
      → (present : List Explicit) → (i : ℕ) → (ds es : List Definition)
      → load_all f present i ds ≡ inr es
      → All P es
  load_all-All h present i [] es e = subst (All P) (inr-same [] es e) tt
  load_all-All h present i (d ∷ ds) es e =
      chain-All (f (presence_at present i) d) (load_all f present (suc i) ds)
        (h (presence_at present i) d) (load_all-All h present (suc i) ds) es e

module _ (P : Definition → Type 0) where
  pub All-with_zone :
      (zone : String)
      → ((d : Definition) → P d → P (with_zone zone d))
      → (ds : List Definition) → All P ds
      → All P (map (with_zone zone) ds)
  All-with_zone zone h [] a = tt
  All-with_zone zone h (d ∷ ds) (p, a) = (h d p, All-with_zone zone h ds a)
