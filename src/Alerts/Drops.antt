-- ===== src/Alerts/Drops.antt =====
-- internal/alerts/alerts.go: `observeDrop` and `flushDrops`, a ring of the newest observations.
use minicrond.Prelude.{
  ℕ, zero, suc, ◌+◌, ◌%◌, String, List, [], ◌∷◌, ◌++◌, length, take, if◌then◌else◌, ltb,
}

-- `Record`.
pub record Record : Type 0 where
  pub run_id : String
  pub channel : String
  pub status : String
  pub attempts : ℕ
  pub reason : String

-- `drops`, `dropStart` and `dropOverflow`.
pub record Drops : Type 0 where
  pub drops : List Record
  pub start : ℕ
  pub overflow : ℕ

abbrev pub no_drops : Drops
no_drops = record { drops = []; start = 0; overflow = 0 }

-- `maxDropObservations`.
abbrev pub max_drop_observations : ℕ
max_drop_observations = 256

module _ {ℓ} {A : Type ℓ} where
  abbrev pub skip : ℕ → List A → List A
  skip zero xs = xs
  skip (suc n) [] = []
  skip (suc n) (x ∷ xs) = skip n xs

  -- `xs[n] = a`.
  abbrev pub set_at : ℕ → A → List A → List A
  set_at n a [] = []
  set_at zero a (x ∷ xs) = a ∷ xs
  set_at (suc n) a (x ∷ xs) = x ∷ set_at n a xs

-- `observeDrop` with a ring of c places.
unfoldable pub observe_drop : ℕ → Record → Drops → Drops
observe_drop c rec d =
    if ltb (length d.drops) c then record d { drops = d.drops ++ (rec ∷ []) } else record {
      drops = set_at d.start rec d.drops;
      start = (d.start + 1) % c;
      overflow = d.overflow + 1;
    }

-- `records` of `flushDrops`: the oldest first.
unfoldable pub flushed : Drops → List Record
flushed d = if ltb 0 d.start then skip d.start d.drops ++ take d.start d.drops else d.drops

-- Observations one after the other.
abbrev pub observe_all : ℕ → List Record → Drops → Drops
observe_all c [] d = d
observe_all c (r ∷ rs) d = observe_all c rs (observe_drop c r d)
