-- ===== src/Executor/Fairness.antt =====
-- internal/executor/queue.go: which queued run `nextItem` chooses, and what serving it changes.
use minicrond.Prelude.{
  nat_eq, ◌≡◌, refl, ℕ, ◌≤◌, Option, none, some, List, [], ◌∷◌, ◌==◌, if◌then◌else◌, arith, All,
  eqb_iff, subst, suc, ap, ◌≢◌, ◌<◌, true, not, has, Bool-cases, ◌⊎◌, ◌∙◌, ltb, inl, inr,
}
use minicrond.Executor.State.{Service}
use minicrond.Executor.Step.{mark_served}
use minicrond.Store.Tables.{QueueRow, Db}
use minicrond.Store.Queue
use minicrond.Executor.Drain.{served_at, serve, better, best_of, next_item, queue_head_window}

-- The definition of the row was served no later than those of the others.
abbrev pub Foremost : List (ℕ × ℕ) → QueueRow → List QueueRow → Type 0
Foremost m item = All (λ h. served_at item.definition_id m ≤ served_at h.definition_id m)

All-later :
    (m : List (ℕ × ℕ)) (a b : QueueRow) (hs : List QueueRow)
    → served_at a.definition_id m ≤ served_at b.definition_id m
    → Foremost m b hs
    → Foremost m a hs
All-later m a b [] p h = tt
All-later m a b (x ∷ hs) p h = (omega (arith, p, h.0), All-later m a b hs p h.1)

best_of-Foremost :
    (m : List (ℕ × ℕ)) (best : QueueRow) (hs : List QueueRow)
    → Foremost m (best_of m best hs) (best ∷ hs)
unfolding best_of
best_of-Foremost m best [] = (omega arith, tt)
best_of-Foremost m best (h ∷ hs) =
    let p = best_of-Foremost m (better m best h) hs in
    (ground (arith, p.0), (ground (arith, p.0), p.1))

-- The row is one of those.
abbrev pub Among : QueueRow → List QueueRow → Type 0
Among item [] = ⊥
Among item (h ∷ hs) = (item ≡ h) ⊎ Among item hs

best_of-Among :
    (m : List (ℕ × ℕ)) (best : QueueRow) (hs : List QueueRow)
    → Among (best_of m best hs) (best ∷ hs)
unfolding best_of
best_of-Among m best [] = inl refl
best_of-Among m best (h ∷ hs) = elim (best_of-Among m (better m best h) hs) [
  | inl e ↦ elim (Bool-cases (ltb (served_at h.definition_id m) (served_at best.definition_id m))) [
    | inl b ↦ inr (inl (e ∙ ap (λ x. if x then h else best) b))
    | inr b ↦ inl (e ∙ ap (λ x. if x then h else best) b)
  ]
  | inr a ↦ inr (inr a)
]

-- The item that the drain loop takes next is one of the heads in its window, which holds the first item
-- of each of the 64 definitions that have waited longest in the queue, and among the definitions of that
-- window its own was served no later than any other's.
pub next_item-Foremost :
    (m : List (ℕ × ℕ)) (db : Db) (item : QueueRow)
    → next_item m db ≡ some item
    → Among item (Queue.queue_heads queue_head_window db)
      × Foremost m item (Queue.queue_heads queue_head_window db)
unfolding next_item
next_item-Foremost m db item = go (Queue.queue_heads queue_head_window db)
  where
    go :
        (hs : List QueueRow)
        → (let o : Option QueueRow = elim hs [ [] ↦ none | h ∷ rest ↦ some (best_of m h rest) ] in
            o ≡ some item → Among item hs × Foremost m item hs)
    go [] e = absurd (ground (arith, e))
    go (h ∷ hs) e =
        let same : best_of m h hs ≡ item = ground (arith, e) in
        subst (λ x. Among x (h ∷ hs) × Foremost m x (h ∷ hs)) same
          (best_of-Among m h hs, best_of-Foremost m h hs)

-- Serving a definition sets its tick and no other's.
pub served_at-serve :
    (d t e : ℕ) (m : List (ℕ × ℕ))
    → served_at e (serve d t m) ≡ (if d == e then t else served_at e m)
served_at-serve d t e [] = refl
served_at-serve d t e ((x, u) ∷ m) = ground (
  arith,
  served_at-serve d t e m,
  (eqb_iff d e).0,
  (eqb_iff x d).0,
  (eqb_iff x e).0,
  (eqb_iff x e).1,
  (eqb_iff d e).1,
)

-- No definition was served at a later tick than the last.
abbrev pub Ticked : Service → Type 0
Ticked s = (d : ℕ) → served_at d s.queue.served ≤ s.queue.tick

mark_served-Ticked : (d : ℕ) (s : Service) → Ticked s → Ticked (mark_served d s)
mark_served-Ticked d s t e =
    ground (arith, served_at-serve d (suc s.queue.tick) e s.queue.served, t e)

mark_served_last :
    (d e : ℕ) (s : Service)
    → Ticked s
    → e ≢ d
    → served_at e (mark_served d s).queue.served < served_at d (mark_served d s).queue.served
mark_served_last d e s t n = ground (
  arith,
  served_at-serve d (suc s.queue.tick) e s.queue.served,
  served_at-serve d (suc s.queue.tick) d s.queue.served,
  t e,
  n,
  (eqb_iff d e).0,
  (eqb_iff d d).1 refl,
)

another :
    (m : List (ℕ × ℕ)) (item : QueueRow) (d : ℕ) (hs : List QueueRow)
    → ((e : ℕ) → e ≢ d → served_at e m < served_at d m)
    → Foremost m item hs
    → has (λ h. not (h.definition_id == d)) hs ≡ true
    → item.definition_id ≢ d
another m item d [] l f h e = absurd (ground (arith, h))
another m item d (x ∷ hs) l f h e = elim (Bool-cases (x.definition_id == d)) [
  | inl t ↦ another m item d hs l f.1 (ground (arith, t, h)) e
  | inr t ↦
      let far =
        l x.definition_id (λ p. absurd (ground (arith, t, (eqb_iff x.definition_id d).1 p))) in
      absurd (omega (arith, far, f.0, ap (λ y. served_at y m) e))
]

-- Once a definition has been served, and while the queue has a head of another definition, the next
-- item is not its own. No tick served is later than the last, neither before nor after.
pub mark_served_yields :
    (d : ℕ) (s : Service) (db : Db) (item : QueueRow)
    → Ticked s
    → next_item (mark_served d s).queue.served db ≡ some item
    → has (λ h. not (h.definition_id == d)) (Queue.queue_heads queue_head_window db) ≡ true
    → (item.definition_id ≢ d) × Ticked (mark_served d s)
mark_served_yields d s db item t e h =
    let m = (mark_served d s).queue.served in
    (
      another m item d (Queue.queue_heads queue_head_window db) (λ x n. mark_served_last d x s t n)
          (next_item-Foremost m db item e).1 h,
      mark_served-Ticked d s t,
    )
