-- ===== src/Store/Sound/Rows.antt =====
-- What an UPDATE of `runs` and a DELETE from `exec_queue` do to the two views of one run: that its
-- row is queued, and that the queue has a row for it.
use minicrond.Prelude.{
  subst, nat_eq, string_eq, ℕ, ◌<◌, String, ◌≡◌, refl, Bool, true, false, ◌&&◌, List, [], ◌∷◌,
  arith, ◌==◌, has, select, update, not, All, str_iff,
}
use minicrond.Store.Tables.{queued, status_eq, Run, QueueRow, has_id}
use minicrond.Store.Lifecycle.{queued_for, recover_guard}
use minicrond.Store.Queue.{of_definition}

abbrev pub still : String → Run → Bool
still id r = r.status == queued && has_id id r

-- The queue's rows name different runs.
abbrev pub Distinct : List QueueRow → Type 0
Distinct [] = Unit {0}
Distinct (q ∷ qs) = (has (queued_for q.run_id) qs ≡ false) × Distinct qs

-- Their sequence numbers ascend.
abbrev pub Ascends : List QueueRow → Type 0
Ascends [] = Unit {0}
Ascends (q ∷ qs) = All (λ x. q.seq < x.seq) qs × Ascends qs

-- The runs have different identities.
abbrev pub Keyed : List Run → Type 0
Keyed [] = Unit {0}
Keyed (r ∷ rs) = (has (has_id r.id) rs ≡ false) × Keyed rs

module _ (p : String → Bool) (id : String) where
  pub still-end :
      (f : Run → Run)
      → ((r : Run) → (f r).status == queued ≡ false)
      → (runs : List Run)
      → has (still id) (update (λ r. r.status == queued && p r.id) f runs)
        ≡ (not (p id) && has (still id) runs)
  still-end f ends [] = ground arith
  still-end f ends (r ∷ rs) = ground (arith, ends r, str_iff r.id id, still-end f ends rs)

  pub queued_for-delete :
      (queue : List QueueRow)
      → has (queued_for id) (select (λ q. not (p q.run_id)) queue)
        ≡ (not (p id) && has (queued_for id) queue)
  queued_for-delete [] = ground arith
  queued_for-delete (q ∷ qs) = ground (arith, str_iff q.run_id id, queued_for-delete qs)

pub still-keep :
    (p : Run → Bool) (f : Run → Run) (id : String)
    → ((r : Run) → p r ≡ true → r.status == queued ≡ false)
    → ((r : Run) → (f r).status == queued ≡ false)
    → (runs : List Run) → has (still id) (update p f runs) ≡ has (still id) runs
still-keep p f id apart ends [] = refl
still-keep p f id apart ends (r ∷ rs) =
    ground (arith, apart r, ends r, still-keep p f id apart ends rs)

pub still-recover :
    (queue : List QueueRow) (f : Run → Run) (id : String)
    → ((r : Run) → (f r).status == queued ≡ false)
    → (runs : List Run)
    → has (still id) (update (recover_guard queue) f runs)
      ≡ (has (still id) runs && has (queued_for id) queue)
still-recover queue f id ends [] = refl
still-recover queue f id ends (r ∷ rs) =
    ground (arith, ends r, str_iff r.id id, still-recover queue f id ends rs)

pub has_left {ℓ} :
    {A : Type ℓ} (p q : A → Bool) (xs : List A)
    → has p xs ≡ false
    → has (λ x. p x && q x) xs ≡ false
has_left p q [] h = refl
has_left p q (x ∷ xs) h = ground (arith, has_left p q xs)

-- A row's run has no second row.
pub alone :
    (q : QueueRow) (id : String) (qs : List QueueRow)
    → has (queued_for q.run_id) qs ≡ false
    → queued_for id q ≡ true
    → has (queued_for id) qs ≡ false
alone q id qs h e = subst (λ x. has (queued_for x) qs ≡ false) ((str_iff q.run_id id).0 e) h

pub queued_for-drop :
    (d : ℕ) (id : String) (queue : List QueueRow)
    → Distinct queue
    → has (queued_for id) (select (λ q. not (of_definition d q)) queue)
      ≡ (not (has (λ q. queued_for id q && of_definition d q) queue) && has (queued_for id) queue)
queued_for-drop d id [] u = refl
queued_for-drop d id (q ∷ qs) u = ground (
  arith,
  alone q id qs u.0,
  has_left (queued_for id) (of_definition d) qs,
  queued_for-drop d id qs u.1,
)

pub has-select-false {ℓ} :
    {A : Type ℓ} (p q : A → Bool) (xs : List A) → has q xs ≡ false → has q (select p xs) ≡ false
has-select-false p q [] h = refl
has-select-false p q (x ∷ xs) h = ground (arith, has-select-false p q xs)

pub Distinct-select :
    (p : QueueRow → Bool) (queue : List QueueRow) → Distinct queue → Distinct (select p queue)
Distinct-select p [] u = tt
Distinct-select p (q ∷ qs) u =
    ground (arith, has-select-false p (queued_for q.run_id) qs u.0, Distinct-select p qs u.1)
