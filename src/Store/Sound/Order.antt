-- ===== src/Store/Sound/Order.antt =====
-- The keys of `runs` and the sequence numbers of `exec_queue` under inserts, updates and deletes.
use minicrond.Prelude.{
  nat_eq, string_eq, ◌||◌, ℕ, suc, ◌<◌, String, ◌≡◌, refl, Bool, false, List, [], ◌∷◌, ◌++◌, arith,
  ◌==◌, has, select, update, All, All-select, str_iff,
}
use minicrond.Store.Tables.{status_eq, Run, QueueRow, has_id}
use minicrond.Store.Lifecycle.{queued_for}
use minicrond.Store.Sound.Rows.{Distinct, Ascends, Keyed, has-select-false}

module _ (p : Run → Bool) (f : Run → Run) (same : (r : Run) → (f r).id ≡ r.id) where
  pub has_id-update :
      (id : String) (rs : List Run) → has (has_id id) (update p f rs) ≡ has (has_id id) rs
  has_id-update id [] = refl
  has_id-update id (r ∷ rs) = ground (arith, same r, has_id-update id rs)

  pub Keyed-update : (rs : List Run) → Keyed rs → Keyed (update p f rs)
  Keyed-update [] k = tt
  Keyed-update (r ∷ rs) k =
      ground (arith, same r, has_id-update r.id rs, has_id-update (f r).id rs, Keyed-update rs k.1)

pub Keyed-select : (p : Run → Bool) (rs : List Run) → Keyed rs → Keyed (select p rs)
Keyed-select p [] k = tt
Keyed-select p (r ∷ rs) k =
    ground (arith, has-select-false p (has_id r.id) rs k.0, Keyed-select p rs k.1)

pub Ascends-select : (p : QueueRow → Bool) (qs : List QueueRow) → Ascends qs → Ascends (select p qs)
Ascends-select p [] a = tt
Ascends-select p (q ∷ qs) a =
    ground (arith, All-select (λ x. q.seq < x.seq) p qs a.0, Ascends-select p qs a.1)

abbrev pub Fresh : ℕ → List QueueRow → Type 0
Fresh n = All (λ q. q.seq < n)

All-last {ℓ κ} :
    {A : Type ℓ} (P : A → Type κ) (xs : List A) (x : A) → All P xs → P x → All P (xs ++ x ∷ [])
All-last P [] x h px = (px, tt)
All-last P (y ∷ xs) x h px = (h.0, All-last P xs x h.1 px)

pub Ascends-last :
    (qs : List QueueRow) (q : QueueRow) → Ascends qs → Fresh q.seq qs → Ascends (qs ++ q ∷ [])
Ascends-last [] q a f = (tt, tt)
Ascends-last (x ∷ qs) q a f =
    (All-last (λ y. x.seq < y.seq) qs q a.0 f.0, Ascends-last qs q a.1 f.1)

Fresh-suc : (n : ℕ) (qs : List QueueRow) → Fresh n qs → Fresh (suc n) qs
Fresh-suc n [] f = tt
Fresh-suc n (q ∷ qs) f = (omega arith, Fresh-suc n qs f.1)

pub Fresh-last :
    (n : ℕ) (qs : List QueueRow) (q : QueueRow)
    → Fresh n qs
    → q.seq ≡ n
    → Fresh (suc n) (qs ++ q ∷ [])
Fresh-last n qs q f e = All-last (λ x. x.seq < suc n) qs q (Fresh-suc n qs f) (omega arith)

Distinct-lone : (q : QueueRow) (id : String) → q.run_id == id ≡ false → id == q.run_id ≡ false
Distinct-lone q id h = ground (arith, str_iff q.run_id id, str_iff id q.run_id)

pub queued_for-last :
    (id : String) (qs : List QueueRow) (q : QueueRow)
    → has (queued_for id) (qs ++ q ∷ []) ≡ (has (queued_for id) qs || q.run_id == id)
queued_for-last id [] q = ground arith
queued_for-last id (x ∷ qs) q = ground (arith, queued_for-last id qs q)

pub Distinct-last :
    (qs : List QueueRow) (q : QueueRow)
    → Distinct qs
    → has (queued_for q.run_id) qs ≡ false
    → Distinct (qs ++ q ∷ [])
Distinct-last [] q d h = (refl, tt)
Distinct-last (x ∷ qs) q d h =
    ground (arith, queued_for-last x.run_id qs q, Distinct-lone x q.run_id, Distinct-last qs q d.1)
