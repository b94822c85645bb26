-- ===== src/Store/Queue/Expiry.antt =====
-- What `ExpireQueued` does to the queue and to the runs.
use minicrond.Prelude.{
  nat_eq, string_eq, ◌||◌, ◌&&◌, ℕ, zero, suc, ◌≤◌, String, ◌≡◌, refl, sym, ap, Bool, true, List,
  [], ◌∷◌, arith, ◌==◌, has, select, map, take, take_all, length-take, leb, ◌∙◌, length,
}
use minicrond.Store.Tables.{status_eq, QueueRow, Db, unix_micro}
use minicrond.Store.Lifecycle.{queued_for}
use minicrond.Store.Queue.{insert_by, order_by, expired_page, listed}

module _ (f : QueueRow → ℕ) (p : QueueRow → Bool) where
  has-insert_by : (q : QueueRow) (qs : List QueueRow) → has p (insert_by f q qs) ≡ (p q || has p qs)
  unfolding insert_by
  has-insert_by q [] = refl
  has-insert_by q (x ∷ xs) = ground (arith, has-insert_by q xs)

  pub has-order_by : (qs : List QueueRow) → has p (order_by f qs) ≡ has p qs
  unfolding order_by
  has-order_by [] = refl
  has-order_by (q ∷ qs) = has-insert_by q (order_by f qs) ∙ ap (◌||◌ (p q)) (has-order_by qs)

module _ (f : QueueRow → ℕ) where
  length-insert_by :
      (q : QueueRow) (qs : List QueueRow) → length (insert_by f q qs) ≡ suc (length qs)
  unfolding insert_by
  length-insert_by q [] = refl
  length-insert_by q (x ∷ xs) = ground (arith, length-insert_by q xs)

  length-order_by : (qs : List QueueRow) → length (order_by f qs) ≡ length qs
  unfolding order_by
  length-order_by [] = refl
  length-order_by (q ∷ qs) = length-insert_by q (order_by f qs) ∙ ap suc (length-order_by qs)

has-take {ℓ} :
    {A : Type ℓ} (p : A → Bool) (n : ℕ) (xs : List A) → has p (take n xs) ≡ true → has p xs ≡ true
has-take p zero xs h = cc
has-take p (suc n) [] h = h
has-take p (suc n) (x ∷ xs) h = ground (arith, has-take p n xs)

listed-map :
    (id : String) (qs : List QueueRow)
    → listed (map (λ (q : QueueRow). q.run_id) qs) id ≡ has (queued_for id) qs
listed-map id [] = refl
listed-map id (q ∷ qs) = ap (◌||◌ (q.run_id == id)) (listed-map id qs)

length-ids : (qs : List QueueRow) → length (map (λ (q : QueueRow). q.run_id) qs) ≡ length qs
length-ids [] = refl
length-ids (q ∷ qs) = ap suc (length-ids qs)

has-select_left {ℓ} :
    {A : Type ℓ} (p q : A → Bool) (xs : List A) → has q (select p xs) ≡ true → has q xs ≡ true
has-select_left p q [] h = h
has-select_left p q (x ∷ xs) h = ground (arith, has-select_left p q xs)

abbrev pub due : ℕ → QueueRow → Bool
due now q = leb q.expires_us (unix_micro now)

-- The page names rows of the queue only.
pub page-queued :
    (now limit : ℕ) (db : Db) (id : String)
    → listed (expired_page now limit db) id ≡ true
    → has (queued_for id) db.queue ≡ true
unfolding expired_page
page-queued now limit db id h = has-select_left (due now) (queued_for id) db.queue (
    sym (has-order_by (λ q. q.expires_us) (queued_for id) (select (due now) db.queue))
    ∙ has-take (queued_for id) limit _ (sym (listed-map id _) ∙ h))

has-select_both {ℓ} :
    {A : Type ℓ} (p q : A → Bool) (xs : List A)
    → has q (select p xs) ≡ true
    → has (λ x. q x && p x) xs ≡ true
has-select_both p q [] h = h
has-select_both p q (x ∷ xs) h = ground (arith, h, has-select_both p q xs)

-- The page names only rows that are due.
pub page-were_due :
    (now limit : ℕ) (db : Db) (id : String)
    → listed (expired_page now limit db) id ≡ true
    → has (λ q. queued_for id q && due now q) db.queue ≡ true
unfolding expired_page
page-were_due now limit db id h = has-select_both (due now) (queued_for id) db.queue (
    sym (has-order_by (λ q. q.expires_us) (queued_for id) (select (due now) db.queue))
    ∙ has-take (queued_for id) limit _ (sym (listed-map id _) ∙ h))

pub length-page : (now limit : ℕ) (db : Db) → length (expired_page now limit db) ≤ limit
unfolding expired_page
length-page now limit db = omega (
  arith,
  length-ids (take limit (order_by (λ q. q.expires_us) (select (due now) db.queue))),
  length-take limit (order_by (λ q. q.expires_us) (select (due now) db.queue)),
)

-- A page that is long enough names every row that is due.
pub page-due :
    (now limit : ℕ) (db : Db) (id : String)
    → length (select (due now) db.queue) ≤ limit
    → has (queued_for id) (select (due now) db.queue) ≡ true
    → listed (expired_page now limit db) id ≡ true
unfolding expired_page
page-due now limit db id room h =
    let rows = order_by (λ (q : QueueRow). q.expires_us) (select (due now) db.queue) in
    let short : length rows ≤ limit =
      omega (arith, length-order_by (λ q. q.expires_us) (select (due now) db.queue)) in
    listed-map id _
    ∙ ap (has (queued_for id)) (take_all limit rows short)
    ∙ has-order_by (λ q. q.expires_us) (queued_for id) (select (due now) db.queue)
    ∙ h
