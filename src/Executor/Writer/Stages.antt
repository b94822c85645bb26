-- ===== src/Executor/Writer/Stages.antt =====
-- internal/executor/finalizer.go: the stages of one item, and what they leave in the tables.
use minicrond.Prelude.{
  nat_eq, string_eq, ◌≡◌, ◌≢◌, refl, ◌∙◌, Bool, true, false, ◌||◌, not, if◌then◌else◌, Option, none,
  some, has, arith,
}
use minicrond.Store.Tables.{Db, Result, ok, err, has_id, status_eq}
use minicrond.Store.Lifecycle.{Ending, start_run, finish_run, create_run}
use minicrond.Executor.State.{FinalItem, StartInfo}
use minicrond.Executor.Writer.{
  Stage, creates, looks_up, starts, finishes, conflict, refused, unavailable, Written, wrote,
  stopped, and_then, created, write_create, write_start, write_end_state, write_history,
}

abbrev pub Calm : (Stage → Bool) → Type 0
Calm fails = (s : Stage) → fails s ≡ false

-- What every outcome of an item says of it.
pub record Same (it a : FinalItem) : Type 0 where
  pub run : a.run ≡ it.run
  pub done : a.done ≡ it.done

-- With what holds of an item that is written.
abbrev pub Tells : (Stage → Bool) → FinalItem → (FinalItem → Type 0) → Written → Type 0
Tells fails it Q (wrote a db) = Same it a × Q a
Tells fails it Q (stopped why a db) = Same it a × (Calm fails → why ≢ unavailable)

abbrev pub Made : FinalItem → Type 0
Made a = a.create ≡ false

abbrev pub Begun : FinalItem → FinalItem → Type 0
Begun it a = (a.create ≡ it.create) × (a.start ≡ none)

abbrev pub Kept : FinalItem → FinalItem → Type 0
Kept it a = (a.create ≡ it.create) × (a.start ≡ it.start)

abbrev pub Cleared : FinalItem → Type 0
Cleared a = (a.create ≡ false) × (a.start ≡ none)

same : (it : FinalItem) → Same it it
same it = record { run = refl; done = refl }

via : {it a b : FinalItem} → Same it a → Same a b → Same it b
via s t = record { run = t.run ∙ s.run; done = t.done ∙ s.done }

if_Written :
    (P : Written → Type 0) (b : Bool) (m n : Written)
    → (b ≡ true → P m)
    → (b ≡ false → P n)
    → P (if b then m else n)
if_Written P true m n h k = h refl
if_Written P false m n h k = k refl

module _ (fails : Stage → Bool) where
  then-Tells :
      (it : FinalItem) (Q R : FinalItem → Type 0) (m : Written) (rest : FinalItem → Db → Written)
      → Tells fails it Q m
      → ((a : FinalItem) (db : Db) → Q a → Tells fails a R (rest a db))
      → Tells fails it R (and_then m rest)
  then-Tells it Q R (wrote a db) rest h k = next (rest a db) (k a db h.1)
    where
      next : (n : Written) → Tells fails a R n → Tells fails it R n
      next (wrote b d) l = (via h.0 l.0, l.1)
      next (stopped why b d) l = (via h.0 l.0, l.1)
  then-Tells it Q R (stopped why a db) rest h k = h

  halt :
      (it : FinalItem) (Q : FinalItem → Type 0) (s : Stage) (db : Db)
      → fails s ≡ true
      → Tells fails it Q (stopped unavailable it db)
  halt it Q s db h = (same it, λ c _. true-ne (h) (c s))
    where
      true-ne : fails s ≡ true → fails s ≡ false → ⊥
      true-ne p q = ground (arith, p, q)

  write_create-Tells : (it : FinalItem) (db : Db) → Tells fails it Made (write_create fails it db)
  unfolding write_create
  write_create-Tells it db =
      if_Written (Tells fails it Made) (not it.create) _ _ (λ h. (same it, ground (arith, h)))
        λ h.
          if_Written (Tells fails it Made) (fails creates) _ _ (halt it Made creates db)
            λ _. inserted (create_run it.run db)
    where
      inserted :
          (r : Result Db)
          → Tells fails it Made (elim r [
            | ok next ↦ wrote (created it) next
            | err e ↦
                if fails looks_up || not (has (has_id it.run.id) db.runs)
                then stopped conflict it db
                else wrote (created it) db
          ])
      inserted (ok next) = (record { run = refl; done = refl }, refl)
      inserted (err e) =
          if_Written (Tells fails it Made) (fails looks_up || not (has (has_id it.run.id) db.runs))
            _ _ (λ _. (same it, λ _ e. ground (arith, e)))
            (λ _. (record { run = refl; done = refl }, refl))

  write_start-Tells :
      (it : FinalItem) (db : Db) → Tells fails it (Begun it) (write_start fails it db)
  unfolding write_start
  write_start-Tells it db = started it.start refl
    where
      put :
          (i : StartInfo) (r : Result Db)
          → Tells fails it (Begun it) (elim r [
            | ok next ↦ wrote (record it { start = none }) next
            | err e ↦ wrote (record it { start = none }) db
          ])
      put i (ok next) = (record { run = refl; done = refl }, (refl, refl))
      put i (err e) = (record { run = refl; done = refl }, (refl, refl))

      started :
          (o : Option StartInfo)
          → it.start ≡ o
          → Tells fails it (Begun it) (elim o [
            | none ↦ wrote it db
            | some i ↦
                if fails starts
                then stopped unavailable it db
                else elim (start_run it.run.id i.pid i.pgid i.id i.at db) [
                  | ok next ↦ wrote (record it { start = none }) next
                  | err e ↦ wrote (record it { start = none }) db
                ]
          ])
      started none e = (same it, (refl, e))
      started (some i) e =
          if_Written (Tells fails it (Begun it)) (fails starts) _ _ (halt it (Begun it) starts db)
            (λ _. put i (start_run it.run.id i.pid i.pgid i.id i.at db))

  write_end_state-Tells :
      (it : FinalItem) (db : Db) → Tells fails it (Kept it) (write_end_state fails it db)
  unfolding write_end_state
  write_end_state-Tells it db = ended it.done
    where
      put :
          (r : Result Db)
          → Tells fails it
              (Kept it)
              (elim r [ ok next ↦ wrote it next | err e ↦ stopped refused it db ])
      put (ok next) = (same it, (refl, refl))
      put (err e) = (same it, λ _ e. ground (arith, e))

      ended :
          (o : Option Ending)
          → Tells fails it (Kept it) (elim o [
            | none ↦ wrote it db
            | some t ↦
                if fails finishes
                then stopped unavailable it db
                else elim (finish_run it.run.id t db) [
                  | ok next ↦ wrote it next
                  | err e ↦ stopped refused it db
                ]
          ])
      ended none = (same it, (refl, refl))
      ended (some t) =
          if_Written (Tells fails it (Kept it)) (fails finishes) _ _ (halt it (Kept it) finishes db)
            (λ _. put (finish_run it.run.id t db))

  -- An item that is written has every stage of it written, and where no call finds the database
  -- unavailable no write stops for that.
  pub write_history-Tells :
      (it : FinalItem) (db : Db) → Tells fails it Cleared (write_history fails it db)
  unfolding write_history
  write_history-Tells it db = then-Tells it Made Cleared _ _ (write_create-Tells it db) λ a d h.
      then-Tells a Cleared Cleared _ _ (weaken a h (write_start fails a d) (write_start-Tells a d))
        λ b e k. close b k (write_end_state fails b e) (write_end_state-Tells b e)
    where
      weaken :
          (a : FinalItem)
          → a.create ≡ false
          → (m : Written) → Tells fails a (Begun a) m
          → Tells fails a Cleared m
      weaken a h (wrote b d) k = (k.0, (k.1.0 ∙ h, k.1.1))
      weaken a h (stopped why b d) k = k

      close :
          (a : FinalItem)
          → (a.create ≡ false) × (a.start ≡ none)
          → (m : Written) → Tells fails a (Kept a) m
          → Tells fails a Cleared m
      close a h (wrote b d) k = (k.0, (k.1.0 ∙ h.0, k.1.1 ∙ h.1))
      close a h (stopped why b d) k = k
