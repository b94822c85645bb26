-- ===== src/Executor/Writer/Pass.antt =====
-- internal/executor/finalizer.go: one pass of the writer over its due items.
use minicrond.Prelude.{
  nat_eq, string_eq, ℕ, suc, ◌+◌, ◌≤◌, ◌≡◌, refl, ap, subst, sym, String, Bool, true, false, ◌||◌,
  not, if◌then◌else◌, none, some, List, [], ◌∷◌, ◌++◌, has, count, select, All, arith, leb,
  Bool-cases, inl, inr,
}
use minicrond.Store.Tables.{Run, Db, has_id, same_occurrence, insert_run}
use minicrond.Store.Lifecycle.{create_run}
use minicrond.Executor.State.{FinalItem}
use minicrond.Executor.Writer.{
  Stage, creates, looks_up, write_create, write_start, write_end_state, and_then, conflict, refused,
  unavailable, Written, wrote, stopped, write_history, retires, no_start, is_done, backed_off,
  Passed, keep, write_each, finalize_pass, fail_streak, oldest_first, put_in_order,
}
use minicrond.Executor.Writer.Stages.{Same, Calm, Tells, Cleared, write_history-Tells}

pub retires-Cleared : (it a : FinalItem) → Same it a → Cleared a → retires (is_done it) a ≡ true
retires-Cleared it a s c =
    let n : no_start a ≡ true = ap (λ o. elim o [ none ↦ true | some i ↦ false ]) c.1 in
    let d : is_done a ≡ is_done it = ap (λ o. elim o [ none ↦ false | some t ↦ true ]) s.done in
    ground (arith, n, d, c.0)

count-put :
    (p : FinalItem → Bool) (it : FinalItem) (xs : List FinalItem)
    → count p (put_in_order it xs) ≡ (if p it then 1 else 0) + count p xs
unfolding put_in_order
count-put p it [] = refl
count-put p it (x ∷ xs) = ground (arith, count-put p it xs)

pub count-oldest_first :
    (p : FinalItem → Bool) (xs : List FinalItem) → count p (oldest_first xs) ≡ count p xs
unfolding oldest_first
count-oldest_first p [] = refl
count-oldest_first p (x ∷ xs) =
    omega (arith, count-oldest_first p xs, count-put p x (oldest_first xs))

abbrev pub still : FinalItem → FinalItem
still it = it

module _ (fails : String → Stage → Bool) (bad : String → Bool) (now : ℕ)
    (good : (id : String) → bad id ≡ false → Calm (fails id)) where
  abbrev IsBad : FinalItem → Type 0
  IsBad it = bad it.run.id ≡ true

  abbrev pub Only : Passed → Type 0
  Only p = All IsBad p.items × (p.failed_early ≡ false)

  write_each-Only :
      (streak : ℕ) (items : List FinalItem) (db : Db)
      → streak + count (λ it. bad it.run.id) items ≤ 2
      → Only (write_each fails still now streak items db)
  unfolding write_each
  write_each-Only streak [] db h = (tt, refl)
  write_each-Only streak (it ∷ rest) db h =
      turn (write_history (fails it.run.id) it db) (write_history-Tells (fails it.run.id) it db)
        (λ d. write_each-Only 0 rest d (ground (arith, h)))
        (λ d q. write_each-Only (suc streak) rest d (ground (arith, h, q)))
    where
      turn :
          (m : Written)
          → Tells (fails it.run.id) it Cleared m
          → ((d : Db) → Only (write_each fails still now 0 rest d))
          → ((d : Db)
              → bad it.run.id ≡ true
              → Only (write_each fails still now (suc streak) rest d))
          → Only (elim m [
            | wrote a next ↦
                keep
                  (if retires (is_done it) a then [] else a ∷ [])
                  (write_each fails still now 0 rest next)
            | stopped why a next ↦ elim why [
              | conflict ↦ write_each fails still now 0 rest next
              | refused ↦ write_each fails still now 0 rest next
              | unavailable ↦
                  if leb fail_streak (suc streak)
                  then record { items = backed_off now a ∷ rest; db = next; failed_early = true }
                  else keep
                      (backed_off now a ∷ [])
                      (write_each fails still now (suc streak) rest next)
            ]
          ])
      turn (wrote a next) t zeroed more = rw (retires-Cleared it a t.0 t.1) (zeroed next)
      turn (stopped conflict a next) t zeroed more = zeroed next
      turn (stopped refused a next) t zeroed more = zeroed next
      turn (stopped unavailable a next) t zeroed more = elim (Bool-cases (bad it.run.id)) [
        | inl b ↦
            let few : leb fail_streak (suc streak) ≡ false = ground (arith, h, b) in
            rw few
              ((subst (λ r. bad r.id ≡ true) (sym t.0.run) b, (more next b).0), (more next b).1)
        | inr b ↦ absurd (t.1 (good it.run.id b) refl)
      ]

  -- Where the database takes what it is given for all runs but those of `bad`, and two of the due
  -- items at most are of these, a pass is not ended early, and no due item stays that is not of these.
  pub finalize_pass-Only :
      (items : List FinalItem) (db : Db)
      → count (λ it. bad it.run.id) (select (λ it. leb it.next_try now) items) ≤ 2
      → let p = finalize_pass fails still now items db in
        (rest : List FinalItem) × (p.items ≡ select (λ it. not (leb it.next_try now)) items ++ rest)
        × All IsBad rest
        × (p.failed_early ≡ false)
  unfolding finalize_pass
  finalize_pass-Only items db h =
      let due = select (λ it. leb it.next_try now) items in
      let o =
        write_each-Only 0 (oldest_first due) db
          (omega (arith, h, count-oldest_first (λ it. bad it.run.id) due)) in
      ((write_each fails still now 0 (oldest_first due) db).items, refl, o.0, o.1)

wider :
    (r : Run) (rows : List Run)
    → has (has_id r.id) rows ≡ true
    → has (λ x. has_id r.id x || same_occurrence r x) rows ≡ true
wider r [] h = h
wider r (x ∷ xs) h = ground (arith, h, wider r xs)

failed_lookup-stopped :
    (fails : Stage → Bool) (it : FinalItem) (db : Db)
    → it.create ≡ true
    → has (has_id it.run.id) db.runs ≡ true
    → fails creates ≡ false
    → fails looks_up ≡ true
    → write_create fails it db ≡ stopped conflict it db
unfolding write_create create_run insert_run
failed_lookup-stopped fails it db c h k l = ground (arith, c, k, l, wider it.run db.runs h)

-- An item whose row an earlier attempt has stored, and whose insert is tried again while the
-- lookup finds the database unavailable, is taken for another run: it leaves for good, and nothing
-- of what it had still to write is written.
pub failed_lookup-drops :
    (fails : String → Stage → Bool) (now : ℕ) (it : FinalItem) (db : Db)
    → it.create ≡ true
    → has (has_id it.run.id) db.runs ≡ true
    → fails it.run.id creates ≡ false
    → fails it.run.id looks_up ≡ true
    → write_each fails still now 0 (it ∷ []) db
      ≡ record { items = []; db = db; failed_early = false }
unfolding write_each write_history
failed_lookup-drops fails now it db c h k l =
    let e = failed_lookup-stopped (fails it.run.id) it db c h k l in
    let w : write_history (fails it.run.id) it db ≡ stopped conflict it db =
      ap
        (λ m.
          and_then m (λ a d.
            and_then (write_start (fails it.run.id) a d) (write_end_state (fails it.run.id))))
        e in
    ground (arith, w)
