-- ===== src/Executor/Writer/Due.antt =====
-- internal/executor/finalizer.go: the tables and the items that a pass leaves.
use minicrond.Prelude.{
  ◌∙◌, nat_eq, string_eq, ℕ, suc, ◌+◌, ◌≤◌, ◌≡◌, refl, ap, subst, String, Bool, true, false, not,
  if◌then◌else◌, List, [], ◌∷◌, ◌++◌, count, select, map, arith, leb, Bool-cases, inl, inr,
}
use minicrond.Store.Tables.{Run, Db, pending}
use minicrond.Executor.State.{FinalItem}
use minicrond.Executor.Writer.{
  Passed, Written, wrote, conflict, refused, retires, is_done, Stage, creates, write_create,
  write_start, write_end_state, and_then, unavailable, stopped, write_history, backed_off, keep,
  write_each, finalize_pass, fail_streak, oldest_first,
}
use minicrond.Executor.Writer.Stages.{Calm, Tells, Cleared, write_history-Tells}
use minicrond.Executor.Writer.Stored.{begun, over, first_row, Fresh, write_history-Stored}
use minicrond.Executor.Writer.Pass.{still, retires-Cleared, count-oldest_first}

-- The row that the history of an item comes to.
abbrev pub row_of : FinalItem → Run
row_of it = over it.done (begun it.start it.run)

-- The tables with the rows of the items in turn, less those of the runs `bad`.
abbrev pub with_rows : (String → Bool) → List FinalItem → Db → Db
with_rows bad [] db = db
with_rows bad (it ∷ rest) db =
    with_rows bad rest (if bad it.run.id then db else first_row db (row_of it))

-- The items are of runs that were never stored; those that are not of `bad` are pending, and have an
-- identity and an occurrence that no row has when it is their turn.
abbrev pub NewEach : (String → Bool) → List FinalItem → Db → Type 0
NewEach bad [] db = Unit
NewEach bad (it ∷ rest) db =
    (it.create ≡ true)
    × ((bad it.run.id ≡ false → (it.run.status ≡ pending) × Fresh it.run db)
        × NewEach bad rest (if bad it.run.id then db else first_row db (row_of it)))

module _ (fails : String → Stage → Bool) (bad : String → Bool) (now : ℕ)
    (good : (id : String) → bad id ≡ false → Calm (fails id))
    (blocked : (id : String) → bad id ≡ true → fails id creates ≡ true) where
  abbrev of_bad : FinalItem → Bool
  of_bad it = bad it.run.id

  blocked-stopped :
      (it : FinalItem) (db : Db)
      → it.create ≡ true
      → bad it.run.id ≡ true
      → write_history (fails it.run.id) it db ≡ stopped unavailable it db
  unfolding write_history write_create
  blocked-stopped it db c b =
      let e : write_create (fails it.run.id) it db ≡ stopped unavailable it db =
        ground (arith, c, blocked it.run.id b) in
      ap
        (λ m.
          and_then m (λ a d.
            and_then (write_start (fails it.run.id) a d) (write_end_state (fails it.run.id))))
        e

  abbrev turn : ℕ → FinalItem → List FinalItem → Written → Passed
  turn streak it rest m = elim m [
    | wrote a next ↦
        keep (if retires (is_done it) a then [] else a ∷ [])
          (write_each fails still now 0 rest next)
    | stopped why a next ↦ elim why [
      | conflict ↦ write_each fails still now 0 rest next
      | refused ↦ write_each fails still now 0 rest next
      | unavailable ↦
          if leb fail_streak (suc streak)
          then record { items = backed_off now a ∷ rest; db = next; failed_early = true }
          else keep (backed_off now a ∷ []) (write_each fails still now (suc streak) rest next)
    ]
  ]

  abbrev left : List FinalItem → Db → Passed
  left items db = record {
    items = map (backed_off now) (select of_bad items);
    db = with_rows bad items db;
    failed_early = false;
  }

  bad_turn :
      (streak : ℕ) (it : FinalItem) (rest : List FinalItem) (db : Db)
      → leb fail_streak (suc streak) ≡ false
      → bad it.run.id ≡ true
      → write_each fails still now (suc streak) rest db ≡ left rest db
      → turn streak it rest (stopped unavailable it db) ≡ left (it ∷ rest) db
  bad_turn streak it rest db few b e = rw (few, b, e) refl

  good_turn :
      (streak : ℕ) (it a : FinalItem) (rest : List FinalItem) (db : Db)
      → retires (is_done it) a ≡ true
      → bad it.run.id ≡ false
      → write_each fails still now 0 rest (first_row db (row_of it))
        ≡ left rest (first_row db (row_of it))
      → turn streak it rest (wrote a (first_row db (row_of it))) ≡ left (it ∷ rest) db
  good_turn streak it a rest db r b e = rw (r, b, e) refl

  write_each-Written :
      (streak : ℕ) (items : List FinalItem) (db : Db)
      → streak + count of_bad items ≤ 2
      → NewEach bad items db
      → write_each fails still now streak items db ≡ left items db
  unfolding write_each
  write_each-Written streak [] db h n = refl
  write_each-Written streak (it ∷ rest) db h (c, (f, n)) = elim (Bool-cases (bad it.run.id)) [
    | inl b ↦
        let few : leb fail_streak (suc streak) ≡ false = ground (arith, h, b) in
        let rec =
          write_each-Written (suc streak) rest db (ground (arith, h, b))
            (subst (λ x. NewEach bad rest (if x then db else first_row db (row_of it))) b n) in
        ap (turn streak it rest) (blocked-stopped it db c b) ∙ bad_turn streak it rest db few b rec
    | inr b ↦
        let s = write_history-Stored (fails it.run.id) (good it.run.id b) db it c (f b).0 (f b).1 in
        let t =
          subst (Tells (fails it.run.id) it Cleared) s.1
            (write_history-Tells (fails it.run.id) it db) in
        let r = retires-Cleared it s.0 t.0 t.1 in
        let rec =
          write_each-Written 0 rest (first_row db (row_of it)) (ground (arith, h))
            (subst (λ x. NewEach bad rest (if x then db else first_row db (row_of it))) b n) in
        ap (turn streak it rest) s.1 ∙ good_turn streak it s.0 rest db r b rec
  ]

  -- One pass over due items of runs that were never stored, with items that are not due beside them.
  -- The database refuses the inserts of the runs `bad`, of which two at most are due, and takes all
  -- else. Each of the other due runs gets, the run queued first before the later ones, exactly the row
  -- that direct writes would have left, and nothing else in the tables changes. The due items of `bad`
  -- stay, backed off, with the items that are not due, and no other item stays; the pass is not ended
  -- early.
  pub finalize_pass-Written :
      (items : List FinalItem) (db : Db)
      → (let due : List FinalItem = oldest_first (select (λ it. leb it.next_try now) items) in
          count of_bad (select (λ it. leb it.next_try now) items) ≤ 2
          → NewEach bad due db
          → finalize_pass fails still now items db ≡ record {
            items =
                select (λ it. not (leb it.next_try now)) items
                ++ map (backed_off now) (select of_bad due);
            db = with_rows bad due db;
            failed_early = false;
          })
  unfolding finalize_pass
  finalize_pass-Written items db h n =
      let due = select (λ it. leb it.next_try now) items in
      ap (keep (select (λ it. not (leb it.next_try now)) items)) (
        write_each-Written 0 (oldest_first due) db (omega (arith, h, count-oldest_first of_bad due))
          n)
