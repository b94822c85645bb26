-- ===== src/Store/Registry/Expected.antt =====
-- internal/store/store.go: a put under an expected revision.
use minicrond.Prelude.{
  nat_eq, string_eq, ℕ, suc, ◌+◌, ◌≤◌, ◌<◌, ◌≡◌, ◌≢◌, refl, sym, ap, ◌∙◌, subst, ◌==◌, String, Bool,
  true, false, ◌&&◌, if◌then◌else◌, none, some, Option-cases, List, [], ◌∷◌, arith, eqb, has, find,
  update, count, count-append, Bool-cases, inl, inr, eqb_iff, ◌⊎◌,
}
use minicrond.Store.Tables.{ok, err, revision_conflict}
use minicrond.Store.Registry.{
  Entry, DefinitionRow, RevisionRow, Registry, has_name, numbered, is_live, add_revision,
  revision_row, changed_row, audit_row, add_audit, check_alerts, write_change,
}
use minicrond.Store.Registry.Changes.{put_definition}
use minicrond.Store.Registry.Found.{Split, find-Split}
use minicrond.Store.Registry.Chronicle.{Chronicle, entry, reached}

-- The first row under a test that a change keeps is the changed one.
find-update :
    {A : Type 0} (p q : A → Bool) (f : A → A)
    → ((x : A) → p (f x) ≡ p x)
    → (xs : List A) (r : A) → q r ≡ true
    → find p xs ≡ some r
    → find p (update q f xs) ≡ some (f r)
find-update p q f same [] r h e = absurd (ground (arith, e))
find-update {A = A} p q f same (x ∷ xs) r h e = elim (Bool-cases (p x)) [
  | inl k ↦
      let y : x ≡ r = ground (arith, e, k) in
      let g : q x ≡ true = subst (λ z. q z ≡ true) (sym y) h in
      let m : p (f x) ≡ true = same x ∙ k in rw (g, m) (ap (λ z. some (f z)) y)
  | inr k ↦
      let m : p (if q x then f x else x) ≡ false = under (q x) x k (same x ∙ k) in
      rw m (find-update p q f same xs r h (ground (arith, e, k)))
]
  where
    under : (b : Bool) (y : A) → p y ≡ false → p (f y) ≡ false → p (if b then f y else y) ≡ false
    under true y k l = l
    under false y k l = k

entry-none :
    (i k : ℕ) (vs : List RevisionRow)
    → count (entry i k) vs ≡ 0
    → has (λ x. eqb x.definition_id i && eqb x.revision k) vs ≡ false
entry-none i k [] h = refl
entry-none i k (v ∷ vs) h = ground (arith, entry-none i k vs)

reached-le :
    (i k : ℕ) (rows : List DefinitionRow) → count (reached i k) rows ≤ count (numbered i) rows
reached-le i k [] = omega arith
reached-le i k (r ∷ rs) = ground (arith, reached-le i k rs)

-- The next revision of a row has no entry yet.
next-fresh :
    (g : Registry) (r : DefinitionRow)
    → Chronicle g.rows g.revisions
    → Split r g.rows
    → has (λ x. eqb x.definition_id r.definition_id && eqb x.revision (suc r.revision)) g.revisions
      ≡ false
unfolding Split
next-fresh g r c (before, after, e) =
    let i = r.definition_id in
    let k = suc r.revision in
    let self : numbered i r ≡ true = (eqb_iff i i).1 refl in
    let a : count (numbered i) g.rows
        ≡ count (numbered i) before + ((if numbered i r then 1 else 0) + count (numbered i) after) =
      ap (count (numbered i)) e ∙ count-append (numbered i) before (r ∷ after) in
    let b : count (reached i k) g.rows
        ≡ count (reached i k) before
          + ((if reached i k r then 1 else 0) + count (reached i k) after) =
      ap (count (reached i k)) e ∙ count-append (reached i k) before (r ∷ after) in
    entry-none i k g.revisions (
      ground
        (arith, a, b, self, c.ids i, c.history i k, reached-le i k before, reached-le i k after))

-- The registry after the change of a row.
abbrev pub changed : DefinitionRow → Entry → String → String → ℕ → Registry → Registry
changed r e actor action now g =
    add_audit (audit_row now actor action e.name r.spec e.spec) (record g {
      rows = update (numbered r.definition_id) (changed_row e now) g.rows;
      revisions = revision_row (changed_row e now r) actor now ∷ g.revisions;
    })

write_change-ok :
    (r : DefinitionRow) (e : Entry) (actor action : String) (now : ℕ) (g : Registry)
    → has (λ x. eqb x.definition_id r.definition_id && eqb x.revision (suc r.revision)) g.revisions
      ≡ false
    → write_change r e actor action now g ≡ ok (changed r e actor action now g)
unfolding write_change add_revision
write_change-ok r e actor action now g h = rw h refl

write_change-rows :
    (r : DefinitionRow) (e : Entry) (actor action : String) (now : ℕ) (g h : Registry)
    → write_change r e actor action now g ≡ ok h
    → h.rows ≡ update (numbered r.definition_id) (changed_row e now) g.rows
unfolding write_change add_revision
write_change-rows r e actor action now g h w = ground (arith, w)

found_after :
    (r : DefinitionRow) (e : Entry) (now : ℕ) (g : Registry)
    → find (has_name e.name) g.rows ≡ some r
    → find (has_name e.name) (update (numbered r.definition_id) (changed_row e now) g.rows)
      ≡ some (changed_row e now r)
found_after r e now g f =
    find-update (has_name e.name) (numbered r.definition_id) (changed_row e now) (λ x. refl) g.rows
      r ((eqb_iff r.definition_id r.definition_id).1 refl) f

-- With the history of revisions intact, a put that knows the alert channels, of a live definition
-- that the API owns, succeeds for the present revision or for any, and what it leaves under the
-- name is the definition that was put, at the next revision.
pub put_definition_total :
    (g : Registry) (r : DefinitionRow) (e : Entry) (expected : ℕ) (actor : String) (now : ℕ)
    → Chronicle g.rows g.revisions
    → check_alerts g.channels e.alerts ≡ true
    → find (has_name e.name) g.rows ≡ some r
    → r.source == "config" ≡ false
    → is_live r ≡ true
    → (expected ≡ 0) ⊎ (expected ≡ r.revision)
    → (h : Registry) × (put_definition false expected e actor now g ≡ ok h)
      × (find (has_name e.name) h.rows ≡ some (changed_row e now r))
unfolding put_definition
put_definition_total g r e expected actor now c known f api live fits =
    let w =
      write_change-ok r e actor "update" now g
        (next-fresh g r c (find-Split (has_name e.name) g.rows r f).0) in
    (
      changed r e actor "update" now g,
      ground (arith, known, f, api, live, fits, w),
      found_after r e now g f,
    )

-- A put under an expected revision other than 0, of a name that is there, takes that revision away:
-- a second put of the name under it, with alert channels that are known, answers that revisions
-- conflict.
pub put_definition_once :
    (g h : Registry) (e e2 : Entry) (expected : ℕ) (actor actor2 : String) (now now2 : ℕ)
    → 0 < expected
    → e2.name ≡ e.name
    → check_alerts h.channels e2.alerts ≡ true
    → find (has_name e.name) g.rows ≢ none
    → put_definition false expected e actor now g ≡ ok h
    → put_definition false expected e2 actor2 now2 h ≡ err revision_conflict
unfolding put_definition
put_definition_once g h e e2 expected actor actor2 now now2 some_revision name known there w =
    elim (Option-cases (find (has_name e.name) g.rows)) [
      | inl n ↦ absurd (there n)
      | inr (r, f) ↦
          let k : write_change r e actor "update" now g ≡ ok h = ground (arith, w, f) in
          let api : r.source == "config" ≡ false = ground (arith, w, f) in
          let m : expected ≡ r.revision =
            ground (arith, w, f, eqb_iff expected r.revision, eqb_iff expected 0, some_revision) in
          let found : find (has_name e2.name) h.rows ≡ some (changed_row e now r) =
            ap (λ n. find (has_name n) h.rows) name
            ∙ ap (find (has_name e.name)) (write_change-rows r e actor "update" now g h k)
            ∙ found_after r e now g f in
          ground (arith, known, found, api, m, some_revision)
    ]
