-- ===== src/Store/Registry/Chronicle.antt =====
-- internal/store/store.go: the rows of definitions and the history of their revisions agree.
use minicrond.Prelude.{
  nat_eq, string_eq, ℕ, suc, ◌+◌, ◌≤◌, ◌<◌, ◌≡◌, refl, sym, ap, ◌∙◌, subst, ◌==◌, String, Bool,
  true, ◌&&◌, if◌then◌else◌, List, [], ◌∷◌, ◌++◌, arith, eqb, leb, update, count, count-append,
  Bool-cases, inl, inr, eqb_iff, str_iff,
}
use minicrond.Store.Registry.{DefinitionRow, RevisionRow, has_name, numbered, greatest_id}
use minicrond.Store.Registry.Found.{Split, update-Split, count-update}

-- The entry of revision `k` of the definition `i`, and the row that has reached it.
abbrev pub entry : ℕ → ℕ → RevisionRow → Bool
entry i k v = eqb v.definition_id i && eqb v.revision k

abbrev pub reached : ℕ → ℕ → DefinitionRow → Bool
reached i k r = numbered i r && leb 1 k && leb k r.revision

-- Names and ids are unique, and the history holds exactly one entry of every revision, from 1 to
-- the present one, of every definition.
pub record Chronicle (rows : List DefinitionRow) (revisions : List RevisionRow) : Type 0 where
  pub names : (n : String) → count (has_name n) rows ≤ 1
  pub ids : (i : ℕ) → count (numbered i) rows ≤ 1
  pub history : (i k : ℕ) → count (entry i k) revisions ≡ count (reached i k) rows

pub greatest-fresh :
    (rows : List DefinitionRow) (i : ℕ) → greatest_id rows < i → count (numbered i) rows ≡ 0
greatest-fresh [] i h = refl
greatest-fresh (r ∷ rs) i h = ground (arith, greatest-fresh rs i, eqb_iff r.definition_id i)

-- A change of one row to its next revision, with an entry for it.
pub changed-Chronicle :
    (rows : List DefinitionRow) (revisions : List RevisionRow) (r : DefinitionRow) (v : RevisionRow)
    (f : DefinitionRow → DefinitionRow)
    → Chronicle rows revisions
    → Split r rows
    → (f r).definition_id ≡ r.definition_id
    → (f r).name ≡ r.name
    → (f r).revision ≡ suc r.revision
    → v.definition_id ≡ r.definition_id
    → v.revision ≡ suc r.revision
    → Chronicle (update (numbered r.definition_id) f rows) (v ∷ revisions)
unfolding Split
changed-Chronicle rows revisions r v f c (before, after, e) same_id_of same_name next vid vrev =
    let self : numbered r.definition_id r ≡ true =
      (eqb_iff r.definition_id r.definition_id).1 refl in
    let u : update (numbered r.definition_id) f rows ≡ before ++ f r ∷ after = rw e (
      update-Split (numbered r.definition_id) f before after r self
        (rw e at (c.ids r.definition_id))) in
    let each : (p : DefinitionRow → Bool)
        → count p rows ≡ count p before + ((if p r then 1 else 0) + count p after) =
      λ p. ap (count p) e ∙ count-append p before (r ∷ after) in
    rw u record {
      names = λ n. ground (
        arith,
        c.names n,
        each (has_name n),
        count-append (has_name n) before (f r ∷ after),
        ap (λ x. x == n) same_name,
      );
      ids = λ i. ground (
        arith,
        c.ids i,
        each (numbered i),
        count-append (numbered i) before (f r ∷ after),
        ap (λ x. eqb x i) same_id_of,
      );
      history = λ i k. ground (
        arith,
        c.history i k,
        each (reached i k),
        count-append (reached i k) before (f r ∷ after),
        same_id_of,
        next,
        vid,
        vrev,
      );
    }

-- A new row at its first revision, with an entry for it.
pub added-Chronicle :
    (rows : List DefinitionRow) (revisions : List RevisionRow) (r : DefinitionRow) (v : RevisionRow)
    → Chronicle rows revisions
    → count (has_name r.name) rows ≡ 0
    → r.definition_id ≡ suc (greatest_id rows)
    → r.revision ≡ 1
    → v.definition_id ≡ r.definition_id
    → v.revision ≡ 1
    → Chronicle (rows ++ r ∷ []) (v ∷ revisions)
added-Chronicle rows revisions r v c fresh id first vid vrev =
    let f = greatest-fresh rows (suc (greatest_id rows)) (omega arith) in
    record {
      names = λ n. elim (Bool-cases (r.name == n)) [
        | inl e ↦
            let g : count (has_name n) rows ≡ 0 =
              subst (λ x. count (has_name x) rows ≡ 0) ((str_iff r.name n).0 e) fresh in
            ground (arith, g, count-append (has_name n) rows (r ∷ []))
        | inr e ↦ ground (arith, e, c.names n, count-append (has_name n) rows (r ∷ []))
      ];
      ids = λ i. ground (
        arith,
        c.ids i,
        f,
        count-append (numbered i) rows (r ∷ []),
        id,
        eqb_iff r.definition_id i,
      );
      history = λ i k.
          ground
            (arith, c.history i k, count-append (reached i k) rows (r ∷ []), id, first, vid, vrev);
    }

-- A change that keeps ids, names and revisions.
pub kept-Chronicle :
    (rows : List DefinitionRow) (revisions : List RevisionRow) (p : DefinitionRow → Bool)
    (f : DefinitionRow → DefinitionRow)
    → Chronicle rows revisions
    → ((r : DefinitionRow) → (f r).definition_id ≡ r.definition_id)
    → ((r : DefinitionRow) → (f r).name ≡ r.name)
    → ((r : DefinitionRow) → (f r).revision ≡ r.revision)
    → Chronicle (update p f rows) revisions
kept-Chronicle rows revisions p f c id name revision = record {
  names = λ n. rw (count-update (has_name n) p f (λ r. ap (λ x. x == n) (name r)) rows) (c.names n);
  ids = λ i. rw (count-update (numbered i) p f (λ r. ap (λ x. eqb x i) (id r)) rows) (c.ids i);
  history = λ i k.
      c.history i k ∙ sym (count-update (reached i k) p f (λ r. rw (id r, revision r) refl) rows);
}
