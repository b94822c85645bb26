-- ===== src/Disk/Relief.antt =====
-- internal/logstore/budget.go: the bytes that a pass wants, and what deleting buffers frees.
use minicrond.Prelude.{
  ℕ, suc, ◌+◌, ◌≤◌, ◌<◌, ◌≡◌, refl, ap, subst, false, List, [], ◌∷◌, ◌++◌, arith, leb, sum, ◌⊎◌,
  inl, inr, Bool-cases,
}
use minicrond.Disk.{
  DiskPolicy, DiskStatus, log_bytes, free_int, pressure_of, Deletion, passed_over, failing, freed,
  prune_sealed,
}

-- Freeing what `pressure` wants relieves it: a status in which the logs are smaller by these bytes,
-- and the free space greater by them, is under pressure no more, whichever watermark was passed.
pub pressure_of_relieved :
    (p : DiskPolicy) (st after : DiskStatus)
    → after.min_free ≡ st.min_free
    → after.statfs_failed ≡ st.statfs_failed
    → log_bytes after.usage + (pressure_of p st).1 ≤ log_bytes st.usage
    → free_int st + (pressure_of p st).1 ≤ free_int after
    → (pressure_of p after).0 ≡ false
unfolding pressure_of
pressure_of_relieved p st after m f u w = ground (arith, m, f)

abbrev size : Deletion → ℕ
size (freed n) = n
size _ = 0

-- All before the last one frees too little.
abbrev pub Needed : ℕ → ℕ → List Deletion → Type 0
Needed want bytes tried =
    (before : List Deletion) × (c : Deletion) × (tried ≡ before ++ c ∷ [])
    × (bytes + sum size before < want)

last-Needed :
    (want bytes : ℕ) (d : Deletion) (tried : List Deletion)
    → bytes < want
    → (tried ≡ []) ⊎ Needed want (bytes + size d) tried
    → Needed want bytes (d ∷ tried)
last-Needed want bytes d tried k (inl e) = ([], d, ap (λ xs. d ∷ xs) e, omega (arith, k))
last-Needed want bytes d tried k (inr (before, x, e, l)) =
    (d ∷ before, x, ap (λ xs. d ∷ xs) e, omega (arith, l))

-- What comes of going through candidates, from the bytes freed before.
pub record Deleted (want bytes : ℕ) (cs : List Deletion) (total : ℕ) : Type 0 where
  pub tried : List Deletion
  pub rest : List Deletion
  pub order : cs ≡ tried ++ rest
  pub bytes_freed : total ≡ bytes + sum size tried
  pub enough : (rest ≡ []) ⊎ (want ≤ total)
  pub needed : (tried ≡ []) ⊎ Needed want bytes tried

add-zero : (n : ℕ) → n ≡ n + 0
add-zero n = omega arith

-- The deletion of sealed buffers goes through the candidates in their order, from the bytes freed
-- before, and frees what those gone through hold. All are gone through unless enough is freed, and
-- without the last of them it was not enough.
pub prune_sealed-Deleted :
    (want runs bytes : ℕ) (cs : List Deletion)
    → Deleted want bytes cs (prune_sealed want runs bytes cs).1
unfolding prune_sealed
prune_sealed-Deleted want runs bytes [] = record {
  tried = [];
  rest = [];
  order = refl;
  bytes_freed = omega arith;
  enough = inl refl;
  needed = inl refl;
}
prune_sealed-Deleted want runs bytes (c ∷ cs) = elim (Bool-cases (leb want bytes)) [
  | inl k ↦
      rw (prune_sealed, k)
        record {
          tried = [];
          rest = c ∷ cs;
          order = refl;
          bytes_freed = omega arith;
          enough = inr (ground (arith, k));
          needed = inl refl;
        }
  | inr k ↦
      rw (prune_sealed, k) (one c (ground (arith, k)) (λ m n. prune_sealed-Deleted want m n cs))
]
  where
    next_of : Deletion → ℕ × ℕ
    next_of d = elim d [
      | passed_over ↦ prune_sealed want runs bytes cs
      | failing ↦ prune_sealed want runs bytes cs
      | freed n ↦ prune_sealed want (suc runs) (bytes + n) cs
    ]

    more :
        (d : Deletion) (total : ℕ)
        → bytes < want
        → Deleted want (bytes + size d) cs total
        → Deleted want bytes (d ∷ cs) total
    more d total k h = record {
      tried = d ∷ h.tried;
      rest = h.rest;
      order = ap (λ xs. d ∷ xs) h.order;
      bytes_freed = omega (arith, h.bytes_freed);
      enough = h.enough;
      needed = inr (last-Needed want bytes d h.tried k h.needed);
    }

    same_bytes :
        (m : ℕ)
        → ((m n : ℕ) → Deleted want n cs (prune_sealed want m n cs).1)
        → Deleted want (bytes + 0) cs (prune_sealed want m bytes cs).1
    same_bytes m h =
        subst (λ b. Deleted want b cs (prune_sealed want m bytes cs).1) (add-zero bytes) (h m bytes)

    one :
        (d : Deletion)
        → bytes < want
        → ((m n : ℕ) → Deleted want n cs (prune_sealed want m n cs).1)
        → Deleted want bytes (d ∷ cs) (next_of d).1
    one passed_over k h = more passed_over _ k (same_bytes runs h)
    one failing k h = more failing _ k (same_bytes runs h)
    one (freed n) k h = more (freed n) _ k (h (suc runs) (bytes + n))
