-- ===== src/Reads/Pages.antt =====
-- internal/api/readlimit.go: what downloads leave for a page or the metrics.
use minicrond.Prelude.{
  ℕ, zero, suc, ◌-◌, ◌*◌, ◌≤◌, ◌<◌, ◌≡◌, refl, ap, ◌∙◌, max, Bool, true, false, List, [], ◌∷◌,
  arith, length, sum, count,
}
use minicrond.Reads.{
  Gate, Ticket, admitted, busy, page_cost, occupy, try_acquire, ReadLimits, new_gate,
}
use minicrond.Reads.Books.{
  Server, Reach, here, next, arrive, answer, open_server, Reach-Counts, Reach-Keeps,
}

-- A raw download, and a JSON page.
abbrev pub raw : Ticket
raw = record { cost = page_cost; download = true }

abbrev pub page : Ticket
page = record { cost = page_cost; download = false }

abbrev pub copies : ℕ → List Ticket
copies zero = []
copies (suc n) = raw ∷ copies n

length-copies : (n : ℕ) → length (copies n) ≡ n
length-copies zero = refl
length-copies (suc n) = omega (arith, length-copies n)

sum-copies : (n : ℕ) → sum (λ k. k.cost) (copies n) ≡ n * page_cost
sum-copies zero = refl
sum-copies (suc n) = omega (arith, sum-copies n)

count-copies : (n : ℕ) → count (λ k. k.download) (copies n) ≡ n
count-copies zero = refl
count-copies (suc n) = omega (arith, count-copies n)

max_one : (n : ℕ) → 2 ≤ n → suc (max 1 (n - 1)) ≡ n
max_one n h = ground arith

-- The promise that `acquireKind` makes, with the budget it needs: where there are two slots at least
-- and the budget pays for a page in every slot, a page is admitted at once however many downloads
-- hold the gate, whatever happened before.
pub downloads_leave_slot :
    (l : ReadLimits) (s : Server) (n : ℕ) (patient : Bool)
    → Reach (open_server l) s
    → s.holders ≡ copies n
    → 2 ≤ l.slots
    → l.slots * page_cost ≤ l.budget
    → (try_acquire page false patient s.gate).1 ≡ admitted
unfolding try_acquire new_gate
downloads_leave_slot l s n patient r e two room =
    let c = Reach-Counts l r in
    let k = Reach-Keeps r in
    let i : s.gate.inflight ≡ n = c.inflight ∙ ap length e ∙ length-copies n in
    let d : s.gate.downloads ≡ n = c.downloads ∙ ap (count (λ k. k.download)) e ∙ count-copies n in
    let b : s.gate.bytes ≡ n * page_cost = c.bytes ∙ ap (sum (λ k. k.cost)) e ∙ sum-copies n in
    ground (arith, i, d, b, c.download_cap, k.slots, k.budget, k.max_downloads)

-- A download is admitted while the caps and the budget allow.
download_admitted :
    (g : Gate) (n : ℕ)
    → g.inflight ≡ n
    → g.downloads ≡ n
    → g.bytes ≡ n * page_cost
    → n < g.max_downloads
    → n < g.slots
    → suc n * page_cost ≤ g.budget
    → try_acquire raw false false g ≡ (occupy raw (record g { waiting = g.waiting - 0 }), admitted)
unfolding try_acquire
download_admitted g n i d b room slot paid = ground (arith, i, d, b)

-- What a run of `n` downloads leads to.
unfoldable pub Filled : ReadLimits → ℕ → Server → Type 0
Filled l n s = Reach (open_server l) s × (s.holders ≡ copies n)

fill :
    (l : ReadLimits) (n : ℕ)
    → 2 ≤ l.slots
    → n < l.slots
    → 0 < l.budget
    → n * page_cost ≤ l.budget
    → (s : Server) × Filled l n s
unfolding new_gate Filled
fill l zero two slot some_budget paid = (open_server l, (here, refl))
fill l (suc n) two slot some_budget paid =
    let f = fill l n two (omega arith) some_budget (omega arith) in
    let s = f.0 in
    let c = Reach-Counts l f.1.0 in
    let k = Reach-Keeps f.1.0 in
    let i : s.gate.inflight ≡ n = c.inflight ∙ ap length f.1.1 ∙ length-copies n in
    let d : s.gate.downloads ≡ n =
      c.downloads ∙ ap (count (λ k. k.download)) f.1.1 ∙ count-copies n in
    let b : s.gate.bytes ≡ n * page_cost = c.bytes ∙ ap (sum (λ k. k.cost)) f.1.1 ∙ sum-copies n in
    let e =
      download_admitted s.gate n i d b (ground (arith, k.max_downloads)) (ground (arith, k.slots))
        (ground (arith, k.budget)) in
    (
      answer raw s.holders s.waiters (try_acquire raw false false s.gate),
      (
        next f.1.0 (arrive raw false refl),
        ap (λ a. (answer raw s.holders s.waiters a).holders) e ∙ ap (λ xs. raw ∷ xs) f.1.1,
      ),
    )

-- What the comment of `acquireKind` promises does not follow from the code alone: where the budget
-- is `n` downloads' worth, for some `n` from 1 to `slots - 1`, there is a reachable state in which
-- `n` downloads run, a slot is free, and a page that does not wait is refused.
pub downloads_exhaust_budget :
    (l : ReadLimits) (n : ℕ)
    → 1 ≤ n
    → n < l.slots
    → l.budget ≡ n * page_cost
    → (s : Server) × Filled l n s
      × (s.gate.inflight < s.gate.slots)
      × ((try_acquire page false false s.gate).1 ≡ busy)
unfolding try_acquire new_gate Filled
downloads_exhaust_budget l n some_download slot budget =
    let f = fill l n (omega arith) slot (omega (arith, budget)) (omega (arith, budget)) in
    let s = f.0 in
    let c = Reach-Counts l f.1.0 in
    let k = Reach-Keeps f.1.0 in
    let i : s.gate.inflight ≡ n = c.inflight ∙ ap length f.1.1 ∙ length-copies n in
    let b : s.gate.bytes ≡ n * page_cost = c.bytes ∙ ap (sum (λ k. k.cost)) f.1.1 ∙ sum-copies n in
    (s, f.1, ground (arith, i, k.slots), ground (arith, i, b, budget, k.slots, k.budget))
