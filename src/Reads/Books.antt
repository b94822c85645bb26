-- ===== src/Reads/Books.antt =====
-- internal/api/readlimit.go: the gate beside the requests that hold it and those that wait for it.
use minicrond.Prelude.{
  ℕ, suc, ◌+◌, ◌-◌, ◌≤◌, ◌≡◌, refl, sym, ap, ◌∙◌, subst, ◌⊎◌, Bool, true, false, List, [], ◌∷◌,
  ◌++◌, arith, length, sum, count, sum-append, length-append, count-append,
}
use minicrond.Reads.{
  Gate, Ticket, Admission, admitted, busy, waits, one, new_gate, ReadLimits, try_acquire,
  stop_waiting, release,
}

-- The gate, the requests that hold a slot, and those that wait.
pub record Server : Type 0 where
  pub gate : Gate
  pub holders : List Ticket
  pub waiters : List Ticket

-- What a try makes of the server, where `others` wait besides.
abbrev pub answer : Ticket → List Ticket → List Ticket → Gate × Admission → Server
answer k holders others (g, admitted) = record { gate = g; holders = k ∷ holders; waiters = others }
answer k holders others (g, busy) = record { gate = g; holders = holders; waiters = others }
answer k holders others (g, waits) = record { gate = g; holders = holders; waiters = k ∷ others }

-- A request arrives; one that waits tries again or gives up; one that is done gives its slot back.
pub data Move (s t : Server) : Type 0 where
  arrive :
      (k : Ticket) (patient : Bool)
      → t ≡ answer k s.holders s.waiters (try_acquire k false patient s.gate)
      → Move s t
  wake :
      (k : Ticket) (xs ys : List Ticket)
      → s.waiters ≡ xs ++ k ∷ ys
      → t ≡ answer k s.holders (xs ++ ys) (try_acquire k true true s.gate)
      → Move s t
  give_up :
      (k : Ticket) (xs ys : List Ticket)
      → s.waiters ≡ xs ++ k ∷ ys
      → t ≡ record { gate = stop_waiting s.gate; holders = s.holders; waiters = xs ++ ys }
      → Move s t
  done :
      (k : Ticket) (xs ys : List Ticket)
      → s.holders ≡ xs ++ k ∷ ys
      → t ≡ record { gate = release k s.gate; holders = xs ++ ys; waiters = s.waiters }
      → Move s t

pub data Reach (s : Server) : Server → Type 0 where
  here : Reach s s
  next : {t u : Server} → Reach s t → Move t u → Reach s u

abbrev pub open_server : ReadLimits → Server
open_server l = record { gate = new_gate l; holders = []; waiters = [] }

-- The gate counts what is held, and keeps its limits.
pub record Counts (s : Server) : Type 0 where
  pub inflight : s.gate.inflight ≡ length s.holders
  pub bytes : s.gate.bytes ≡ sum (λ k. k.cost) s.holders
  pub downloads : s.gate.downloads ≡ count (λ k. k.download) s.holders
  pub waiting : s.gate.waiting ≡ length s.waiters
  pub slots : s.gate.inflight ≤ s.gate.slots
  pub download_cap : s.gate.downloads ≤ s.gate.max_downloads
  pub budget : (s.gate.inflight ≤ 1) ⊎ (s.gate.bytes ≤ s.gate.budget)
  pub patience : s.gate.waiting ≤ s.gate.max_waiters
  pub peaks : (s.gate.inflight ≤ s.gate.peak_inflight) × (s.gate.bytes ≤ s.gate.peak_bytes)

tried-Counts :
    (g : Gate) (holders others : List Ticket) (k : Ticket) (waited patient : Bool)
    → Counts (record {
      gate = record g { waiting = g.waiting - one waited };
      holders = holders;
      waiters = others;
    })
    → Counts (answer k holders others (try_acquire k waited patient g))
unfolding try_acquire
tried-Counts g holders others k waited patient c = ground (
  arith, c.inflight, c.bytes, c.downloads, c.waiting, c.slots, c.download_cap, c.budget, c.patience,
  c.peaks,
)

count-middle :
    (p : Ticket → Bool) (k : Ticket) (xs ys : List Ticket)
    → count p (xs ++ k ∷ ys) ≡ one (p k) + count p (xs ++ ys)
count-middle p k xs ys = omega (arith, count-append p xs (k ∷ ys), count-append p xs ys)

length-middle : (k : Ticket) (xs ys : List Ticket) → length (xs ++ k ∷ ys) ≡ suc (length (xs ++ ys))
length-middle k xs ys = omega (arith, length-append xs (k ∷ ys), length-append xs ys)

sum-middle :
    (f : Ticket → ℕ) (k : Ticket) (xs ys : List Ticket)
    → sum f (xs ++ k ∷ ys) ≡ f k + sum f (xs ++ ys)
sum-middle f k xs ys = omega (arith, sum-append f xs (k ∷ ys), sum-append f xs ys)

released-Counts :
    (s : Server) (k : Ticket) (xs ys : List Ticket)
    → s.holders ≡ xs ++ k ∷ ys
    → Counts s
    → Counts (record { gate = release k s.gate; holders = xs ++ ys; waiters = s.waiters })
unfolding release
released-Counts s k xs ys e c =
    let n : length s.holders ≡ suc (length (xs ++ ys)) = ap length e ∙ length-middle k xs ys in
    let b : sum (λ k. k.cost) s.holders ≡ k.cost + sum (λ k. k.cost) (xs ++ ys) =
      ap (sum (λ k. k.cost)) e ∙ sum-middle (λ k. k.cost) k xs ys in
    let d : count (λ k. k.download) s.holders
        ≡ one k.download + count (λ k. k.download) (xs ++ ys) =
      ap (count (λ k. k.download)) e ∙ count-middle (λ k. k.download) k xs ys in
    ground (
      arith, n, b, d, c.inflight, c.bytes, c.downloads, c.waiting, c.slots, c.download_cap,
      c.budget, c.patience, c.peaks,
    )

left-Counts :
    (s : Server) (k : Ticket) (xs ys : List Ticket)
    → s.waiters ≡ xs ++ k ∷ ys
    → Counts s
    → Counts (record { gate = stop_waiting s.gate; holders = s.holders; waiters = xs ++ ys })
unfolding stop_waiting
left-Counts s k xs ys e c =
    let n : length s.waiters ≡ suc (length (xs ++ ys)) = ap length e ∙ length-middle k xs ys in
    ground (
      arith, n, c.inflight, c.bytes, c.downloads, c.waiting, c.slots, c.download_cap, c.budget,
      c.patience, c.peaks,
    )

unmoved-Counts :
    (s : Server)
    → Counts s
    → Counts (record s { gate = record s.gate { waiting = s.gate.waiting - 0 } })
unmoved-Counts s c = ground (
  arith, c.inflight, c.bytes, c.downloads, c.waiting, c.slots, c.download_cap, c.budget, c.patience,
  c.peaks,
)

Move-Counts : {s t : Server} → Counts s → Move s t → Counts t
unfolding stop_waiting
Move-Counts {s = s} c (arrive k patient e) =
    subst Counts (sym e)
      (tried-Counts s.gate s.holders s.waiters k false patient (unmoved-Counts s c))
Move-Counts {s = s} c (wake k xs ys h e) =
    subst Counts (sym e)
      (tried-Counts s.gate s.holders (xs ++ ys) k true true (left-Counts s k xs ys h c))
Move-Counts {s = s} c (give_up k xs ys h e) = subst Counts (sym e) (left-Counts s k xs ys h c)
Move-Counts {s = s} c (done k xs ys h e) = subst Counts (sym e) (released-Counts s k xs ys h c)

open-Counts : (l : ReadLimits) → Counts (open_server l)
unfolding new_gate
open-Counts l = ground arith

-- Whatever requests arrive, wait, give up and finish, the gate counts the slots, the downloads and
-- the bytes of exactly the requests that hold it, and the requests that wait. It never has more
-- than `slots` holders, `max_downloads` downloads or `max_waiters` waiters, and its bytes are
-- within the budget unless one request runs alone.
pub Reach-Counts : (l : ReadLimits) {s : Server} → Reach (open_server l) s → Counts s
Reach-Counts l here = open-Counts l
Reach-Counts l (next r m) = Move-Counts (Reach-Counts l r) m

-- The limits that no request changes.
pub record Keeps (s t : Server) : Type 0 where
  pub slots : t.gate.slots ≡ s.gate.slots
  pub budget : t.gate.budget ≡ s.gate.budget
  pub max_downloads : t.gate.max_downloads ≡ s.gate.max_downloads

tried-Keeps :
    (s : Server) (holders others : List Ticket) (k : Ticket) (waited patient : Bool)
    → Keeps s (answer k holders others (try_acquire k waited patient s.gate))
unfolding try_acquire
tried-Keeps s holders others k waited patient = ground arith

Move-Keeps : {s t : Server} → Move s t → Keeps s t
unfolding stop_waiting release
Move-Keeps {s = s} (arrive k patient e) =
    subst (Keeps s) (sym e) (tried-Keeps s s.holders s.waiters k false patient)
Move-Keeps {s = s} (wake k xs ys h e) =
    subst (Keeps s) (sym e) (tried-Keeps s s.holders (xs ++ ys) k true true)
Move-Keeps {s = s} (give_up k xs ys h e) =
    subst (Keeps s) (sym e) (record { slots = refl; budget = refl; max_downloads = refl })
Move-Keeps {s = s} (done k xs ys h e) =
    subst (Keeps s) (sym e) (record { slots = refl; budget = refl; max_downloads = refl })

pub Reach-Keeps : {s t : Server} → Reach s t → Keeps s t
Reach-Keeps here = record { slots = refl; budget = refl; max_downloads = refl }
Reach-Keeps {s = s} (next {t = t} {u = u} r m) =
    let a = Reach-Keeps r in
    let b = Move-Keeps m in
    record {
      slots = b.slots ∙ a.slots;
      budget = b.budget ∙ a.budget;
      max_downloads = b.max_downloads ∙ a.max_downloads;
    }
