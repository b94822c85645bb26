-- ===== src/Reads.antt =====
-- internal/api/readlimit.go: the admission gate of expensive reads. A request is a try under the
-- gate's lock; between two tries it waits for capacity, for its timer or for its client.
use minicrond.Prelude.{
  ℕ, suc, ◌+◌, ◌-◌, ◌*◌, ◌^◌, max, Bool, true, false, ◌&&◌, ◌||◌, not, if◌then◌else◌, ltb, leb, eqb,
}
pub mod Books
pub mod Pages

-- `ReadLimits`, less the deadline of one request; a field that is 0 asks for its default.
pub record ReadLimits : Type 0 where
  pub slots : ℕ
  pub budget : ℕ

abbrev pub default_read_slots : ℕ
default_read_slots = 4

abbrev pub default_read_budget : ℕ
default_read_budget = 32 * 2 ^ 20

-- `rawPageCost`, `logPageCost` and `metricsCost`.
abbrev pub page_cost : ℕ
page_cost = 4 * 2 ^ 20

abbrev pub metrics_cost : ℕ
metrics_cost = 8 * 2 ^ 20

-- `readGate`.
pub record Gate : Type 0 where
  pub slots : ℕ
  pub budget : ℕ
  pub max_waiters : ℕ
  pub max_downloads : ℕ
  pub inflight : ℕ
  pub downloads : ℕ
  pub bytes : ℕ
  pub waiting : ℕ
  pub peak_bytes : ℕ
  pub peak_inflight : ℕ

-- `newReadGate`.
unfoldable pub new_gate : ReadLimits → Gate
new_gate l =
    let slots = if eqb l.slots 0 then default_read_slots else l.slots in
    record {
      slots = slots;
      budget = if eqb l.budget 0 then default_read_budget else l.budget;
      max_waiters = 4 * slots;
      max_downloads = max 1 (slots - 1);
      inflight = 0;
      downloads = 0;
      bytes = 0;
      waiting = 0;
      peak_bytes = 0;
      peak_inflight = 0;
    }

-- What a request asks for: an estimate of its bytes, and whether it is a raw download.
pub record Ticket : Type 0 where
  pub cost : ℕ
  pub download : Bool

abbrev pub one : Bool → ℕ
one b = if b then 1 else 0

pub data Admission : Type 0 where
  admitted busy waits : Admission

-- There is a slot, and room in the budget unless nothing else runs.
abbrev pub has_room : Ticket → Gate → Bool
has_room k g = ltb g.inflight g.slots && (eqb g.inflight 0 || leb (g.bytes + k.cost) g.budget)

abbrev pub occupy : Ticket → Gate → Gate
occupy k g = record g {
  inflight = suc g.inflight;
  downloads = g.downloads + one k.download;
  bytes = g.bytes + k.cost;
  peak_bytes = max g.peak_bytes (g.bytes + k.cost);
  peak_inflight = max g.peak_inflight (suc g.inflight);
}

-- One round of the loop of `acquireKind`: `waited` tells whether the request has been waiting, and
-- `patient` whether it may wait.
unfoldable pub try_acquire : Ticket → Bool → Bool → Gate → Gate × Admission
try_acquire k waited patient g0 =
    let g = record g0 { waiting = g0.waiting - one waited } in
    if k.download && leb g.max_downloads g.downloads
    then (g, busy)
    else if has_room k g
    then (occupy k g, admitted)
    else if not patient || leb g.max_waiters g.waiting
    then (g, busy)
    else (record g { waiting = suc g.waiting }, waits)

-- A request that stops waiting: its timer has run out, or its client is gone.
unfoldable pub stop_waiting : Gate → Gate
stop_waiting g = record g { waiting = g.waiting - 1 }

-- The first call of the release function.
unfoldable pub release : Ticket → Gate → Gate
release k g = record g {
  inflight = g.inflight - 1;
  downloads = g.downloads - one k.download;
  bytes = g.bytes - k.cost;
}
