-- ===== src/Examples/Api.antt =====
-- The gate of expensive reads: downloads beside a page.
use minicrond.Prelude.{◌≡◌, refl, ◌<◌, ◌*◌, arith, [], false, true}
use minicrond.Reads.{ReadLimits, new_gate, try_acquire, busy, page_cost}
use minicrond.Reads.Books.{Counts, here, next, arrive, answer, open_server, Server, Reach-Counts}
use minicrond.Reads.Pages.{raw, page, copies, Filled, downloads_exhaust_budget}

-- The default limits, and limits whose budget is two downloads.
abbrev wide : ReadLimits
wide = record { slots = 4; budget = 8 * page_cost }

abbrev narrow : ReadLimits
narrow = record { slots = 4; budget = 2 * page_cost }

abbrev busy_server : Server
busy_server = answer raw [] [] (try_acquire raw false true (open_server wide).gate)

Reach-Counts_example : Counts busy_server
Reach-Counts_example = Reach-Counts wide (next here (arrive raw true refl))

loaded : busy_server.holders ≡ copies 1
unfolding try_acquire new_gate
loaded = refl

downloads_exhaust_budget_example :
    (s : Server) × Filled narrow 2 s
    × (s.gate.inflight < s.gate.slots)
    × ((try_acquire page false false s.gate).1 ≡ busy)
downloads_exhaust_budget_example =
    downloads_exhaust_budget narrow 2 (omega arith) (omega arith) refl
