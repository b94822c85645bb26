-- ===== src/Alerts/Park.antt =====
-- internal/daemon/alert_park.go: observations of runs whose row is not stored yet. The map from runs to
-- observations is one list, and which runs wait in the history writer is an argument.
use minicrond.Prelude.{
  ℕ, suc, ◌+◌, ◌-◌, ◌≡◌, refl, String, Bool, true, false, not, List, [], ◌∷◌, ◌++◌, length, has,
  select, if◌then◌else◌, leb, ◌==◌, string_eq, arith, length-append,
}
use minicrond.Alerts.Deliveries.{AlertUpdate, AlertRow, record_alerts_for_stored}

-- `alertPark`.
pub record AlertPark : Type 0 where
  pub parked : List AlertUpdate
  pub count : ℕ

-- `maxParkedAlerts`.
abbrev pub max_parked_alerts : ℕ
max_parked_alerts = 256

abbrev pub of_run_id : String → AlertUpdate → Bool
of_run_id id u = u.run_id == id

abbrev pub of_others : String → AlertUpdate → Bool
of_others id u = not (u.run_id == id)

-- What a flush leaves: how many observations were discarded, the park and the table.
pub record AfterFlush : Type 0 where
  pub discarded : ℕ
  pub park : AlertPark
  pub rows : List AlertRow

abbrev write_parked :
    (String → Bool) → Bool → ℕ → List AlertUpdate → AlertPark → List AlertRow → AfterFlush
write_parked stored fails now [] p rows = record { discarded = 0; park = p; rows = rows }
write_parked stored fails now (u ∷ us) p rows =
    let w = record_alerts_for_stored stored now (u ∷ us) rows in
    if fails
    then record { discarded = suc (length us); park = p; rows = rows }
    else record { discarded = length w.0; park = p; rows = w.1 }

abbrev take_out : String → AlertPark → AlertPark
take_out id p = record {
  parked = select (of_others id) p.parked;
  count = p.count - length (select (of_run_id id) p.parked);
}

-- `flush`; `fails` tells that the database did.
unfoldable pub flush_park :
    (String → Bool) → Bool → ℕ → String → AlertPark → List AlertRow → AfterFlush
flush_park stored fails now id p rows =
    write_parked stored fails now (select (of_run_id id) p.parked) (take_out id p) rows

abbrev pub park_one : AlertUpdate → AlertPark → AlertPark
park_one u p = record { parked = p.parked ++ (u ∷ []); count = p.count + 1 }

-- The loop of `park`: the runs to check again, the overflow and the park.
unfoldable pub park_each :
    (String → Bool) → List AlertUpdate → AlertPark → List String × (ℕ × AlertPark)
park_each pending [] p = ([], (0, p))
park_each pending (u ∷ us) p =
    let pushed = park_each pending us (park_one u p) in
    let dropped = park_each pending us p in
    if not (pending u.run_id)
    then (if has (of_run_id u.run_id) p.parked then pushed else (u.run_id ∷ pushed.0, pushed.1))
    else if leb max_parked_alerts p.count
    then (dropped.0, (suc dropped.1.0, dropped.1.1))
    else pushed

unfoldable pub flush_each :
    (String → Bool) → Bool → ℕ → List String → AlertPark → List AlertRow → AfterFlush
flush_each stored fails now [] p rows = record { discarded = 0; park = p; rows = rows }
flush_each stored fails now (id ∷ ids) p rows =
    let a = flush_park stored fails now id p rows in
    let b = flush_each stored fails now ids a.park a.rows in
    record b { discarded = a.discarded + b.discarded }

-- `park`.
unfoldable pub park_missing :
    (String → Bool)
    → (String → Bool)
    → Bool
    → ℕ
    → List AlertUpdate
    → AlertPark
    → List AlertRow
    → AfterFlush
park_missing pending stored fails now missing p rows =
    let k = park_each pending missing p in flush_each stored fails now k.0 k.1.1 rows

-- The counter is the number of parked observations.
abbrev pub Exact : AlertPark → Type 0
Exact p = p.count ≡ length p.parked

select_parts :
    (id : String) (us : List AlertUpdate)
    → length (select (of_run_id id) us) + length (select (of_others id) us) ≡ length us
select_parts id [] = omega arith
select_parts id (u ∷ us) = ground (arith, select_parts id us)

take_out-Exact : (id : String) (p : AlertPark) → Exact p → Exact (take_out id p)
take_out-Exact id p h = omega (arith, h, select_parts id p.parked)

write_parked-park :
    (stored : String → Bool) (fails : Bool) (now : ℕ) (us : List AlertUpdate) (p : AlertPark)
    → (rows : List AlertRow) → (write_parked stored fails now us p rows).park ≡ p
write_parked-park stored fails now [] p rows = refl
write_parked-park stored true now (u ∷ us) p rows = refl
write_parked-park stored false now (u ∷ us) p rows = refl

flush_park-Exact :
    (stored : String → Bool) (fails : Bool) (now : ℕ) (id : String) (p : AlertPark)
    → (rows : List AlertRow) → Exact p
    → Exact (flush_park stored fails now id p rows).park
unfolding flush_park
flush_park-Exact stored fails now id p rows h =
    rw (write_parked-park stored fails now (select (of_run_id id) p.parked) (take_out id p) rows)
      (take_out-Exact id p h)

flush_each-Exact :
    (stored : String → Bool) (fails : Bool) (now : ℕ) (ids : List String) (p : AlertPark)
    → (rows : List AlertRow) → Exact p
    → Exact (flush_each stored fails now ids p rows).park
unfolding flush_each
flush_each-Exact stored fails now [] p rows h = h
flush_each-Exact stored fails now (id ∷ ids) p rows h =
    let a = flush_park stored fails now id p rows in
    flush_each-Exact stored fails now ids a.park a.rows
      (flush_park-Exact stored fails now id p rows h)

pub park_one-Exact : (u : AlertUpdate) (p : AlertPark) → Exact p → Exact (park_one u p)
park_one-Exact u p h = omega (arith, h, length-append p.parked (u ∷ []))

park_each-Exact :
    (pending : String → Bool) (us : List AlertUpdate) (p : AlertPark)
    → Exact p
    → Exact (park_each pending us p).1.1
unfolding park_each
park_each-Exact pending [] p h = h
park_each-Exact pending (u ∷ us) p h =
    let a = park_each-Exact pending us (park_one u p) (park_one-Exact u p h) in
    let b = park_each-Exact pending us p h in ground (arith, a, b)

-- `park` keeps the counter of the park right.
pub park_missing-Exact :
    (pending stored : String → Bool) (fails : Bool) (now : ℕ) (us : List AlertUpdate)
    → (p : AlertPark) → (rows : List AlertRow) → Exact p
    → Exact (park_missing pending stored fails now us p rows).park
unfolding park_missing
park_missing-Exact pending stored fails now us p rows h =
    let k = park_each pending us p in
    flush_each-Exact stored fails now k.0 k.1.1 rows (park_each-Exact pending us p h)
