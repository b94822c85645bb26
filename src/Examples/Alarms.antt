-- ===== src/Examples/Alarms.antt =====
-- The alerts of a failed run: one channel loaded, one missing; and a ring of two places.
use minicrond.Prelude.{
  true, some, find, ◌≡◌, refl, false, List, [], ◌∷◌, length, String, ◌-◌, arith,
}
use minicrond.Alerts.Drops.{Record, no_drops, observe_all, flushed}
use minicrond.Alerts.Newest.{newest, flushed-observe_all}
use minicrond.Alerts.Notify.{Dispatcher, notify_alerts}
use minicrond.Alerts.Deliveries.{AlertUpdate, record_alert, same_alert, record_alert-order}
use minicrond.Alerts.Park.{AlertPark, park_each}
use minicrond.Alerts.Parked.{Parked, park_each-Parked}
use minicrond.Alerts.Account.{Accounted, notify_alerts-Accounted}

abbrev note : String → Record
note id = record { run_id = id; channel = "ops"; status = "dropped"; attempts = 0; reason = "full" }

abbrev notes : List Record
notes = note "a" ∷ note "b" ∷ note "c" ∷ []

flushed-observe_all_example :
    (flushed (observe_all 2 notes no_drops) ≡ newest 2 notes)
    × ((observe_all 2 notes no_drops).overflow ≡ length notes - 2)
flushed-observe_all_example = flushed-observe_all 2 notes (omega arith)

abbrev started : Dispatcher
started = record {
  channels = record { name = "ops"; window = 5; notify_on = "failed" ∷ [] } ∷ [];
  queue = [];
  pending = 0;
  closed = false;
  drops = no_drops;
}

notify_alerts-Accounted_example :
    Accounted "r1" "failed"
      ("ops" ∷ "gone" ∷ [])
      started
      (notify_alerts "r1" "failed" ("ops" ∷ "gone" ∷ []) started)
notify_alerts-Accounted_example =
    notify_alerts-Accounted "r1" "failed" ("ops" ∷ "gone" ∷ []) started refl

abbrev sent : AlertUpdate
sent = record {
  run_id = "r1";
  channel = "ops";
  status = "sent";
  attempts = 1;
  last_error = "";
  at = some 7;
}

abbrev queued : AlertUpdate
queued = record sent { status = "queued"; attempts = 0; at = some 5 }

record_alert-order_example :
    find (same_alert sent) (record_alert 9 queued (record_alert 8 sent []))
    ≡ find (same_alert sent) (record_alert 8 sent (record_alert 9 queued []))
record_alert-order_example =
    record_alert-order 8 9 sent queued [] refl refl (λ e. ground (arith, e))

abbrev empty_park : AlertPark
empty_park = record { parked = []; count = 0 }

park_each-Parked_example :
    Parked
      (λ id. true)
      (queued ∷ sent ∷ [])
      empty_park
      (park_each (λ id. true) (queued ∷ sent ∷ []) empty_park)
park_each-Parked_example = park_each-Parked (λ id. true) (queued ∷ sent ∷ []) empty_park refl
