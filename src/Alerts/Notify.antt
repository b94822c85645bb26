-- ===== src/Alerts/Notify.antt =====
-- internal/alerts/alerts.go: `Notify` on the dispatcher's state. Which channels are loaded and what they deliver is
-- a registry; the queue of deliveries is bounded, and the transport is left out.
use Prim.Native.String.{◌++◌ as ◌++ₛ◌}
use minicrond.Prelude.{
  ℕ, ◌+◌, String, Bool, ◌&&◌, Option, none, some, List, [], ◌∷◌, ◌++◌, length, has, find,
  if◌then◌else◌, ◌==◌, string_eq, ltb,
}
use minicrond.Alerts.Drops.{Drops, observe_drop, max_drop_observations}

-- `model.AlertStatuses`, and `newStatusSet` with `has`: a status that no channel can choose is in no set.
abbrev alert_statuses : List String
alert_statuses = "succeeded" ∷ "failed" ∷ "timeout" ∷ "skipped" ∷ "missed" ∷ "exhausted" ∷ []

abbrev in_status_set : List String → String → Bool
in_status_set statuses s = has (◌==◌ s) alert_statuses && has (◌==◌ s) statuses

-- `model.DefaultNotifyOn`.
abbrev default_notify_on : List String
default_notify_on = "failed" ∷ "timeout" ∷ "exhausted" ∷ []

-- A loaded channel: `windows` and `notifyOn` under its name.
pub record LoadedChannel : Type 0 where
  pub name : String
  pub window : ℕ
  pub notify_on : List String

-- `delivery`, for the run with this identity and status.
pub record Delivery : Type 0 where
  pub run_id : String
  pub status : String
  pub name : String
  pub window : ℕ

-- `Dispatcher`: its registry, its queue, `pending`, `closed` and the shed alerts.
pub record Dispatcher : Type 0 where
  pub channels : List LoadedChannel
  pub queue : List Delivery
  pub pending : ℕ
  pub closed : Bool
  pub drops : Drops

-- The places of `queue`.
abbrev pub queue_size : ℕ
queue_size = 256

abbrev pub channel_of : List LoadedChannel → String → Option LoadedChannel
channel_of channels name = find (λ c. c.name == name) channels

abbrev notify_on_of : Option LoadedChannel → List String
notify_on_of none = default_notify_on
notify_on_of (some c) = c.notify_on

-- The status is one that the channel delivers.
abbrev pub wants : List LoadedChannel → String → String → Bool
wants channels status name = in_status_set (notify_on_of (channel_of channels name)) status

-- `deliveryRecordName`.
abbrev pub delivery_record_name : String → String → String
delivery_record_name name status =
    if status == "exhausted" then name ++ₛ "~worker_exhausted" else name

-- `observeDrop` for a name.
abbrev pub shed : String → String → String → String → Dispatcher → Dispatcher
shed run_id status name reason d = record d {
  drops =
      observe_drop max_drop_observations
        (record {
          run_id = run_id;
          channel = delivery_record_name name status;
          status = "dropped";
          attempts = 0;
          reason = reason;
        })
        d.drops;
}

abbrev pub deliver : String → String → String → Option LoadedChannel → Dispatcher → Dispatcher
deliver run_id status name none d = shed run_id status name "alert channel is unavailable" d
deliver run_id status name (some c) d =
    if ltb (length d.queue) queue_size
    then record d {
      queue =
          d.queue
          ++ (record { run_id = run_id; status = status; name = name; window = c.window } ∷ []);
      pending = d.pending + 1;
    }
    else shed run_id status name "alert queue is full" d

-- One turn of the loop of `Notify`.
unfoldable pub notify_one : String → String → String → Dispatcher → Dispatcher
notify_one run_id status name d =
    if wants d.channels status name
    then deliver run_id status name (channel_of d.channels name) d
    else d

abbrev pub notify_each : String → String → List String → Dispatcher → Dispatcher
notify_each run_id status [] d = d
notify_each run_id status (name ∷ names) d =
    notify_each run_id status names (notify_one run_id status name d)

-- `Notify` with the definition's `alerts`.
unfoldable pub notify_alerts : String → String → List String → Dispatcher → Dispatcher
notify_alerts run_id status alerts d = if d.closed then d else notify_each run_id status alerts d
