-- ===== src/Store/Tables.antt =====
-- internal/store/store.go (the schema), internal/store/queue.go and internal/model/model.go: the
-- tables `runs`, `exec_queue` and `idempotency`, with the constraints that the schema puts on an
-- insert. A NULL text is the empty text, as `scanRun` reads it; a NULL time is `none`. Times are
-- microseconds in the tables and nanoseconds on the clock.
use minicrond.Prelude.{
  ℤ, nat_eq, string_eq, ◌||◌, ℕ, suc, ◌+◌, ◌*◌, ◌/◌, String, ◌≡◌, refl, ap, ◌↔◌, Bool, true, false,
  ◌&&◌, Option, some, List, [], ◌∷◌, ◌++◌, arith, Eq, ◌==◌, eqb, has, if◌then◌else◌,
}

pub data Status : Type 0 where
  queued pending running succeeded failed timeout stopped interrupted skipped missed : Status

abbrev pub terminal : Status → Bool
terminal queued = false
terminal pending = false
terminal running = false
terminal _ = true

-- A number for each status, by which they are compared.
abbrev pub number : Status → ℕ
number queued = 0
number pending = 1
number running = 2
number succeeded = 3
number failed = 4
number timeout = 5
number stopped = 6
number interrupted = 7
number skipped = 8
number missed = 9

abbrev of_number : ℕ → Status
of_number n =
    if eqb n 0
    then queued
    else if eqb n 1
    then pending
    else if eqb n 2
    then running
    else if eqb n 3
    then succeeded
    else if eqb n 4
    then failed
    else if eqb n 5
    then timeout
    else if eqb n 6
    then stopped
    else if eqb n 7
    then interrupted
    else if eqb n 8
    then skipped
    else missed

of_number-number : (s : Status) → of_number (number s) ≡ s
of_number-number queued = refl
of_number-number _ = refl

pub status_iff : (a b : Status) → (eqb (number a) (number b) ≡ true) ↔ (a ≡ b)
status_iff a b = (
  λ h. ground (arith, ap of_number (num h), of_number-number a, of_number-number b),
  λ e. ground arith,
)
  where
    num : eqb (number a) (number b) ≡ true → number a ≡ number b
    num h = ground arith

instance abbrev pub status_eq : Eq Status
status_eq = record { same = λ a b. eqb (number a) (number b); same_iff = status_iff }

pub data Kind : Type 0 where
  job worker : Kind

-- `model.ResourceUsage`.
pub record ResourceUsage : Type 0 where
  pub user_cpu_us : ℕ
  pub system_cpu_us : ℕ
  pub peak_rss_bytes : ℕ

-- `model.Run`.
pub record Run : Type 0 where
  pub id : String
  pub definition_id : ℕ
  pub job_name : String
  pub kind : Kind
  pub revision : ℕ
  pub definition_hash : String
  pub status : Status
  pub end_reason : String
  pub trigger : String
  pub attempt : ℕ
  pub parent_run_id : String
  pub scheduled_for_us : Option ℕ
  pub missed_count : ℕ
  pub boot_id : String
  pub pid : ℕ
  pub pgid : ℕ
  pub process_start_id : String
  pub exit_code : Option ℤ
  pub signal : String
  pub queued_us : ℕ
  pub started_us : Option ℕ
  pub ended_us : Option ℕ
  pub log_ref : String
  pub log_bytes : ℕ
  pub log_truncated : Bool
  pub resource_usage : Option ResourceUsage

-- A row of `exec_queue`.
pub record QueueRow : Type 0 where
  pub seq : ℕ
  pub run_id : String
  pub definition_id : ℕ
  pub enqueued_us : ℕ
  pub expires_us : ℕ
  pub payload_bytes : ℕ

-- `Idempotency`: a replay key and the hash of the request that used it.
pub record Idempotency : Type 0 where
  pub principal : String
  pub operation : String
  pub key : String
  pub request_hash : String

-- A row of `idempotency`.
pub record KeyRow : Type 0 where
  pub idem : Idempotency
  pub run_id : String
  pub created_us : ℕ

-- `next_seq` is SQLite's AUTOINCREMENT counter of `exec_queue`: a sequence number is never used
-- again. The rows of `queue` stand in the order of their insertion.
pub record Db : Type 0 where
  pub runs : List Run
  pub queue : List QueueRow
  pub keys : List KeyRow
  pub next_seq : ℕ

pub data Limit : Type 0 where
  max_items max_per_job max_bytes : Limit

pub data Error : Type 0 where
  storage constraint not_found invalid_transition : Error
  queue_duplicate : Error
  queue_full : Limit → Error
  idempotency_conflict idempotency_key_exists : Error
  read_only revision_conflict unknown_alert_channel source_conflict : Error

-- The `error` result of an operation. An operation that fails has rolled its transaction back.
pub data Result {ℓ} (V : Type ℓ) : Type ℓ where
  err : Error → Result V
  ok : V → Result V

abbrev pub guard : Bool → Error → Result (Unit {0})
guard b e = if b then ok tt else err e

infixl 5 ◌>>=◌ ◌>>◌
abbrev pub ◌>>=◌ {ℓ κ} : {V : Type ℓ} {W : Type κ} → Result V → (V → Result W) → Result W
err e >>= step = err e
ok v >>= step = step v

abbrev pub ◌>>◌ {ℓ} : {W : Type ℓ} → Result (Unit {0}) → Result W → Result W
first >> rest = first >>= λ _. rest

-- Inversion of a chain that succeeds.
pub >>=-eq-ok {ℓ κ} :
    {V : Type ℓ} {W : Type κ} (m : Result V) (step : V → Result W) {w : W}
    → (m >>= step) ≡ ok w
    → (v : V) × (m ≡ ok v) × (step v ≡ ok w)
>>=-eq-ok (err e) step h = cc
>>=-eq-ok (ok v) step h = (v, refl, h)

-- `t.UnixMicro()` of a clock reading in nanoseconds.
abbrev pub unix_micro : ℕ → ℕ
unix_micro t = t / 1000

abbrev pub day : ℕ
day = 24 * 3600 * 1000000000

abbrev pub has_id : String → Run → Bool
has_id id r = r.id == id

abbrev pub same_key : Idempotency → KeyRow → Bool
same_key i k =
    k.idem.principal == i.principal && (k.idem.operation == i.operation && k.idem.key == i.key)

-- The occurrence that `idx_runs_schedule_occurrence` keeps unique.
abbrev same_time : Option ℕ → Option ℕ → Bool
same_time (some s) (some t) = s == t
same_time _ _ = false

abbrev pub same_occurrence : Run → Run → Bool
same_occurrence r x =
    r.trigger == "schedule"
    && (x.trigger == "schedule"
        && (x.definition_id == r.definition_id && same_time x.scheduled_for_us r.scheduled_for_us))

-- `createRunSQL`: the insert, under the primary key and the unique index.
unfoldable pub insert_run : Run → Db → Result Db
insert_run r db =
    if has (λ x. has_id r.id x || same_occurrence r x) db.runs
    then err constraint
    else ok (record db { runs = r ∷ db.runs })

-- The row of a run that is queued on the clock reading `now`, under the sequence number `seq`.
abbrev pub queue_row : Run → ℕ → ℕ → ℕ → ℕ → QueueRow
queue_row r now max_age size seq = record {
  seq = seq;
  run_id = r.id;
  definition_id = r.definition_id;
  enqueued_us = unix_micro now;
  expires_us = unix_micro (now + max_age);
  payload_bytes = size;
}

-- The insert into `exec_queue`, under `run_id ... UNIQUE`.
unfoldable pub insert_queue : Run → ℕ → ℕ → ℕ → Db → Result Db
insert_queue r now max_age size db =
    if has (λ q. q.run_id == r.id) db.queue
    then err constraint
    else ok (record db {
      queue = db.queue ++ queue_row r now max_age size db.next_seq ∷ [];
      next_seq = suc db.next_seq;
    })

-- The insert into `idempotency`, under its primary key.
unfoldable pub insert_key : Idempotency → String → ℕ → Db → Result Db
insert_key i run_id now db =
    if has (same_key i) db.keys
    then err constraint
    else ok (record db {
      keys = record { idem = i; run_id = run_id; created_us = unix_micro now } ∷ db.keys;
    })
