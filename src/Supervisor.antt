-- ===== src/Supervisor.antt =====
-- internal/supervisor: the restart policy of a worker, its failure budget, and the exhaustion records
-- that operator resets race with. What other goroutines do while this one holds no lock is an
-- argument (`before`, `meanwhile`, `sleeps`); the delays are nanoseconds.
use minicrond.Prelude.{
  nat_eq, string_eq, ℕ, zero, suc, ◌+◌, ◌-◌, ◌*◌, ◌||◌, ◌&&◌, min, String, Bool, true, false,
  Option, none, some, List, [], ◌∷◌, ◌==◌, not, if◌then◌else◌, ltb, leb, eqb,
}
use minicrond.Store.Tables.{Run, Status, succeeded, status_eq}
use minicrond.Model.{Definition}
use minicrond.Executor.State.{second}
pub mod Delay
pub mod Exhausted
pub mod Ended

-- `model.WorkerExhaustion`.
pub record WorkerExhaustion : Type 0 where
  pub reason : String
  pub last_run_id : String
  pub attempts : ℕ
  pub revision : ℕ
  pub at : ℕ

-- `Supervisor`, its maps by the worker's name; `looping` says whether a name has a loop.
pub record Supervisor : Type 0 where
  pub epochs : String → Option ℕ
  pub epoch_base : ℕ
  pub epoch_seq : ℕ
  pub exhausted : String → Option WorkerExhaustion
  pub awaiting : String → Bool
  pub closing : Bool
  pub holds : String → Bool
  pub failures : String → ℕ
  pub active : String → Option String
  pub looping : String → Bool
  pub retiring : String → Bool

-- `m[name] = v`.
abbrev pub put {ℓ} : {A : Type ℓ} → String → A → (String → A) → String → A
put name v m x = if x == name then v else m x

-- The loop of `restartDelay`, at most `n` times round.
unfoldable pub grow : ℕ → ℕ → ℕ → ℕ
grow zero limit delay = delay
grow (suc n) limit delay =
    let rest = grow n limit (delay * 2) in if ltb delay limit then rest else delay

-- `restartDelay`.
unfoldable pub restart_delay : Definition → ℕ → ℕ
unfolding grow
restart_delay d failures =
    let delay = d.restart_delay * second in
    let limit = d.restart_backoff_max * second in
    if eqb limit 0 then delay else min (grow (failures - 1) limit delay) limit

-- `epochLocked`.
unfoldable pub epoch_of : String → Supervisor → ℕ
epoch_of name s = elim (s.epochs name) [ none ↦ s.epoch_base | some e ↦ e ]

pub data Reset : Type 0 where
  reset : Reset
  shut_down not_cleared : Reset

abbrev reset_all : Supervisor → Supervisor
reset_all s = record s {
  epoch_seq = suc s.epoch_seq;
  epoch_base = suc s.epoch_seq;
  epochs = λ _. none;
  failures = λ _. 0;
  exhausted = λ _. none;
  awaiting = λ _. false;
}

abbrev reset_one : String → Supervisor → Supervisor
reset_one name s = record s {
  epoch_seq = suc s.epoch_seq;
  epochs = put name (some (suc s.epoch_seq)) s.epochs;
  failures = put name 0 s.failures;
  exhausted = put name none s.exhausted;
  awaiting = put name false s.awaiting;
}

-- `resetExhaustion`, where `cleared` tells whether the stored records could be cleared. A full reset
-- goes ahead all the same.
unfoldable pub reset_exhaustion : String → Bool → Supervisor → Supervisor × Reset
reset_exhaustion name cleared s =
    if s.closing
    then (s, shut_down)
    else if not cleared && not (name == "")
    then (s, not_cleared)
    else if name == ""
    then (reset_all s, (if cleared then reset else not_cleared))
    else (reset_one name s, reset)

-- What the store answers to the exhaustion record.
pub data Save : Type 0 where
  saved stale failed : Save

-- One round of `persistExhaustion`: what happened before it, whether the worker's context had ended
-- then, the store's answer, and whether the context ends before the next round.
pub record Attempt : Type 0 where
  pub before : Supervisor → Supervisor
  pub canceled : Bool
  pub save : Save
  pub canceled_after : Bool

-- `persistExhaustion`, with the text of its reason made; `none` while the store has not answered.
unfoldable pub persist_exhaustion :
    Definition → ℕ → WorkerExhaustion → List Attempt → Supervisor → Supervisor × Option Bool
unfolding epoch_of
persist_exhaustion d epoch o [] s = (s, none)
persist_exhaustion d epoch o (a ∷ attempts) s =
    let s0 = a.before s in
    let s1 = record s0 {
      exhausted = put d.name (some o) s0.exhausted;
      awaiting = put d.name true s0.awaiting;
    } in
    let rest = persist_exhaustion d epoch o attempts s1 in
    if a.canceled || not (epoch_of d.name s0 == epoch) then (s0, some false) else elim a.save [
      | saved ↦ (record s1 { awaiting = put d.name false s1.awaiting }, some true)
      | stale ↦ (
        record s1 {
          awaiting = put d.name false s1.awaiting;
          exhausted = put d.name none s1.exhausted;
        },
        some true,
      )
      | failed ↦ if a.canceled_after then (s1, some false) else rest
    ]

-- What `restartAfter` meets: the worker's context, the rounds with the store, and the wait.
pub record Meets : Type 0 where
  pub canceled : Bool
  pub outcome : WorkerExhaustion
  pub attempts : List Attempt
  pub meanwhile : Supervisor → Supervisor
  pub sleeps : Supervisor → Supervisor
  pub canceled_wait : Bool

-- The failures in a row, with this end.
abbrev pub account : Definition → Bool → Supervisor → Supervisor
account d healthy s = record s {
  failures = put d.name (if healthy then 0 else suc (s.failures d.name)) s.failures;
}

-- The wait for `restartDelay`.
unfoldable pub wait_restart : Definition → Meets → Supervisor → Supervisor × Option Bool
wait_restart d m s =
    if m.canceled_wait
    then (m.sleeps s, some false)
    else (m.sleeps s, some (not ((m.sleeps s).holds d.name)))

-- Retirement, unless a reset has come between.
unfoldable pub retire : Definition → ℕ → Meets → Supervisor × Option Bool → Supervisor × Option Bool
unfolding epoch_of wait_restart
retire d epoch m (s, none) = (s, none)
retire d epoch m (s, some false) = wait_restart d m s
retire d epoch m (s, some true) =
    let s' = m.meanwhile s in
    if epoch_of d.name s' == epoch
    then (record s' { retiring = put d.name true s'.retiring }, some false)
    else wait_restart d m s'

-- `restartAfter`: whether the worker is started again.
unfoldable pub restart_after : Definition → Bool → Meets → Supervisor → Supervisor × Option Bool
unfolding epoch_of persist_exhaustion retire wait_restart
restart_after d healthy m s =
    if m.canceled
    then (s, some false)
    else (let s1 = account d healthy s in
        let epoch = epoch_of d.name s1 in
        if ltb 0 d.restart_backoff_max
        then wait_restart d m s1
        else if leb d.max_restart_attempts (s1.failures d.name)
        then retire d epoch m (persist_exhaustion d epoch m.outcome m.attempts s1)
        else wait_restart d m s1)

-- The end counts as healthy: the run succeeded, or the process lived for `healthy_after`.
abbrev pub healthy_end : Definition → Run → Bool
healthy_end d r = r.status == succeeded || elim r.started_us [
  | none ↦ false
  | some started ↦ elim r.ended_us [
    | none ↦ false
    | some ended ↦ leb (started + d.healthy_after * 1000000) ended
  ]
]

-- What the worker's loop does with the stored end of its run: whether it goes round again.
unfoldable pub after_run : Definition → Run → Meets → Supervisor → Supervisor × Option Bool
unfolding restart_after
after_run d r m s =
    if s.holds d.name
    then (s, some false)
    else if d.restart == "never" || (d.restart == "on-failure" && r.status == succeeded)
    then (s, some false)
    else restart_after d (healthy_end d r) m s

pub data WorkerStatus : Type 0 where
  stopped running restarting held exhausted_status : WorkerStatus

-- The status of `stateLocked`.
unfoldable pub worker_status : String → Supervisor → WorkerStatus
worker_status name s = elim (s.exhausted name) [
  | some o ↦ exhausted_status
  | none ↦ if s.holds name then held else elim (s.active name) [
    | some id ↦ running
    | none ↦ if s.looping name then restarting else stopped
  ]
]
