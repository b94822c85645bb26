-- ===== src/Alerts/Deliveries.antt =====
-- internal/store/alerts.go: the table `alert_deliveries`, written by observations that may come late.
use minicrond.Prelude.{
  ℕ, ◌≡◌, ◌≢◌, refl, sym, ap, ◌∙◌, String, Bool, true, ◌&&◌, Option, none, some, List, [], ◌∷◌,
  find, select, not, if◌then◌else◌, leb, ◌==◌, string_eq, ==_refl, arith, Bool-cases, inl, inr,
}

-- A row of the table.
pub record AlertRow : Type 0 where
  pub run_id : String
  pub channel : String
  pub status : String
  pub attempts : ℕ
  pub last_error : String
  pub updated_us : ℕ

-- `AlertUpdate`: without a time it was observed now.
pub record AlertUpdate : Type 0 where
  pub run_id : String
  pub channel : String
  pub status : String
  pub attempts : ℕ
  pub last_error : String
  pub at : Option ℕ

-- `stamp`.
abbrev pub stamp : ℕ → AlertUpdate → ℕ
stamp now u = elim u.at [ some t ↦ t | none ↦ now ]

abbrev pub alert_row : ℕ → AlertUpdate → AlertRow
alert_row now u = record {
  run_id = u.run_id;
  channel = u.channel;
  status = u.status;
  attempts = u.attempts;
  last_error = u.last_error;
  updated_us = stamp now u;
}

-- The conflict of `recordAlert`: the same run and channel.
abbrev pub same_alert : AlertUpdate → AlertRow → Bool
same_alert u r = r.run_id == u.run_id && r.channel == u.channel

-- `DO UPDATE ... WHERE excluded.updated_us >= alert_deliveries.updated_us`.
abbrev pub overwrite : ℕ → AlertUpdate → AlertRow → AlertRow
overwrite now u r = if leb r.updated_us (stamp now u) then alert_row now u else r

-- `recordAlert`.
unfoldable pub record_alert : ℕ → AlertUpdate → List AlertRow → List AlertRow
record_alert now u [] = alert_row now u ∷ []
record_alert now u (r ∷ rs) =
    let rest = record_alert now u rs in if same_alert u r then overwrite now u r ∷ rs else r ∷ rest

-- `RecordAlerts` in a transaction that commits.
unfoldable pub record_alerts : ℕ → List AlertUpdate → List AlertRow → List AlertRow
record_alerts now [] rows = rows
record_alerts now (u ∷ us) rows = record_alerts now us (record_alert now u rows)

-- `RecordAlertsForStoredRuns`: the updates of runs without a row, and the table.
unfoldable pub record_alerts_for_stored :
    (String → Bool) → ℕ → List AlertUpdate → List AlertRow → List AlertUpdate × List AlertRow
record_alerts_for_stored stored now [] rows = ([], rows)
record_alerts_for_stored stored now (u ∷ us) rows =
    let written = record_alerts_for_stored stored now us (record_alert now u rows) in
    let kept = record_alerts_for_stored stored now us rows in
    if stored u.run_id then written else (u ∷ kept.0, kept.1)

-- The row that an update leaves where there was this one, or none.
abbrev pub newer : ℕ → AlertUpdate → Option AlertRow → AlertRow
newer now u none = alert_row now u
newer now u (some r) = overwrite now u r

own_row : (now : ℕ) (u : AlertUpdate) → same_alert u (alert_row now u) ≡ true
own_row now u = rw (==_refl u.run_id, ==_refl u.channel) refl

overwrite_found :
    (now : ℕ) (u : AlertUpdate) (r : AlertRow)
    → same_alert u r ≡ true
    → same_alert u (overwrite now u r) ≡ true
overwrite_found now u r h = elim (Bool-cases (leb r.updated_us (stamp now u))) [
  | inl e ↦ rw e (own_row now u)
  | inr e ↦ rw e h
]

find-record_alert :
    (now : ℕ) (u : AlertUpdate) (rows : List AlertRow)
    → find (same_alert u) (record_alert now u rows) ≡ some (newer now u (find (same_alert u) rows))
unfolding record_alert
find-record_alert now u [] = rw (own_row now u) refl
find-record_alert now u (r ∷ rs) = elim (Bool-cases (same_alert u r)) [
  | inl e ↦ rw e (rw (overwrite_found now u r e) refl)
  | inr e ↦ rw e (rw e (find-record_alert now u rs))
]

newer-order :
    (m n : ℕ) (u v : AlertUpdate) (o : Option AlertRow)
    → stamp m u ≢ stamp n v
    → newer n v (some (newer m u o)) ≡ newer m u (some (newer n v o))
newer-order m n u v none h = ground (arith, h)
newer-order m n u v (some r) h = ground (arith, h)

-- Two observations of one delivery that were made at different times leave the same row for it in
-- whichever order they are written.
pub record_alert-order :
    (m n : ℕ) (u v : AlertUpdate) (rows : List AlertRow)
    → u.run_id ≡ v.run_id
    → u.channel ≡ v.channel
    → stamp m u ≢ stamp n v
    → find (same_alert u) (record_alert n v (record_alert m u rows))
      ≡ find (same_alert u) (record_alert m u (record_alert n v rows))
record_alert-order m n u v rows e f h =
    let same : same_alert u ≡ same_alert v = λ j r. r.run_id == e j && r.channel == f j in
    let first : find (same_alert u) (record_alert n v (record_alert m u rows))
        ≡ some (newer n v (some (newer m u (find (same_alert u) rows)))) =
      ap (λ q. find q (record_alert n v (record_alert m u rows))) same
      ∙ find-record_alert n v (record_alert m u rows)
      ∙ ap (λ q. some (newer n v (find q (record_alert m u rows)))) (sym same)
      ∙ ap (λ x. some (newer n v x)) (find-record_alert m u rows) in
    let last : find (same_alert u) (record_alert n v rows)
        ≡ some (newer n v (find (same_alert u) rows)) =
      ap (λ q. find q (record_alert n v rows)) same
      ∙ find-record_alert n v rows
      ∙ ap (λ q. some (newer n v (find q rows))) (sym same) in
    first
    ∙ ap some (newer-order m n u v (find (same_alert u) rows) h)
    ∙ sym (find-record_alert m u (record_alert n v rows) ∙ ap (λ x. some (newer m u x)) last)

-- The updates of runs that have a row are written, in their order, and the others come back in theirs.
pub record_alerts_for_stored-Parts :
    (stored : String → Bool) (now : ℕ) (us : List AlertUpdate) (rows : List AlertRow)
    → record_alerts_for_stored stored now us rows ≡ (
      select (λ u. not (stored u.run_id)) us,
      record_alerts now (select (λ u. stored u.run_id) us) rows,
    )
unfolding record_alerts_for_stored record_alerts
record_alerts_for_stored-Parts stored now [] rows = refl
record_alerts_for_stored-Parts stored now (u ∷ us) rows = elim (Bool-cases (stored u.run_id)) [
  | inl e ↦ rw e (record_alerts_for_stored-Parts stored now us (record_alert now u rows))
  | inr e ↦ rw e (λ j. (
    u ∷ (record_alerts_for_stored-Parts stored now us rows j).0,
    (record_alerts_for_stored-Parts stored now us rows j).1,
  ))
]
