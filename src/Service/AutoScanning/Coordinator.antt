-- ===== src/Service/AutoScanning/Coordinator.antt =====
-- service/auto_scan.py: `coordinator_tick`, one pass over the users whose auto scan is enabled. The parser of
-- a stored time is a parameter.
use media_refinery.Common.{
  ◌*◌, Bool, List, Option, String, [], filter, if◌then◌else◌, is_some, leb, none, not, raised,
  replace_zulu, returned, some, true, ℕ, ◌+◌, ◌∷◌, ◌≡◌, ◌≤◌,
}
use media_refinery.Client.{DateTime}
use media_refinery.Service.Sessions.{seconds_of}
use media_refinery.Service.{AutoScan, Db}
use media_refinery.Service.AutoScanning.{TickOutcome, clamp_interval}
use media_refinery.Service.AutoScanning.Tick.{TickEnv, run_user_tick}

-- `_is_due`, in seconds; a time without a zone is taken as one of UTC.
unfoldable pub is_due : (String → Option DateTime) → Option String → ℕ → ℕ → Bool
unfolding seconds_of
is_due from_iso_format none interval now = true
is_due from_iso_format (some last_run_at) interval now =
    elim (from_iso_format (replace_zulu last_run_at)) [
      | none ↦ true
      | some last ↦ leb (seconds_of last + interval * 60) now
    ]

-- `list_enabled_auto_scan`
unfoldable pub list_enabled_auto_scan : Db → List AutoScan
list_enabled_auto_scan db = filter (λ row. row.enabled) db.user_auto_scan

module _ (env : TickEnv) (from_iso_format : String → Option DateTime) (now : String)
    (moment : ℕ) where
  unfoldable pub is_due_row : AutoScan → Bool
  unfolding clamp_interval is_due
  is_due_row row =
      is_due from_iso_format row.last_run_at (clamp_interval row.interval_minutes) moment

  -- The loop over the rows: the outcomes, and the tables. An exception of a tick is logged.
  unfoldable pub tick_rows : List AutoScan → Db → List TickOutcome × Db
  unfolding is_due_row
  tick_rows [] db = ([], db)
  tick_rows (row ∷ rows) db =
      let skipped = tick_rows rows db in
      if not (is_due_row row)
      then skipped
      else elim (run_user_tick env row.user_id row.last_seen_taken_at now db) [
        | raised after ↦ tick_rows rows after
        | returned (outcome, after) ↦
            let (outcomes, final) = tick_rows rows after in (outcome ∷ outcomes, final)
      ]

  unfoldable pub coordinator_tick : Db → List TickOutcome × Db
  unfolding list_enabled_auto_scan tick_rows
  coordinator_tick db = tick_rows (list_enabled_auto_scan db) db

  abbrev pub IsTickOf : AutoScan → TickOutcome → Type 0
  IsTickOf row outcome =
      (outcome.user_id ≡ row.user_id)
      × (outcome.pages_walked ≤ env.max_pages)
      × (is_some outcome.error_code ≡ true → outcome.submitted_run_id ≡ none)
