-- ===== src/Service/Scheduler.antt =====
-- service/scheduler.py: `submit_scan` and the synthetic scan. The thread that it starts is a later call of
-- `synthetic_runner`; the start of the day is an argument.
pub mod Active
pub mod Finish
pub mod Quota
use media_refinery.Common.{
  List, Outcome, String, [], if◌then◌else◌, leb, none, raised, returned, some, true, ℕ, ◌<>◌, ◌∷◌,
}
use media_refinery.Service.{Db, StateFault}
use media_refinery.Service.Scope.{
  ended, finish_run, has_active_run, record_action, runs_started_today, start_run, upsert_asset,
  write_audit,
}

-- The reason of a `ScanRejected`.
pub data ScanRejected : Type 0 where
  concurrency_cap daily_quota : ScanRejected

abbrev pub default_daily_quota : ℕ
default_daily_quota = 24

-- `_today_start_iso` of the day's date
abbrev pub today_start_iso : String → String
today_start_iso day = day <> "T00:00:00"

module _ (user : String) where
  unfoldable pub submit_scan : ℕ → String → Db → Outcome ScanRejected ℕ × Db
  submit_scan quota day db =
      if has_active_run user db
      then (raised concurrency_cap, db)
      else if leb quota (runs_started_today user (today_start_iso day) db)
      then (raised daily_quota, db)
      else let (run_id, started) = start_run user true "scan" db in
        (
          returned run_id,
          (write_audit user "scan.start" none (some run_id) none none none started).1,
        )

  -- The loop over the synthetic assets.
  unfoldable pub synthetic_actions : ℕ → List (String × String) → Db → Outcome StateFault Unit × Db
  synthetic_actions run_id [] db = (returned tt, db)
  synthetic_actions run_id ((asset_id, name) ∷ rest) db =
      let seen = upsert_asset user asset_id "image" none db in
      let (recorded, after) =
        record_action user run_id asset_id name true true (some true) none seen in
      let others = synthetic_actions run_id rest after in
      elim recorded [ raised e ↦ (raised e, after) | returned _ ↦ others ]

  -- The runner of scans without a model; an exception ends the run as failed.
  unfoldable pub synthetic_runner : ℕ → Db → Outcome StateFault Unit × Db
  unfolding synthetic_actions
  synthetic_runner run_id db =
      let (done, after) =
        synthetic_actions run_id (("synthetic-1", "tag") ∷ ("synthetic-2", "tag") ∷ []) db in
      elim done [
        | raised e ↦ finish_run user run_id "failed" none after
        | returned _ ↦
            let (id, audited) =
              write_audit user "scan.finish" none (some run_id) none none none after in
            let (ended, final) =
              finish_run user run_id "completed" (some "{\"processed\": 2, \"synthetic\": true}")
                audited in
            elim ended [
              | raised e ↦ finish_run user run_id "failed" none final
              | returned u ↦ (returned u, final)
            ]
      ]
