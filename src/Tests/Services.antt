-- ===== src/Tests/Services.antt =====
-- The theorems on the service's tables and its scheduler at concrete data.
use media_refinery.Common.{
  text_ltb, List, String, [], arith, false, none, refl, returned, some, true, ◌∷◌, ◌≡◌,
}
use media_refinery.Service.Isolation.{
  UserCall, do_finish_run, do_purge, do_store_api_key, do_upsert_asset,
}
use media_refinery.Service.Scope.{runs_started_today, has_active_run, start_run}
use media_refinery.Service.{Db, UserRun}
use media_refinery.Service.Scheduler.{submit_scan, synthetic_runner}
use media_refinery.Service.Scheduler.Active.{
  Event, IsSingle, failed, run_events, run_events-IsSingle, submitted,
}
use media_refinery.Service.Scheduler.Finish.{IsNumbered, synthetic_scan_ends}
use media_refinery.Service.Scheduler.Quota.{IsStamped, submit_scan_of_today}

abbrev old_run : UserRun
old_run = record {
  id = 1;
  user_id = "u1";
  started_at = "2026-04-01 08:00:00";
  ended_at = some "2026-04-01 08:05:00";
  status = "completed";
  dry_run = true;
  command = "scan";
  summary_json = none;
}

abbrev other_run : UserRun
other_run = record {
  id = 2;
  user_id = "u2";
  started_at = "2026-04-01 08:10:00";
  ended_at = none;
  status = "running";
  dry_run = true;
  command = "scan";
  summary_json = none;
}

abbrev pub tables : Db
tables = record {
  assets = [];
  runs = old_run ∷ other_run ∷ [];
  actions = [];
  errors = [];
  asset_overrides = [];
  sessions = [];
  user_api_keys = [];
  audit_log = [];
  user_auto_scan = [];
  last_run = 2;
  last_action = 0;
  last_error = 0;
  last_key = 0;
  last_audit = 0;
  clock = "2026-04-01 09:00:00";
}

abbrev calls : List ((user : String) × UserCall user)
calls =
    ("u1", do_upsert_asset "a" "image" none)
    ∷ ("u1", do_finish_run 2 "failed" none)
    ∷ ("u3", do_store_api_key [] none)
    ∷ ("u1", do_purge)
    ∷ []

abbrev events : List Event
events =
    submitted "u1" 24 "2026-04-01"
    ∷ submitted "u1" 24 "2026-04-01"
    ∷ failed "u2" 2
    ∷ submitted "u2" 24 "2026-04-01"
    ∷ []

no_runs-IsSingle : IsSingle []
unfolding IsSingle
no_runs-IsSingle user = omega arith

abbrev empty_tables : Db
empty_tables = record tables { runs = []; last_run = 0 }

run_events-IsSingle_example : IsSingle (run_events events empty_tables).runs
run_events-IsSingle_example = run_events-IsSingle events empty_tables no_runs-IsSingle

tables-IsNumbered : IsNumbered 2 (old_run ∷ other_run ∷ [])
unfolding IsNumbered
tables-IsNumbered = (omega arith, (omega arith, tt))

submitted_scan : (submit_scan "u1" 24 "2026-04-01" tables).0 ≡ returned 3
unfolding submit_scan has_active_run runs_started_today text_ltb start_run
submitted_scan = refl

synthetic_scan_ends_example :
    ((synthetic_runner "u1" 3 (submit_scan "u1" 24 "2026-04-01" tables).1).0 ≡ returned tt)
    × (has_active_run "u1" (synthetic_runner "u1" 3 (submit_scan "u1" 24 "2026-04-01" tables).1).1
        ≡ false)
synthetic_scan_ends_example =
    synthetic_scan_ends "u1" 24 "2026-04-01" tables tables-IsNumbered submitted_scan

tables-IsStamped : IsStamped "u1" "2026-04-01" (old_run ∷ other_run ∷ [])
unfolding IsStamped
tables-IsStamped = (λ e. ("08:00:00", refl), (λ e. ("08:10:00", refl), tt))

submit_scan_of_today_example : (submit_scan "u1" 1 "2026-04-01" tables).0 ≡ returned 3
unfolding has_active_run
submit_scan_of_today_example =
    submit_scan_of_today "u1" "2026-04-01" 1 tables tables-IsStamped (omega arith) refl
