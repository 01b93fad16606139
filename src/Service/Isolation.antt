-- ===== src/Service/Isolation.antt =====
-- service/state_store.py: what the methods of one user leave of the rows of another.
use media_refinery.Common.{[], ◌∷◌, Bool, List, Option, String, filter, ℕ, ℤ}
use media_refinery.Service.Purge.{purge}
use media_refinery.Service.Scope.{
  finish_run, owns, record_action, record_error, revert_run_actions, set_asset_override,
  set_auto_scan, start_run, store_api_key, upsert_asset, write_audit,
}
use media_refinery.Service.{
  ApiKey, AssetOverride, AuditEntry, AutoScan, Db, SessionRow, UserAction, UserAsset, UserError,
  UserRun,
}
use media_refinery.Actions.{success}
use media_refinery.Security.Cipher.{Bytes}

-- The rows of a user, table by table.
pub record Rows : Type 0 where
  pub assets : List UserAsset
  pub runs : List UserRun
  pub actions : List UserAction
  pub errors : List UserError
  pub asset_overrides : List AssetOverride
  pub sessions : List SessionRow
  pub user_api_keys : List ApiKey
  pub audit_log : List AuditEntry
  pub user_auto_scan : List AutoScan

unfoldable pub rows_of : String → Db → Rows
rows_of user db = record {
  assets = filter (λ row. owns user row.user_id) db.assets;
  runs = filter (λ row. owns user row.user_id) db.runs;
  actions = filter (λ row. owns user row.user_id) db.actions;
  errors = filter (λ row. owns user row.user_id) db.errors;
  asset_overrides = filter (λ row. owns user row.user_id) db.asset_overrides;
  sessions = filter (λ row. owns user row.user_id) db.sessions;
  user_api_keys = filter (λ row. owns user row.user_id) db.user_api_keys;
  audit_log = filter (λ row. owns user row.user_id) db.audit_log;
  user_auto_scan = filter (λ row. owns user row.user_id) db.user_auto_scan;
}

-- One call of a method of the user, or the clock.
pub data UserCall (user : String) : Type 0 where
  do_upsert_asset : String → String → Option String → UserCall user
  do_start_run : Bool → String → UserCall user
  do_record_action : ℕ → String → String → Bool → Bool → Option Bool → Option String → UserCall user
  do_record_error : String → String → Option ℕ → Option String → Option String → UserCall user
  do_finish_run : ℕ → String → Option String → UserCall user
  do_revert_run_actions : ℕ → UserCall user
  do_write_audit :
      String
      → Option String
      → Option ℕ
      → Option String
      → Option String
      → Option String
      → UserCall user
  do_set_asset_override : String → Option String → String → UserCall user
  do_store_api_key : Bytes → Option String → UserCall user
  do_set_auto_scan : Bool → ℤ → UserCall user
  do_purge : UserCall user

-- The tables after a call.
unfoldable pub run_call : (user : String) → UserCall user → Db → Db
run_call user (do_upsert_asset asset_id media_type checksum) db =
    upsert_asset user asset_id media_type checksum db
run_call user (do_start_run dry_run command) db = (start_run user dry_run command db).1
run_call user (do_record_action run_id asset_id name dry_run would_apply success error_code) db =
    (record_action user run_id asset_id name dry_run would_apply success error_code db).1
run_call user (do_record_error stage message_code run_id asset_id message) db =
    (record_error user stage message_code run_id asset_id message db).1
run_call user (do_finish_run run_id status summary_json) db =
    (finish_run user run_id status summary_json db).1
run_call user (do_revert_run_actions run_id) db = (revert_run_actions user run_id db).1
run_call user (do_write_audit action target_asset_id run_id before after details_json) db =
    (write_audit user action target_asset_id run_id before after details_json db).1
run_call user (do_set_asset_override asset_id category_id reason) db =
    (set_asset_override user asset_id category_id reason db).1
run_call user (do_store_api_key encrypted_key label) db =
    (store_api_key user encrypted_key label db).1
run_call user (do_set_auto_scan enabled interval_minutes) db =
    set_auto_scan user enabled interval_minutes db
run_call user do_purge db = purge user db

-- Calls of several users, in the order in which they reach the tables.
unfoldable pub run_calls : List ((user : String) × UserCall user) → Db → Db
unfolding run_call
run_calls [] db = db
run_calls ((user, call) ∷ rest) db = run_calls rest (run_call user call db)

abbrev pub no_rows : Rows
no_rows = record {
  assets = [];
  runs = [];
  actions = [];
  errors = [];
  asset_overrides = [];
  sessions = [];
  user_api_keys = [];
  audit_log = [];
  user_auto_scan = [];
}
