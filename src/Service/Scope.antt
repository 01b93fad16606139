-- ===== src/Service/Scope.antt =====
-- service/state_store.py: `UserScopedState`, the methods of one user on the shared tables.
use media_refinery.Service.{
  UserRun, AssetOverride, Db, StateFault, UserAction, first_row, lookup_error, permission_error,
  update_rows, upsert_row,
}
use media_refinery.Common.{
  Bool, Option, Outcome, String, [], any, false, filter, if◌then◌else◌, length, nat_eq, none, not,
  raised, returned, some, suc, text_ltb, ℕ, ℤ, ◌&&◌, ◌++◌, ◌==◌, ◌∷◌,
}
use media_refinery.Security.Cipher.{Bytes}

module _ (user : String) where
  -- `WHERE user_id = ?`
  abbrev pub owns : String → Bool
  owns id = id == user

  unfoldable pub upsert_asset : String → String → Option String → Db → Db
  upsert_asset asset_id media_type checksum db = record db {
    assets =
        upsert_row (λ row. owns row.user_id && (row.asset_id == asset_id))
          (λ row. record row { media_type = media_type; checksum = checksum })
          (record {
            user_id = user;
            asset_id = asset_id;
            media_type = media_type;
            checksum = checksum;
            first_seen = db.clock;
            last_processed = none;
          })
          db.assets;
  }

  unfoldable pub start_run : Bool → String → Db → ℕ × Db
  start_run dry_run command db = (
    suc db.last_run,
    record db {
      runs =
          db.runs
          ++ (record {
            id = suc db.last_run;
            user_id = user;
            started_at = db.clock;
            ended_at = none;
            status = "running";
            dry_run = dry_run;
            command = command;
            summary_json = none;
          }
              ∷ []);
      last_run = suc db.last_run;
    },
  )

  unfoldable pub assert_owns_run : ℕ → Db → Outcome StateFault Unit
  assert_owns_run run_id db = elim (first_row (λ row. nat_eq row.id run_id) db.runs) [
    | none ↦ raised lookup_error
    | some row ↦ if owns row.user_id then returned tt else raised permission_error
  ]

  -- A method that first asserts that the run is the user's.
  unfoldable pub on_own_run : {A : Type 0} → ℕ → (Db → A × Db) → Db → Outcome StateFault A × Db
  unfolding assert_owns_run
  on_own_run run_id f db = elim (assert_owns_run run_id db) [
    | raised e ↦ (raised e, db)
    | returned _ ↦ let (a, after) = f db in (returned a, after)
  ]

  unfoldable pub insert_action :
      ℕ → String → String → Bool → Bool → Option Bool → Option String → Db → ℕ × Db
  insert_action run_id asset_id action_name dry_run would_apply success error_code db = (
    suc db.last_action,
    record db {
      actions =
          db.actions
          ++ (record {
            id = suc db.last_action;
            user_id = user;
            run_id = run_id;
            asset_id = asset_id;
            action_name = action_name;
            dry_run = dry_run;
            would_apply = would_apply;
            success = success;
            error_code = error_code;
            ran_at = db.clock;
          }
              ∷ []);
      last_action = suc db.last_action;
    },
  )

  unfoldable pub record_action :
      ℕ
      → String
      → String
      → Bool
      → Bool
      → Option Bool
      → Option String
      → Db
      → Outcome StateFault ℕ × Db
  unfolding on_own_run insert_action
  record_action run_id asset_id action_name dry_run would_apply success error_code db =
      on_own_run run_id
        (insert_action run_id asset_id action_name dry_run would_apply success error_code) db

  unfoldable pub insert_error :
      String → String → Option ℕ → Option String → Option String → Db → ℕ × Db
  insert_error stage message_code run_id asset_id message db = (
    suc db.last_error,
    record db {
      errors =
          db.errors
          ++ (record {
            id = suc db.last_error;
            user_id = user;
            run_id = run_id;
            asset_id = asset_id;
            stage = stage;
            message_code = message_code;
            message = message;
            at = db.clock;
          }
              ∷ []);
      last_error = suc db.last_error;
    },
  )

  unfoldable pub record_error :
      String → String → Option ℕ → Option String → Option String → Db → Outcome StateFault ℕ × Db
  unfolding on_own_run insert_error
  record_error stage message_code (some run_id) asset_id message db =
      on_own_run run_id (insert_error stage message_code (some run_id) asset_id message) db
  record_error stage message_code none asset_id message db =
      let (id, after) = insert_error stage message_code none asset_id message db in
      (returned id, after)

  unfoldable pub has_active_run : Db → Bool
  has_active_run db = any (λ row. owns row.user_id && (row.status == "running")) db.runs

  -- `started_at >= since_iso`, as SQLite compares texts
  unfoldable pub runs_started_today : String → Db → ℕ
  runs_started_today since_iso db =
      length (filter (λ row. owns row.user_id && not (text_ltb row.started_at since_iso)) db.runs)

  abbrev pub end_run : String → Option String → String → UserRun → UserRun
  end_run status summary_json now row = record row {
    status = status;
    ended_at = some now;
    summary_json = summary_json;
  }

  unfoldable pub ended : ℕ → String → Option String → Db → Unit {0} × Db
  ended run_id status summary_json db = (
    tt,
    record db {
      runs =
          update_rows (λ row. nat_eq row.id run_id && owns row.user_id)
            (end_run status summary_json db.clock) db.runs;
    },
  )

  unfoldable pub finish_run : ℕ → String → Option String → Db → Outcome StateFault Unit × Db
  unfolding on_own_run ended
  finish_run run_id status summary_json db = on_own_run run_id (ended run_id status summary_json) db

  unfoldable pub is_done : Option Bool → Bool
  is_done (some b) = b
  is_done none = false

  unfoldable pub is_revertible : ℕ → UserAction → Bool
  unfolding is_done
  is_revertible run_id row = owns row.user_id && nat_eq row.run_id run_id && is_done row.success

  abbrev pub revert_action : UserAction → UserAction
  revert_action row = record row { success = some false; error_code = some "reverted" }

  unfoldable pub reverted : ℕ → Db → ℕ × Db
  unfolding is_revertible
  reverted run_id db = (
    length (filter (is_revertible run_id) db.actions),
    record db { actions = update_rows (is_revertible run_id) revert_action db.actions },
  )

  unfoldable pub revert_run_actions : ℕ → Db → Outcome StateFault ℕ × Db
  unfolding on_own_run reverted
  revert_run_actions run_id db = on_own_run run_id (reverted run_id) db

  unfoldable pub write_audit :
      String
      → Option String
      → Option ℕ
      → Option String
      → Option String
      → Option String
      → Db
      → ℕ × Db
  write_audit action target_asset_id run_id before_state after_state details_json db = (
    suc db.last_audit,
    record db {
      audit_log =
          db.audit_log
          ++ (record {
            id = suc db.last_audit;
            user_id = user;
            at = db.clock;
            action = action;
            target_asset_id = target_asset_id;
            run_id = run_id;
            before_state = before_state;
            after_state = after_state;
            details_json = details_json;
          }
              ∷ []);
      last_audit = suc db.last_audit;
    },
  )

  -- The previous category, and the tables.
  unfoldable pub set_asset_override : String → Option String → String → Db → Option String × Db
  set_asset_override asset_id category_id reason db =
      let is_row = λ (row : AssetOverride). owns row.user_id && (row.asset_id == asset_id) in
      (
        elim (first_row is_row db.asset_overrides) [ none ↦ none | some row ↦ row.category_id ],
        record db {
          asset_overrides =
              upsert_row is_row
                (λ row. record row {
                  category_id = category_id;
                  reason = reason;
                  set_at = db.clock;
                })
                (record {
                  user_id = user;
                  asset_id = asset_id;
                  category_id = category_id;
                  reason = reason;
                  set_at = db.clock;
                })
                db.asset_overrides;
        },
      )

  unfoldable pub store_api_key : Bytes → Option String → Db → ℕ × Db
  store_api_key encrypted_key label db = (
    suc db.last_key,
    record db {
      user_api_keys =
          db.user_api_keys
          ++ (record {
            id = suc db.last_key;
            user_id = user;
            label = label;
            encrypted_key = encrypted_key;
            created_at = db.clock;
            last_used_at = none;
          }
              ∷ []);
      last_key = suc db.last_key;
    },
  )

  unfoldable pub set_auto_scan : Bool → ℤ → Db → Db
  set_auto_scan enabled interval_minutes db = record db {
    user_auto_scan =
        upsert_row (λ row. owns row.user_id)
          (λ row. record row { enabled = enabled; interval_minutes = interval_minutes })
          (record {
            user_id = user;
            enabled = enabled;
            interval_minutes = interval_minutes;
            last_seen_taken_at = none;
            last_run_at = none;
            last_status = none;
            last_error_code = none;
          })
          db.user_auto_scan;
  }
