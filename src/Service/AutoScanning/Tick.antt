-- ===== src/Service/AutoScanning/Tick.antt =====
-- service/auto_scan.py: `run_user_tick` and `coordinator_tick`, and the method of the store that records a
-- tick. The decryption of a token, the search and the dispatch of a scan are arguments.
use media_refinery.Common.{
  Bool, List, Option, Outcome, String, [], code, false, filter, if◌then◌else◌, is_some, nat_eq,
  none, pos, raised, returned, some, text_ltb, true, ℕ, ◌||◌, ◌∷◌,
}
use media_refinery.Service.{AutoScan, Db, SessionRow, update_rows, upsert_row}
use media_refinery.Service.AutoScanning.{
  Search, TickOutcome, Walk, failed_walk, started_walk, status_of, walk_pages,
}
use media_refinery.Service.Scope.{owns, write_audit}

-- `UserScopedState.record_auto_scan_tick`
abbrev pub ticked_row : String → String → Option String → Option String → AutoScan → AutoScan
ticked_row now status error_code none row = record row {
  last_run_at = some now;
  last_status = some status;
  last_error_code = error_code;
}
ticked_row now status error_code (some cursor) row = record row {
  last_seen_taken_at = some cursor;
  last_run_at = some now;
  last_status = some status;
  last_error_code = error_code;
}

abbrev pub disabled_row : AutoScan → AutoScan
disabled_row row = record row { enabled = false }

abbrev pub new_auto_scan : String → AutoScan
new_auto_scan user = record {
  user_id = user;
  enabled = false;
  interval_minutes = pos 30;
  last_seen_taken_at = none;
  last_run_at = none;
  last_status = none;
  last_error_code = none;
}

abbrev pub is_of : String → AutoScan → Bool
is_of user row = owns user row.user_id

unfoldable pub record_auto_scan_tick :
    String → String → String → Option String → Option String → Bool → Db → Db
record_auto_scan_tick user now status error_code cursor disable db =
    let present = upsert_row (is_of user) (λ row. row) (new_auto_scan user) db.user_auto_scan in
    let ticked = update_rows (is_of user) (ticked_row now status error_code cursor) present in
    record db {
      user_auto_scan = if disable then update_rows (is_of user) disabled_row ticked else ticked;
    }

-- `list_sessions(...)[-1]`: the last in the order of `created_at`
unfoldable pub newest : List SessionRow → Option SessionRow
newest [] = none
newest (row ∷ rows) = elim (newest rows) [
  | none ↦ some row
  | some best ↦ if text_ltb best.created_at row.created_at then some row else some best
]

-- What a tick is run with.
pub record TickEnv : Type 0 where
  pub token_of : SessionRow → Option String
  pub search : String → Search
  -- the id of the run; `false` is a ValueError, `true` any other exception
  pub dispatch : String → Db → Outcome Bool (Option ℕ) × Db
  pub details : Walk → Option ℕ → String
  pub max_pages : ℕ

-- A tick that ended: what it is about to write.
pub record TickEnd : Type 0 where
  pub walk : Walk
  pub submitted_run_id : Option ℕ
  pub db : Db

abbrev pub decrypt_failed : Walk → Walk
decrypt_failed w = failed_walk "session_decrypt_failed" false w

module _ (env : TickEnv) (user : String) (last_seen : Option String) where
  -- The dispatch, if the walk is ok and found assets; `raised` is an exception that is not caught.
  unfoldable pub dispatch_walk : Walk → Db → Outcome Db TickEnd
  dispatch_walk w db =
      let (submitted, after) = env.dispatch user db in
      if is_some w.error_code || nat_eq w.new_assets 0
      then returned (record { walk = w; submitted_run_id = none; db = db })
      else elim submitted [
        | returned run ↦ returned (record { walk = w; submitted_run_id = run; db = after })
        | raised false ↦
            returned (record { walk = decrypt_failed w; submitted_run_id = none; db = after })
        | raised true ↦ raised after
      ]

  unfoldable pub tick_body : SessionRow → Db → Outcome Db TickEnd
  unfolding dispatch_walk
  tick_body session db = elim (env.token_of session) [
    | none ↦ returned (record {
      walk = decrypt_failed (started_walk last_seen);
      submitted_run_id = none;
      db = db;
    })
    | some bearer ↦
        dispatch_walk
          (walk_pages (env.search bearer) last_seen env.max_pages (some (pos 1))
            (started_walk last_seen))
          db
  ]

  abbrev pub outcome_of : TickEnd → TickOutcome
  outcome_of t = record {
    user_id = user;
    status = status_of t.walk.error_code;
    new_assets = t.walk.new_assets;
    pages_walked = t.walk.pages_walked;
    submitted_run_id = t.submitted_run_id;
    error_code = t.walk.error_code;
  }

  -- `new_cursor if advance_cursor else last_seen_taken_at`
  abbrev pub persisted_cursor : Walk → Option String
  persisted_cursor w = elim w.error_code [ none ↦ w.new_cursor | some code ↦ last_seen ]

  unfoldable pub write_tick : String → TickEnd → Db
  unfolding record_auto_scan_tick
  write_tick now t =
      let recorded =
        record_auto_scan_tick user now (status_of t.walk.error_code) t.walk.error_code
          (persisted_cursor t.walk) t.walk.disable t.db in
      (write_audit user "auto_scan.tick" none none none none
        (some (env.details t.walk t.submitted_run_id)) recorded).1

  abbrev pub no_session : TickOutcome
  no_session = record {
    user_id = user;
    status = "error";
    new_assets = 0;
    pages_walked = 0;
    submitted_run_id = none;
    error_code = some "no_active_session";
  }

  -- `raised` has the tables that an exception leaves.
  unfoldable pub run_user_tick : String → Db → Outcome Db (TickOutcome × Db)
  unfolding tick_body write_tick newest
  run_user_tick now db = elim (newest (filter (λ row. owns user row.user_id) db.sessions)) [
    | none ↦ returned (
      no_session,
      record_auto_scan_tick user now "error" (some "no_active_session") last_seen true db,
    )
    | some session ↦ elim (tick_body session db) [
      | raised after ↦ raised after
      | returned t ↦ returned (outcome_of t, write_tick now t)
    ]
  ]
