-- ===== src/Service/AutoScanning/Recorded.antt =====
-- service/auto_scan.py: the outcome of a tick and the row that it leaves for its user.
use media_refinery.Service.AutoScanning.{walk_pages, started_walk, Walk, TickOutcome}
use media_refinery.Service.AutoScanning.Rows.{IsRecorded}
use media_refinery.Common.{pos, Bool, Option, String, is_some, none, some, true, ◌≡◌, ◌≤◌, ◌⊎◌}
use media_refinery.Service.AutoScanning.Tick.{TickEnd, TickEnv}
use media_refinery.Service.AutoScanning.Ticked.{not_before}
use media_refinery.Service.{Db}

module _ (env : TickEnv) (user : String) (last_seen : Option String) where
  -- What is known of a tick that ended without an exception.
  pub record IsTicked (now : String) (outcome : TickOutcome) (db : Db) : Type 0 where
    pub user_eq : outcome.user_id ≡ user
    pub pages_le : outcome.pages_walked ≤ env.max_pages
    pub submitted_eq : is_some outcome.error_code ≡ true → outcome.submitted_run_id ≡ none
    pub cursor : Option String
    pub cursor_le : not_before last_seen cursor ≡ true
    pub cursor_kept : is_some outcome.error_code ≡ true → cursor ≡ last_seen
    pub recorded :
        (disable : Bool) × IsRecorded user now outcome.status outcome.error_code cursor disable
          db.user_auto_scan
        × (disable ≡ true
            → (outcome.error_code ≡ some "no_active_session")
              ⊎ (outcome.error_code ≡ some "upstream_session_expired"))

  -- What a tick is about to write.
  record IsEnded (t : TickEnd) : Type 0 where
    pages_le : t.walk.pages_walked ≤ env.max_pages
    submitted_eq : is_some t.walk.error_code ≡ true → t.submitted_run_id ≡ none
    cursor_le : not_before last_seen t.walk.new_cursor ≡ true
    disable_eq : t.walk.disable ≡ true → t.walk.error_code ≡ some "upstream_session_expired"

  abbrev walk_of : String → Walk
  walk_of bearer =
      walk_pages (env.search bearer) last_seen env.max_pages (some (pos 1)) (started_walk last_seen)
