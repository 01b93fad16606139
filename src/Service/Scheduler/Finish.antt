-- ===== src/Service/Scheduler/Finish.antt =====
-- service/scheduler.py: a synthetic scan from its submission to its end.
use media_refinery.Common.{
  subst, sym, Bool, Bool-cases, inl, inr, leb, raised-ne-returned, returned-injective, Option, any,
  eq_iff, false, ◌&&◌, ◌==◌, All, List, String, [], ap, arith, nat_eq, none, refl, returned, some,
  suc, true, ℕ, ◌++◌, ◌∙◌, ◌∷◌, ◌≡◌, ◌≤◌,
}
use media_refinery.Service.Scheduler.{
  today_start_iso, submit_scan, synthetic_runner, synthetic_actions,
}
use media_refinery.Service.Scope.{
  runs_started_today, end_run, ended, has_active_run, write_audit, assert_owns_run, insert_action,
  on_own_run, owns, record_action, start_run, finish_run, upsert_asset,
}
use media_refinery.Service.{update_rows, Db, UserRun, first_row}

-- The ids of the runs are those that AUTOINCREMENT gave.
unfoldable pub IsNumbered : ℕ → List UserRun → Type 0
IsNumbered last runs = All (λ row. row.id ≤ last) runs

module _ (user : String) where
  abbrev HasRun : ℕ → Db → Type 0
  HasRun run_id db =
      (row : UserRun) × (first_row (λ r. nat_eq r.id run_id) db.runs ≡ some row)
      × (owns user row.user_id ≡ true)

  HasRun-returned :
      (run_id : ℕ) (db : Db) → HasRun run_id db → assert_owns_run user run_id db ≡ returned tt
  unfolding assert_owns_run
  HasRun-returned run_id db (row, found, mine) = rw (assert_owns_run, found, mine) refl

  first_row_last :
      (last : ℕ) (runs : List UserRun) (new : UserRun)
      → IsNumbered last runs
      → new.id ≡ suc last
      → first_row (λ r. nat_eq r.id (suc last)) (runs ++ (new ∷ [])) ≡ some new
  unfolding IsNumbered first_row
  first_row_last last [] new h e = ground (arith, e)
  first_row_last last (row ∷ runs) new h e = ground (arith, h.0, first_row_last last runs new h.1 e)

  -- What the runner's calls leave of the table of runs.
  record_action-returned :
      (run_id : ℕ) (asset_id name : String) (db : Db)
      → HasRun run_id db
      → (n : ℕ) × ((record_action user run_id asset_id name true true (some true) none db).0
          ≡ returned n)
        × ((record_action user run_id asset_id name true true (some true) none db).1.runs ≡ db.runs)
  unfolding record_action on_own_run insert_action
  record_action-returned run_id asset_id name db has =
      let owned = HasRun-returned run_id db has in
      (
        suc db.last_action,
        rw (record_action, on_own_run, owned) refl,
        rw (record_action, on_own_run, owned) refl,
      )

  synthetic_actions-returned :
      (run_id : ℕ) (assets : List (String × String)) (db : Db)
      → HasRun run_id db
      → ((synthetic_actions user run_id assets db).0 ≡ returned tt)
        × ((synthetic_actions user run_id assets db).1.runs ≡ db.runs)
  unfolding synthetic_actions upsert_asset
  synthetic_actions-returned run_id [] db has = (refl, refl)
  synthetic_actions-returned run_id ((asset_id, name) ∷ rest) db has =
      let seen = upsert_asset user asset_id "image" none db in
      let (n, recorded, runs_eq) = record_action-returned run_id asset_id name seen has in
      let after = (record_action user run_id asset_id name true true (some true) none seen).1 in
      let still : HasRun run_id after =
        (has.0, ap (first_row (λ (r : UserRun). nat_eq r.id run_id)) runs_eq ∙ has.1, has.2) in
      let (done, kept) = synthetic_actions-returned run_id rest after still in
      (rw (synthetic_actions, recorded) done, rw (synthetic_actions, recorded) (kept ∙ runs_eq))

  any-update :
      (run_id : ℕ) (summary : Option String) (now : String) (last : ℕ) (runs : List UserRun)
      (new : UserRun)
      → run_id ≡ suc last
      → IsNumbered last runs
      → new.id ≡ run_id
      → new.user_id ≡ user
      → any (λ row. owns user row.user_id && (row.status == "running")) runs ≡ false
      → any
          (λ row. owns user row.user_id && (row.status == "running"))
          (update_rows
            (λ row. nat_eq row.id run_id && owns user row.user_id)
            (end_run user "completed" summary now)
            (runs ++ (new ∷ [])))
        ≡ false
  unfolding update_rows IsNumbered
  any-update run_id summary now last [] new at h e mine idle =
      let m : owns user new.user_id ≡ true = (eq_iff new.user_id user).1 mine in
      ground (arith, e, m)
  any-update run_id summary now last (row ∷ runs) new at h e mine idle = ground (
    arith,
    h.0,
    at,
    idle,
    any-update run_id summary now last runs new at h.1 e mine (ground (arith, idle)),
  )

  abbrev is_open : UserRun → Bool
  is_open row = owns user row.user_id && (row.status == "running")

  finish_run-returned :
      (run_id : ℕ) (summary : Option String) (db : Db)
      → HasRun run_id db
      → ((finish_run user run_id "completed" summary db).0 ≡ returned tt)
        × ((finish_run user run_id "completed" summary db).1.runs
            ≡ update_rows
                (λ row. nat_eq row.id run_id && owns user row.user_id)
                (end_run user "completed" summary db.clock)
                db.runs)
  unfolding finish_run on_own_run ended
  finish_run-returned run_id summary db has =
      let owned = HasRun-returned run_id db has in
      (rw (finish_run, on_own_run, owned) refl, rw (finish_run, on_own_run, owned) refl)

  -- The runner on tables whose last run is the user's and the one that is open.
  synthetic_runner_ends :
      (last : ℕ) (old : List UserRun) (new : UserRun) (db : Db)
      → db.runs ≡ old ++ (new ∷ [])
      → IsNumbered last old
      → new.id ≡ suc last
      → new.user_id ≡ user
      → any is_open old ≡ false
      → ((synthetic_runner user (suc last) db).0 ≡ returned tt)
        × (has_active_run user (synthetic_runner user (suc last) db).1 ≡ false)
  unfolding synthetic_runner has_active_run write_audit
  synthetic_runner_ends last old new db runs_eq numbered e mine idle =
      let has : HasRun (suc last) db = (
        new,
        ap (first_row (λ (r : UserRun). nat_eq r.id (suc last))) runs_eq
            ∙ first_row_last last old new numbered e,
        (eq_iff new.user_id user).1 mine,
      ) in
      let assets = ("synthetic-1", "tag") ∷ ("synthetic-2", "tag") ∷ [] in
      let (done, kept) = synthetic_actions-returned (suc last) assets db has in
      let after = (synthetic_actions user (suc last) assets db).1 in
      let audited =
        (write_audit user "scan.finish" none (some (suc last)) none none none after).1 in
      let still : HasRun (suc last) audited =
        (new, ap (first_row (λ (r : UserRun). nat_eq r.id (suc last))) kept ∙ has.1, has.2) in
      let summary = some "{\"processed\": 2, \"synthetic\": true}" in
      let finished = finish_run-returned (suc last) summary audited still in
      let closed =
        any-update (suc last) (some "{\"processed\": 2, \"synthetic\": true}") after.clock last old
          new refl numbered e mine idle in
      let still_closed =
        subst
          (λ (rows : List UserRun).
            any is_open (
              update_rows (λ row. nat_eq row.id (suc last) && owns user row.user_id)
                (end_run user "completed" summary after.clock) rows)
            ≡ false)
          (sym (kept ∙ runs_eq)) closed in
      (
        rw (synthetic_runner, done, finished.0) refl,
        rw (synthetic_runner, done, finished.0) (ap (any is_open) finished.1 ∙ still_closed),
      )

  -- Where the ids of the runs are at most the last one given, a synthetic scan that was accepted
  -- runs to its end without an exception, and then the user has no active run.
  pub synthetic_scan_ends :
      (quota : ℕ) (day : String) (db : Db) {run_id : ℕ}
      → IsNumbered db.last_run db.runs
      → (submit_scan user quota day db).0 ≡ returned run_id
      → ((synthetic_runner user run_id (submit_scan user quota day db).1).0 ≡ returned tt)
        × (has_active_run user (synthetic_runner user run_id (submit_scan user quota day db).1).1
            ≡ false)
  unfolding submit_scan start_run write_audit has_active_run
  synthetic_scan_ends quota day db {run_id} numbered h =
      elim (Bool-cases (has_active_run user db)) [
        | inl busy ↦ absurd (raised-ne-returned (rw (submit_scan, busy) at h))
        | inr idle ↦
            elim (Bool-cases (leb quota (runs_started_today user (today_start_iso day) db))) [
              | inl full ↦ absurd (raised-ne-returned (rw (submit_scan, idle, full) at h))
              | inr free ↦
                  let started = (start_run user true "scan" db).1 in
                  let begun =
                    (write_audit user "scan.start" none (some (suc db.last_run)) none none none
                      started).1 in
                  let id : suc db.last_run ≡ run_id =
                    returned-injective (rw (submit_scan, idle, free) at h) in
                  let ends =
                    synthetic_runner_ends db.last_run db.runs _ begun refl numbered refl refl
                      idle in
                  rw (submit_scan, idle, free, ← id) ends
            ]
      ]
