-- ===== src/Service/Scheduler/Active.antt =====
-- service/scheduler.py and service/state_store.py: how many runs of a user are active.
use media_refinery.Common.{
  Bool, Bool-cases, List, Option, Outcome-cases, String, [], any, arith, eq_iff, false, filter,
  if◌then◌else◌, inl, inr, leb, length, nat_eq, none, refl, some, subst, sym, ℕ, ◌&&◌, ◌++◌, ◌+◌,
  ◌==◌, ◌∷◌, ◌≡◌, ◌≤◌,
}
use media_refinery.Service.{Db, UserRun, delete_rows, update_rows}
use media_refinery.Service.Purge.{purge}
use media_refinery.Service.Scheduler.{submit_scan, today_start_iso}
use media_refinery.Service.Scope.{
  assert_owns_run, end_run, ended, has_active_run, on_own_run, owns, runs_started_today,
  write_audit, start_run, finish_run,
}

-- The calls that change the table of runs, each of some user.
pub data Event : Type 0 where
  submitted : String → ℕ → String → Event
  completed : String → ℕ → String → Event
  failed : String → ℕ → Event
  purged : String → Event

unfoldable pub run_event : Event → Db → Db
run_event (submitted user quota day) db = (submit_scan user quota day db).1
run_event (completed user run_id summary) db =
    (finish_run user run_id "completed" (some summary) db).1
run_event (failed user run_id) db = (finish_run user run_id "failed" none db).1
run_event (purged user) db = purge user db

unfoldable pub run_events : List Event → Db → Db
unfolding run_event
run_events [] db = db
run_events (event ∷ rest) db = run_events rest (run_event event db)

abbrev pub is_active : String → UserRun → Bool
is_active user row = owns user row.user_id && (row.status == "running")

-- No user has two active runs.
unfoldable pub IsSingle : List UserRun → Type 0
IsSingle runs = (user : String) → length (filter (is_active user) runs) ≤ 1

module _ {ℓ} {A : Type ℓ} where
  count-none : (p : A → Bool) (rows : List A) → any p rows ≡ false → length (filter p rows) ≡ 0
  count-none p [] h = refl
  count-none p (row ∷ rows) h = ground (arith, h, count-none p rows (ground (arith, h)))

  count-insert :
      (p : A → Bool) (rows : List A) (new : A)
      → length (filter p (rows ++ (new ∷ []))) ≡ length (filter p rows) + (if p new then 1 else 0)
  count-insert p [] new = ground arith
  count-insert p (row ∷ rows) new = ground (arith, count-insert p rows new)

  count-update :
      (p q : A → Bool) (f : A → A) (rows : List A)
      → ((row : A) → q (f row) ≡ false)
      → length (filter q (update_rows p f rows)) ≤ length (filter q rows)
  unfolding update_rows
  count-update p q f [] h = omega arith
  count-update p q f (row ∷ rows) h = ground (arith, h row, count-update p q f rows h)

  count-delete :
      (p q : A → Bool) (rows : List A)
      → length (filter q (delete_rows p rows)) ≤ length (filter q rows)
  unfolding delete_rows
  count-delete p q [] = omega arith
  count-delete p q (row ∷ rows) = ground (arith, count-delete p q rows)

start-IsSingle :
    (user : String) (runs : List UserRun) (new : UserRun)
    → new.user_id ≡ user
    → any (is_active user) runs ≡ false
    → IsSingle runs
    → IsSingle (runs ++ (new ∷ []))
unfolding IsSingle
start-IsSingle user runs new mine idle h other = elim (Bool-cases (user == other)) [
  | inl e ↦
      let same : user ≡ other = (eq_iff user other).0 e in
      let none_before : length (filter (is_active other) runs) ≡ 0 =
        subst (λ (u : String). length (filter (is_active u) runs) ≡ 0) same
          (count-none (is_active user) runs idle) in
      ground (arith, count-insert (is_active other) runs new, none_before)
  | inr e ↦
      let away : owns other new.user_id ≡ false =
        subst (λ (u : String). owns other u ≡ false) (sym mine) e in
      ground (arith, count-insert (is_active other) runs new, h other, away)
]

module _ (user : String) where
  submit_scan-IsSingle :
      (quota : ℕ) (day : String) (db : Db)
      → IsSingle db.runs
      → IsSingle (submit_scan user quota day db).1.runs
  unfolding submit_scan has_active_run start_run write_audit
  submit_scan-IsSingle quota day db h = elim (Bool-cases (has_active_run user db)) [
    | inl busy ↦ rw (submit_scan, busy) h
    | inr idle ↦ elim (Bool-cases (leb quota (runs_started_today user (today_start_iso day) db))) [
      | inl full ↦ rw (submit_scan, idle, full) h
      | inr free ↦ rw (submit_scan, idle, free) (start-IsSingle user db.runs _ refl idle h)
    ]
  ]

  finish_run-IsSingle :
      (run_id : ℕ) (status : String) (summary : Option String) (db : Db)
      → (status == "running") ≡ false
      → IsSingle db.runs
      → IsSingle (finish_run user run_id status summary db).1.runs
  unfolding finish_run on_own_run ended IsSingle
  finish_run-IsSingle run_id status summary db over h other =
      elim (Outcome-cases (assert_owns_run user run_id db)) [
        | inr (e, refused) ↦ rw (finish_run, on_own_run, refused) (h other)
        | inl (u, owned) ↦
            let fewer =
              count-update (λ (row : UserRun). nat_eq row.id run_id && owns user row.user_id)
                (is_active other) (end_run user status summary db.clock) db.runs
                (λ row. ground (arith, over)) in
            rw (finish_run, on_own_run, owned) (omega (arith, fewer, h other))
      ]

run_event-IsSingle :
    (event : Event) (db : Db) → IsSingle db.runs → IsSingle (run_event event db).runs
unfolding run_event purge IsSingle
run_event-IsSingle (submitted user quota day) db h = submit_scan-IsSingle user quota day db h
run_event-IsSingle (completed user run_id summary) db h =
    finish_run-IsSingle user run_id "completed" (some summary) db refl h
run_event-IsSingle (failed user run_id) db h =
    finish_run-IsSingle user run_id "failed" none db refl h
run_event-IsSingle (purged user) db h = λ other. omega (
  arith,
  count-delete (λ (row : UserRun). owns user row.user_id) (is_active other) db.runs,
  h other,
)

-- Submissions, ends, failures and purges of any users, each as one step and in any order, leave
-- every user with at most one active run if that held before.
pub run_events-IsSingle :
    (events : List Event) (db : Db) → IsSingle db.runs → IsSingle (run_events events db).runs
unfolding run_events
run_events-IsSingle [] db h = h
run_events-IsSingle (event ∷ rest) db h =
    run_events-IsSingle rest (run_event event db) (run_event-IsSingle event db h)
