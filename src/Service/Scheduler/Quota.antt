-- ===== src/Service/Scheduler/Quota.antt =====
-- service/scheduler.py: the daily quota, with runs that SQLite stamps and a day that Python writes.
use media_refinery.Common.{
  Char, code, ltb, All, Bool-cases, List, String, [], arith, false, filter, inl, inr, leb, length,
  not, refl, returned, subst, suc, sym, text_ltb, true, ℕ, ◌&&◌, ◌<>◌, ◌<◌, ◌∷◌, ◌≡◌,
}
use text.Mathlib.TextLemmas.{cons-append, nil-append}
use media_refinery.Service.{Db, UserRun}
use media_refinery.Service.Scheduler.{submit_scan, today_start_iso}
use media_refinery.Service.Scope.{start_run, has_active_run, owns, runs_started_today}

-- CURRENT_TIMESTAMP at a time of the day
abbrev pub stamp : String → String → String
stamp day time = day <> " " <> time

text_ltb-append : (day s t : String) → text_ltb (day <> s) (day <> t) ≡ text_ltb s t
unfolding text_ltb
text_ltb-append String.[] s t = rw (nil-append s, nil-append t) refl
text_ltb-append (String.◌∷◌ c day) s t =
    rw (cons-append c day s, cons-append c day t) (ground (arith, text_ltb-append day s t))

text_ltb_first :
    (c d : Char) (s t : String)
    → ltb (code c) (code d) ≡ true
    → text_ltb (String.◌∷◌ c String.[] <> s) (String.◌∷◌ d t) ≡ true
unfolding text_ltb
text_ltb_first c d s t h = rw (cons-append c String.[] s) (ground (arith, h))

stamp_before : (day time : String) → text_ltb (stamp day time) (today_start_iso day) ≡ true
stamp_before day time =
    rw (text_ltb-append day (" " <> time) "T00:00:00") (text_ltb_first _ _ time "00:00:00" refl)

-- Every run of the user was started on the day, and SQLite stamped it.
unfoldable pub IsStamped : String → String → List UserRun → Type 0
IsStamped user day runs =
    All (λ row. owns user row.user_id ≡ true → (time : String) × (row.started_at ≡ stamp day time))
      runs

runs_of_today :
    (user day : String) (runs : List UserRun)
    → IsStamped user day runs
    → length (
        filter
          (λ row. owns user row.user_id && not (text_ltb row.started_at (today_start_iso day)))
          runs)
      ≡ 0
unfolding IsStamped
runs_of_today user day [] h = refl
runs_of_today user day (row ∷ runs) h = elim (Bool-cases (owns user row.user_id)) [
  | inl mine ↦
      let (time, e) = h.0 mine in
      let before : text_ltb row.started_at (today_start_iso day) ≡ true =
        subst (λ (s : String). text_ltb s (today_start_iso day) ≡ true) (sym e)
          (stamp_before day time) in
      rw (mine, before) (runs_of_today user day runs h.1)
  | inr other ↦ rw other (runs_of_today user day runs h.1)
]

module _ (user day : String) (quota : ℕ) (db : Db) where
  -- If every run of a user was stamped on the day by SQLite's CURRENT_TIMESTAMP and none is active,
  -- a submission on that day is accepted under every positive quota, however many runs there are.
  pub submit_scan_of_today :
      IsStamped user day db.runs
      → 0 < quota
      → has_active_run user db ≡ false
      → (submit_scan user quota day db).0 ≡ returned (suc db.last_run)
  unfolding submit_scan runs_started_today start_run
  submit_scan_of_today stamped some_quota idle =
      let few : leb quota (
            length (
              filter
                (λ row.
                  owns user row.user_id && not (text_ltb row.started_at (today_start_iso day)))
                db.runs))
          ≡ false =
        rw (runs_of_today user day db.runs stamped) (ground arith) in
      rw (submit_scan, runs_started_today, idle, few) refl
