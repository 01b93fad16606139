-- ===== src/Service/AutoScanning/Rows.antt =====
-- service/state_store.py, `record_auto_scan_tick`: the row of a user after a tick is recorded.
use media_refinery.Common.{
  Bool, Bool-cases, List, Option, String, [], any, ap, arith, eq_refl, false, inl, inr, is_some,
  none, none-ne-some, refl, some, true, ◌++◌, ◌∷◌, ◌≡◌,
}
use media_refinery.Service.AutoScanning.Tick.{
  disabled_row, is_of, new_auto_scan, record_auto_scan_tick, ticked_row,
}
use media_refinery.Service.{AutoScan, Db, first_row, update_rows, upsert_row}
use mathlib.Core.Option.{some-injective}

first-kept {ℓ} :
    {A : Type ℓ} (p : A → Bool) (rows : List A)
    → any p rows ≡ true
    → (row : A) × (first_row p (update_rows p (λ row. row) rows) ≡ some row) × (p row ≡ true)
unfolding first_row update_rows
first-kept p [] e = absurd (ground (arith, e))
first-kept p (x ∷ rows) e = elim (Bool-cases (p x)) [
  | inl here ↦ (x, rw (update_rows, here, first_row, here) refl, here)
  | inr there ↦
      let found = first-kept p rows (ground (arith, e, there)) in
      (found.0, rw (update_rows, there, first_row, there) found.1, found.2)
]

first-new {ℓ} :
    {A : Type ℓ} (p : A → Bool) (new : A) (rows : List A)
    → p new ≡ true
    → any p rows ≡ false
    → first_row p (rows ++ (new ∷ [])) ≡ some new
unfolding first_row
first-new p new [] h e = ground (arith, h)
first-new p new (x ∷ rows) h e = ground (arith, e, first-new p new rows h (ground (arith, e)))

first-upsert {ℓ} :
    {A : Type ℓ} (p : A → Bool) (new : A) (rows : List A)
    → p new ≡ true
    → (row : A) × (first_row p (upsert_row p (λ row. row) new rows) ≡ some row) × (p row ≡ true)
unfolding upsert_row
first-upsert p new rows h = elim (Bool-cases (any p rows)) [
  | inl e ↦ let found = first-kept p rows e in (found.0, rw (upsert_row, e) found.1, found.2)
  | inr e ↦ (new, rw (upsert_row, e) (first-new p new rows h e), h)
]

first-update {ℓ} :
    {A : Type ℓ} (p : A → Bool) (f : A → A) (rows : List A) {row : A}
    → ((x : A) → p x ≡ true → p (f x) ≡ true)
    → first_row p rows ≡ some row
    → first_row p (update_rows p f rows) ≡ some (f row)
unfolding first_row update_rows
first-update p f [] keeps found = absurd (none-ne-some found)
first-update p f (x ∷ rows) {row} keeps found = elim (Bool-cases (p x)) [
  | inl e ↦
      let here : x ≡ row = some-injective _ _ (rw (first_row, e) at found) in
      rw (update_rows, e, first_row, keeps x e) (ap (λ y. some (f y)) here)
  | inr e ↦
      rw (update_rows, e, first_row, e) (first-update p f rows keeps (rw (first_row, e) at found))
]

-- The row of a user after a tick with this status, error code and cursor.
pub record IsRecorded (user now status : String) (error_code cursor : Option String)
    (disable : Bool) (rows : List AutoScan) : Type 0 where
  pub row : AutoScan
  pub row_eq : first_row (is_of user) rows ≡ some row
  pub run_eq : row.last_run_at ≡ some now
  pub status_eq : row.last_status ≡ some status
  pub code_eq : row.last_error_code ≡ error_code
  pub cursor_eq : is_some cursor ≡ true → row.last_seen_taken_at ≡ cursor
  pub enabled_eq : disable ≡ true → row.enabled ≡ false

module _ (user now status : String) (error_code : Option String) (db : Db) where
  ticked :
      (cursor : Option String)
      → (row : AutoScan) × (first_row (is_of user) (
            update_rows
              (is_of user)
              (ticked_row now status error_code cursor)
              (upsert_row (is_of user) (λ row. row) (new_auto_scan user) db.user_auto_scan))
          ≡ some (ticked_row now status error_code cursor row))
        × (is_of user row ≡ true)
  ticked none =
      let found = first-upsert (is_of user) (new_auto_scan user) db.user_auto_scan (eq_refl user) in
      (
        found.0,
        first-update (is_of user) (ticked_row now status error_code none) _ (λ x e. e) found.1,
        found.2,
      )
  ticked (some cursor) =
      let found = first-upsert (is_of user) (new_auto_scan user) db.user_auto_scan (eq_refl user) in
      (
        found.0,
        first-update (is_of user) (ticked_row now status error_code (some cursor)) _ (λ x e. e)
            found.1,
        found.2,
      )

  pub record_auto_scan_tick-IsRecorded :
      (cursor : Option String) (disable : Bool)
      → IsRecorded user now status error_code cursor disable
          (record_auto_scan_tick user now status error_code cursor disable db).user_auto_scan
  unfolding record_auto_scan_tick
  record_auto_scan_tick-IsRecorded none false = record {
    row = ticked_row now status error_code none (ticked none).0;
    row_eq = (ticked none).1;
    run_eq = refl;
    status_eq = refl;
    code_eq = refl;
    cursor_eq = λ e. absurd (ground (arith, e));
    enabled_eq = λ e. absurd (ground (arith, e));
  }
  record_auto_scan_tick-IsRecorded (some cursor) false = record {
    row = ticked_row now status error_code (some cursor) (ticked (some cursor)).0;
    row_eq = (ticked (some cursor)).1;
    run_eq = refl;
    status_eq = refl;
    code_eq = refl;
    cursor_eq = λ e. refl;
    enabled_eq = λ e. absurd (ground (arith, e));
  }
  record_auto_scan_tick-IsRecorded none true = record {
    row = disabled_row (ticked_row now status error_code none (ticked none).0);
    row_eq = first-update (is_of user) disabled_row _ (λ x e. e) (ticked none).1;
    run_eq = refl;
    status_eq = refl;
    code_eq = refl;
    cursor_eq = λ e. absurd (ground (arith, e));
    enabled_eq = λ e. refl;
  }
  record_auto_scan_tick-IsRecorded (some cursor) true = record {
    row = disabled_row (ticked_row now status error_code (some cursor) (ticked (some cursor)).0);
    row_eq = first-update (is_of user) disabled_row _ (λ x e. e) (ticked (some cursor)).1;
    run_eq = refl;
    status_eq = refl;
    code_eq = refl;
    cursor_eq = λ e. refl;
    enabled_eq = λ e. refl;
  }
