-- ===== src/Service.antt =====
-- service/state_store.py: the tables of the service's database, as lists of rows in the order of insertion,
-- and the statements that read and change them. The text of a time is that of SQLite's CURRENT_TIMESTAMP.
-- Foreign keys are left out.
pub mod Scope
pub mod Purge
pub mod Isolation
pub mod Scheduler
pub mod Sessions
pub mod LockedFolder
pub mod AutoScanning
use media_refinery.Common.{
  Bool, Bool-cases, List, Option, String, [], any, ap, arith, false, filter, if◌then◌else◌, inl,
  inr, none, not, refl, some, true, ℕ, ℤ, ◌++◌, ◌∷◌, ◌≡◌,
}
use media_refinery.Security.Cipher.{Bytes}

pub record UserAsset : Type 0 where
  pub user_id : String
  pub asset_id : String
  pub media_type : String
  pub checksum : Option String
  pub first_seen : String
  pub last_processed : Option String

pub record UserRun : Type 0 where
  pub id : ℕ
  pub user_id : String
  pub started_at : String
  pub ended_at : Option String
  pub status : String
  pub dry_run : Bool
  pub command : String
  pub summary_json : Option String

pub record UserAction : Type 0 where
  pub id : ℕ
  pub user_id : String
  pub run_id : ℕ
  pub asset_id : String
  pub action_name : String
  pub dry_run : Bool
  pub would_apply : Bool
  pub success : Option Bool
  pub error_code : Option String
  pub ran_at : String

pub record UserError : Type 0 where
  pub id : ℕ
  pub user_id : String
  pub run_id : Option ℕ
  pub asset_id : Option String
  pub stage : String
  pub message_code : String
  pub message : Option String
  pub at : String

pub record AssetOverride : Type 0 where
  pub user_id : String
  pub asset_id : String
  pub category_id : Option String
  pub reason : String
  pub set_at : String

pub record SessionRow : Type 0 where
  pub session_id : String
  pub user_id : String
  pub encrypted_immich_token : Bytes
  pub created_at : String
  pub expires_at : String
  pub last_revalidated_at : Option String
  pub revoked_at : Option String

pub record ApiKey : Type 0 where
  pub id : ℕ
  pub user_id : String
  pub label : Option String
  pub encrypted_key : Bytes
  pub created_at : String
  pub last_used_at : Option String

pub record AuditEntry : Type 0 where
  pub id : ℕ
  pub user_id : String
  pub at : String
  pub action : String
  pub target_asset_id : Option String
  pub run_id : Option ℕ
  pub before_state : Option String
  pub after_state : Option String
  pub details_json : Option String

pub record AutoScan : Type 0 where
  pub user_id : String
  pub enabled : Bool
  pub interval_minutes : ℤ
  pub last_seen_taken_at : Option String
  pub last_run_at : Option String
  pub last_status : Option String
  pub last_error_code : Option String

-- The tables, the last ids that AUTOINCREMENT gave, and the time of the statement that runs.
pub record Db : Type 0 where
  pub assets : List UserAsset
  pub runs : List UserRun
  pub actions : List UserAction
  pub errors : List UserError
  pub asset_overrides : List AssetOverride
  pub sessions : List SessionRow
  pub user_api_keys : List ApiKey
  pub audit_log : List AuditEntry
  pub user_auto_scan : List AutoScan
  pub last_run : ℕ
  pub last_action : ℕ
  pub last_error : ℕ
  pub last_key : ℕ
  pub last_audit : ℕ
  pub clock : String

-- What a method of the store raises.
pub data StateFault : Type 0 where
  lookup_error permission_error : StateFault

module _ {ℓ} {A : Type ℓ} where
  -- `UPDATE ... WHERE`
  unfoldable pub update_rows : (A → Bool) → (A → A) → List A → List A
  update_rows p f [] = []
  update_rows p f (row ∷ rows) =
      let rest = update_rows p f rows in if p row then f row ∷ rest else row ∷ rest

  -- `DELETE ... WHERE`
  unfoldable pub delete_rows : (A → Bool) → List A → List A
  delete_rows p rows = filter (λ row. not (p row)) rows

  -- `INSERT ... ON CONFLICT DO UPDATE`: `p` finds the row in conflict.
  unfoldable pub upsert_row : (A → Bool) → (A → A) → A → List A → List A
  unfolding update_rows
  upsert_row p f new rows = if any p rows then update_rows p f rows else rows ++ (new ∷ [])

  -- The first row of a SELECT.
  unfoldable pub first_row : (A → Bool) → List A → Option A
  first_row p [] = none
  first_row p (row ∷ rows) = if p row then some row else first_row p rows

  -- The rows of a user change only where the statement is about that user.
  pub filter-update_rows :
      (p mine : A → Bool) (f : A → A) (rows : List A)
      → ((row : A) → p row ≡ true → (mine row ≡ false) × (mine (f row) ≡ false))
      → filter mine (update_rows p f rows) ≡ filter mine rows
  unfolding update_rows
  filter-update_rows p mine f [] h = refl
  filter-update_rows p mine f (row ∷ rows) h = elim (Bool-cases (p row)) [
    | inl e ↦
        let (before, after) = h row e in
        rw (update_rows, e, after, before) (filter-update_rows p mine f rows h)
    | inr e ↦ elim (Bool-cases (mine row)) [
      | inl m ↦ rw (update_rows, e, m) (ap (λ l. row ∷ l) (filter-update_rows p mine f rows h))
      | inr m ↦ rw (update_rows, e, m) (filter-update_rows p mine f rows h)
    ]
  ]

  pub filter-delete_rows :
      (p mine : A → Bool) (rows : List A)
      → ((row : A) → p row ≡ true → mine row ≡ false)
      → filter mine (delete_rows p rows) ≡ filter mine rows
  unfolding delete_rows
  filter-delete_rows p mine [] h = refl
  filter-delete_rows p mine (row ∷ rows) h = elim (Bool-cases (p row)) [
    | inl e ↦ rw (e, h row e) (filter-delete_rows p mine rows h)
    | inr e ↦ elim (Bool-cases (mine row)) [
      | inl m ↦ rw (e, m) (ap (λ l. row ∷ l) (filter-delete_rows p mine rows h))
      | inr m ↦ rw (e, m) (filter-delete_rows p mine rows h)
    ]
  ]

  pub filter-insert :
      (mine : A → Bool) (rows : List A) (new : A)
      → mine new ≡ false
      → filter mine (rows ++ (new ∷ [])) ≡ filter mine rows
  filter-insert mine [] new h = ground (arith, h)
  filter-insert mine (row ∷ rows) new h = ground (arith, filter-insert mine rows new h)

  pub filter-upsert_row :
      (p mine : A → Bool) (f : A → A) (new : A) (rows : List A)
      → mine new ≡ false
      → ((row : A) → p row ≡ true → (mine row ≡ false) × (mine (f row) ≡ false))
      → filter mine (upsert_row p f new rows) ≡ filter mine rows
  unfolding upsert_row
  filter-upsert_row p mine f new rows other h = elim (Bool-cases (any p rows)) [
    | inl e ↦ rw (upsert_row, e) (filter-update_rows p mine f rows h)
    | inr e ↦ rw (upsert_row, e) (filter-insert mine rows new other)
  ]
