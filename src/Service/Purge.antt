-- ===== src/Service/Purge.antt =====
-- service/state_store.py: `UserScopedState.purge`. The row of the user itself, the configuration of the user
-- and the tables of analyses and events are left out; a blob that is zeroed is deleted next.
use media_refinery.Service.{ApiKey, AuditEntry, SessionRow, Db, delete_rows, update_rows}
use media_refinery.Common.{String, [], ◌∷◌}
use media_refinery.Security.Cipher.{Bytes}
use media_refinery.Service.Scope.{owns}

-- The user that stands in the audit log for those who left.
abbrev pub user_deleted : String
user_deleted = "user_deleted"

unfoldable pub zeroed : Bytes → Bytes
zeroed [] = []
zeroed (b ∷ bytes) = 0 ∷ zeroed bytes

abbrev pub zero_token : SessionRow → SessionRow
zero_token row = record row { encrypted_immich_token = zeroed row.encrypted_immich_token }

abbrev pub zero_key : ApiKey → ApiKey
zero_key row = record row { encrypted_key = zeroed row.encrypted_key }

abbrev pub anonymize : AuditEntry → AuditEntry
anonymize row = record row { user_id = user_deleted }

module _ (user : String) where
  unfoldable pub purge : Db → Db
  unfolding zeroed
  purge db =
      let sessions = update_rows (λ row. owns user row.user_id) zero_token db.sessions in
      let keys = update_rows (λ row. owns user row.user_id) zero_key db.user_api_keys in
      record db {
        sessions = delete_rows (λ row. owns user row.user_id) sessions;
        user_api_keys = delete_rows (λ row. owns user row.user_id) keys;
        actions = delete_rows (λ row. owns user row.user_id) db.actions;
        errors = delete_rows (λ row. owns user row.user_id) db.errors;
        assets = delete_rows (λ row. owns user row.user_id) db.assets;
        runs = delete_rows (λ row. owns user row.user_id) db.runs;
        asset_overrides = delete_rows (λ row. owns user row.user_id) db.asset_overrides;
        user_auto_scan = delete_rows (λ row. owns user row.user_id) db.user_auto_scan;
        audit_log = update_rows (λ row. owns user row.user_id) anonymize db.audit_log;
      }
