-- ===== src/Security/Rotation/Columns.antt =====
-- service/security.py: `rotate_encrypted_columns`, both tables in one transaction.
use media_refinery.Common.{
  ap, ◌∙◌, List, Outcome, String, [], arith, eq_refl, inl, inr, length, nat_eq, raised, refl,
  returned, ℕ, ◌+◌, ◌==◌, ◌>>=◌, ◌≡◌, ◌⊎◌,
}
use media_refinery.Security.Cipher.{AesGcmCipher, Bytes, CipherFault, IsAead, nonce_bytes}
use media_refinery.Security.Rotation.{
  AllApart-nil, Decrypts, IsUnique, Row, plaintexts, rotate_rows, rotate_rows-RowsRotated,
}

pub record Secrets : Type 0 where
  pub sessions : List (Row String)
  pub user_api_keys : List (Row ℕ)

-- The counts of the tables, and the tables. The second loop draws its nonces after the first.
unfoldable pub rotate_tables :
    AesGcmCipher → AesGcmCipher → (ℕ → Bytes) → Secrets → Outcome CipherFault ((ℕ × ℕ) × Secrets)
rotate_tables old new nonce s = do
  first ← rotate_rows (λ a b. a == b) old new nonce 0 s.sessions s.sessions
  second ← rotate_rows nat_eq old new (λ n. nonce (first.1 + n)) 0 s.user_api_keys s.user_api_keys
  returned ((first.1, second.1), record { sessions = first.0; user_api_keys = second.0 })

-- `with conn:` commits the tables, or rolls back where the body raises.
unfoldable pub rotate_encrypted_columns :
    AesGcmCipher → AesGcmCipher → (ℕ → Bytes) → Secrets → Outcome CipherFault (ℕ × ℕ) × Secrets
unfolding rotate_tables
rotate_encrypted_columns old new nonce s = elim (rotate_tables old new nonce s) [
  | raised e ↦ (raised e, s)
  | returned (counts, after) ↦ (returned counts, after)
]

-- Every secret is read under the new cipher as it was under the old one.
pub record IsRotated (old new : AesGcmCipher) (before : Secrets)
    (r : Outcome CipherFault (ℕ × ℕ) × Secrets) : Type 0 where
  pub counts_eq : r.0 ≡ returned (length before.sessions, length before.user_api_keys)
  pub sessions_eq :
      plaintexts (λ a b. a == b) new r.1.sessions ≡ plaintexts (λ a b. a == b) old before.sessions
  pub user_api_keys_eq :
      plaintexts nat_eq new r.1.user_api_keys ≡ plaintexts nat_eq old before.user_api_keys

-- Nothing was changed, and some secret is unreadable.
pub record IsRefused (old : AesGcmCipher) (before : Secrets)
    (r : Outcome CipherFault (ℕ × ℕ) × Secrets) : Type 0 where
  pub fault : CipherFault
  pub refused_eq : r ≡ (raised fault, before)
  pub unreadable :
      Decrypts (λ a b. a == b) old before.sessions → Decrypts nat_eq old before.user_api_keys → ⊥

module _ (old new : AesGcmCipher) (nonce : ℕ → Bytes) (before : Secrets) where
  -- Where the ids of each table are unique, the new cipher is an authenticated one and its nonces
  -- have twelve bytes, a rotation either counts every row and leaves tables whose secrets the new
  -- cipher reads as the old one read them before, or it raises, leaves the tables as they were, and
  -- some secret was unreadable.
  pub rotate_encrypted_columns-IsRotated :
      IsAead new.aead
      → ((n : ℕ) → length (nonce n) ≡ nonce_bytes)
      → IsUnique (λ a b. a == b) before.sessions
      → IsUnique nat_eq before.user_api_keys
      → IsRotated old new before (rotate_encrypted_columns old new nonce before)
        ⊎ IsRefused old before (rotate_encrypted_columns old new nonce before)
  unfolding rotate_encrypted_columns rotate_tables
  rotate_encrypted_columns-IsRotated law size sessions_unique keys_unique =
      elim (rotate_rows-RowsRotated (λ a b. a == b) eq_refl old new nonce law size 0 before.sessions
        [] (AllApart-nil (λ a b. a == b) before.sessions) sessions_unique) [
          | inl (e, failed, unread) ↦ inr (record {
            fault = e;
            refused_eq = rw (rotate_encrypted_columns, rotate_tables, failed) refl;
            unreadable = λ first second. unread first;
          })
          | inr (sessions, first, kept) ↦
              elim (rotate_rows-RowsRotated nat_eq (λ k. ground arith) old new
                (λ n. nonce (0 + length before.sessions + n)) law
                (λ n. size (0 + length before.sessions + n)) 0 before.user_api_keys []
                (AllApart-nil nat_eq before.user_api_keys) keys_unique) [
                  | inl (e, failed, unread) ↦ inr (record {
                    fault = e;
                    refused_eq = rw (rotate_encrypted_columns, rotate_tables, first, failed) refl;
                    unreadable = λ first second. unread second;
                  })
                  | inr (api_keys, second, also_kept) ↦ inl (
                      rw (rotate_encrypted_columns, rotate_tables, first, second)
                        (record {
                          counts_eq =
                              ap (λ m. returned (m, 0 + length before.user_api_keys)) (omega arith)
                              ∙ ap (λ m. returned (length before.sessions, m)) (omega arith);
                          sessions_eq = kept;
                          user_api_keys_eq = also_kept;
                        }))
                ]
        ]
