-- ===== src/Security/Rotation.antt =====
-- service/security.py: `rotate_encrypted_columns`, over tables that are lists of rows. The n-th nonce of the
-- rotation is an argument; a transaction that raises leaves the tables as they were.
use media_refinery.Common.{
  ap, raised-ne-returned, suc, sym, All, All-append, Bool, List, Outcome, Outcome-cases, [], arith,
  false, if◌then◌else◌, inl, inr, length, map, none, raised, refl, returned, true, ℕ, ◌++◌, ◌+◌,
  ◌>>=◌, ◌∙◌, ◌∷◌, ◌≡◌, ◌⊎◌,
}
use media_refinery.Security.Cipher.{
  decrypt-encrypt, AesGcmCipher, Bytes, CipherFault, IsAead, decrypt, encrypt, nonce_bytes,
}
use mathlib.Core.List.{append_assoc}
pub mod Columns

pub record Row (K : Type 0) : Type 0 where
  pub id : K
  pub blob : Bytes

module _ {K : Type 0} (same : K → K → Bool) where
  -- `UPDATE ... SET encrypted_... = ? WHERE id = ?`
  unfoldable pub update_where : K → Bytes → List (Row K) → List (Row K)
  update_where id blob [] = []
  update_where id blob (row ∷ rows) =
      let rest = update_where id blob rows in
      if same row.id id then record { id = row.id; blob = blob } ∷ rest else row ∷ rest

  -- The loop over the rows that were fetched: the table, and the count.
  unfoldable pub rotate_rows :
      AesGcmCipher
      → AesGcmCipher
      → (ℕ → Bytes)
      → ℕ
      → List (Row K)
      → List (Row K)
      → Outcome CipherFault (List (Row K) × ℕ)
  unfolding update_where
  rotate_rows old new nonce n [] table = returned (table, n)
  rotate_rows old new nonce n (row ∷ rest) table = do
    plaintext ← decrypt old row.blob none
    rotate_rows old new nonce (n + 1) rest
        (update_where row.id (encrypt new (nonce n) plaintext none) table)

  abbrev pub Apart : K → List (Row K) → Type 0
  Apart id rows = All (λ row. (same row.id id ≡ false) × (same id row.id ≡ false)) rows

  -- No two rows have one id.
  unfoldable pub IsUnique : List (Row K) → Type 0
  IsUnique [] = Unit
  IsUnique (row ∷ rows) = Apart row.id rows × IsUnique rows

  unfoldable pub plaintexts : AesGcmCipher → List (Row K) → List (K × Outcome CipherFault Bytes)
  plaintexts c rows = map (λ row. (row.id, decrypt c row.blob none)) rows

  -- Every secret of the table can be read.
  unfoldable pub Decrypts : AesGcmCipher → List (Row K) → Type 0
  Decrypts c rows = All (λ row. (p : Bytes) × (decrypt c row.blob none ≡ returned p)) rows

  update_where-append :
      (id : K) (blob : Bytes) (xs ys : List (Row K))
      → update_where id blob (xs ++ ys) ≡ update_where id blob xs ++ update_where id blob ys
  unfolding update_where
  update_where-append id blob [] ys = refl
  update_where-append id blob (x ∷ xs) ys = ground (arith, update_where-append id blob xs ys)

  update_where_absent :
      (id : K) (blob : Bytes) (rows : List (Row K))
      → All (λ row. same row.id id ≡ false) rows
      → update_where id blob rows ≡ rows
  unfolding update_where
  update_where_absent id blob [] h = refl
  update_where_absent id blob (row ∷ rows) h =
      ground (arith, h.0, update_where_absent id blob rows h.1)

  Apart-away :
      (id : K) (rows : List (Row K)) → Apart id rows → All (λ row. same row.id id ≡ false) rows
  Apart-away id [] h = tt
  Apart-away id (row ∷ rows) h = (h.0.0, Apart-away id rows h.1)

  -- No row of the first list has the id of a row of the second.
  abbrev pub AllApart : List (Row K) → List (Row K) → Type 0
  AllApart done rows = All (λ row. All (λ d. same d.id row.id ≡ false) done) rows

  pub AllApart-nil : (rows : List (Row K)) → AllApart [] rows
  AllApart-nil [] = tt
  AllApart-nil (row ∷ rows) = (tt, AllApart-nil rows)

  AllApart-append :
      (done : List (Row K)) (id : K) (blob : Bytes) (rows : List (Row K))
      → AllApart done rows
      → Apart id rows
      → AllApart (done ++ (record { id = id; blob = blob } ∷ [])) rows
  AllApart-append done id blob [] h apart = tt
  AllApart-append done id blob (row ∷ rows) h apart = (
    All-append (λ d. same d.id row.id ≡ false) done (record { id = id; blob = blob } ∷ []) h.0
        (apart.0.1, tt),
    AllApart-append done id blob rows h.1 apart.1,
  )

  module _ (same_refl : (k : K) → same k k ≡ true) (old new : AesGcmCipher) (nonce : ℕ → Bytes)
      (law : IsAead new.aead) (size : (n : ℕ) → length (nonce n) ≡ nonce_bytes) where
    -- Either some row cannot be read, or all of them are written anew.
    abbrev pub RowsRotated : ℕ → List (Row K) → List (Row K) → Type 0
    RowsRotated n rows done =
        ((e : CipherFault) × (rotate_rows old new nonce n rows (done ++ rows) ≡ raised e)
          × (Decrypts old rows → ⊥))
        ⊎ ((after : List (Row K)) × (rotate_rows old new nonce n rows (done ++ rows)
              ≡ returned (done ++ after, n + length rows))
            × (plaintexts new after ≡ plaintexts old rows))

    rotated_eq :
        (done after : List (Row K)) (row : Row K) (n m : ℕ)
        → (let out : Outcome CipherFault (List (Row K) × ℕ) =
              returned ((done ++ (row ∷ [])) ++ after, (n + 1) + m) in
            out)
          ≡ returned (done ++ (row ∷ after), n + suc m)
    rotated_eq done after row n m =
        ap (λ t. returned (t, n + 1 + m)) (append_assoc done (row ∷ []) after)
        ∙ ap (λ k. returned (done ++ (row ∷ after), k)) (omega arith)

    step-rows :
        (done rest : List (Row K)) (id : K) (before blob : Bytes)
        → All (λ d. same d.id id ≡ false) done
        → Apart id rest
        → update_where id blob (done ++ (record { id = id; blob = before } ∷ rest))
          ≡ (done ++ (record { id = id; blob = blob } ∷ [])) ++ rest
    unfolding update_where
    step-rows done rest id before blob h apart =
        rw
          (
            update_where-append id blob done (record { id = id; blob = before } ∷ rest),
            update_where_absent id blob done h,
            update_where,
            same_refl id,
            update_where_absent id blob rest (Apart-away id rest apart),
          )
          (sym (append_assoc done (record { id = id; blob = blob } ∷ []) rest))

    pub rotate_rows-RowsRotated :
        (n : ℕ) (rows done : List (Row K))
        → AllApart done rows
        → IsUnique rows
        → RowsRotated n rows done
    unfolding rotate_rows IsUnique plaintexts Decrypts
    rotate_rows-RowsRotated n [] done apart unique =
        inr ([], ap (λ m. returned (done ++ [], m)) (omega arith), refl)
    rotate_rows-RowsRotated n (row ∷ rest) done apart unique =
        elim (Outcome-cases (decrypt old row.blob none)) [
          | inr (e, failed) ↦ inl (
            e,
            rw (rotate_rows, failed) refl,
            λ all. absurd (raised-ne-returned (sym failed ∙ all.0.1)),
          )
          | inl (p, read) ↦
              let blob = encrypt new (nonce n) p none in
              let written : Row K = record { id = row.id; blob = blob } in
              let step = step-rows done rest row.id row.blob blob apart.0 unique.0 in
              elim (rotate_rows-RowsRotated (n + 1) rest (done ++ (written ∷ []))
                (AllApart-append done row.id blob rest apart.1 unique.0) unique.1) [
                  | inl (e, failed, unread) ↦
                      inl (e, rw (rotate_rows, read, step) failed, λ all. unread all.1)
                  | inr (after, rotated, kept) ↦ inr (
                    written ∷ after,
                    rw (rotate_rows, read, step, rotated)
                        (rotated_eq done after written n (length rest)),
                    rw (read, decrypt-encrypt new (nonce n) p none law (size n), kept) refl,
                  )
                ]
        ]
