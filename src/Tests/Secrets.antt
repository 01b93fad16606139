-- ===== src/Tests/Secrets.antt =====
-- The theorems on the service's secrets and its rate limiter at concrete data.
use media_refinery.Common.{
  List, [], ap, arith, false, length, length-append, none, pos, refl, returned, some, subst, take,
  true, ℕ, ◌++◌, ◌-◌, ◌∷◌, ◌≡◌, ◌≤◌, ◌⊎◌,
}
use media_refinery.Security.Cipher.{
  Aead, AesGcmCipher, Bytes, IsAead, decrypt, decrypt-encrypt, encrypt,
}
use media_refinery.Security.Limiter.{
  IsOrdered, Limiter, Request, bucket, check, drop_stale, new_limiter, run_checks,
}
use media_refinery.Security.Limiter.Bound.{admitted, run_checks_bound, run_checks_window, within}
use media_refinery.Security.Limiter.Window.{full_checks}
use media_refinery.Security.MasterKey.{
  IsKept, load_or_create_master_key, load_or_create_master_key_again, new_master_key,
}
use media_refinery.Security.Rotation.{IsUnique}
use media_refinery.Security.Rotation.Columns.{
  IsRefused, IsRotated, Secrets, rotate_encrypted_columns, rotate_encrypted_columns-IsRotated,
}
use media_refinery.Common.Dict

abbrev requests : List Request
requests =
    ("10.0.0.1", 0) ∷ ("10.0.0.1", 1) ∷ ("10.0.0.2", 2) ∷ ("10.0.0.1", 3) ∷ ("10.0.0.1", 61) ∷ []

abbrev limiter : Limiter
limiter = record { max_events = 2; window = 60; events = [] }

requests-IsOrdered : IsOrdered 0 requests
unfolding IsOrdered
requests-IsOrdered = (omega arith, (omega arith, (omega arith, (omega arith, (omega arith, tt)))))

limiter_made : new_limiter (pos 2) 60 ≡ returned limiter
unfolding new_limiter
limiter_made = refl

limiter_answers : (run_checks requests limiter).0 ≡ true ∷ true ∷ true ∷ false ∷ true ∷ []
unfolding run_checks check drop_stale bucket Dict.get Dict.put
limiter_answers = refl

run_checks_window_example : (run_checks requests limiter).0 ≡ (full_checks 2 60 requests []).0
run_checks_window_example = run_checks_window (pos 2) 60 0 requests limiter_made requests-IsOrdered

run_checks_bound_example :
    within 60 "10.0.0.1" 1 (admitted requests (run_checks requests limiter).0) ≤ 2
run_checks_bound_example =
    run_checks_bound (pos 2) 60 0 requests limiter_made requests-IsOrdered "10.0.0.1" 1

-- Sixteen bytes of a tag, after the plaintext as it is.
abbrev tag : Bytes
tag = 0 ∷ 0 ∷ 0 ∷ 0 ∷ 0 ∷ 0 ∷ 0 ∷ 0 ∷ 0 ∷ 0 ∷ 0 ∷ 0 ∷ 0 ∷ 0 ∷ 0 ∷ 0 ∷ []

abbrev plain_aead : Aead
plain_aead = record {
  seal = λ key nonce plaintext associated. plaintext ++ tag;
  unseal = λ key nonce sealed associated. some (take (length sealed - 16) sealed);
}

take_front : (xs : Bytes) → take (length (xs ++ tag) - 16) (xs ++ tag) ≡ xs
take_front xs =
    subst (λ (n : ℕ). take n (xs ++ tag) ≡ xs) (omega (arith, length-append xs tag)) (front xs)
  where
    front : (ys : Bytes) → take (length ys) (ys ++ tag) ≡ ys
    front [] = refl
    front (y ∷ ys) = ap (λ l. y ∷ l) (front ys)

plain_aead-IsAead : IsAead plain_aead
plain_aead-IsAead = record {
  unseal-seal = λ key nonce plaintext associated. ap (λ p. some p) (take_front plaintext);
  length-seal = λ key nonce plaintext associated. length-append plaintext tag;
}

abbrev nonce_of : ℕ → Bytes
nonce_of n = n ∷ 0 ∷ 0 ∷ 0 ∷ 0 ∷ 0 ∷ 0 ∷ 0 ∷ 0 ∷ 0 ∷ 0 ∷ 0 ∷ []

abbrev old_cipher : AesGcmCipher
old_cipher = record { aead = plain_aead; key = 1 ∷ tag }

abbrev next_cipher : AesGcmCipher
next_cipher = record { aead = plain_aead; key = 2 ∷ tag }

decrypt-encrypt_example :
    decrypt old_cipher (encrypt old_cipher (nonce_of 7) (5 ∷ 6 ∷ []) none) none
    ≡ returned (5 ∷ 6 ∷ [])
decrypt-encrypt_example =
    decrypt-encrypt old_cipher (nonce_of 7) (5 ∷ 6 ∷ []) none plain_aead-IsAead refl

abbrev secrets : Secrets
secrets = record {
  sessions =
      record { id = "s1"; blob = encrypt old_cipher (nonce_of 1) (5 ∷ []) none }
      ∷ record { id = "s2"; blob = encrypt old_cipher (nonce_of 2) (6 ∷ []) none }
      ∷ [];
  user_api_keys = record { id = 9; blob = encrypt old_cipher (nonce_of 3) (7 ∷ []) none } ∷ [];
}

rotate_encrypted_columns-IsRotated_example :
    IsRotated old_cipher next_cipher secrets
      (rotate_encrypted_columns old_cipher next_cipher nonce_of secrets)
    ⊎ IsRefused old_cipher secrets
        (rotate_encrypted_columns old_cipher next_cipher nonce_of secrets)
unfolding IsUnique
rotate_encrypted_columns-IsRotated_example =
    rotate_encrypted_columns-IsRotated old_cipher next_cipher nonce_of secrets plain_aead-IsAead
      (λ n. refl) (((refl, refl), tt), (tt, tt)) (tt, tt)

abbrev fresh_key : Bytes
fresh_key = 3 ∷ 1 ∷ 4 ∷ 1 ∷ 5 ∷ 9 ∷ 2 ∷ 6 ∷ 5 ∷ 3 ∷ 5 ∷ 8 ∷ 9 ∷ 7 ∷ 9 ∷ 3 ∷ tag

load_or_create_master_key_again_example :
    IsKept true [] (record { key = fresh_key; source = "generated" }) (some fresh_key)
unfolding load_or_create_master_key new_master_key
load_or_create_master_key_again_example =
    load_or_create_master_key_again true [] true fresh_key none refl
