-- ===== src/Security/Cipher.antt =====
-- service/security.py: `AesGcmCipher` and the master key. AES-GCM itself is of the package cryptography and
-- a parameter here; the random bytes of `secrets` are arguments.
use media_refinery.Common.{
  arith, false, length-append, subst, suc, List, Option, Outcome, [], ap, drop, if◌then◌else◌,
  length, ltb, nat_eq, none, not, raised, refl, returned, some, take, ℕ, ◌++◌, ◌+◌, ◌∷◌, ◌≡◌,
}

abbrev pub Bytes : Type 0
Bytes = List ℕ

-- `AESGCM(key).encrypt` and `.decrypt`; `none` is `InvalidTag`.
pub record Aead : Type 0 where
  pub seal : Bytes → Bytes → Bytes → Option Bytes → Bytes
  pub unseal : Bytes → Bytes → Bytes → Option Bytes → Option Bytes

-- What is sealed is unsealed with the same key, nonce and associated data, and the tag takes 16 bytes.
pub record IsAead (aead : Aead) : Type 0 where
  pub unseal-seal :
      (key nonce plaintext : Bytes) (associated : Option Bytes)
      → aead.unseal key nonce (aead.seal key nonce plaintext associated) associated ≡ some plaintext
  pub length-seal :
      (key nonce plaintext : Bytes) (associated : Option Bytes)
      → length (aead.seal key nonce plaintext associated) ≡ length plaintext + 16

-- The messages of the ValueError, and the MasterKeyError.
pub data CipherFault : Type 0 where
  bad_key too_short not_authentic : CipherFault
  unsupported_version : ℕ → CipherFault

abbrev pub master_key_bytes : ℕ
master_key_bytes = 32

abbrev pub nonce_bytes : ℕ
nonce_bytes = 12

abbrev pub ciphertext_format_version : ℕ
ciphertext_format_version = 1

pub record AesGcmCipher : Type 0 where
  pub aead : Aead
  pub key : Bytes

unfoldable pub new_cipher : Aead → Bytes → Outcome CipherFault AesGcmCipher
new_cipher aead key =
    if nat_eq (length key) master_key_bytes
    then returned (record { aead = aead; key = key })
    else raised bad_key

unfoldable pub encrypt : AesGcmCipher → Bytes → Bytes → Option Bytes → Bytes
encrypt c nonce plaintext associated =
    (ciphertext_format_version ∷ []) ++ nonce ++ c.aead.seal c.key nonce plaintext associated

-- `self._aead.decrypt`, with `InvalidTag` made a ValueError
authenticated : Option Bytes → Outcome CipherFault Bytes
authenticated (some plaintext) = returned plaintext
authenticated none = raised not_authentic

unfoldable pub decrypt : AesGcmCipher → Bytes → Option Bytes → Outcome CipherFault Bytes
unfolding authenticated
decrypt c [] associated = raised too_short
decrypt c (version ∷ rest) associated =
    if ltb (length (version ∷ rest)) (1 + nonce_bytes + 16)
    then raised too_short
    else if not (nat_eq version ciphertext_format_version)
    then raised (unsupported_version version)
    else authenticated
        (c.aead.unseal c.key (take nonce_bytes rest) (drop nonce_bytes rest) associated)

take_front {ℓ} : {A : Type ℓ} (xs ys : List A) → take (length xs) (xs ++ ys) ≡ xs
take_front [] ys = refl
take_front (x ∷ xs) ys = ap (λ l. x ∷ l) (take_front xs ys)

drop_front {ℓ} : {A : Type ℓ} (xs ys : List A) → drop (length xs) (xs ++ ys) ≡ ys
drop_front [] ys = refl
drop_front (x ∷ xs) ys = drop_front xs ys

module _ (c : AesGcmCipher) (nonce plaintext : Bytes) (associated : Option Bytes) where
  -- What a cipher encrypts with a nonce of twelve bytes it decrypts to the plaintext, if its AEAD
  -- opens what it sealed and adds a tag of sixteen bytes.
  pub decrypt-encrypt :
      IsAead c.aead
      → length nonce ≡ nonce_bytes
      → decrypt c (encrypt c nonce plaintext associated) associated ≡ returned plaintext
  unfolding decrypt encrypt authenticated
  decrypt-encrypt law size =
      let sealed = c.aead.seal c.key nonce plaintext associated in
      let rest = nonce ++ sealed in
      let long : ltb (suc (length rest)) (1 + nonce_bytes + 16) ≡ false = ground (
        arith,
        length-append nonce sealed,
        size,
        law.length-seal c.key nonce plaintext associated,
      ) in
      let front : take nonce_bytes rest ≡ nonce =
        subst (λ (n : ℕ). take n rest ≡ nonce) size (take_front nonce sealed) in
      let back : drop nonce_bytes rest ≡ sealed =
        subst (λ (n : ℕ). drop n rest ≡ sealed) size (drop_front nonce sealed) in
      let opened = law.unseal-seal c.key nonce plaintext associated in
      rw (decrypt, encrypt, long, front, back, opened) refl
