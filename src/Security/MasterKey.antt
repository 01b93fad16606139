-- ===== src/Security/MasterKey.antt =====
-- service/security.py: `load_or_create_master_key`. The key file is an Option of its bytes; the fresh key of
-- `secrets.token_bytes` is an argument.
use media_refinery.Common.{
  Bool-cases, ap, inl, inr, raised-ne-returned, returned-injective, subst, nat_eq_iff, refl, Bool,
  Option, Outcome, String, false, if◌then◌else◌, length, nat_eq, none, raised, returned, some, true,
  ◌>>=◌, ◌≡◌,
}
use media_refinery.Security.Cipher.{Bytes, master_key_bytes}
use media_refinery.Security.Limiter.Window.{fresh}

pub record MasterKey : Type 0 where
  pub key : Bytes
  pub source : String

pub data MasterKeyError : Type 0 where
  wrong_length no_master_key : MasterKeyError

-- `MasterKey(...)` with its `__post_init__`
unfoldable pub new_master_key : Bytes → String → Outcome MasterKeyError MasterKey
new_master_key key source =
    if nat_eq (length key) master_key_bytes
    then returned (record { key = key; source = source })
    else raised wrong_length

unfoldable pub read_master_key_file : Bytes → Outcome MasterKeyError Bytes
read_master_key_file raw =
    if nat_eq (length raw) master_key_bytes then returned raw else raised wrong_length

-- The result, and the key file that is left.
unfoldable pub load_or_create_master_key :
    Bool → Bytes → Option Bytes → Outcome MasterKeyError MasterKey × Option Bytes
unfolding new_master_key read_master_key_file
load_or_create_master_key generate_if_missing fresh (some raw) =
    (read_master_key_file raw >>= (λ key. new_master_key key "file"), some raw)
load_or_create_master_key false fresh none = (raised no_master_key, none)
load_or_create_master_key true fresh none = (new_master_key fresh "generated", some fresh)

module _ (again : Bool) (other : Bytes) where
  -- What the next load gives for the key file that is left.
  abbrev pub IsKept : MasterKey → Option Bytes → Type 0
  IsKept k left =
      (left ≡ some k.key)
      × (length k.key ≡ master_key_bytes)
      × (load_or_create_master_key again other left
          ≡ (returned (record { key = k.key; source = "file" }), left))

  new_master_key-IsKept :
      (raw : Bytes) (source : String)
      → nat_eq (length raw) master_key_bytes ≡ true
      → IsKept (record { key = raw; source = source }) (some raw)
  unfolding load_or_create_master_key new_master_key read_master_key_file
  new_master_key-IsKept raw source e = (
    refl,
    (nat_eq_iff (length raw) master_key_bytes).0 e,
    rw (load_or_create_master_key, read_master_key_file, e) (rw (new_master_key, e) refl),
  )

  settled :
      (raw : Bytes) (source : String) {k : MasterKey} {left : Option Bytes}
      → nat_eq (length raw) master_key_bytes ≡ true
      → new_master_key raw source ≡ returned k
      → some raw ≡ left
      → IsKept k left
  unfolding new_master_key
  settled raw source {k} {left} e made kept =
      subst (λ (l : Option Bytes). IsKept k l) kept
        (subst (λ (x : MasterKey). IsKept x (some raw))
          (returned-injective (rw (new_master_key, e) at made))
          (new_master_key-IsKept raw source e))

  -- A load of the master key that succeeded, from the file or with a fresh key, leaves a file that
  -- holds this key of 32 bytes, and every later load takes it from the file and leaves the file as
  -- it is.
  pub load_or_create_master_key_again :
      (generate : Bool) (fresh : Bytes) (file : Option Bytes) {k : MasterKey} {left : Option Bytes}
      → load_or_create_master_key generate fresh file ≡ (returned k, left)
      → IsKept k left
  unfolding load_or_create_master_key new_master_key read_master_key_file
  load_or_create_master_key_again generate fresh (some raw) {k} {left} h =
      let out = ap (λ r. r.0) h in
      elim (Bool-cases (nat_eq (length raw) master_key_bytes)) [
        | inl e ↦
            let made : new_master_key raw "file" ≡ returned k =
              rw (read_master_key_file, e) at out in
            settled raw "file" e made (ap (λ r. r.1) h)
        | inr e ↦ absurd (raised-ne-returned (rw (read_master_key_file, e) at out))
      ]
  load_or_create_master_key_again true fresh none {k} {left} h =
      let made : new_master_key fresh "generated" ≡ returned k = ap (λ r. r.0) h in
      elim (Bool-cases (nat_eq (length fresh) master_key_bytes)) [
        | inl e ↦ settled fresh "generated" e made (ap (λ r. r.1) h)
        | inr e ↦ absurd (raised-ne-returned (rw (new_master_key, e) at made))
      ]
  load_or_create_master_key_again false fresh none h = absurd (raised-ne-returned (ap (λ r. r.0) h))
