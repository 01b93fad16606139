-- ===== src/Common/Raising.antt =====
-- What a call may do: return, or raise. The kinds of error are the caller's.
use mathlib.Core.Path.{◌≡◌, refl, subst}
use mathlib.Core.Logic.{◌⊎◌, inl, inr}
use mathlib.Core.Bool.{Bool, true, false}

pub data Outcome {ℓ} (E A : Type ℓ) : Type ℓ where
  returned : A → Outcome E A
  raised : E → Outcome E A

infixl 5 ◌>>=◌
abbrev pub ◌>>=◌ {ℓ} : {E A B : Type ℓ} → Outcome E A → (A → Outcome E B) → Outcome E B
returned a >>= f = f a
raised e >>= f = raised e

-- The exceptions of Python and of the program that cross a component's boundary.
pub data Fault : Type 0 where
  type_error value_error key_error not_implemented client_error classifier_error : Fault

abbrev pub has_returned {ℓ} : {E A : Type ℓ} → Outcome E A → Bool
has_returned (returned a) = true
has_returned (raised e) = false

-- Inversion of a bind that returned.
pub >>=-eq-returned {ℓ} :
    {E A B : Type ℓ} (m : Outcome E A) (f : A → Outcome E B) {b : B}
    → (m >>= f) ≡ returned b
    → (a : A) × (m ≡ returned a) × (f a ≡ returned b)
>>=-eq-returned (returned a) f h = (a, refl, h)
>>=-eq-returned (raised e) f h = cc

pub returned-injective {ℓ} :
    {E A : Type ℓ} {a b : A} → ◌≡◌ {A = Outcome E A} (returned a) (returned b) → a ≡ b
returned-injective h = cc

pub Outcome-cases {ℓ} :
    {E A : Type ℓ} (m : Outcome E A) → ((a : A) × (m ≡ returned a)) ⊎ ((e : E) × (m ≡ raised e))
Outcome-cases (returned a) = inl (a, refl)
Outcome-cases (raised e) = inr (e, refl)

pub raised-ne-returned {ℓ} :
    {E A : Type ℓ} {e : E} {a : A} → ◌≡◌ {A = Outcome E A} (raised e) (returned a) → ⊥
raised-ne-returned h = cc

-- What holds of the value of a call, if it returns one.
abbrev pub IfReturned {ℓ κ} : {E A : Type ℓ} → (A → Type κ) → Outcome E A → Type κ
IfReturned P (returned a) = P a
IfReturned P (raised e) = Unit

pub >>=-IfReturned {ℓ κ} :
    {E A B : Type ℓ} (P : B → Type κ) (m : Outcome E A) (f : A → Outcome E B)
    → ((a : A) → m ≡ returned a → IfReturned P (f a))
    → IfReturned P (m >>= f)
>>=-IfReturned P (returned a) f k = k a refl
>>=-IfReturned P (raised e) f k = tt

pub IfReturned_at {ℓ κ} :
    {E A : Type ℓ} (P : A → Type κ) {m : Outcome E A} {a : A}
    → IfReturned P m
    → m ≡ returned a
    → P a
IfReturned_at P h e = subst (IfReturned P) e h
