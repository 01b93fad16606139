-- ===== src/Common/Decimal.antt =====
-- `str(n)` and `int(s)` of natural numbers, and the round trip. `int` is modelled on texts of digits.
use Prim.Native.Nat.{ℕ, zero, suc, ◌+◌, ◌-◌, ◌*◌, ◌/◌, ◌%◌, ◌<◌}
use Prim.Native.Char.{Char, code}
use Prim.Native.String.{String}
use mathlib.Core.Path.{◌≡◌, refl, ap, sym, subst, ◌∙◌}
use mathlib.Core.Logic.{inl, inr}
use mathlib.Core.Bool.{◌&&◌, false}
use mathlib.Core.Option.{Option, none, some}
use mathlib.Core.List.{List, [], ◌∷◌}
use native.Mathlib.Omega.{arith}
use media_refinery.Common.Text.{is_empty}
use media_refinery.Common.Tests.{leb, ltb, ltb→lt, le→leb, Bool-cases, if◌then◌else◌}

digit_table : List Char
digit_table = "0" ∷ "1" ∷ "2" ∷ "3" ∷ "4" ∷ "5" ∷ "6" ∷ "7" ∷ "8" ∷ "9" ∷ []

digit : List Char → ℕ → Char
digit [] n = "?"
digit (c ∷ cs) zero = c
digit (c ∷ cs) (suc n) = digit cs n

decimal_loop : ℕ → ℕ → String → String
decimal_loop zero n out = out
decimal_loop (suc fuel) n out =
    let rest = decimal_loop fuel (n / 10) (String.◌∷◌ (digit digit_table (n % 10)) out) in
    if ltb n 10 then String.◌∷◌ (digit digit_table n) out else rest

-- str(n)
unfoldable pub decimal_text : ℕ → String
unfolding decimal_loop digit digit_table
decimal_text n = decimal_loop (suc n) n ""

read_loop : ℕ → String → Option ℕ
read_loop n String.[] = some n
read_loop n (String.◌∷◌ c s) =
    let d = code c in
    let rest = read_loop (n * 10 + (d - 48)) s in if leb 48 d && leb d 57 then rest else none

-- int(s); `none` is a ValueError
unfoldable pub read_decimal : String → Option ℕ
unfolding read_loop
read_decimal String.[] = none
read_decimal (String.◌∷◌ c s) = read_loop 0 (String.◌∷◌ c s)

code-digit : (d : ℕ) → d < 10 → code (digit digit_table d) ≡ 48 + d
unfolding digit digit_table
code-digit zero h = refl
code-digit (suc zero) h = refl
code-digit (suc (suc zero)) h = refl
code-digit (suc (suc (suc zero))) h = refl
code-digit (suc (suc (suc (suc zero)))) h = refl
code-digit (suc (suc (suc (suc (suc zero))))) h = refl
code-digit (suc (suc (suc (suc (suc (suc zero)))))) h = refl
code-digit (suc (suc (suc (suc (suc (suc (suc zero))))))) h = refl
code-digit (suc (suc (suc (suc (suc (suc (suc (suc zero)))))))) h = refl
code-digit (suc (suc (suc (suc (suc (suc (suc (suc (suc zero))))))))) h = refl
code-digit (suc (suc (suc (suc (suc (suc (suc (suc (suc (suc d)))))))))) h = absurd (omega arith)

read_loop-digit :
    (n d : ℕ) (s : String)
    → d < 10
    → read_loop n (String.◌∷◌ (digit digit_table d) s) ≡ read_loop (n * 10 + d) s
unfolding read_loop
read_loop-digit n d s h =
    rw (code-digit d h, le→leb 48 (48 + d) (omega arith), le→leb (48 + d) 57 (omega arith))
      (ap (λ k. read_loop k s) (omega arith))

read_loop-decimal_loop :
    (fuel n : ℕ) (out : String) → n < fuel → read_loop 0 (decimal_loop fuel n out) ≡ read_loop n out
unfolding decimal_loop
read_loop-decimal_loop zero n out h = elim h [ ]
read_loop-decimal_loop (suc fuel) n out h = elim (Bool-cases (ltb n 10)) [
  | inl small ↦
      rw small
        (read_loop-digit 0 n out (ltb→lt n 10 small) ∙ ap (λ k. read_loop k out) (omega arith))
  | inr large ↦ rw large (
      read_loop-decimal_loop fuel (n / 10) (String.◌∷◌ (digit digit_table (n % 10)) out)
        (ground arith)
      ∙ read_loop-digit (n / 10) (n % 10) out (omega arith)
      ∙ ap (λ k. read_loop k out) (omega arith))
]

decimal_loop-cons :
    (fuel n : ℕ) (c : Char) (out : String)
    → (d : Char) × (t : String) × (decimal_loop fuel n (String.◌∷◌ c out) ≡ String.◌∷◌ d t)
unfolding decimal_loop
decimal_loop-cons zero n c out = (c, out, refl)
decimal_loop-cons (suc fuel) n c out = elim (Bool-cases (ltb n 10)) [
  | inl small ↦ (digit digit_table n, String.◌∷◌ c out, rw small)
  | inr large ↦
      let (d, t, e) =
        decimal_loop-cons fuel (n / 10) (digit digit_table (n % 10)) (String.◌∷◌ c out) in
      (d, t, rw large e)
]

decimal_text-cons :
    (n : ℕ) → (d : Char) × (t : String) × (decimal_loop (suc n) n "" ≡ String.◌∷◌ d t)
unfolding decimal_loop
decimal_text-cons n = elim (Bool-cases (ltb n 10)) [
  | inl small ↦ (digit digit_table n, "", rw small)
  | inr large ↦
      let (d, t, e) = decimal_loop-cons n (n / 10) (digit digit_table (n % 10)) "" in
      (d, t, rw large e)
]

read_loop-nil : (n : ℕ) → read_loop n "" ≡ some n
unfolding read_loop
read_loop-nil n = refl

-- Reading back what was printed gives the number.
pub read_decimal-decimal_text : (n : ℕ) → read_decimal (decimal_text n) ≡ some n
unfolding read_decimal decimal_text
read_decimal-decimal_text n =
    let (d, t, e) = decimal_text-cons n in
    subst (λ s. read_decimal s ≡ read_loop 0 s) (sym e) refl
    ∙ read_loop-decimal_loop (suc n) n "" (omega arith)
    ∙ read_loop-nil n

pub is_empty-decimal_text : (n : ℕ) → is_empty (decimal_text n) ≡ false
unfolding decimal_text is_empty
is_empty-decimal_text n =
    let (d, t, e) = decimal_text-cons n in subst (λ s. is_empty s ≡ false) (sym e) refl
