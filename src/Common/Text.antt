-- ===== src/Common/Text.antt =====
-- The methods of Python's `str` that the program calls, and membership in a set of texts.
-- `lower` maps the letters A to Z; other letters with a case are left as they are.
use Prim.Native.Nat.{ℕ}
use Prim.Native.Char.{Char, code}
use Prim.Native.String.{String, ◌++◌ as ◌<>◌}
use mathlib.Core.Path.{◌≡◌, refl}
use mathlib.Core.Logic.{◌↔◌, ◌⊎◌}
use mathlib.Core.Bool.{Bool, true, false, ◌&&◌, ◌||◌}
use mathlib.Core.List.{List, [], ◌∷◌, ◌++◌}
use native.Mathlib.Omega.{arith}
use text.Mathlib.Text.{◌==◌}
use text.Mathlib.TextEquality.{eq_iff}
use media_refinery.Common.Tests.{nat_eq, leb, ltb, if◌then◌else◌}

-- `x in {a, b, c}`
unfoldable pub contains : List String → String → Bool
contains [] x = false
contains (y ∷ ys) x = y == x || contains ys x

abbrev pub is_nil : List String → Bool
is_nil [] = true
is_nil (y ∷ ys) = false

unfoldable pub is_empty : String → Bool
is_empty String.[] = true
is_empty (String.◌∷◌ c s) = false

-- `str.isspace` of one character.
unfoldable pub is_space : Char → Bool
is_space c =
    let n = code c in
    (leb 9 n && leb n 13)
    || (leb 28 n && leb n 32)
    || nat_eq n 0x85
    || nat_eq n 0xa0
    || nat_eq n 0x1680
    || (leb 0x2000 n && leb n 0x200a)
    || nat_eq n 0x2028
    || nat_eq n 0x2029
    || nat_eq n 0x202f
    || nat_eq n 0x205f
    || nat_eq n 0x3000

left_strip : (Char → Bool) → String → String
left_strip p String.[] = ""
left_strip p (String.◌∷◌ c s) = let rest = left_strip p s in if p c then rest else String.◌∷◌ c s

right_strip : (Char → Bool) → String → String
right_strip p String.[] = ""
right_strip p (String.◌∷◌ c s) =
    let rest = right_strip p s in if is_empty rest && p c then "" else String.◌∷◌ c rest

-- `s.strip(chars)`
unfoldable pub strip_where : (Char → Bool) → String → String
unfolding left_strip right_strip is_empty
strip_where p s = right_strip p (left_strip p s)

-- `s.strip()`
unfoldable pub strip : String → String
unfolding strip_where is_space
strip s = strip_where is_space s

map_char : (Char → Char) → String → String
map_char f String.[] = ""
map_char f (String.◌∷◌ c s) = String.◌∷◌ (f c) (map_char f s)

lower_table : List (ℕ × Char)
lower_table =
    (b'A', "a")
    ∷ (b'B', "b")
    ∷ (b'C', "c")
    ∷ (b'D', "d")
    ∷ (b'E', "e")
    ∷ (b'F', "f")
    ∷ (b'G', "g")
    ∷ (b'H', "h")
    ∷ (b'I', "i")
    ∷ (b'J', "j")
    ∷ (b'K', "k")
    ∷ (b'L', "l")
    ∷ (b'M', "m")
    ∷ (b'N', "n")
    ∷ (b'O', "o")
    ∷ (b'P', "p")
    ∷ (b'Q', "q")
    ∷ (b'R', "r")
    ∷ (b'S', "s")
    ∷ (b'T', "t")
    ∷ (b'U', "u")
    ∷ (b'V', "v")
    ∷ (b'W', "w")
    ∷ (b'X', "x")
    ∷ (b'Y', "y")
    ∷ (b'Z', "z")
    ∷ []

lower_char : List (ℕ × Char) → Char → Char
lower_char [] c = c
lower_char ((n, d) ∷ table) c = if nat_eq n (code c) then d else lower_char table c

unfoldable pub lower : String → String
unfolding map_char lower_char lower_table
lower = map_char (lower_char lower_table)

-- `s.replace("-", "_")`
unfoldable pub dash_to_underscore : String → String
unfolding map_char
dash_to_underscore = map_char (λ c. if nat_eq (code c) b'-' then "_" else c)

pub contains_iff :
    (ys : List String) (y x : String)
    → (contains (y ∷ ys) x ≡ true) ↔ ((y ≡ x) ⊎ (contains ys x ≡ true))
unfolding contains
contains_iff ys y x = ground (arith, eq_iff y x)

pub contains-append :
    (xs ys : List String) (x : String) → contains (xs ++ ys) x ≡ contains xs x || contains ys x
unfolding contains
contains-append [] ys x = refl
contains-append (y ∷ xs) ys x = ground (arith, contains-append xs ys x)

-- `s.replace("Z", "+00:00")`
unfoldable pub replace_zulu : String → String
replace_zulu String.[] = ""
replace_zulu (String.◌∷◌ c s) =
    let rest = replace_zulu s in
    if nat_eq (code c) b'Z' then "+00:00" <> rest else String.◌∷◌ c rest

-- The order of texts by their code points, in Python and in SQLite.
unfoldable pub text_ltb : String → String → Bool
text_ltb String.[] String.[] = false
text_ltb String.[] (String.◌∷◌ d t) = true
text_ltb (String.◌∷◌ c s) String.[] = false
text_ltb (String.◌∷◌ c s) (String.◌∷◌ d t) =
    ltb (code c) (code d) || (nat_eq (code c) (code d) && text_ltb s t)
