-- ===== src/Config/Checks.antt =====
-- config.py: what the checks share. A check gives the messages that the source appends to its list of
-- errors, in their order; a test `v in {…}` of a list or a mapping raises, since these are unhashable.
use media_refinery.Common.{
  Bool, Fault, List, Option, Outcome, String, [], contains, decimal_text, false, if◌then◌else◌,
  is_empty, ltb_ℤ, none, not, pos, raised, returned, some, strip, true, type_error, ℕ, ◌&&◌, ◌++◌,
  ◌+◌, ◌<>◌, ◌>>=◌, ◌∷◌,
}
use media_refinery.Values.{Items, Value, bool, cons, decimal, int, mapping, nil, null, seq, str}

-- The message, where the test fails the document.
abbrev pub complain : Bool → String → List String
complain b message = if b then message ∷ [] else []

-- `v in names`, for a set of texts
unfoldable pub member : Value → List String → Outcome Fault Bool
member (str s) names = returned (contains names s)
member (seq vs) names = raised type_error
member (mapping d) names = raised type_error
member v names = returned false

-- `v is not None and v not in names`
unfoldable pub outside : Value → List String → Outcome Fault Bool
unfolding member
outside null names = returned false
outside v names = do inside ← member v names; returned (not inside)

-- `_non_empty_string`
unfoldable pub non_empty_string : Value → Bool
non_empty_string (str s) = not (is_empty (strip s))
non_empty_string v = false

-- `isinstance(v, str) and v`
unfoldable pub filled_text : Value → Bool
filled_text (str s) = not (is_empty s)
filled_text v = false

unfoldable pub is_null : Value → Bool
is_null null = true
is_null v = false

unfoldable pub is_bool : Value → Bool
is_bool (bool b) = true
is_bool v = false

unfoldable pub is_text : Value → Bool
is_text (str s) = true
is_text v = false

-- An int, which is no bool, of at least 1.
unfoldable pub is_positive_int : Value → Bool
is_positive_int (int z) = ltb_ℤ (pos 0) z
is_positive_int v = false

-- A present value that fails a test.
abbrev pub present_but_not : (Value → Bool) → Value → Bool
present_but_not test v = not (is_null v) && not (test v)

-- `path[index]`
abbrev pub at_index : String → ℕ → String
at_index path index = path <> "[" <> decimal_text index <> "]"

string_items : String → ℕ → Items → List String
unfolding non_empty_string
string_items path index nil = []
string_items path index (cons v vs) =
    complain (not (non_empty_string v)) (at_index path index <> ": must be a non-empty string")
    ++ string_items path (index + 1) vs

-- `_validate_string_list`
unfoldable pub validate_string_list : Value → String → List String
unfolding string_items
validate_string_list null path = []
validate_string_list (seq vs) path = string_items path 0 vs
validate_string_list v path = (path <> ": must be a list") ∷ []

-- `_validate_positive_int`: the messages, and the value
unfoldable pub validate_positive_int : Value → String → ℕ → List String × Value
unfolding is_positive_int
validate_positive_int null path default = ([], int (pos default))
validate_positive_int v path default =
    if is_positive_int v
    then ([], v)
    else ((path <> ": must be a positive integer") ∷ [], int (pos default))

-- Whether a number is at most 0, and whether a value is a number.
unfoldable pub is_number : Value → Bool
is_number (int z) = true
is_number (decimal m e) = true
is_number v = false

unfoldable pub at_most_zero : Value → Bool
at_most_zero (int z) = not (ltb_ℤ (pos 0) z)
at_most_zero (decimal m e) = not (ltb_ℤ (pos 0) m)
at_most_zero v = false

-- What is wrong with the number at a place of a triplet.
unfoldable pub number_fault : String → Bool → ℕ → Value → Option String
unfolding is_number at_most_zero
number_fault path positive index v =
    if not (is_number v)
    then some (at_index path index <> ": must be a number")
    else if positive && at_most_zero v
    then some (at_index path index <> ": must be greater than zero")
    else none

-- The first fault of the three ends the loop.
unfoldable pub triplet_fault : String → Bool → Value → Value → Value → Option String
unfolding number_fault
triplet_fault path positive a b c = elim (number_fault path positive 0 a) [
  | some fault ↦ some fault
  | none ↦ elim (number_fault path positive 1 b) [
    | some fault ↦ some fault
    | none ↦ number_fault path positive 2 c
  ]
]

abbrev pub Triplet : Type 0
Triplet = Value × Value × Value

-- `_validate_float_triplet`: the messages, and the numbers of the document
unfoldable pub validate_float_triplet : Value → String → Triplet → Bool → List String × Triplet
unfolding triplet_fault
validate_float_triplet null path default positive = ([], default)
validate_float_triplet (seq (cons a (cons b (cons c nil)))) path default positive =
    elim (triplet_fault path positive a b c) [
      | none ↦ ([], (a, b, c))
      | some fault ↦ (fault ∷ [], default)
    ]
validate_float_triplet v path default positive =
    ((path <> ": must be a list of three numbers") ∷ [], default)
