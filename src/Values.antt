-- ===== src/Values.antt =====
-- The values that `yaml.safe_load` gives and that the configuration code calls `Any`, and what the
-- program asks of the libraries about such values.
pub mod Laws
use media_refinery.Common.{
  ℕ, ℤ, pos, String, Bool, true, false, Option, none, some, List, [], ◌∷◌, eqb_ℤ, is_empty, not,
  Outcome, Fault, returned, raised, type_error, ◌==◌, if◌then◌else◌,
}

-- A decimal `m`, `e` is the float m / 10 ^ e. A date is a date or a timestamp, in seconds of UTC. A
-- mapping keeps the order of insertion; its keys are any scalar.
mutual
  pub data Value : Type 0 where
    null : Value
    bool : Bool → Value
    int : ℤ → Value
    decimal : ℤ → ℕ → Value
    date : ℕ → Value
    str : String → Value
    seq : Items → Value
    mapping : Fields → Value

  pub data Items : Type 0 where
    nil : Items
    cons : Value → Items → Items

  pub data Fields : Type 0 where
    end : Fields
    field : Value → Value → Fields → Fields

-- What the program asks of Python's own libraries: `str(v)` of a value that is no text, `urlparse(u)`
-- finding a scheme http or https and a host, `datetime.fromisoformat` of a text, in seconds of UTC, and
-- `sorted` of the keys of a mapping, which raises where they have no order.
pub record Platform : Type 0 where
  pub show : Value → String
  pub is_http_url : String → Bool
  pub from_iso_format : String → Option ℕ
  pub sort_keys : List Value → Outcome Fault (List Value)

-- str(v)
unfoldable pub to_text : Platform → Value → String
to_text p (str s) = s
to_text p v = p.show v

is_zero : ℤ → Bool
is_zero z = eqb_ℤ z (pos 0)

-- bool(v)
unfoldable pub truthy : Value → Bool
unfolding is_zero
truthy null = false
truthy (bool b) = b
truthy (int z) = not (is_zero z)
truthy (decimal m e) = not (is_zero m)
truthy (date t) = true
truthy (str s) = not (is_empty s)
truthy (seq nil) = false
truthy (seq (cons v vs)) = true
truthy (mapping end) = false
truthy (mapping (field k v r)) = true

unfoldable pub is_key : String → Value → Bool
is_key name (str s) = s == name
is_key name v = false

-- d.get(name), for a text `name`
unfoldable pub get : Fields → String → Option Value
unfolding is_key
get end name = none
get (field k v r) name = if is_key name k then some v else get r name

-- d.get(name) where no entry and the entry None are the same to the caller
unfoldable pub get_value : Fields → String → Value
unfolding get
get_value d name = elim (get d name) [ none ↦ null | some v ↦ v ]

unfoldable pub to_list : Items → List Value
to_list nil = []
to_list (cons v vs) = v ∷ to_list vs

-- isinstance(v, dict), and the dict
unfoldable pub as_mapping : Value → Option Fields
as_mapping (mapping d) = some d
as_mapping v = none

-- isinstance(v, str) and v, and the text
unfoldable pub non_empty_text : Value → Option String
non_empty_text (str s) = if is_empty s then none else some s
non_empty_text v = none

-- dict(d.get(name) or {}). A truthy value that is no mapping makes the call raise, whatever the kind of
-- its error.
unfoldable pub mapping_or_empty : Value → Outcome Fault Fields
unfolding truthy
mapping_or_empty (mapping d) = returned d
mapping_or_empty v = if truthy v then raised type_error else returned end
