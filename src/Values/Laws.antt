-- ===== src/Values/Laws.antt =====
-- Lookups in a mapping.
use media_refinery.Common.{Bool-cases, String, arith, eq_iff, inl, inr, ◌==◌, ◌≡◌}
use media_refinery.Values.{Fields, Value, field, get_value, is_key, str}

-- What a lookup finds is the value under the name, or what the rest has.
pub get_value_at :
    (P : Value → Type 0) (k v : Value) (rest : Fields) (name : String)
    → (k ≡ str name → P v)
    → P (get_value rest name)
    → P (get_value (field k v rest) name)
unfolding get_value is_key
get_value_at P (str s) v rest name here there = elim (Bool-cases (s == name)) [
  | inl same ↦ rw (get_value, same) (here (ground (arith, eq_iff s name)))
  | inr other ↦ rw (get_value, other) there
]
get_value_at P k v rest name here there = there
