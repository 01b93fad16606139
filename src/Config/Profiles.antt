-- ===== src/Config/Profiles.antt =====
-- config.py: the checks of the categories, the classifier profiles and the choice of a profile, with
-- the values that they leave.
use media_refinery.Common.Dict
use media_refinery.Common.{
  Bool, Char, Fault, List, Option, Outcome, String, [], code, contains, false, if◌then◌else◌,
  is_empty, is_nil, is_some, leb, lower, nat_eq, none, not, or_default, pos, returned, some, strip,
  true, ℕ, ◌&&◌, ◌++◌, ◌+◌, ◌<>◌, ◌==◌, ◌>>=◌, ◌||◌, ◌∷◌,
}
use media_refinery.Common.Dict.{Dict}
use media_refinery.Config.{Category, ClassifierProfile, allowed_video_aggregations, category_ids}
use media_refinery.Config.Checks.{
  Triplet, at_index, complain, filled_text, is_text, non_empty_string, outside, present_but_not,
  validate_float_triplet, validate_positive_int,
}
use media_refinery.Values.{
  Fields, Items, Value, as_mapping, cons, decimal, end, field, get_value, mapping, nil,
  non_empty_text, null, seq, str,
}

is_id_char : Char → Bool
is_id_char c =
    let n = code c in
    (leb b'a' n && leb n b'z') || (leb b'0' n && leb n b'9') || nat_eq n b'_' || nat_eq n b'-'

all_id_chars : String → Bool
all_id_chars String.[] = true
all_id_chars (String.◌∷◌ c s) = is_id_char c && all_id_chars s

-- `CATEGORY_ID_RE.fullmatch`
unfoldable pub is_category_id : String → Bool
unfolding is_id_char all_id_chars
is_category_id s = not (is_empty s) && all_id_chars s

abbrev pub category_path : ℕ → String
category_path index = at_index "categories" index

-- One item of the list: the messages, and the category with its id if the item has one.
unfoldable pub validate_category : ℕ → List String → Value → List String × Option Category
unfolding is_category_id
validate_category index seen (mapping d) = elim (non_empty_text (get_value d "id")) [
  | none ↦ ((category_path index <> ".id: must be a non-empty string") ∷ [], none)
  | some id ↦ (
    complain (not (is_category_id id)) (category_path index <> ".id: must match ^[a-z0-9_-]+$")
        ++ complain (contains seen id)
            (category_path index <> ".id: duplicate category id '" <> id <> "'")
        ++ complain (present_but_not is_text (get_value d "description"))
            (category_path index <> ".description: must be a string when present"),
    some (record { id = id; description = get_value d "description" }),
  )
]
validate_category index seen v = ((category_path index <> ": must be a mapping") ∷ [], none)

abbrev pub add_category : Option Category → List Category → List Category
add_category none rest = rest
add_category (some c) rest = c ∷ rest

abbrev pub note_id : Option Category → List String → List String
note_id none seen = seen
note_id (some c) seen = c.id ∷ seen

unfoldable pub validate_category_items : ℕ → List String → Items → List String × List Category
unfolding validate_category
validate_category_items index seen nil = ([], [])
validate_category_items index seen (cons v vs) =
    let (errors, found) = validate_category index seen v in
    let (more, rest) = validate_category_items (index + 1) (note_id found seen) vs in
    (errors ++ more, add_category found rest)

-- `_validate_categories`
unfoldable pub validate_categories : Value → List String × List Category
unfolding validate_category_items
validate_categories (seq (cons v vs)) = validate_category_items 0 [] (cons v vs)
validate_categories v = ("categories: must be a non-empty list" ∷ [], [])

-- The value, or None where the test refuses it.
abbrev keep_if : (Value → Bool) → Value → Value
keep_if test v = if test v then v else null

-- One entry of an output mapping: the messages, and the entry that is kept.
unfoldable pub validate_label :
    String → List String → Value → Value → List String × Option (String × String)
validate_label path category_ids key v = elim (non_empty_text key) [
  | none ↦ ((path <> ".output_mapping: raw labels must be strings") ∷ [], none)
  | some raw_label ↦
      let mapping_path = path <> ".output_mapping." <> raw_label in
      elim v [
        | str category_id ↦ (
          complain (not (is_nil category_ids) && not (contains category_ids category_id))
              (mapping_path <> ": unknown category id '" <> category_id <> "'"),
          some (raw_label, category_id),
        )
        | other ↦ ((mapping_path <> ": category id must be a string") ∷ [], none)
      ]
]

abbrev pub add_label : Option (String × String) → Dict String → Dict String
add_label none labels = labels
add_label (some (label, id)) labels = Dict.put labels label id

unfoldable pub validate_labels :
    String → List String → Fields → Dict String → List String × Dict String
unfolding validate_label
validate_labels path category_ids end labels = ([], labels)
validate_labels path category_ids (field key v rest) labels =
    let (errors, found) = validate_label path category_ids key v in
    let (more, all) = validate_labels path category_ids rest (add_label found labels) in
    (errors ++ more, all)

unfoldable pub validate_output_mapping : String → List String → Value → List String × Dict String
unfolding validate_labels
validate_output_mapping path category_ids (mapping (field k v r)) =
    validate_labels path category_ids (field k v r) []
validate_output_mapping path category_ids v =
    ((path <> ".output_mapping: must be a non-empty mapping") ∷ [], [])

zeros : Triplet
zeros = (decimal (pos 0) 0, decimal (pos 0) 0, decimal (pos 0) 0)

ones : Triplet
ones = (decimal (pos 1) 0, decimal (pos 1) 0, decimal (pos 1) 0)

-- One profile, of a mapping under a name.
unfoldable pub validate_profile :
    String → List String → Fields → Outcome Fault (List String × ClassifierProfile)
unfolding non_empty_string validate_output_mapping zeros ones
validate_profile name category_ids d = do
  let path = "classifier_profiles." <> name
  let backend = or_default (non_empty_text (get_value d "backend")) ""
  let given_path = get_value d "model_path"
  let model_path = keep_if is_text given_path
  let model_version = get_value d "model_version"
  let input_name = get_value d "input_name"
  let output_name = get_value d "output_name"
  let size = validate_positive_int (get_value d "input_size") (path <> ".input_size") 224
  let means = validate_float_triplet (get_value d "input_mean") (path <> ".input_mean") zeros false
  let stds = validate_float_triplet (get_value d "input_std") (path <> ".input_std") ones true
  let labels = validate_output_mapping path category_ids (get_value d "output_mapping")
  let video_aggregation = get_value d "video_aggregation"
  bad_aggregation ← outside video_aggregation allowed_video_aggregations
  returned (
    complain (not (filled_text (get_value d "backend")))
          (path <> ".backend: must be a non-empty string")
        ++ complain (present_but_not is_text given_path)
            (path <> ".model_path: must be a string or null")
        ++ complain (lower (strip backend) == "onnx" && not (non_empty_string model_path))
            (path <> ".model_path: onnx backend requires a model path")
        ++ complain (present_but_not non_empty_string model_version)
            (path <> ".model_version: must be a non-empty string")
        ++ size.0
        ++ means.0
        ++ stds.0
        ++ complain (present_but_not non_empty_string input_name)
            (path <> ".input_name: must be a non-empty string")
        ++ complain (present_but_not non_empty_string output_name)
            (path <> ".output_name: must be a non-empty string")
        ++ labels.0
        ++ complain bad_aggregation
            (path <> ".video_aggregation: must be 'max', 'mean', or omitted"),
    record {
      name = name;
      backend = backend;
      model_path = model_path;
      output_mapping = labels.1;
      video_aggregation = video_aggregation;
      model_version = keep_if non_empty_string model_version;
      input_size = size.1;
      input_mean = means.1;
      input_std = stds.1;
      input_name = keep_if non_empty_string input_name;
      output_name = keep_if non_empty_string output_name;
    },
  )

-- One entry of the section, and the profiles that it leaves.
unfoldable pub validate_profile_entry :
    List String
    → Value
    → Value
    → Dict ClassifierProfile
    → Outcome Fault (List String × Dict ClassifierProfile)
unfolding validate_profile
validate_profile_entry category_ids key v profiles = elim (non_empty_text key) [
  | none ↦ returned ("classifier_profiles: profile names must be non-empty strings" ∷ [], profiles)
  | some name ↦ elim (as_mapping v) [
    | none ↦ returned (("classifier_profiles." <> name <> ": must be a mapping") ∷ [], profiles)
    | some d ↦ do
      checked ← validate_profile name category_ids d
      returned (checked.0, Dict.put profiles name checked.1)
  ]
]

unfoldable pub validate_profile_fields :
    List String
    → Fields
    → Dict ClassifierProfile
    → Outcome Fault (List String × Dict ClassifierProfile)
unfolding validate_profile_entry
validate_profile_fields category_ids end profiles = returned ([], profiles)
validate_profile_fields category_ids (field key v rest) profiles = do
  entry ← validate_profile_entry category_ids key v profiles
  others ← validate_profile_fields category_ids rest entry.1
  returned (entry.0 ++ others.0, others.1)

-- `_validate_classifier_profiles`
unfoldable pub validate_classifier_profiles :
    Value → List String → Outcome Fault (List String × Dict ClassifierProfile)
unfolding validate_profile_fields
validate_classifier_profiles (mapping (field k v r)) category_ids =
    validate_profile_fields category_ids (field k v r) []
validate_classifier_profiles v category_ids =
    returned ("classifier_profiles: must be a non-empty mapping" ∷ [], [])

-- `_validate_classifier_selection`
unfoldable pub validate_classifier_selection : Value → Dict ClassifierProfile → List String × String
validate_classifier_selection (mapping d) profiles = elim (non_empty_text (get_value d "profile")) [
  | none ↦ ("classifier.profile: must be a non-empty string" ∷ [], "")
  | some name ↦ (
    complain (not (is_nil (Dict.keys profiles)) && not (is_some (Dict.get profiles name)))
        ("classifier.profile: unknown profile '" <> name <> "'"),
    name,
  )
]
validate_classifier_selection v profiles = ("classifier: must be a mapping" ∷ [], "")
