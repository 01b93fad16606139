-- ===== src/Config/Validate.antt =====
-- config.py, `validate_config_data`: every section is checked, and the document is taken if no check has
-- a message.
use media_refinery.Common.{
  if◌then◌else◌, Bool, Fault, List, Option, Outcome, String, [], contains, false, map, raised,
  returned, ◌++◌, ◌<>◌, ◌>>=◌, ◌∷◌,
}
use media_refinery.Common.Dict.{keys, Dict}
use media_refinery.Config.{AppConfig, Category, ClassifierProfile, allowed_top_level_keys, scanner}
use media_refinery.Config.Checks.{complain, non_empty_string, present_but_not}
use media_refinery.Config.Policies.{validate_policies}
use media_refinery.Config.Profiles.{
  validate_categories, validate_classifier_profiles, validate_classifier_selection,
}
use media_refinery.Config.Sections.{
  validate_actions, validate_config_version, validate_immich, validate_scanner, validate_video,
}
use media_refinery.Values.{Fields, Platform, Value, end, field, get_value, mapping, str, to_text}

pub data ConfigFailure : Type 0 where
  config_error : List String → ConfigFailure
  not_caught : Fault → ConfigFailure

is_known_key : Value → Bool
is_known_key (str s) = contains allowed_top_level_keys s
is_known_key v = false

unknown_of : Fields → List Value
unknown_of end = []
unknown_of (field key v rest) =
    let others = unknown_of rest in if is_known_key key then others else key ∷ others

-- `sorted(set(data) - ALLOWED_TOP_LEVEL_KEYS)`
unfoldable pub unknown_keys : Platform → Fields → Outcome Fault (List String)
unfolding is_known_key unknown_of
unknown_keys platform d = do
  keys ← platform.sort_keys (unknown_of d)
  returned (map (λ k. to_text platform k <> ": unknown top-level key") keys)

-- The messages of every check, in the order of the source, and what the checks keep.
pub record Checked : Type 0 where
  pub errors : List String
  pub categories : List Category
  pub profiles : Dict ClassifierProfile
  pub active_profile_name : String

unfoldable pub check_document : Platform → Fields → Outcome Fault Checked
check_document platform d = do
  unknown ← unknown_keys platform d
  let categories = validate_categories (get_value d "categories")
  let category_ids = map (λ c. c.id) categories.1
  profiles ← validate_classifier_profiles (get_value d "classifier_profiles") category_ids
  let selection = validate_classifier_selection (get_value d "classifier") profiles.1
  scanner ← validate_scanner platform (get_value d "scanner")
  video ← validate_video (get_value d "video")
  let actions = validate_actions (get_value d "actions")
  returned (record {
    errors =
        unknown
        ++ validate_config_version platform (get_value d "version")
        ++ categories.0
        ++ profiles.0
        ++ selection.0
        ++ validate_immich platform (get_value d "integration")
        ++ scanner
        ++ video
        ++ actions.0
        ++ validate_policies platform category_ids actions.1 (get_value d "policies")
        ++ complain (present_but_not non_empty_string (get_value d "preset"))
            "preset: optional preset metadata must be a non-empty string";
    categories = categories.1;
    profiles = profiles.1;
    active_profile_name = selection.1;
  })

unfoldable pub accept : Option String → Fields → Checked → Outcome ConfigFailure AppConfig
accept source d checked = elim checked.errors [
  | [] ↦ returned (record {
    source = source;
    raw = d;
    categories = checked.categories;
    classifier_profiles = checked.profiles;
    active_profile_name = checked.active_profile_name;
  })
  | e ∷ errors ↦ raised (config_error (e ∷ errors))
]

unfoldable pub validate_config_data :
    Platform → Option String → Value → Outcome ConfigFailure AppConfig
unfolding check_document accept
validate_config_data platform source (mapping d) = elim (check_document platform d) [
  | raised e ↦ raised (not_caught e)
  | returned checked ↦ accept source d checked
]
validate_config_data platform source v =
    raised (config_error ("config: expected a YAML mapping at the document root" ∷ []))
