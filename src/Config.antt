-- ===== src/Config.antt =====
-- config.py: the validated configuration, and the sets of names that it allows. The checks of
-- `validate_config_data` are in the modules below.
pub mod Checks
pub mod Sections
pub mod Policies
pub mod Profiles
pub mod Validate
pub mod Sound
pub mod Accepted
pub mod Known
use media_refinery.Common.{String, Option, List, [], ◌∷◌, map, Outcome, Fault}
use media_refinery.Common.Dict
use media_refinery.Common.Dict.{Dict}
use media_refinery.Values.{Value, Fields, get_value, mapping_or_empty}

pub record Category : Type 0 where
  pub id : String
  pub description : Value

-- A triplet of floats keeps the numbers of the document.
pub record ClassifierProfile : Type 0 where
  pub name : String
  pub backend : String
  pub model_path : Value
  pub output_mapping : Dict String
  pub video_aggregation : Value
  pub model_version : Value
  pub input_size : Value
  pub input_mean : Value × Value × Value
  pub input_std : Value × Value × Value
  pub input_name : Value
  pub output_name : Value

pub record AppConfig : Type 0 where
  pub source : Option String
  pub raw : Fields
  pub categories : List Category
  pub classifier_profiles : Dict ClassifierProfile
  pub active_profile_name : String

unfoldable pub category_ids : AppConfig → List String
category_ids config = map (λ c. c.id) config.categories

-- `self.classifier_profiles[self.active_profile_name]`; `none` is a KeyError.
unfoldable pub active_profile : AppConfig → Option ClassifierProfile
active_profile config = Dict.get config.classifier_profiles config.active_profile_name

unfoldable pub actions : AppConfig → Outcome Fault Fields
actions config = mapping_or_empty (get_value config.raw "actions")

unfoldable pub policies : AppConfig → Outcome Fault Fields
policies config = mapping_or_empty (get_value config.raw "policies")

unfoldable pub scanner : AppConfig → Outcome Fault Fields
scanner config = mapping_or_empty (get_value config.raw "scanner")

abbrev pub allowed_media_types : List String
allowed_media_types = "image" ∷ "video" ∷ []

abbrev pub allowed_scanner_modes : List String
allowed_scanner_modes = "full" ∷ "incremental" ∷ "date_range" ∷ "album" ∷ []

abbrev pub allowed_video_aggregations : List String
allowed_video_aggregations = "max" ∷ "mean" ∷ []

abbrev pub allowed_actions : List String
allowed_actions =
    "no_action" ∷ "add_to_review_album" ∷ "add_tag" ∷ "archive" ∷ "move_to_locked_folder"
    ∷ "manual_review" ∷ []

abbrev pub destructive_actions : List String
destructive_actions =
    "delete" ∷ "delete_asset" ∷ "delete_permanently" ∷ "destroy" ∷ "destroy_asset" ∷ "drop"
    ∷ "erase" ∷ "expunge" ∷ "hard_delete" ∷ "move_to_deleted" ∷ "move_to_trash" ∷ "permanent_delete"
    ∷ "purge" ∷ "purge_asset" ∷ "remove" ∷ "remove_asset" ∷ "trash" ∷ "trash_asset" ∷ "wipe" ∷ []

abbrev pub allowed_top_level_keys : List String
allowed_top_level_keys =
    "version" ∷ "preset" ∷ "categories" ∷ "classifier_profiles" ∷ "integration" ∷ "scanner"
    ∷ "classifier" ∷ "video" ∷ "actions" ∷ "state" ∷ "runtime" ∷ "reports" ∷ "policies" ∷ []
