-- ===== src/Tests/Validated.antt =====
-- A configuration document, and the theorems on the configuration that `validate_config_data` makes of it.
use media_refinery.Common.{
  contains, dash_to_underscore, decimal_text, is_empty, is_space, lower, replace_zulu, strip,
  strip_where, All, [], false, refl, returned, some, ◌∷◌, ◌≡◌, none, pos, true,
}
use media_refinery.Actions.{normalized_action}
use media_refinery.Config.Checks.{
  at_most_zero, filled_text, is_bool, is_null, is_number, is_positive_int, is_text, member,
  non_empty_string, number_fault, outside, triplet_fault, validate_float_triplet,
  validate_positive_int, validate_string_list,
}
use media_refinery.Config.Policies.{
  validate_action, validate_action_list, validate_category_policy, validate_on_match,
  validate_policies, validate_policy_fields, validate_rule, validate_rules,
}
use media_refinery.Config.Profiles.{
  is_category_id, validate_categories, validate_category, validate_category_items,
  validate_classifier_profiles, validate_classifier_selection, validate_label, validate_labels,
  validate_output_mapping, validate_profile, validate_profile_entry, validate_profile_fields,
}
use media_refinery.Config.Sections.{
  validate_actions, validate_config_version, validate_flag, validate_immich,
  validate_immich_settings, validate_media_types, validate_scanner, validate_scanner_settings,
  validate_since, validate_video, validate_video_settings,
}
use media_refinery.Config.Validate.{accept, check_document, unknown_keys, validate_config_data}
use media_refinery.Values.{
  as_mapping, get_value, is_key, non_empty_text, to_text, truthy, Value, decimal, null, Fields,
  bool, cons, end, int, mapping, nil, seq, str,
}
use media_refinery.Config.{ClassifierProfile, active_profile, category_ids, AppConfig}
use media_refinery.Config.Known.{AreKnown, validated_labels_known}
use media_refinery.Config.Sound.{MayConfigure}
use media_refinery.Decision.{ActionPlan, decide}
use media_refinery.Decision.Validated.{archive_enabled, decide_validated}
use media_refinery.Tests.{item, platform, policy}
use media_refinery.Common.Dict
use media_refinery.Values

abbrev document_fields : Fields
document_fields = item "version" (int (pos 1)) (
    item "categories"
      (seq (
        cons (mapping (item "id" (str "pets") end))
          (cons (mapping (item "id" (str "documents") end)) nil)))
      (item "classifier_profiles"
        (mapping (
          item "default"
            (mapping (
              item "backend" (str "noop") (
                item "output_mapping"
                  (mapping (item "cat" (str "pets") (item "paper" (str "documents") end))) end)))
            end))
        (item "classifier" (mapping (item "profile" (str "default") end)) (
          item "integration"
            (mapping (item "immich" (mapping (item "url" (str "http://photos") end)) end))
            (item "actions" (mapping (item "archive_enabled" (bool true) end)) (
              item "policies"
                (mapping (item "pets" (policy "image" (seq (cons (str "archive") nil))) end))
                end))))))

abbrev document : Value
document = mapping document_fields

abbrev document_profile : ClassifierProfile
document_profile = record {
  name = "default";
  backend = "noop";
  model_path = null;
  output_mapping = ("cat", "pets") ∷ ("paper", "documents") ∷ [];
  video_aggregation = null;
  model_version = null;
  input_size = int (pos 224);
  input_mean = (decimal (pos 0) 0, decimal (pos 0) 0, decimal (pos 0) 0);
  input_std = (decimal (pos 1) 0, decimal (pos 1) 0, decimal (pos 1) 0);
  input_name = null;
  output_name = null;
}

abbrev document_config : AppConfig
document_config = record {
  source = none;
  raw = document_fields;
  categories =
      record { id = "pets"; description = null }
      ∷ record { id = "documents"; description = null }
      ∷ [];
  classifier_profiles = ("default", document_profile) ∷ [];
  active_profile_name = "default";
}

document_validated : validate_config_data platform none document ≡ returned document_config
unfolding validate_config_data unknown_keys validate_classifier_profiles get_value non_empty_text
    is_empty as_mapping outside validate_scanner validate_video contains validate_config_version
    validate_categories is_null filled_text lower strip validate_positive_int normalized_action
    decimal_text Dict.get Dict.keys Dict.put dash_to_underscore is_space replace_zulu strip_where
    at_most_zero is_bool is_number is_positive_int is_text member non_empty_string number_fault
    triplet_fault validate_float_triplet validate_string_list validate_action validate_action_list
    validate_category_policy validate_on_match validate_policies validate_policy_fields
    validate_rule validate_rules is_category_id validate_category validate_category_items
    validate_classifier_selection validate_label validate_labels validate_output_mapping
    validate_profile validate_profile_entry validate_profile_fields validate_actions validate_flag
    validate_immich validate_immich_settings validate_media_types validate_scanner_settings
    validate_since validate_video_settings accept check_document Values.get is_key to_text truthy
document_validated = refl

decide_validated_example :
    (plan : ActionPlan) × (decide platform "pets" "image" false (some "a") document_config
      ≡ returned plan)
    × All (MayConfigure (archive_enabled document_config)) plan.actions
decide_validated_example =
    decide_validated platform "pets" "image" false (some "a") none document document_validated

validated_labels_known_example :
    (p : ClassifierProfile) × (active_profile document_config ≡ some p)
    × AreKnown (category_ids document_config) p.output_mapping
validated_labels_known_example = validated_labels_known platform none document document_validated
