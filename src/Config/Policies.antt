-- ===== src/Config/Policies.antt =====
-- config.py, `_validate_policies`: category by category, media type by media type, action by action.
use media_refinery.Common.{
  Bool, List, String, [], contains, if◌then◌else◌, is_nil, none, not, some, ℕ, ◌&&◌, ◌++◌, ◌+◌,
  ◌<>◌, ◌==◌, ◌∷◌,
}
use media_refinery.Actions.{normalized_action}
use media_refinery.Config.{allowed_actions, allowed_media_types, destructive_actions}
use media_refinery.Config.Checks.{at_index, complain}
use media_refinery.Values.{
  Fields, Items, Platform, Value, as_mapping, cons, end, field, get_value, mapping, nil,
  non_empty_text, seq, str, to_text,
}

module _ (platform : Platform) (category_ids : List String) (archive_enabled : Bool) where
  -- The checks of one action; each `continue` ends them.
  unfoldable pub validate_action : String → Value → List String
  validate_action path v = elim (non_empty_text v) [
    | none ↦ (path <> ": must be a non-empty string") ∷ []
    | some action ↦
        if contains destructive_actions (normalized_action action)
        then (path <> ": destructive action '" <> action <> "' is not supported") ∷ []
        else if not (contains allowed_actions action)
        then (path <> ": unknown action '" <> action <> "'") ∷ []
        else complain (action == "archive" && not archive_enabled)
            (path <> ": archive requires actions.archive_enabled=true")
  ]

  unfoldable pub validate_action_list : String → ℕ → Items → List String
  unfolding validate_action
  validate_action_list path index nil = []
  validate_action_list path index (cons v vs) =
      validate_action (at_index path index) v ++ validate_action_list path (index + 1) vs

  unfoldable pub validate_on_match : String → Value → List String
  unfolding validate_action_list
  validate_on_match path (seq nil) = (path <> ": must include at least one action") ∷ []
  validate_on_match path (seq vs) = validate_action_list path 0 vs
  validate_on_match path v = (path <> ": must be a list") ∷ []

  unfoldable pub validate_rule : String → Value → Value → List String
  unfolding validate_on_match
  validate_rule path (str media_type) rule =
      if not (contains allowed_media_types media_type)
      then (path <> ": media type must be one of image, video") ∷ []
      else elim (as_mapping rule) [
        | none ↦ (path <> ": must be a mapping") ∷ []
        | some d ↦ validate_on_match (path <> ".on_match") (get_value d "on_match")
      ]
  validate_rule path media_type rule = (path <> ": media type must be one of image, video") ∷ []

  unfoldable pub validate_rules : String → Fields → List String
  unfolding validate_rule
  validate_rules path end = []
  validate_rules path (field media_type rule rest) =
      validate_rule (path <> "." <> to_text platform media_type) media_type rule
      ++ validate_rules path rest

  unfoldable pub validate_category_policy : Value → Value → List String
  unfolding validate_rules
  validate_category_policy key media_policy = elim (non_empty_text key) [
    | none ↦ "policies: category keys must be non-empty strings" ∷ []
    | some category_id ↦
        let path = "policies." <> category_id in
        complain (not (is_nil category_ids) && not (contains category_ids category_id))
          (path <> ": unknown category id '" <> category_id <> "'")
        ++ elim (as_mapping media_policy) [
          | none ↦ (path <> ": must be a mapping") ∷ []
          | some rules ↦ validate_rules path rules
        ]
  ]

  unfoldable pub validate_policy_fields : Fields → List String
  unfolding validate_category_policy
  validate_policy_fields end = []
  validate_policy_fields (field key media_policy rest) =
      validate_category_policy key media_policy ++ validate_policy_fields rest

  -- `_validate_policies`
  unfoldable pub validate_policies : Value → List String
  unfolding validate_policy_fields
  validate_policies (mapping d) = validate_policy_fields d
  validate_policies v = "policies: must be a mapping" ∷ []
