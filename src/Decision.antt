-- ===== src/Decision.antt =====
-- decision.py: from a category and a media type to a plan of actions. An unknown category, a missing
-- policy or an invalid one gives the safe plan.
pub mod Laws
pub mod Validated
use media_refinery.Common.{
  String, Bool, true, false, not, Option, none, some, List, [], ◌∷◌, map, contains, Outcome, Fault,
  returned, ◌>>=◌, if◌then◌else◌,
}
use media_refinery.Values.{
  Platform, Value, seq, nil, cons, Fields, as_mapping, get_value, to_list, to_text,
}
use media_refinery.Config.{AppConfig, category_ids, policies}

abbrev pub side_effect_actions : List String
side_effect_actions = "add_to_review_album" ∷ "add_tag" ∷ "archive" ∷ "move_to_locked_folder" ∷ []

abbrev pub safe_no_action : List String
safe_no_action = "no_action" ∷ []

pub record IntendedAction : Type 0 where
  pub name : String
  pub would_apply : Bool

pub record ActionPlan : Type 0 where
  pub category_id : String
  pub media_type : String
  pub actions : List String
  pub dry_run : Bool
  pub asset_id : Option String
  pub policy_found : Bool
  pub reason : String
  pub error_code : Option String

abbrev pub intended : String → IntendedAction
intended name = record { name = name; would_apply = contains side_effect_actions name }

unfoldable pub intended_actions : ActionPlan → List IntendedAction
intended_actions plan = map intended plan.actions

unfoldable pub safe_plan : String → String → Bool → Option String → String → String → ActionPlan
safe_plan category_id media_type dry_run asset_id reason error_code = record {
  category_id = category_id;
  media_type = media_type;
  actions = safe_no_action;
  dry_run = dry_run;
  asset_id = asset_id;
  policy_found = false;
  reason = reason;
  error_code = some error_code;
}

module _ (platform : Platform) (category_id media_type : String) (dry_run : Bool)
    (asset_id : Option String) where
  abbrev refuse : String → ActionPlan
  refuse code = safe_plan category_id media_type dry_run asset_id code code

  -- from `configured_actions = media_policy.get("on_match")`
  unfoldable pub decide_actions : Value → ActionPlan
  unfolding safe_plan
  decide_actions (seq (cons v vs)) = record {
    category_id = category_id;
    media_type = media_type;
    actions = map (to_text platform) (v ∷ to_list vs);
    dry_run = dry_run;
    asset_id = asset_id;
    policy_found = true;
    reason = "policy_match";
    error_code = none;
  }
  decide_actions v = refuse "invalid_policy"

  -- from `media_policy = category_policy.get(media_type)`
  unfoldable pub decide_media : Option Fields → ActionPlan
  unfolding decide_actions
  decide_media none = refuse "missing_policy"
  decide_media (some media_policy) = decide_actions (get_value media_policy "on_match")

  -- from `category_policy = self._config.policies.get(category_id)`
  unfoldable pub decide_category : Option Fields → ActionPlan
  unfolding decide_media
  decide_category none = refuse "missing_policy"
  decide_category (some category_policy) =
      decide_media (as_mapping (get_value category_policy media_type))

  unfoldable pub decide : AppConfig → Outcome Fault ActionPlan
  unfolding decide_category
  decide config =
      if not (contains (category_ids config) category_id)
      then returned (refuse "unknown_category")
      else do
        found ← policies config
        returned (decide_category (as_mapping (get_value found category_id)))
