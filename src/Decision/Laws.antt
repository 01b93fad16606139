-- ===== src/Decision/Laws.antt =====
-- decision.py: the plans of `decide`.
use media_refinery.Common.{
  String, ◌≡◌, Bool, true, false, Option, none, some, contains, returned, >>=-eq-returned,
  returned-injective, subst, arith, Bool-cases, ◌⊎◌, inl, inr,
}
use media_refinery.Values.{Platform, Value, seq, nil, cons, Items, Fields, as_mapping, get_value}
use media_refinery.Config.{AppConfig, category_ids, policies}
use media_refinery.Decision.{
  ActionPlan, safe_no_action, safe_plan, decide_actions, decide_media, decide_category, decide,
}

-- The policies of the configuration list `listed` for this category and media type.
pub record Configured (config : AppConfig) (category_id media_type : String) (first : Value)
    (rest : Items) : Type 0 where
  pub known : contains (category_ids config) category_id ≡ true
  pub found : Fields
  pub found_eq : policies config ≡ returned found
  pub category_policy : Fields
  pub category_eq : as_mapping (get_value found category_id) ≡ some category_policy
  pub media_policy : Fields
  pub media_eq : as_mapping (get_value category_policy media_type) ≡ some media_policy
  pub listed : get_value media_policy "on_match" ≡ seq (cons first rest)

-- The plan echoes its request, and is either the safe plan with its code as the reason or a match.
pub record IsPlanFor (category_id media_type : String) (dry_run : Bool) (asset_id : Option String)
    (plan : ActionPlan) : Type 0 where
  pub category : plan.category_id ≡ category_id
  pub media : plan.media_type ≡ media_type
  pub mode : plan.dry_run ≡ dry_run
  pub asset : plan.asset_id ≡ asset_id
  pub outcome :
      ((plan.error_code ≡ none) × (plan.policy_found ≡ true) × (plan.reason ≡ "policy_match"))
      ⊎ ((plan.error_code ≡ some plan.reason)
          × (plan.policy_found ≡ false)
          × (plan.actions ≡ safe_no_action))

module _ (platform : Platform) (category_id media_type : String) (dry_run : Bool)
    (asset_id : Option String) where
  decide_actions-IsPlanFor :
      (v : Value)
      → IsPlanFor category_id media_type dry_run asset_id
          (decide_actions platform category_id media_type dry_run asset_id v)
  unfolding decide_actions
  decide_actions-IsPlanFor (seq nil) = ground arith
  decide_actions-IsPlanFor (seq (cons v vs)) = ground arith
  decide_actions-IsPlanFor v = ground arith

  decide_media-IsPlanFor :
      (o : Option Fields)
      → IsPlanFor category_id media_type dry_run asset_id
          (decide_media platform category_id media_type dry_run asset_id o)
  unfolding decide_media safe_plan
  decide_media-IsPlanFor none = ground arith
  decide_media-IsPlanFor (some p) = decide_actions-IsPlanFor (get_value p "on_match")

  pub decide_category-IsPlanFor :
      (o : Option Fields)
      → IsPlanFor category_id media_type dry_run asset_id
          (decide_category platform category_id media_type dry_run asset_id o)
  unfolding decide_category safe_plan
  decide_category-IsPlanFor none = ground arith
  decide_category-IsPlanFor (some p) = decide_media-IsPlanFor (as_mapping (get_value p media_type))

  safe_plan-IsPlanFor :
      (code : String)
      → IsPlanFor category_id media_type dry_run asset_id
          (safe_plan category_id media_type dry_run asset_id code code)
  unfolding safe_plan
  safe_plan-IsPlanFor code = ground arith

  -- A plan of the decision engine is for the category, media type, mode and asset that were asked
  -- for; it has no error code and its policy was found, or it has its reason as error code and the
  -- one action no_action.
  pub decide-IsPlanFor :
      (config : AppConfig) {plan : ActionPlan}
      → decide platform category_id media_type dry_run asset_id config ≡ returned plan
      → IsPlanFor category_id media_type dry_run asset_id plan
  unfolding decide
  decide-IsPlanFor config {plan} h =
      elim (Bool-cases (contains (category_ids config) category_id)) [
        | inl known ↦
            let (found, _, e) = >>=-eq-returned (policies config) _ (rw known at h) in
            subst (IsPlanFor category_id media_type dry_run asset_id) (returned-injective e)
              (decide_category-IsPlanFor (as_mapping (get_value found category_id)))
        | inr unknown ↦
            subst (IsPlanFor category_id media_type dry_run asset_id)
              (returned-injective (rw unknown at h)) (safe_plan-IsPlanFor "unknown_category")
      ]
