-- ===== src/Decision/Validated.antt =====
-- decision.py and config.py together: the plans of a configuration that `validate_config_data` returned.
use media_refinery.Common.{
  Bool-cases, dash_to_underscore, inl, inr, lower, strip, All, Bool, List, Option, String, [],
  arith, contains, map, none, refl, returned, some, ◌∷◌, ◌≡◌,
}
use media_refinery.Config.{category_ids, policies, AppConfig}
use media_refinery.Config.Accepted.{validate_config_data-IsAccepted}
use media_refinery.Config.Sound.{validate_policy_fields-IsSoundPolicy, IsSoundRule, MayConfigure}
use media_refinery.Values.{
  mapping_or_empty, Fields, Items, Platform, Value, as_mapping, bool, cons, date, decimal,
  get_value, int, mapping, nil, null, seq, str, to_list, to_text,
}
use media_refinery.Actions.{normalized_action}
use media_refinery.Config.Policies.{validate_policies, validate_policy_fields}
use media_refinery.Config.Sections.{validate_actions}
use media_refinery.Config.Validate.{validate_config_data}
use media_refinery.Decision.{
  ActionPlan, decide, decide_actions, decide_category, decide_media, safe_plan,
}

-- Whether the configuration enables the action `archive`.
abbrev pub archive_enabled : AppConfig → Bool
archive_enabled config = (validate_actions (get_value config.raw "actions")).1

validate_policies_mapping :
    (platform : Platform) (ids : List String) (enabled : Bool) (v : Value)
    → validate_policies platform ids enabled v ≡ []
    → (d : Fields) × (v ≡ mapping d) × (validate_policy_fields platform ids enabled d ≡ [])
unfolding validate_policies
validate_policies_mapping platform ids enabled (mapping d) h = (d, refl, h)
validate_policies_mapping platform ids enabled v h = absurd (ground arith)

no_action-MayConfigure : (enabled : Bool) → MayConfigure enabled "no_action"
unfolding normalized_action contains dash_to_underscore lower strip
no_action-MayConfigure enabled = record {
  allowed = refl;
  harmless = refl;
  archiving = λ e. absurd (ground arith);
}

module _ (platform : Platform) (category_id media_type : String) (dry_run : Bool)
    (asset_id : Option String) (enabled : Bool) where
  abbrev OnlyMayConfigure : ActionPlan → Type 0
  OnlyMayConfigure plan = All (MayConfigure enabled) plan.actions

  decide_actions-OnlyMayConfigure :
      (v : Value)
      → ((first : Value) (rest : Items)
          → v ≡ seq (cons first rest)
          → All (MayConfigure enabled) (map (to_text platform) (first ∷ to_list rest)))
      → OnlyMayConfigure (decide_actions platform category_id media_type dry_run asset_id v)
  unfolding decide_actions
  decide_actions-OnlyMayConfigure (seq (cons v vs)) h = h v vs refl
  decide_actions-OnlyMayConfigure (seq nil) h = (no_action-MayConfigure enabled, tt)
  decide_actions-OnlyMayConfigure null h = (no_action-MayConfigure enabled, tt)
  decide_actions-OnlyMayConfigure (bool b) h = (no_action-MayConfigure enabled, tt)
  decide_actions-OnlyMayConfigure (int z) h = (no_action-MayConfigure enabled, tt)
  decide_actions-OnlyMayConfigure (decimal m e) h = (no_action-MayConfigure enabled, tt)
  decide_actions-OnlyMayConfigure (date t) h = (no_action-MayConfigure enabled, tt)
  decide_actions-OnlyMayConfigure (str s) h = (no_action-MayConfigure enabled, tt)
  decide_actions-OnlyMayConfigure (mapping d) h = (no_action-MayConfigure enabled, tt)

  decide_media-OnlyMayConfigure :
      (o : Option Fields)
      → ((d : Fields)
          → o ≡ some d
          → (first : Value) (rest : Items) → get_value d "on_match" ≡ seq (cons first rest)
          → All (MayConfigure enabled) (map (to_text platform) (first ∷ to_list rest)))
      → OnlyMayConfigure (decide_media platform category_id media_type dry_run asset_id o)
  unfolding decide_media safe_plan
  decide_media-OnlyMayConfigure none h = (no_action-MayConfigure enabled, tt)
  decide_media-OnlyMayConfigure (some d) h =
      decide_actions-OnlyMayConfigure (get_value d "on_match") (h d refl)

  decide_category-OnlyMayConfigure :
      (o : Option Fields)
      → ((d : Fields) → o ≡ some d → IsSoundRule platform [] enabled (get_value d media_type))
      → OnlyMayConfigure (decide_category platform category_id media_type dry_run asset_id o)
  unfolding decide_category safe_plan
  decide_category-OnlyMayConfigure none h = (no_action-MayConfigure enabled, tt)
  decide_category-OnlyMayConfigure (some d) h =
      decide_media-OnlyMayConfigure (as_mapping (get_value d media_type)) (h d refl)

module _ (platform : Platform) (category_id media_type : String) (dry_run : Bool)
    (asset_id : Option String) where
  -- A configuration that validate_config_data takes gives a plan for every category, media type,
  -- mode and asset; each of its actions is an allowed one, is no delete or trash once its letters
  -- are lowered and its dashes made underscores, and archives only if the document enables that.
  pub decide_validated :
      (source : Option String) (document : Value) {config : AppConfig}
      → validate_config_data platform source document ≡ returned config
      → (plan : ActionPlan) × (decide platform category_id media_type dry_run asset_id config
          ≡ returned plan)
        × All (MayConfigure (archive_enabled config)) plan.actions
  unfolding decide policies mapping_or_empty safe_plan
  decide_validated source document {config} h =
      let accepted = validate_config_data-IsAccepted platform source document h in
      let enabled = archive_enabled config in
      let ids = map (λ x. x.id) accepted.checked.categories in
      let (found, is_mapping, clean) =
        validate_policies_mapping platform ids enabled _ accepted.passes.policies_eq in
      elim (Bool-cases (contains (category_ids config) category_id)) [
        | inr unknown ↦ (
          safe_plan category_id media_type dry_run asset_id "unknown_category" "unknown_category",
          rw unknown refl,
          (no_action-MayConfigure enabled, tt),
        )
        | inl known ↦ (
          decide_category platform category_id media_type dry_run asset_id
              (as_mapping (get_value found category_id)),
          rw (known, is_mapping) refl,
          decide_category-OnlyMayConfigure platform category_id media_type dry_run asset_id enabled
              (as_mapping (get_value found category_id))
              (λ d e.
                validate_policy_fields-IsSoundPolicy platform ids enabled found category_id clean d
                  e media_type),
        )
      ]
