-- ===== src/Actions.antt =====
-- actions.py: the executor of action plans. Every side effect goes through a guarded call of the client.
pub mod Laws
pub mod View
use media_refinery.Config
use media_refinery.Common.{
  Bool, Fault, List, Option, Outcome, String, [], contains, dash_to_underscore, false,
  if◌then◌else◌, is_empty, is_some, lower, none, not, or_default, raised, returned, some, strip,
  true, ◌++◌, ◌==◌, ◌>>=◌, ◌||◌, ◌∷◌,
}
use media_refinery.Client.{
  Call, Client, ImmichCapabilities, Reported, absent, and_then, capable, default_capabilities, duck,
  give,
}
use media_refinery.Config.{AppConfig, destructive_actions}
use media_refinery.Decision.{ActionPlan, IntendedAction, intended_actions, side_effect_actions}
use media_refinery.Values.{Fields, Platform, Value, bool, get, get_value, to_text, truthy}

pub record ActionExecutionResult : Type 0 where
  pub action_name : String
  pub dry_run : Bool
  pub would_apply : Bool
  pub success : Bool
  pub error_code : Option String
  pub message : Option String

abbrev pub record_only_actions : List String
record_only_actions = "no_action" ∷ "manual_review" ∷ []

abbrev pub supported_executor_actions : List String
supported_executor_actions = record_only_actions ++ side_effect_actions

-- `action_name.strip().lower().replace("-", "_")`
unfoldable pub normalized_action : String → String
normalized_action name = dash_to_underscore (lower (strip name))

-- The attributes of an `ActionExecutor` but its client.
pub record Executor : Type 0 where
  pub actions : Fields
  pub live_actions_enabled : Bool

-- bool(d.get(name, default))
unfoldable pub flag : Fields → String → Bool → Bool
flag d name default = elim (get d name) [ none ↦ default | some v ↦ truthy v ]

is_false : Option Bool → Bool
is_false (some b) = not b
is_false none = false

-- `__init__`
unfoldable pub new_executor : AppConfig → Option Bool → Outcome Fault Executor
unfolding flag is_false
new_executor config dry_run_override = do
  actions ← Config.actions config
  returned (record {
    actions = actions;
    live_actions_enabled = not (flag actions "dry_run" true) || is_false dry_run_override;
  })

-- `str(self._actions.get(name) or "").strip()`
unfoldable pub setting_text : Platform → Fields → String → String
setting_text platform d name =
    let v = get_value d name in if truthy v then strip (to_text platform v) else ""

-- `self._actions.get("archive_enabled") is True`
is_true : Value → Bool
is_true (bool b) = b
is_true v = false

-- `_capabilities`
unfoldable pub capabilities_of : Reported → ImmichCapabilities
capabilities_of absent = default_capabilities
capabilities_of (capable c) = c
capabilities_of (duck albums tags archive locked_folder) = record {
  albums = or_default albums true;
  tags = or_default tags false;
  archive = or_default archive false;
  locked_folder = or_default locked_folder false;
}

unfoldable pub success : ActionPlan → String → Bool → ActionExecutionResult
success plan action_name would_apply = record {
  action_name = action_name;
  dry_run = plan.dry_run;
  would_apply = would_apply;
  success = true;
  error_code = none;
  message = none;
}

unfoldable pub failure : ActionPlan → String → Bool → String → String → ActionExecutionResult
failure plan action_name would_apply error_code message = record {
  action_name = action_name;
  dry_run = plan.dry_run;
  would_apply = would_apply;
  success = false;
  error_code = some error_code;
  message = some message;
}

unfoldable pub record_only : ActionPlan → String → ActionExecutionResult
record_only plan action_name = record {
  action_name = action_name;
  dry_run = plan.dry_run;
  would_apply = false;
  success = true;
  error_code = plan.error_code;
  message = if is_some plan.error_code then some plan.reason else none;
}

unfoldable pub planned : String → Bool → ActionExecutionResult
planned action_name would_apply = record {
  action_name = action_name;
  dry_run = true;
  would_apply = would_apply;
  success = true;
  error_code = none;
  message = none;
}

-- `try: … except Exception: return failed`, and what the body returns.
abbrev pub settle :
    {W : Type 0}
    → ActionExecutionResult
    → Outcome Fault ActionExecutionResult × W
    → ActionExecutionResult × W
settle failed (returned a, w) = (a, w)
settle failed (raised e, w) = (failed, w)

unfoldable pub guarded :
    {W : Type 0}
    → ActionExecutionResult
    → Call W ActionExecutionResult
    → W
    → ActionExecutionResult × W
guarded failed m w = settle failed (m w)

module _ {W : Type 0} (platform : Platform) (client : Client W) (executor : Executor)
    (plan : ActionPlan) where
  abbrev refused : String → String → String → ActionExecutionResult
  refused action_name code message = failure plan action_name true code message

  -- The body of the `try` in `_add_to_review_album`.
  unfoldable pub album_body : String → String → String → Call W ActionExecutionResult
  unfolding flag success failure
  album_body asset_id action_name album_name =
      let finish = λ (album_id : String).
        and_then (client.add_to_album album_id (asset_id ∷ []))
          (λ _. give (success plan action_name true)) in
      if flag executor.actions "create_album_if_missing" true
      then and_then (client.create_or_get_album album_name) finish
      else and_then (client.find_album_by_name album_name) λ resolved. elim resolved [
        | none ↦ give (refused action_name "review_album_missing" "review album does not exist")
        | some album_id ↦ finish album_id
      ]

  unfoldable pub add_to_review_album : String → String → W → ActionExecutionResult × W
  unfolding album_body guarded setting_text
  add_to_review_album asset_id action_name w =
      let album_name = setting_text platform executor.actions "review_album_name" in
      if is_empty album_name
      then (refused action_name "review_album_name_missing" "review album name is missing", w)
      else guarded (refused action_name "album_action_failed" "review album action failed")
          (album_body asset_id action_name album_name) w

  -- The body of the `try` in `_add_tag`.
  unfoldable pub tag_body : String → String → String → Call W ActionExecutionResult
  unfolding flag success failure
  tag_body asset_id action_name tag_name =
      let finish = λ (tag_id : String).
        and_then (client.add_tag_to_asset asset_id tag_id)
          (λ _. give (success plan action_name true)) in
      if flag executor.actions "create_tag_if_missing" true
      then and_then (client.create_or_get_tag tag_name) finish
      else and_then (client.find_tag_by_name tag_name) λ resolved. elim resolved [
        | none ↦ give (refused action_name "tag_missing" "tag does not exist")
        | some tag_id ↦ finish tag_id
      ]

  unfoldable pub add_tag : String → String → W → ActionExecutionResult × W
  unfolding tag_body guarded setting_text capabilities_of
  add_tag asset_id action_name w =
      let tag_name = setting_text platform executor.actions "tag_name" in
      if not (capabilities_of (client.reported w)).tags
      then (
        refused action_name "tag_unsupported" "Immich tag actions are unsupported by this client",
        w,
      )
      else if is_empty tag_name
      then (refused action_name "tag_name_missing" "tag name is missing", w)
      else guarded (refused action_name "tag_action_failed" "tag action failed")
          (tag_body asset_id action_name tag_name) w

  unfoldable pub archive : String → String → W → ActionExecutionResult × W
  unfolding is_true guarded success failure capabilities_of
  archive asset_id action_name w =
      if not (is_true (get_value executor.actions "archive_enabled"))
      then (
        refused action_name "archive_disabled" "archive requires actions.archive_enabled=true",
        w,
      )
      else if not (capabilities_of (client.reported w)).archive
      then (
        refused action_name "archive_unsupported"
            "Immich archive actions are unsupported by this client",
        w,
      )
      else guarded (refused action_name "archive_action_failed" "archive action failed")
          (and_then (client.archive_asset asset_id) (λ _. give (success plan action_name true))) w

  unfoldable pub move_to_locked_folder : String → String → W → ActionExecutionResult × W
  unfolding guarded success failure capabilities_of
  move_to_locked_folder asset_id action_name w =
      if not (capabilities_of (client.reported w)).locked_folder
      then (
        refused action_name "locked_folder_unsupported"
            "Immich locked-folder actions are unsupported by this client",
        w,
      )
      else guarded (refused action_name "locked_folder_action_failed" "locked-folder action failed")
          (and_then (client.set_asset_visibility asset_id "locked")
            (λ _. give (success plan action_name true)))
          w

  -- The dispatch at the end of `_execute_one`.
  unfoldable pub dispatch : String → String → W → ActionExecutionResult × W
  unfolding add_to_review_album add_tag archive move_to_locked_folder
  dispatch asset_id action_name w =
      if action_name == "add_to_review_album"
      then add_to_review_album asset_id action_name w
      else if action_name == "add_tag"
      then add_tag asset_id action_name w
      else if action_name == "archive"
      then archive asset_id action_name w
      else if action_name == "move_to_locked_folder"
      then move_to_locked_folder asset_id action_name w
      else (failure plan action_name false "unsupported_action" "action is not supported", w)

  unfoldable pub execute_one : IntendedAction → W → ActionExecutionResult × W
  unfolding failure record_only planned
  execute_one action w =
      if contains destructive_actions (normalized_action action.name)
      then (
        failure plan action.name false "destructive_action_unsupported"
            "destructive actions are not supported",
        w,
      )
      else if not (contains supported_executor_actions action.name)
      then (failure plan action.name false "unsupported_action" "action is not supported", w)
      else if contains record_only_actions action.name
      then (record_only plan action.name, w)
      else if plan.dry_run
      then (planned action.name action.would_apply, w)
      else if not executor.live_actions_enabled
      then (
        failure plan action.name action.would_apply "live_actions_not_enabled"
            "live actions require actions.dry_run=false",
        w,
      )
      else elim plan.asset_id [
        | none ↦ (
          failure plan action.name action.would_apply "missing_asset_id"
              "action plan is missing asset_id",
          w,
        )
        | some asset_id ↦ dispatch asset_id action.name w
      ]

  unfoldable pub execute_all : List IntendedAction → W → List ActionExecutionResult × W
  execute_all [] w = ([], w)
  execute_all (action ∷ rest) w =
      let (result, w') = execute_one action w in
      let (results, w'') = execute_all rest w' in (result ∷ results, w'')

  unfoldable pub execute : W → List ActionExecutionResult × W
  unfolding execute_all intended_actions
  execute w = execute_all (intended_actions plan) w
