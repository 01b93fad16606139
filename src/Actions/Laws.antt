-- ===== src/Actions/Laws.antt =====
-- actions.py: the results of the executor and what it does to its client, for any client.
use media_refinery.Actions.{
  supported_executor_actions, record_only_actions, execute, execute_all, ActionExecutionResult,
  Executor, add_tag, add_to_review_album, archive, dispatch, execute_one, failure,
  move_to_locked_folder, success,
}
use media_refinery.Common.{
  ap, ◌∙◌, contains-append, All, AllPairs, Bool, List, Option-cases, [], contains, inl, inr, map,
  refl, ◌∷◌, ◌⊎◌, String, arith, false, is_some, none, true, ◌≡◌,
}
use media_refinery.Decision.{intended, side_effect_actions, ActionPlan, IntendedAction}
use media_refinery.Client.{Client}
use media_refinery.Values.{Platform}

-- A result is for its action and the plan's mode; a failure names its error, and a side effect that
-- was applied has none.
pub record IsReported (plan : ActionPlan) (name : String) (r : ActionExecutionResult) : Type 0 where
  pub name_eq : r.action_name ≡ name
  pub mode_eq : r.dry_run ≡ plan.dry_run
  pub failed : r.success ≡ false → is_some r.error_code ≡ true
  pub applied : r.success ≡ true → r.would_apply ≡ true → r.error_code ≡ none

-- A success is for a supported action, and what would apply is a side effect.
pub record IsAllowed (r : ActionExecutionResult) : Type 0 where
  pub supported : r.success ≡ true → contains supported_executor_actions r.action_name ≡ true
  pub side_effect : r.would_apply ≡ true → contains side_effect_actions r.action_name ≡ true

module _ {W : Type 0} (platform : Platform) (client : Client W) (executor : Executor)
    (plan : ActionPlan) where
  module _ (asset_id name : String) (w : W) where
    add_to_review_album-IsReported :
        IsReported plan name (add_to_review_album platform client executor plan asset_id name w).0
    unfolding add_to_review_album
    add_to_review_album-IsReported = ground arith

    add_tag-IsReported :
        IsReported plan name (add_tag platform client executor plan asset_id name w).0
    unfolding add_tag success failure
    add_tag-IsReported = ground arith

    archive-IsReported :
        IsReported plan name (archive platform client executor plan asset_id name w).0
    unfolding archive
    archive-IsReported = ground arith

    move_to_locked_folder-IsReported :
        IsReported plan name (move_to_locked_folder platform client executor plan asset_id name w).0
    unfolding move_to_locked_folder
    move_to_locked_folder-IsReported = ground arith

    dispatch-IsReported :
        IsReported plan name (dispatch platform client executor plan asset_id name w).0
    unfolding dispatch failure
    dispatch-IsReported = ground (
      arith, add_to_review_album-IsReported, add_tag-IsReported, archive-IsReported,
      move_to_locked_folder-IsReported,
    )

  pub execute_one-IsReported :
      (action : IntendedAction) (w : W)
      → IsReported plan action.name (execute_one platform client executor plan action w).0
  unfolding execute_one
  execute_one-IsReported action w = elim (Option-cases plan.asset_id) [
    | inl missing ↦ ground arith
    | inr (asset_id, e) ↦ ground (arith, dispatch-IsReported asset_id action.name w)
  ]

  execute_one-untouched :
      (name : String) (b : Bool) (w : W)
      → (plan.dry_run ≡ true)
        ⊎ (executor.live_actions_enabled ≡ false)
        ⊎ (plan.asset_id ≡ none)
        ⊎ (contains side_effect_actions name ≡ false)
      → (execute_one platform client executor plan (record { name = name; would_apply = b }) w).1
        ≡ w
  unfolding execute_one
  execute_one-untouched name b w h =
      ground (arith, contains-append record_only_actions side_effect_actions name)

  execute_all-untouched :
      (names : List String) (w : W)
      → (plan.dry_run ≡ true)
        ⊎ (executor.live_actions_enabled ≡ false)
        ⊎ (plan.asset_id ≡ none)
        ⊎ (All (λ n. contains side_effect_actions n ≡ false) names)
      → (execute_all platform client executor plan (map intended names) w).1 ≡ w
  unfolding execute_all
  execute_all-untouched [] w h = refl
  execute_all-untouched (n ∷ ns) w h =
      ap (λ u. (execute_all platform client executor plan (map intended ns) u).1)
        (execute_one-untouched n (contains side_effect_actions n) w (ground arith))
      ∙ execute_all-untouched ns w (ground arith)

  -- Executing a plan leaves the client as it was if the plan is a dry run, if live actions are off,
  -- if the plan has no asset, or if none of its actions is a side effect.
  pub execute-untouched :
      (w : W)
      → (plan.dry_run ≡ true)
        ⊎ (executor.live_actions_enabled ≡ false)
        ⊎ (plan.asset_id ≡ none)
        ⊎ (All (λ n. contains side_effect_actions n ≡ false) plan.actions)
      → (execute platform client executor plan w).1 ≡ w
  unfolding execute
  execute-untouched w h = execute_all-untouched plan.actions w h

  execute_all-AllReported :
      (names : List String) (w : W)
      → AllPairs
          (IsReported plan)
          names
          (execute_all platform client executor plan (map intended names) w).0
  unfolding execute_all
  execute_all-AllReported [] w = tt
  execute_all-AllReported (n ∷ ns) w = (execute_one-IsReported _ w, execute_all-AllReported ns _)

  -- Executing a plan gives one result for each of its actions, in their order, each with the
  -- action's name and the plan's mode; a failure has an error code, and a success that would apply
  -- has none.
  pub execute-AllReported :
      (w : W) → AllPairs (IsReported plan) plan.actions (execute platform client executor plan w).0
  unfolding execute
  execute-AllReported w = execute_all-AllReported plan.actions w

  execute_one-IsAllowed :
      (name : String) (w : W)
      → IsAllowed (execute_one platform client executor plan (intended name) w).0
  unfolding execute_one
  execute_one-IsAllowed name w =
      let parts = contains-append record_only_actions side_effect_actions name in
      elim (Option-cases plan.asset_id) [
        | inl missing ↦ ground (arith, parts)
        | inr (asset_id, e) ↦
            let named = (dispatch-IsReported asset_id name w).name_eq in
            ground (
              arith,
              parts,
              ap (contains supported_executor_actions) named,
              ap (contains side_effect_actions) named,
            )
      ]

  execute_all-AllAllowed :
      (names : List String) (w : W)
      → All IsAllowed (execute_all platform client executor plan (map intended names) w).0
  unfolding execute_all
  execute_all-AllAllowed [] w = tt
  execute_all-AllAllowed (n ∷ ns) w = (execute_one-IsAllowed n w, execute_all-AllAllowed ns _)

  -- Whatever a plan lists, a result of its execution that succeeded is for an action that the
  -- executor supports, and one that says that it would apply is for a side effect.
  pub execute-AllAllowed : (w : W) → All IsAllowed (execute platform client executor plan w).0
  unfolding execute
  execute-AllAllowed w = execute_all-AllAllowed plan.actions w
