-- ===== src/Actions/View.antt =====
-- actions.py: a view of a client's world and the execution of a plan.
use media_refinery.Actions.{
  add_tag, add_to_review_album, archive, failure, move_to_locked_folder, ActionExecutionResult,
  Executor, album_body, dispatch, execute, execute_all, execute_one, flag, guarded, setting_text,
  settle, success, tag_body,
}
use media_refinery.Client.{and_then, Call, Client, give}
use media_refinery.Client.View.{found-Preserves, Preserves, and_then-Preserves}
use media_refinery.Common.{
  Bool-cases, Fault, List, Option-cases, Outcome, String, [], arith, inl, inr, raised, refl,
  returned, true, ◌∙◌, ◌∷◌, ◌≡◌,
}
use media_refinery.Decision.{ActionPlan, IntendedAction, intended_actions}
use media_refinery.Values.{Platform}

settle-Preserves :
    {W V : Type 0} (view : W → V) (failed : ActionExecutionResult)
    (r : Outcome Fault ActionExecutionResult × W)
    → view (settle failed r).1 ≡ view r.1
settle-Preserves view failed (returned a, w) = refl
settle-Preserves view failed (raised e, w) = refl

module _ {W V : Type 0} (platform : Platform) (client : Client W) (executor : Executor)
    (plan : ActionPlan) (view : W → V) (keeps : Preserves client view) where
  guarded-Preserves :
      (failed : ActionExecutionResult) (m : Call W ActionExecutionResult) (w : W)
      → view (m w).1 ≡ view w
      → view (guarded failed m w).1 ≡ view w
  unfolding guarded
  guarded-Preserves failed m w h = settle-Preserves view failed (m w) ∙ h

  module _ (asset_id name : String) where
    album_body-Preserves :
        (album : String) (w : W)
        → view (album_body platform client executor plan asset_id name album w).1 ≡ view w
    unfolding album_body
    album_body-Preserves album w =
        let finish = λ (id : String) (u : W).
          and_then-Preserves view (client.add_to_album id (asset_id ∷ []))
            (λ _. give (success plan name true)) u (keeps.add_to_album id (asset_id ∷ []) u)
            (λ a x. refl) in
        elim (Bool-cases (flag executor.actions "create_album_if_missing" true)) [
          | inl on ↦ rw on (
              and_then-Preserves view (client.create_or_get_album album) _ w
                (keeps.create_or_get_album album w) finish)
          | inr off ↦ rw off (
              and_then-Preserves view (client.find_album_by_name album) _ w
                (keeps.find_album_by_name album w)
                (λ o u. found-Preserves view o _ _ (λ x. refl) finish u))
        ]

    tag_body-Preserves :
        (tag : String) (w : W)
        → view (tag_body platform client executor plan asset_id name tag w).1 ≡ view w
    unfolding tag_body
    tag_body-Preserves tag w =
        let finish = λ (id : String) (u : W).
          and_then-Preserves view (client.add_tag_to_asset asset_id id)
            (λ _. give (success plan name true)) u (keeps.add_tag_to_asset asset_id id u)
            (λ a x. refl) in
        elim (Bool-cases (flag executor.actions "create_tag_if_missing" true)) [
          | inl on ↦ rw on (
              and_then-Preserves view (client.create_or_get_tag tag) _ w
                (keeps.create_or_get_tag tag w) finish)
          | inr off ↦ rw off (
              and_then-Preserves view (client.find_tag_by_name tag) _ w
                (keeps.find_tag_by_name tag w)
                (λ o u. found-Preserves view o _ _ (λ x. refl) finish u))
        ]

    add_to_review_album-Preserves :
        (w : W)
        → view (add_to_review_album platform client executor plan asset_id name w).1 ≡ view w
    unfolding add_to_review_album
    add_to_review_album-Preserves w =
        let album = setting_text platform executor.actions "review_album_name" in
        ground (
          arith,
          guarded-Preserves
              (failure plan name true "album_action_failed" "review album action failed")
              (album_body platform client executor plan asset_id name album) w
              (album_body-Preserves album w),
        )

    add_tag-Preserves :
        (w : W) → view (add_tag platform client executor plan asset_id name w).1 ≡ view w
    unfolding add_tag
    add_tag-Preserves w =
        let tag = setting_text platform executor.actions "tag_name" in
        ground (
          arith,
          guarded-Preserves (failure plan name true "tag_action_failed" "tag action failed")
              (tag_body platform client executor plan asset_id name tag) w
              (tag_body-Preserves tag w),
        )

    archive-Preserves :
        (w : W) → view (archive platform client executor plan asset_id name w).1 ≡ view w
    unfolding archive
    archive-Preserves w =
        let call = and_then (client.archive_asset asset_id) (λ _. give (success plan name true)) in
        ground (
          arith,
          guarded-Preserves (failure plan name true "archive_action_failed" "archive action failed")
              call w
              (and_then-Preserves view (client.archive_asset asset_id)
                (λ _. give (success plan name true)) w (keeps.archive_asset asset_id w)
                (λ a x. refl)),
        )

    move_to_locked_folder-Preserves :
        (w : W)
        → view (move_to_locked_folder platform client executor plan asset_id name w).1 ≡ view w
    unfolding move_to_locked_folder
    move_to_locked_folder-Preserves w =
        let call =
          and_then (client.set_asset_visibility asset_id "locked")
            (λ _. give (success plan name true)) in
        ground (
          arith,
          guarded-Preserves
              (failure plan name true "locked_folder_action_failed" "locked-folder action failed")
              call w
              (and_then-Preserves view (client.set_asset_visibility asset_id "locked")
                (λ _. give (success plan name true)) w
                (keeps.set_asset_visibility asset_id "locked" w) (λ a x. refl)),
        )

    dispatch-Preserves :
        (w : W) → view (dispatch platform client executor plan asset_id name w).1 ≡ view w
    unfolding dispatch
    dispatch-Preserves w = ground (
      arith,
      add_to_review_album-Preserves w,
      add_tag-Preserves w,
      archive-Preserves w,
      move_to_locked_folder-Preserves w,
    )

  execute_one-Preserves :
      (action : IntendedAction) (w : W)
      → view (execute_one platform client executor plan action w).1 ≡ view w
  unfolding execute_one
  execute_one-Preserves action w = elim (Option-cases plan.asset_id) [
    | inl missing ↦ ground arith
    | inr (asset_id, e) ↦ ground (arith, dispatch-Preserves asset_id action.name w)
  ]

  execute_all-Preserves :
      (names : List IntendedAction) (w : W)
      → view (execute_all platform client executor plan names w).1 ≡ view w
  unfolding execute_all
  execute_all-Preserves [] w = refl
  execute_all-Preserves (n ∷ ns) w = execute_all-Preserves ns _ ∙ execute_one-Preserves n w

  -- A view that every call of the client keeps is kept by the execution of any plan.
  pub execute-Preserves : (w : W) → view (execute platform client executor plan w).1 ≡ view w
  unfolding execute
  execute-Preserves w = execute_all-Preserves (intended_actions plan) w
