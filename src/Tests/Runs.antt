-- ===== src/Tests/Runs.antt =====
-- Runs of a scan of the test library.
use media_refinery.Common.{
  true, [], contains, dash_to_underscore, decimal_text, false, is_empty, is_space, lower,
  read_decimal, refl, replace_zulu, returned, some, strip, strip_where, ◌∷◌, ◌≡◌,
}
use media_refinery.Actions.{
  add_tag, add_to_review_album, album_body, archive, capabilities_of, dispatch, execute,
  execute_all, execute_one, failure, flag, guarded, move_to_locked_folder, new_executor,
  normalized_action, planned, record_only, setting_text, success, tag_body,
}
use media_refinery.Classifier.{
  check_ids, create_classifier, normalize_backend_name, predict_batch, predict_one,
  predict_raw_batch, resolve_all, resolve_model_output,
}
use media_refinery.Classifier.Noop.{first_label, noop_label, noop_output, noop_outputs}
use media_refinery.Client.Mock.{
  MockState, add_tag_to_asset, add_to_album, archive_asset, create_album, create_or_get_album,
  create_or_get_tag, create_tag, find_album_by_name, find_all, find_in, find_tag_by_name,
  get_preview_bytes, list_page, set_add, set_asset_visibility, set_discard, set_update, start_of,
  synthetic_image_preview_bytes,
}
use media_refinery.Decision.{
  decide, decide_actions, decide_category, decide_media, safe_plan, intended_actions,
}
use media_refinery.Pipeline.{
  act, after_classify, classify_asset, classify_image, process_asset, process_result,
  record_failure, record_plan_error, record_result, record_results, video_path_from_metadata,
  video_path_in, visit, visit_all, visit_pages,
}
use media_refinery.Pipeline.Run.{
  active_profile_or_raise, configured_page_size, dry_run_of, finish_scan, page_size_of, raise_setup,
  run_scan, start_scan,
}
use media_refinery.Reporter.{ScanSummary, count_all, count_up, summarize_loop, summarize_scan}
use media_refinery.Scanner.{
  asset_timestamp, filters_from_config, is_disjoint, is_recent, matches_filters, mode_of,
  normalize_datetime, parse_scanner_datetime, text_set,
}
use media_refinery.Store.{
  Store, empty_store, finish_run, insert_or_ignore, mark_asset_processed, needs_processing,
  record_action_run, record_classification_run, record_config_snapshot, record_error,
  record_model_version, row_needs_processing, safe_code, start_run, update_row, upsert_asset,
  upserted_row,
}
use media_refinery.Tests.{ended, library, setup}
use media_refinery.Values.{as_mapping, get_value, mapping_or_empty, to_text, truthy}
use media_refinery.Config
use media_refinery.Values
use media_refinery.Client.Mock
use media_refinery.Common.Dict

pub live_run : ScanSummary × Store × MockState
unfolding contains is_empty is_space strip_where strip lower dash_to_underscore replace_zulu
    Dict.get Dict.put decimal_text read_decimal to_text truthy Values.get Values.to_list get_value
    as_mapping mapping_or_empty Config.category_ids Config.active_profile Config.actions
    Config.policies Config.scanner set_add set_update set_discard find_in Mock.find find_all
    list_page start_of Mock.list_assets synthetic_image_preview_bytes get_preview_bytes
    find_album_by_name create_album create_or_get_album add_to_album find_tag_by_name create_tag
    create_or_get_tag add_tag_to_asset archive_asset set_asset_visibility intended_actions safe_plan
    decide_actions decide_media decide_category decide normalized_action flag new_executor
    setting_text capabilities_of success failure record_only planned guarded album_body
    add_to_review_album tag_body add_tag archive move_to_locked_folder dispatch execute_one
    execute_all execute insert_or_ignore record_config_snapshot record_model_version start_run
    update_row finish_run upserted_row upsert_asset mark_asset_processed record_classification_run
    record_action_run safe_code record_error row_needs_processing needs_processing
    normalize_datetime asset_timestamp parse_scanner_datetime text_set mode_of filters_from_config
    is_disjoint is_recent matches_filters count_up count_all summarize_loop summarize_scan
    resolve_model_output check_ids predict_raw_batch resolve_all predict_batch predict_one
    normalize_backend_name create_classifier first_label noop_label noop_output noop_outputs
    video_path_in video_path_from_metadata classify_image classify_asset record_failure
    record_result record_results record_plan_error act process_result after_classify process_asset
    visit visit_all visit_pages dry_run_of page_size_of configured_page_size active_profile_or_raise
    raise_setup start_scan finish_scan run_scan
live_run = ended (run_scan 3 (setup false) empty_store library)

pub live_run_ends : run_scan 3 (setup false) empty_store library ≡ some (returned live_run)
unfolding live_run
live_run_ends = refl

live_summary : live_run.0 ≡ record {
  processed = 2;
  skipped = 0;
  errors = 2;
  by_category = ("pets", 1) ∷ ("documents", 1) ∷ [];
  intended_actions = ("add_to_review_album", 1) ∷ ("manual_review", 1) ∷ ("no_action", 1) ∷ [];
  dry_run = false;
}
unfolding live_run
live_summary = refl

pub dry_run_result : ScanSummary × Store × MockState
unfolding live_run
dry_run_result = ended (run_scan 3 (setup true) empty_store library)

pub dry_run_ends : run_scan 3 (setup true) empty_store library ≡ some (returned dry_run_result)
unfolding dry_run_result
dry_run_ends = refl
