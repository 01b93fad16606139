-- ===== src/Tests/Scans.antt =====
-- The theorems on scans at concrete data.
use media_refinery.Common.{
  Fault, Outcome, List, Option, Option-cases, Outcome-cases, String, [], arith, false, inl, inr,
  length, none, not, pos, refl, some, true, ℤ, ◌+◌, ◌∷◌, ◌≡◌,
}
use media_refinery.Pipeline.Ends.{run_scan_ends}
use media_refinery.Pipeline.Run.{run_scan, dry_run_of}
use media_refinery.Reporter.{ScanSummary}
use media_refinery.Store.{Store, empty_store, needs_processing}
use media_refinery.Actions.{flag}
use media_refinery.Tests.Runs.{dry_run_ends, dry_run_result, live_run, live_run_ends}
use media_refinery.Classifier.Noop.{noop_classifier}
use media_refinery.Client.{AssetRef}
use media_refinery.Client.Mock.{MockState, get_preview_bytes, mock_client, start_of}
use media_refinery.Common.Dict.{Dict}
use media_refinery.Config.{actions}
use media_refinery.Pipeline.{Progress, Scan, record_failure}
use media_refinery.Pipeline.Accounts.{run_scan_accounts}
use media_refinery.Pipeline.DryRun.{run_scan_dry}
use media_refinery.Pipeline.Failures.{needs_processing-record_failure, was_processed}
use media_refinery.Tests.{
  filters, asset, counts, library, profile, settings, setup, platform, config, extractor,
}
use media_refinery.Values.{get_value, mapping_or_empty}
use media_refinery.Config
use media_refinery.Common.Dict
use media_refinery.Client.Mock

-- What a dry run leaves alone: the albums, the tags, the archive and the locked folder.
abbrev pub Library : Type 0
Library =
    List AssetRef
    × Dict String
    × Dict (List String)
    × Dict String
    × Dict (List String)
    × List String
    × List String

abbrev library_of : MockState → Library
library_of s = (
  s.assets, s.album_ids_by_name, s.album_assets, s.tag_ids_by_name, s.asset_tags,
  s.archived_asset_ids, s.locked_asset_ids,
)

library-list_assets :
    (token : Option String) (size : ℤ) (s : MockState)
    → library_of (Mock.list_assets token size s).1 ≡ library_of s
unfolding Mock.list_assets
library-list_assets token size s = elim (Option-cases (start_of token)) [
  | inl e ↦ rw e (ground arith)
  | inr (n, e) ↦ rw e (ground arith)
]

library-get_preview_bytes :
    (id : String) (s : MockState) → library_of (get_preview_bytes id s).1 ≡ library_of s
unfolding get_preview_bytes
library-get_preview_bytes id s = elim (Outcome-cases (Mock.find s id)) [
  | inl (a, e) ↦ rw (get_preview_bytes, e) (ground arith)
  | inr (x, e) ↦ rw (get_preview_bytes, e) (ground arith)
]

run_scan_dry_example : library_of dry_run_result.2 ≡ library_of library
unfolding Config.actions mapping_or_empty get_value dry_run_of flag
run_scan_dry_example =
    run_scan_dry (setup true) library_of library-list_assets library-get_preview_bytes 3 empty_store
      library refl dry_run_ends

run_scan_accounts_example :
    (length live_run.1.errors ≡ 0 + live_run.0.errors)
    × (length live_run.1.classification_runs ≡ 0 + live_run.0.processed)
run_scan_accounts_example = run_scan_accounts 3 (setup false) empty_store library live_run_ends

abbrev scan : Scan counts MockState
scan = record {
  platform = platform;
  config = config true;
  client = mock_client;
  extractor = extractor;
  classifier = noop_classifier counts profile;
  executor = record { actions = settings true; live_actions_enabled = false };
  filters = filters;
  video_aggregation = none;
  dry_run = true;
  run_id = 1;
  config_snapshot_id = none;
  model_version_id = none;
  page_size = pos 2;
}

-- A scan after which the asset "a" was processed with another content.
abbrev progress : Progress MockState
progress = record {
  store = record empty_store {
    assets =
        (
          "a",
          record {
            media_type = "image";
            immich_checksum_or_version = some "old";
            first_seen = 0;
            last_processed = some 1;
          },
        )
        ∷ [];
  };
  world = library;
  action_plans = [];
  error_count = 0;
  skipped = 0;
}

needs_processing-record_failure_example :
    needs_processing
      (asset "a" "cat")
      false
      (record_failure scan (asset "a" "cat") "extractor" "decode_failed" progress).store
    ≡ not (was_processed progress.store "a")
needs_processing-record_failure_example =
    needs_processing-record_failure scan (asset "a" "cat") "extractor" "decode_failed" progress

-- The asset was stale before the failure, and is not retried after it.
stale_before : needs_processing (asset "a" "cat") false progress.store ≡ true
unfolding needs_processing Dict.get
stale_before = refl

not_retried :
    needs_processing
      (asset "a" "cat")
      false
      (record_failure scan (asset "a" "cat") "extractor" "decode_failed" progress).store
    ≡ false
unfolding Dict.get
not_retried = needs_processing-record_failure_example

run_scan_ends_example :
    (r : Outcome Fault (ScanSummary × Store × MockState)) × (run_scan 4
        (setup false)
        empty_store
        library
      ≡ some r)
run_scan_ends_example = run_scan_ends (setup false) 4 empty_store library refl (omega arith)
