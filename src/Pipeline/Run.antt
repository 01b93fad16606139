-- ===== src/Pipeline/Run.antt =====
-- pipeline.py, `run_scan`: the set-up of a scan, its loop, and the end of the run. An exception that the
-- loop does not catch ends the call; what the store holds then is not modelled.
use media_refinery.Config
use media_refinery.Common.{
  Bool, Fault, Option, Outcome, String, [], classifier_error, if◌then◌else◌, key_error, nat_eq,
  none, pos, raised, returned, some, true, type_error, ℕ, ℤ, ◌>>=◌,
}
use media_refinery.Actions.{flag, new_executor}
use media_refinery.Classifier.{ClassifierError, Registry, Scores, create_classifier}
use media_refinery.Client.{Client}
use media_refinery.Config.{AppConfig, ClassifierProfile, actions, active_profile}
use media_refinery.Pipeline.{Extractor, Progress, Scan, visit_pages}
use media_refinery.Reporter.{ScanSummary, summarize_scan}
use media_refinery.Scanner.{filters_from_config}
use media_refinery.Store.{
  Store, finish_run, record_config_snapshot, record_model_version, start_run,
}
use media_refinery.Values.{Fields, Platform, Value, get, get_value, int, mapping_or_empty, str}

-- What a call of `run_scan` is given, and the digests of its configuration and of its model, which
-- `stable_hash` computes.
pub record Setup (scores : Scores) (W : Type 0) : Type 0 where
  pub platform : Platform
  pub config : AppConfig
  pub client : Client W
  pub extractor : Extractor
  pub registry : Registry scores
  pub dry_run_override : Option Bool
  pub config_hash : String
  pub model_identity_hash : String

-- `bool(dry_run_override) if … is not None else bool(config.actions.get("dry_run", True))`
unfoldable pub dry_run_of : Option Bool → Fields → Bool
dry_run_of (some b) settings = b
dry_run_of none settings = flag settings "dry_run" true

-- `int(((raw.get("integration") or {}).get("immich") or {}).get("page_size", 100))`, of a value that
-- is no number a TypeError or ValueError.
unfoldable pub page_size_of : Option Value → Outcome Fault ℤ
page_size_of none = returned (pos 100)
page_size_of (some (int z)) = returned z
page_size_of (some v) = raised type_error

unfoldable pub configured_page_size : AppConfig → Outcome Fault ℤ
unfolding page_size_of
configured_page_size config = do
  integration ← mapping_or_empty (get_value config.raw "integration")
  immich ← mapping_or_empty (get_value integration "immich")
  page_size_of (get immich "page_size")

-- A text setting that may be missing.
text_or_none : Value → Option String
text_or_none (str s) = some s
text_or_none v = none

unfoldable pub active_profile_or_raise : AppConfig → Outcome Fault ClassifierProfile
active_profile_or_raise config = elim (active_profile config) [
  | none ↦ raised key_error
  | some p ↦ returned p
]

unfoldable pub raise_setup : {A : Type 0} → Outcome ClassifierError A → Outcome Fault A
raise_setup (returned a) = returned a
raise_setup (raised e) = raised classifier_error

module _ {scores : Scores} {W : Type 0} where
  -- All that `run_scan` does before its loop: the scan, and the progress that the loop starts from.
  unfoldable pub start_scan :
      Setup scores W → Store → W → Outcome Fault (Scan scores W × Progress W)
  unfolding dry_run_of configured_page_size text_or_none active_profile_or_raise raise_setup
  start_scan setup store world = do
    settings ← Config.actions setup.config
    profile ← active_profile_or_raise setup.config
    classifier ← raise_setup (create_classifier scores setup.registry profile)
    executor ← new_executor setup.config setup.dry_run_override
    let dry_run = dry_run_of setup.dry_run_override settings
    let snapshot = record_config_snapshot setup.config_hash setup.config.source store
    model ←
        record_model_version profile.backend profile.name classifier.backend.version
          setup.model_identity_hash snapshot.1
    let run = start_run dry_run "scan" (some snapshot.0) (some model.0) model.1
    filters ← filters_from_config setup.platform setup.config
    page_size ← configured_page_size setup.config
    returned (
      record {
        platform = setup.platform;
        config = setup.config;
        client = setup.client;
        extractor = setup.extractor;
        classifier = classifier;
        executor = executor;
        filters = filters;
        video_aggregation = text_or_none profile.video_aggregation;
        dry_run = dry_run;
        run_id = run.0;
        config_snapshot_id = some snapshot.0;
        model_version_id = some model.0;
        page_size = page_size;
      },
      record { store = run.1; world = world; action_plans = []; error_count = 0; skipped = 0 },
    )

  -- The summary, and the end of the run.
  unfoldable pub finish_scan : Scan scores W → Progress W → ScanSummary × Store × W
  finish_scan scan p =
      let summary = summarize_scan p.action_plans p.skipped p.error_count scan.dry_run in
      (
        summary,
        finish_run scan.run_id
            (if nat_eq summary.errors 0 then "succeeded" else "completed_with_errors") summary
            p.store,
        p.world,
      )

  unfoldable pub run_scan :
      ℕ → Setup scores W → Store → W → Option (Outcome Fault (ScanSummary × Store × W))
  unfolding start_scan finish_scan
  run_scan fuel setup store world = elim (start_scan setup store world) [
    | raised e ↦ some (raised e)
    | returned (scan, p) ↦ elim (visit_pages scan fuel none p) [
      | none ↦ none
      | some (raised e) ↦ some (raised e)
      | some (returned last) ↦ some (returned (finish_scan scan last))
    ]
  ]
