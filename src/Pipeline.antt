-- ===== src/Pipeline.antt =====
-- pipeline.py: a scan, from the listing of the assets to the summary of the run. The candidates are
-- generated while the loop consumes them, so each is tested against the store as it then is.
pub mod Run
pub mod Loop
pub mod View
pub mod DryRun
pub mod Failures
pub mod Ends
pub mod Laws
pub mod Start
pub mod Accounts
use media_refinery.Common.Dict
use media_refinery.Common.{
  Bool, Fault, List, Option, Outcome, String, [], code, if◌then◌else◌, is_empty, none, not,
  or_default, raised, returned, some, suc, zero, ℕ, ℤ, ◌++◌, ◌+◌, ◌==◌, ◌>>=◌, ◌∷◌,
}
use media_refinery.Actions.{ActionExecutionResult, Executor, execute, planned}
use media_refinery.Classifier.{
  ClassificationResult, ClassifierError, ClassifierInput, ConfiguredClassifier, Scores, predict_one,
}
use media_refinery.Classifier.Aggregate.{predict_aggregate}
use media_refinery.Client.{AssetRef, Client}
use media_refinery.Common.Dict.{Dict}
use media_refinery.Config.{AppConfig}
use media_refinery.Decision.{ActionPlan, decide}
use media_refinery.Scanner.{ScannerFilters, matches_filters}
use media_refinery.Store.{
  Store, needs_processing, record_action_run, record_classification_run, record_error, upsert_asset,
}
use media_refinery.Values.{Platform}

-- What `MediaExtractor` gives the pipeline: the input of an image, or the inputs of a video's frames;
-- an error has a message code.
pub record Extractor : Type 0 where
  pub image_input : AssetRef → Option (List ℕ) → Outcome String ClassifierInput
  pub video_frame_inputs : AssetRef → Option String → Outcome String (List ClassifierInput)

-- The two kinds of errors that the loop catches, and the others.
pub data Failure : Type 0 where
  extraction : String → Failure
  classification : ClassifierError → Failure
  uncaught : Fault → Failure

-- `_video_path_from_metadata`
unfoldable pub video_path_in : List String → Dict String → Option String
video_path_in [] metadata = none
video_path_in (k ∷ ks) metadata =
    let rest = video_path_in ks metadata in
    elim (Dict.get metadata k) [ none ↦ rest | some v ↦ if is_empty v then rest else some v ]

unfoldable pub video_path_from_metadata : Dict String → Option String
unfolding video_path_in
video_path_from_metadata = video_path_in ("video_path" ∷ "local_path" ∷ "file_path" ∷ "path" ∷ [])

-- The store of a run, the client's world, the plans, the count of the errors and of the skipped assets.
pub record Progress (W : Type 0) : Type 0 where
  pub store : Store
  pub world : W
  pub action_plans : List ActionPlan
  pub error_count : ℕ
  pub skipped : ℕ

abbrev lift_error : {E A : Type 0} → (E → Failure) → Outcome E A → Outcome Failure A
lift_error f (returned a) = returned a
lift_error f (raised e) = raised (f e)

-- What a scan is made of.
pub record Scan (scores : Scores) (W : Type 0) : Type 0 where
  pub platform : Platform
  pub config : AppConfig
  pub client : Client W
  pub extractor : Extractor
  pub classifier : ConfiguredClassifier scores
  pub executor : Executor
  pub filters : ScannerFilters
  pub video_aggregation : Option String
  pub dry_run : Bool
  pub run_id : ℕ
  pub config_snapshot_id : Option ℕ
  pub model_version_id : Option ℕ
  pub page_size : ℤ

module _ {scores : Scores} {W : Type 0} (scan : Scan scores W) where
  open scan use {
    platform, config, client, extractor, classifier, executor, filters, dry_run, run_id,
    config_snapshot_id, model_version_id, page_size,
  }

  -- `_prepare_classifier_input` and `predict_one`
  unfoldable pub classify_image :
      AssetRef → Outcome Fault (List ℕ) × W → Outcome Failure (ClassificationResult scores) × W
  classify_image asset (raised e, w) = (raised (uncaught e), w)
  classify_image asset (returned preview, w) = (
    do
      input ← lift_error extraction (extractor.image_input asset (some preview))
      lift_error classification (predict_one scores classifier input),
    w,
  )

  unfoldable pub classify_asset : AssetRef → W → Outcome Failure (ClassificationResult scores) × W
  unfolding classify_image
  classify_asset asset w =
      if asset.media_type == "video"
      then (
        do
          inputs ←
              lift_error extraction
                (extractor.video_frame_inputs asset (video_path_from_metadata asset.metadata))
          lift_error classification
              (predict_aggregate scores classifier inputs asset.asset_id scan.video_aggregation),
        w,
      )
      else if not (asset.media_type == "image")
      then (
        do
          input ← lift_error extraction (extractor.image_input asset none)
          lift_error classification (predict_one scores classifier input),
        w,
      )
      else classify_image asset (client.get_preview_bytes asset.asset_id w)

  -- The handlers of `MediaExtractionError` and `ClassifierError`.
  unfoldable pub record_failure : AssetRef → String → String → Progress W → Progress W
  record_failure asset stage code p = record p {
    store =
        record_error stage code (some run_id) (some asset.asset_id) (upsert_asset asset p.store);
    error_count = p.error_count + 1;
  }

  -- The body of the loop over the results of the executor.
  unfoldable pub record_result : String → ActionExecutionResult → Progress W → Progress W
  record_result asset_id r p =
      let written =
        record_action_run run_id asset_id r.action_name r.dry_run r.would_apply (some r.success)
          r.error_code p.store in
      if r.success then record p { store = written } else record p {
        store =
            record_error "action" (or_default r.error_code "action_failed") (some run_id)
              (some asset_id) written;
        error_count = p.error_count + 1;
      }

  unfoldable pub record_results : String → List ActionExecutionResult → Progress W → Progress W
  unfolding record_result
  record_results asset_id [] p = p
  record_results asset_id (r ∷ rs) p = record_results asset_id rs (record_result asset_id r p)

  -- The error of a plan, if it has one.
  unfoldable pub record_plan_error : String → ActionPlan → Progress W → Progress W
  record_plan_error asset_id plan p = elim plan.error_code [
    | none ↦ p
    | some code ↦ record p {
      store = record_error "decision" code (some run_id) (some asset_id) p.store;
      error_count = p.error_count + 1;
    }
  ]

  -- From the plan on: the plan's error, and the execution of its actions.
  unfoldable pub act : AssetRef → ActionPlan → Progress W → Progress W
  act asset plan p =
      let planned =
        record_plan_error asset.asset_id plan
          (record p { action_plans = p.action_plans ++ plan ∷ [] }) in
      let (results, w) = execute platform client executor plan planned.world in
      record_results asset.asset_id results (record planned { world = w })

  -- The rest of the loop's body, for an asset that was classified.
  unfoldable pub process_result :
      AssetRef → ClassificationResult scores → Progress W → Outcome Fault (Progress W)
  process_result asset result p = do
    plan ← decide platform result.category_id asset.media_type dry_run (some asset.asset_id) config
    store ←
        record_classification_run run_id asset result.asset_id result.category_id config_snapshot_id
          model_version_id p.store
    returned (act asset plan (record p { store = store }))

  unfoldable pub after_classify :
      AssetRef
      → Outcome Failure (ClassificationResult scores)
      → Progress W
      → Outcome Fault (Progress W)
  after_classify asset (raised (extraction code)) p =
      returned (record_failure asset "extractor" code p)
  after_classify asset (raised (classification e)) p =
      returned (record_failure asset "classifier" "classifier_failed" p)
  after_classify asset (raised (uncaught e)) p = raised e
  after_classify asset (returned result) p = process_result asset result p

  unfoldable pub process_asset : AssetRef → Progress W → Outcome Fault (Progress W)
  unfolding after_classify
  process_asset asset p =
      let (r, w) = classify_asset asset p.world in after_classify asset r (record p { world = w })

  -- One asset of a page: the filters, the store's word, and the body.
  unfoldable pub visit : AssetRef → Progress W → Outcome Fault (Progress W)
  visit asset p =
      if not (matches_filters filters asset)
      then returned p
      else if needs_processing asset filters.reprocess p.store
      then process_asset asset p
      else returned (record p { skipped = p.skipped + 1 })

  unfoldable pub visit_all : List AssetRef → Progress W → Outcome Fault (Progress W)
  visit_all [] p = returned p
  visit_all (a ∷ assets) p = do p' ← visit a p; visit_all assets p'

  abbrev Outcomes : Type 0
  Outcomes = Option (Outcome Fault (Progress W))

  abbrev continue_pages :
      Option String → Outcome Fault (Progress W) → (String → Progress W → Outcomes) → Outcomes
  continue_pages none r next = some r
  continue_pages (some token) (raised e) next = some (raised e)
  continue_pages (some token) (returned p) next = next token p

  abbrev visit_page :
      Outcome Fault (List AssetRef × Option String)
      → Progress W
      → (String → Progress W → Outcomes)
      → Outcomes
  visit_page (raised e) p next = some (raised e)
  visit_page (returned (assets, token)) p next = continue_pages token (visit_all assets p) next

  -- The loop over the pages. `none` means that the fuel ran out.
  unfoldable pub visit_pages : ℕ → Option String → Progress W → Outcomes
  visit_pages zero page_token p = none
  visit_pages (suc fuel) page_token p =
      let (listed, w) = client.list_assets page_token page_size p.world in
      visit_page listed (record p { world = w }) (λ token p'. visit_pages fuel (some token) p')
