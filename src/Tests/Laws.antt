-- ===== src/Tests/Laws.antt =====
-- The components' theorems at concrete data.
use media_refinery.Common.{
  All, AllPairs, List, [], arith, contains, false, filter, inl, inr, length, none, pos, refl,
  returned, some, true, ◌∷◌, ◌≡◌,
}
use media_refinery.Actions.Laws.{
  IsAllowed, execute-AllAllowed, IsReported, execute-AllReported, execute-untouched,
}
use media_refinery.Classifier.{
  predict_raw_batch, resolve_all, ClassificationResult, ClassifierInput, predict_batch,
}
use media_refinery.Classifier.Aggregate.{predict_aggregate}
use media_refinery.Values.{get_value, mapping_or_empty}
use media_refinery.Actions.{Executor, execute}
use media_refinery.Classifier.Mapping.{Classifies, predict_batch-AllMapped}
use media_refinery.Classifier.Noop.{noop_classifier, noop_outputs}
use media_refinery.Client.Mock.{MockState, mock_client}
use media_refinery.Config.{category_ids, policies}
use media_refinery.Decision.{ActionPlan, decide}
use media_refinery.Decision.Laws.{IsPlanFor, decide-IsPlanFor}
use media_refinery.Reporter.{summarize_scan}
use media_refinery.Reporter.Laws.{
  actions_of, categories_of, count_of, occurrences, summarize_scan_counts,
}
use media_refinery.Scanner.{matches_filters}
use media_refinery.Scanner.Laws.{Passes, matches_filters-Passes}
use media_refinery.Scanner.Pages.{iter_candidates}
use media_refinery.Scanner.Pages.Complete.{is_candidate, is_skipped, iter_candidates_complete}
use media_refinery.Store.{Store, empty_store, needs_processing, record_classification_run}
use media_refinery.Store.Laws.{is_stale, needs_processing-record_classification_run}
use media_refinery.Tests.{
  filters, asset, config, counts, input_of, library, plan_of, platform, profile, result_of,
  results_of, settings, store_of,
}
use media_refinery.Common.Dict

pets_plan : ActionPlan
unfolding decide Dict.get
pets_plan = plan_of (decide platform "pets" "image" false (some "a") (config false))

pets_plan_decided :
    decide platform "pets" "image" false (some "a") (config false) ≡ returned pets_plan
unfolding pets_plan decide contains category_ids policies mapping_or_empty get_value
pets_plan_decided = refl

decide-IsPlanFor_example : IsPlanFor "pets" "image" false (some "a") pets_plan
decide-IsPlanFor_example =
    decide-IsPlanFor platform "pets" "image" false (some "a") (config false) pets_plan_decided

abbrev executor : Executor
executor = record { actions = settings true; live_actions_enabled = false }

abbrev plan : ActionPlan
plan = record {
  category_id = "pets";
  media_type = "image";
  dry_run = false;
  asset_id = some "a";
  actions = "add_to_review_album" ∷ "delete" ∷ [];
  policy_found = true;
  reason = "policy_match";
  error_code = none;
}

execute-untouched_example : (execute platform mock_client executor plan library).1 ≡ library
execute-untouched_example =
    execute-untouched platform mock_client executor plan library (inr (inl refl))

execute-AllReported_example :
    AllPairs (IsReported plan) plan.actions (execute platform mock_client executor plan library).0
execute-AllReported_example = execute-AllReported platform mock_client executor plan library

after_a : Store
unfolding record_classification_run
after_a = store_of (record_classification_run 1 (asset "a" "cat") "a" "pets" none none empty_store)

after_a_recorded :
    record_classification_run 1 (asset "a" "cat") "a" "pets" none none empty_store
    ≡ returned after_a
unfolding after_a
after_a_recorded = refl

needs_processing-record_classification_run_example :
    needs_processing (asset "a" "dog") false after_a ≡ is_stale (some "sum-a") (some "sum-a")
needs_processing-record_classification_run_example =
    needs_processing-record_classification_run 1 (asset "a" "cat") (asset "a" "dog") "a" "pets" none
      none empty_store after_a_recorded

matches_filters-Passes_example : Passes filters (asset "a" "cat")
unfolding matches_filters contains
matches_filters-Passes_example = matches_filters-Passes filters (asset "a" "cat") refl

summarize_scan_counts_example :
    let s = summarize_scan (plan ∷ plan ∷ []) 3 0 false in
    (count_of s.by_category "pets" ≡ occurrences "pets" (categories_of (plan ∷ plan ∷ [])))
    × (count_of s.intended_actions "pets" ≡ occurrences "pets" (actions_of (plan ∷ plan ∷ [])))
    × (s.processed ≡ 2)
summarize_scan_counts_example = summarize_scan_counts (plan ∷ plan ∷ []) 3 0 false "pets"

abbrev inputs : List ClassifierInput
inputs = input_of (asset "a" "cat") ∷ input_of (asset "c" "paper") ∷ []

classified : List (ClassificationResult counts)
unfolding predict_batch noop_outputs Dict.get
classified = results_of (predict_batch counts (noop_classifier counts profile) inputs)

classified_eq : predict_batch counts (noop_classifier counts profile) inputs ≡ returned classified
unfolding classified predict_raw_batch resolve_all
classified_eq = refl

predict_batch-AllMapped_example : AllPairs (Classifies counts profile) inputs classified
predict_batch-AllMapped_example =
    predict_batch-AllMapped counts (noop_classifier counts profile) inputs classified_eq

abbrev frames : List ClassifierInput
frames =
    input_of (asset "v" "cat") ∷ input_of (asset "v" "paper") ∷ input_of (asset "v" "paper") ∷ []

video_result : ClassificationResult counts
unfolding predict_aggregate noop_outputs Dict.get
video_result =
    result_of (predict_aggregate counts (noop_classifier counts profile) frames "v" (some "max"))

iter_candidates_complete_example :
    (s' : MockState) × (iter_candidates filters (λ a. true) mock_client (pos 2) 4 library
      ≡ some (
        returned (record {
          candidates = filter (is_candidate filters (λ a. true)) library.assets;
          skipped_count = length (filter (is_skipped filters (λ a. true)) library.assets);
        }),
        s',
      ))
    × (s'.assets ≡ library.assets)
iter_candidates_complete_example =
    iter_candidates_complete filters (λ a. true) 2 (omega arith) 4 library (omega arith)

execute-AllAllowed_example : All IsAllowed (execute platform mock_client executor plan library).0
execute-AllAllowed_example = execute-AllAllowed platform mock_client executor plan library
