-- ===== src/Classifier/Aggregate.antt =====
-- classifier.py, `aggregate_model_outputs` and `predict_aggregate`: one result for the frames of a video.
use media_refinery.Common.Dict
use media_refinery.Common.{
  Bool, List, Option, Outcome, String, [], contains, if◌then◌else◌, is_empty, is_some, ltb, map,
  none, not, or_default, raised, returned, some, suc, ℕ, ◌&&◌, ◌++◌, ◌==◌, ◌>>=◌, ◌||◌, ◌∷◌,
}
use media_refinery.Classifier.{
  ClassificationResult, ClassifierError, ClassifierInput, ConfiguredClassifier, RawModelOutput,
  Scores, asset_mismatch, no_frames, nothing_to_aggregate, predict_raw_batch, resolve_model_output,
  unsupported_aggregation,
}
use media_refinery.Common.Dict.{Dict}
use media_refinery.Config.{ClassifierProfile}
use media_refinery.Values.{Value, non_empty_text}

module _ (scores : Scores) where
  open scores use {Score, less, mean}

  -- `scores_by_label.setdefault(raw_label, []).append(score)`
  unfoldable pub add_score : Dict (List Score) → String → Score → Dict (List Score)
  add_score by_label label s =
      Dict.put by_label label (or_default (Dict.get by_label label) [] ++ s ∷ [])

  -- The inner loop: the scores of one frame whose labels the profile maps.
  unfoldable pub add_frame : Dict String → Dict Score → Dict (List Score) → Dict (List Score)
  unfolding add_score
  add_frame output_mapping [] by_label = by_label
  add_frame output_mapping ((label, s) ∷ rest) by_label =
      add_frame output_mapping rest
        (if is_some (Dict.get output_mapping label) then add_score by_label label s else by_label)

  -- The outer loop over the frames.
  unfoldable pub collect :
      Dict String
      → String
      → List (RawModelOutput scores)
      → Dict (List Score)
      → Outcome ClassifierError (Dict (List Score))
  unfolding add_frame
  collect output_mapping asset_id [] by_label = returned by_label
  collect output_mapping asset_id (o ∷ outputs) by_label =
      let rest =
        collect output_mapping asset_id outputs (add_frame output_mapping o.raw_scores by_label) in
      if o.asset_id == asset_id then rest else raised (asset_mismatch o.asset_id asset_id)

  -- `max(scores)` of a non-empty list: the first of the greatest.
  unfoldable pub greatest : Score → List Score → Score
  greatest m [] = m
  greatest m (s ∷ rest) = greatest (if less m s then s else m) rest

  unfoldable pub combine : String → List Score → Option Score
  unfolding greatest
  combine strategy [] = none
  combine strategy (s ∷ rest) = some (if strategy == "mean" then mean s rest else greatest s rest)

  unfoldable pub combine_all : String → Dict (List Score) → Dict Score
  unfolding combine
  combine_all strategy [] = []
  combine_all strategy ((label, ss) ∷ rest) =
      let others = combine_all strategy rest in
      elim (combine strategy ss) [ none ↦ others | some s ↦ (label, s) ∷ others ]

  -- `mapping_order.get(raw_label, len(mapping_order))`
  unfoldable pub position : Dict String → String → ℕ
  position [] label = 0
  position ((l, c) ∷ m) label = let rest = position m label in if l == label then 0 else suc rest

  -- Whether the key (score, -order) of `b` is greater than that of `a`, for scores that are ordered.
  unfoldable pub beats : Dict String → String × Score → String × Score → Bool
  unfolding position
  beats output_mapping b a =
      less a.1 b.1
      || (not (less b.1 a.1) && ltb (position output_mapping b.0) (position output_mapping a.0))

  -- `max(aggregated_scores, key=…)`: the first of the greatest.
  unfoldable pub best_of : Dict String → String × Score → Dict Score → String × Score
  best_of output_mapping m [] = m
  best_of output_mapping m (e ∷ rest) =
      best_of output_mapping (if beats output_mapping e m then e else m) rest

  -- `aggregation or profile.video_aggregation or DEFAULT_VIDEO_AGGREGATION`
  unfoldable pub strategy_of : Option String → Value → String
  strategy_of (some a) configured =
      if is_empty a then or_default (non_empty_text configured) "max" else a
  strategy_of none configured = or_default (non_empty_text configured) "max"

  unfoldable pub aggregate_model_outputs :
      ClassifierProfile
      → List (RawModelOutput scores)
      → String
      → Option String
      → Outcome ClassifierError (ClassificationResult scores)
  unfolding combine_all strategy_of
  aggregate_model_outputs profile [] asset_id aggregation = raised no_frames
  aggregate_model_outputs profile (o ∷ outputs) asset_id aggregation =
      let strategy = strategy_of aggregation profile.video_aggregation in
      if not (contains ("max" ∷ "mean" ∷ []) strategy)
      then raised (unsupported_aggregation strategy)
      else do
        by_label ← collect profile.output_mapping asset_id (o ∷ outputs) []
        elim (combine_all strategy by_label) [
          | [] ↦ raised nothing_to_aggregate
          | e ∷ rest ↦ resolve_model_output scores profile (record {
            asset_id = asset_id;
            raw_label = (best_of profile.output_mapping e rest).0;
            raw_scores = e ∷ rest;
            raw_labels = map (λ r. r.raw_label) (o ∷ outputs);
          })
        ]

  unfoldable pub predict_aggregate :
      ConfiguredClassifier scores
      → List ClassifierInput
      → String
      → Option String
      → Outcome ClassifierError (ClassificationResult scores)
  predict_aggregate c [] asset_id aggregation = raised no_frames
  predict_aggregate c (i ∷ inputs) asset_id aggregation = do
    outputs ← predict_raw_batch scores c.backend (i ∷ inputs)
    aggregate_model_outputs c.profile outputs asset_id aggregation
