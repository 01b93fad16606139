-- ===== src/Classifier/Noop.antt =====
-- classifier.py, `NoopClassifierBackend`: the deterministic backend of tests and smoke runs.
use media_refinery.Common.{List, Outcome, raised, ◌>>=◌, String, [], none, returned, some, ◌∷◌}
use media_refinery.Classifier.{
  ClassifierError, backend_failed, ClassifierInput, ConfiguredClassifier, RawModelOutput, Scores,
}
use media_refinery.Common.Dict.{Dict}
use media_refinery.Config.{ClassifierProfile}
use media_refinery.Common.Dict

module _ (scores : Scores) where
  open scores use {one}

  -- `next(iter(self.profile.output_mapping))`; an empty mapping raises `StopIteration`.
  unfoldable pub first_label : Dict String → Outcome ClassifierError String
  first_label [] = raised (backend_failed "StopIteration")
  first_label ((label, c) ∷ rest) = returned label

  unfoldable pub noop_label : ClassifierProfile → ClassifierInput → Outcome ClassifierError String
  unfolding first_label
  noop_label profile input = elim (Dict.get input.metadata "mock_raw_label") [
    | some label ↦ returned label
    | none ↦ elim (Dict.get input.metadata "noop_raw_label") [
      | some label ↦ returned label
      | none ↦ first_label profile.output_mapping
    ]
  ]

  unfoldable pub noop_output : String → String → RawModelOutput scores
  noop_output asset_id label = record {
    asset_id = asset_id;
    raw_label = label;
    raw_scores = (label, one) ∷ [];
    raw_labels = label ∷ [];
  }

  -- `predict_batch`, of `_predict_one`
  unfoldable pub noop_outputs :
      ClassifierProfile
      → List ClassifierInput
      → Outcome ClassifierError (List (RawModelOutput scores))
  unfolding noop_label noop_output
  noop_outputs profile [] = returned []
  noop_outputs profile (i ∷ inputs) = do
    label ← noop_label profile i
    rest ← noop_outputs profile inputs
    returned (noop_output i.asset_id label ∷ rest)

  abbrev pub noop_classifier : ClassifierProfile → ConfiguredClassifier scores
  noop_classifier profile = record {
    profile = profile;
    backend = record { version = "noop"; predict_batch = noop_outputs profile };
  }
