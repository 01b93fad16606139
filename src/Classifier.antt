-- ===== src/Classifier.antt =====
-- classifier.py: the classifier that a profile configures. A backend gives raw labels and scores; the
-- profile's output mapping turns a label into a category.
pub mod Noop
pub mod Aggregate
pub mod Mapping
use media_refinery.Common.{
  lower, strip, Bool, List, Option, Outcome, String, [], if◌then◌else◌, length, nat_eq, none, not,
  raised, returned, some, ℕ, ◌==◌, ◌>>=◌, ◌∷◌,
}
use media_refinery.Common.Dict.{Dict}
use media_refinery.Config.{ClassifierProfile}
use media_refinery.Common.Dict

pub record ClassifierInput : Type 0 where
  pub asset_id : String
  pub media_type : String
  pub metadata : Dict String
  pub content : Option (List ℕ)
  pub content_type : Option String
  pub source : Option String

-- Floating-point scores: their order, and `sum(scores) / len(scores)`.
pub record Scores : Type 1 where
  pub Score : Type 0
  pub one : Score
  pub less : Score → Score → Bool
  pub mean : Score → List Score → Score

-- The messages are not kept.
pub data ClassifierError : Type 0 where
  backend_failed : String → ClassifierError
  unsupported_backend : String → ClassifierError
  count_mismatch : ℕ → ℕ → ClassifierError
  asset_mismatch : String → String → ClassifierError
  unmapped_label : String → ClassifierError
  no_frames : ClassifierError
  unsupported_aggregation : String → ClassifierError
  nothing_to_aggregate : ClassifierError

module _ (scores : Scores) where
  open scores use {Score}

  pub record RawModelOutput : Type 0 where
    pub asset_id : String
    pub raw_label : String
    pub raw_scores : Dict Score
    pub raw_labels : List String

  pub record ClassificationResult : Type 0 where
    pub asset_id : String
    pub category_id : String
    pub raw_scores : Dict Score
    pub raw_label : Option String
    pub raw_labels : List String

  -- A loaded backend; `predict_batch` may raise.
  pub record Backend : Type 0 where
    pub version : String
    pub predict_batch : List ClassifierInput → Outcome ClassifierError (List RawModelOutput)

  pub record ConfiguredClassifier : Type 0 where
    pub profile : ClassifierProfile
    pub backend : Backend

  unfoldable pub resolve_model_output :
      ClassifierProfile → RawModelOutput → Outcome ClassifierError ClassificationResult
  resolve_model_output profile output = elim (Dict.get profile.output_mapping output.raw_label) [
    | none ↦ raised (unmapped_label output.raw_label)
    | some category_id ↦ returned (record {
      asset_id = output.asset_id;
      category_id = category_id;
      raw_scores = output.raw_scores;
      raw_label = some output.raw_label;
      raw_labels = output.raw_labels;
    })
  ]

  -- The loop over `zip(input_list, raw_outputs, strict=True)`.
  unfoldable pub check_ids :
      List ClassifierInput → List RawModelOutput → Outcome ClassifierError Unit
  check_ids (i ∷ inputs) (o ∷ outputs) =
      let rest = check_ids inputs outputs in
      if o.asset_id == i.asset_id then rest else raised (asset_mismatch o.asset_id i.asset_id)
  check_ids _ _ = returned tt

  -- `_predict_raw_batch`
  unfoldable pub predict_raw_batch :
      Backend → List ClassifierInput → Outcome ClassifierError (List RawModelOutput)
  unfolding check_ids
  predict_raw_batch backend inputs = do
    outputs ← backend.predict_batch inputs
    if not (nat_eq (length outputs) (length inputs))
        then raised (count_mismatch (length outputs) (length inputs))
        else do _ ← check_ids inputs outputs; returned outputs

  unfoldable pub resolve_all :
      ClassifierProfile → List RawModelOutput → Outcome ClassifierError (List ClassificationResult)
  unfolding resolve_model_output
  resolve_all profile [] = returned []
  resolve_all profile (o ∷ outputs) = do
    r ← resolve_model_output profile o
    rs ← resolve_all profile outputs
    returned (r ∷ rs)

  unfoldable pub predict_batch :
      ConfiguredClassifier
      → List ClassifierInput
      → Outcome ClassifierError (List ClassificationResult)
  predict_batch c inputs = do
    outputs ← predict_raw_batch c.backend inputs
    resolve_all c.profile outputs

  first_of_batch : List ClassificationResult → Outcome ClassifierError ClassificationResult
  first_of_batch [] = raised no_frames
  first_of_batch (r ∷ rs) = returned r

  unfoldable pub predict_one :
      ConfiguredClassifier → ClassifierInput → Outcome ClassifierError ClassificationResult
  unfolding first_of_batch
  predict_one c input = do results ← predict_batch c (input ∷ []); first_of_batch results

  -- `_BACKEND_REGISTRY`: a factory makes and loads a backend, or raises.
  abbrev pub Registry : Type 0
  Registry = Dict (ClassifierProfile → Outcome ClassifierError Backend)

  -- `_normalize_backend_name`
  unfoldable pub normalize_backend_name : String → String
  normalize_backend_name name = lower (strip name)

  -- `create_classifier` of the active profile, with `create_classifier_backend`
  unfoldable pub create_classifier :
      Registry → ClassifierProfile → Outcome ClassifierError ConfiguredClassifier
  unfolding normalize_backend_name
  create_classifier registry profile =
      elim (Dict.get registry (normalize_backend_name profile.backend)) [
        | none ↦ raised (unsupported_backend profile.backend)
        | some factory ↦ do
          backend ← factory profile
          returned (record { profile = profile; backend = backend })
      ]
