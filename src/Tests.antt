-- ===== src/Tests.antt =====
-- Concrete data, and runs of the program over it.
mod Runs
mod Laws
mod Scans
mod Secrets
mod Services
mod Sessions
mod Validated
use media_refinery.Scanner.{ScannerFilters}
use media_refinery.Common.{
  List, raised, Bool, Fault, Option, Outcome, String, [], false, ltb, none, returned, some, true, ℕ,
  ◌<>◌, ◌∷◌,
}
use media_refinery.Classifier.{
  ClassificationResult, ClassifierError, ClassifierInput, Registry, Scores, predict_batch,
}
use media_refinery.Decision.{ActionPlan}
use media_refinery.Classifier.Noop.{noop_outputs}
use media_refinery.Client.{AssetRef, aware, default_capabilities, naive}
use media_refinery.Client.Mock.{MockState, mock_client}
use media_refinery.Config.{AppConfig, ClassifierProfile}
use media_refinery.Pipeline.{Extractor}
use media_refinery.Pipeline.Run.{Setup}
use media_refinery.Reporter.{ScanSummary}
use media_refinery.Store.{Store, empty_store}
use media_refinery.Values.{
  Fields, Platform, Value, bool, cons, end, field, mapping, nil, null, seq, str,
}

-- Python's own functions, on the few values that the tests use.
abbrev platform : Platform
platform = record {
  show = λ v. "?";
  is_http_url = λ s. true;
  from_iso_format = λ s. none;
  sort_keys = returned;
}

abbrev item : String → Value → Fields → Fields
item key v rest = field (str key) v rest

-- What a configuration says of one category.
abbrev policy : String → Value → Value
policy media_type on_match = mapping (item media_type (mapping (item "on_match" on_match end)) end)

abbrev album_then_review : Value
album_then_review = seq (cons (str "add_to_review_album") (cons (str "manual_review") nil))

abbrev settings : Bool → Fields
settings dry_run = item "dry_run" (bool dry_run) (item "review_album_name" (str "Review") end)

abbrev profile : ClassifierProfile
profile = record {
  name = "default";
  backend = "noop";
  model_path = null;
  output_mapping = ("cat", "pets") ∷ ("paper", "documents") ∷ [];
  video_aggregation = str "max";
  model_version = null;
  input_size = null;
  input_mean = (null, null, null);
  input_std = (null, null, null);
  input_name = null;
  output_name = null;
}

abbrev config : Bool → AppConfig
config dry_run = record {
  source = none;
  raw =
      item "actions" (mapping (settings dry_run))
        (item "policies" (mapping (item "pets" (policy "image" album_then_review) end)) end);
  categories =
      record { id = "pets"; description = null }
      ∷ record { id = "documents"; description = null }
      ∷ [];
  classifier_profiles = ("default", profile) ∷ [];
  active_profile_name = "default";
}

abbrev asset : String → String → AssetRef
asset id label = record {
  asset_id = id;
  media_type = "image";
  checksum = some ("sum-" <> id);
  metadata = ("mock_raw_label", label) ∷ [];
  albums = "Holiday" ∷ [];
  archived = false;
  favorite = true;
  created_at = some (naive 5);
  updated_at = some (aware 9);
}

-- Two assets whose labels the profile maps, and one whose label it does not.
abbrev library : MockState
library = record {
  assets = asset "a" "cat" ∷ asset "b" "fish" ∷ asset "c" "paper" ∷ [];
  capabilities = default_capabilities;
  preview_bytes_by_asset_id = [];
  album_ids_by_name = [];
  album_assets = [];
  tag_ids_by_name = [];
  asset_tags = [];
  archived_asset_ids = [];
  locked_asset_ids = [];
  list_requests = [];
  preview_requests = [];
  album_find_requests = [];
  album_create_requests = [];
  add_to_album_requests = [];
  tag_find_requests = [];
  tag_create_requests = [];
  add_tag_requests = [];
  archive_requests = [];
  visibility_requests = [];
}

-- Scores that are counts.
abbrev counts : Scores
counts = record { Score = ℕ; one = 1; less = ltb; mean = λ s rest. s }

abbrev input_of : AssetRef → ClassifierInput
input_of a = record {
  asset_id = a.asset_id;
  media_type = a.media_type;
  metadata = a.metadata;
  content = none;
  content_type = none;
  source = none;
}

abbrev extractor : Extractor
extractor = record {
  image_input = λ a preview. returned (input_of a);
  video_frame_inputs = λ a path. returned (input_of a ∷ []);
}

abbrev noop_registry : Registry counts
noop_registry =
    ("noop", λ p. returned (record { version = "noop"; predict_batch = noop_outputs counts p }))
    ∷ []

abbrev setup : Bool → Setup counts MockState
setup dry_run = record {
  platform = platform;
  config = config dry_run;
  client = mock_client;
  extractor = extractor;
  registry = noop_registry;
  dry_run_override = none;
  config_hash = "config";
  model_identity_hash = "model";
}

-- The value of a run, if it has one.
abbrev ended :
    Option (Outcome Fault (ScanSummary × Store × MockState)) → ScanSummary × Store × MockState
ended (some (returned r)) = r
ended other = (
  record {
    processed = 0;
    skipped = 0;
    errors = 0;
    by_category = [];
    intended_actions = [];
    dry_run = true;
  },
  empty_store,
  library,
)

-- The values of calls that return one, and some other value of calls that do not.
abbrev plan_of : Outcome Fault ActionPlan → ActionPlan
plan_of (returned plan) = plan
plan_of (raised e) = record {
  category_id = "";
  media_type = "";
  dry_run = true;
  asset_id = none;
  actions = [];
  policy_found = false;
  reason = "";
  error_code = none;
}

abbrev store_of : Outcome Fault Store → Store
store_of (returned s) = s
store_of (raised e) = empty_store

abbrev results_of :
    Outcome ClassifierError (List (ClassificationResult counts))
    → List (ClassificationResult counts)
results_of (returned rs) = rs
results_of (raised e) = []

abbrev result_of :
    Outcome ClassifierError (ClassificationResult counts) → ClassificationResult counts
result_of (returned r) = r
result_of (raised e) = record {
  asset_id = "";
  category_id = "";
  raw_scores = [];
  raw_label = none;
  raw_labels = [];
}

abbrev filters : ScannerFilters
filters = record {
  mode = "full";
  since = some 7;
  include_albums = "Trip" ∷ "Holiday" ∷ [];
  exclude_albums = "Private" ∷ [];
  include_archived = false;
  include_favorites = true;
  media_types = "image" ∷ [];
  reprocess = false;
}
