-- ===== src/Store.antt =====
-- state.py: the SQLite tables of a scan, as lists of rows in the order of their ids, and the methods
-- that a scan calls. `clock` is what CURRENT_TIMESTAMP gives. An id is the row's place, from 1, since
-- no method deletes a row.
pub mod Laws
use media_refinery.Common.Dict
use media_refinery.Common.{
  Bool, Char, Fault, List, Option, Outcome, String, [], code, false, if◌then◌else◌, is_empty, leb,
  length, nat_eq, none, not, raised, returned, some, strip, strip_where, suc, true, value_error,
  zero, ℕ, ◌&&◌, ◌++◌, ◌+◌, ◌==◌, ◌||◌, ◌∷◌,
}
use media_refinery.Client.{AssetRef}
use media_refinery.Common.Dict.{Dict}
use media_refinery.Reporter.{ScanSummary}

pub record AssetRow : Type 0 where
  pub media_type : String
  pub immich_checksum_or_version : Option String
  pub first_seen : ℕ
  pub last_processed : Option ℕ

pub record RunRow : Type 0 where
  pub status : String
  pub dry_run : Bool
  pub command : String
  pub config_snapshot_id : Option ℕ
  pub model_version_id : Option ℕ
  pub ended_at : Option ℕ
  pub summary : Option ScanSummary

pub record ClassificationRow : Type 0 where
  pub run_id : ℕ
  pub asset_id : String
  pub config_snapshot_id : Option ℕ
  pub model_version_id : Option ℕ
  pub category_id : String

pub record ActionRow : Type 0 where
  pub run_id : ℕ
  pub asset_id : String
  pub action_name : String
  pub dry_run : Bool
  pub would_apply : Bool
  pub success : Option Bool
  pub error_code : Option String

-- The message and the details of an error, which are redacted before they are stored, are left out.
pub record ErrorRow : Type 0 where
  pub run_id : Option ℕ
  pub asset_id : Option String
  pub stage : String
  pub message_code : String

pub record ConfigSnapshotRow : Type 0 where
  pub hash : String
  pub source_name : Option String

pub record ModelVersionRow : Type 0 where
  pub backend : String
  pub profile_name : String
  pub version : String
  pub model_identity_hash : String

pub record Store : Type 0 where
  pub clock : ℕ
  pub config_snapshots : List ConfigSnapshotRow
  pub model_versions : List ModelVersionRow
  pub assets : Dict AssetRow
  pub runs : List RunRow
  pub classification_runs : List ClassificationRow
  pub action_runs : List ActionRow
  pub errors : List ErrorRow

abbrev pub empty_store : Store
empty_store = record {
  clock = 0;
  config_snapshots = [];
  model_versions = [];
  assets = [];
  runs = [];
  classification_runs = [];
  action_runs = [];
  errors = [];
}

abbrev insert_row {ℓ} : {A : Type ℓ} → List A → A → List A
insert_row rows row = rows ++ row ∷ []

-- INSERT OR IGNORE, then SELECT id: the place, from 1, of the first row that satisfies the test, and
-- the new row behind the others if there is none.
unfoldable pub insert_or_ignore {ℓ} : {A : Type ℓ} → (A → Bool) → A → List A → ℕ × List A
insert_or_ignore same row [] = (1, row ∷ [])
insert_or_ignore same row (x ∷ xs) =
    let (n, ys) = insert_or_ignore same row xs in if same x then (1, x ∷ xs) else (n + 1, x ∷ ys)

unfoldable pub record_config_snapshot : String → Option String → Store → ℕ × Store
unfolding insert_or_ignore
record_config_snapshot config_hash source_name s =
    let (id, rows) =
      insert_or_ignore (λ r. r.hash == config_hash)
        (record { hash = config_hash; source_name = source_name }) s.config_snapshots in
    (id, record s { config_snapshots = rows })

-- `_require_text` of the three texts, and the default of the version.
unfoldable pub record_model_version :
    String → String → String → String → Store → Outcome Fault (ℕ × Store)
unfolding insert_or_ignore
record_model_version backend profile_name version identity_hash s =
    let named = if is_empty version then "unversioned" else version in
    let (id, rows) =
      insert_or_ignore
        (λ r.
          r.backend == backend
          && r.profile_name == profile_name
          && r.version == named
          && r.model_identity_hash == identity_hash)
        (record {
          backend = backend;
          profile_name = profile_name;
          version = named;
          model_identity_hash = identity_hash;
        })
        s.model_versions in
    if is_empty backend || is_empty profile_name
    then raised value_error
    else returned (id, record s { model_versions = rows })

-- The new row's id is `lastrowid`.
unfoldable pub start_run : Bool → String → Option ℕ → Option ℕ → Store → ℕ × Store
start_run dry_run command config_snapshot_id model_version_id s = (
  length s.runs + 1,
  record s {
    runs = insert_row s.runs (record {
      status = "running";
      dry_run = dry_run;
      command = command;
      config_snapshot_id = config_snapshot_id;
      model_version_id = model_version_id;
      ended_at = none;
      summary = none;
    });
  },
)

-- UPDATE … WHERE id = n, for ids from 1.
unfoldable pub update_row {ℓ} : {A : Type ℓ} → ℕ → (A → A) → List A → List A
update_row n f [] = []
update_row zero f (x ∷ xs) = x ∷ xs
update_row (suc zero) f (x ∷ xs) = f x ∷ xs
update_row (suc (suc n)) f (x ∷ xs) = x ∷ update_row (suc n) f xs

unfoldable pub finish_run : ℕ → String → ScanSummary → Store → Store
unfolding update_row
finish_run run_id status summary s = record s {
  runs =
      update_row run_id
        (λ row. record row { status = status; ended_at = some s.clock; summary = some summary })
        s.runs;
}

-- INSERT … ON CONFLICT(asset_id) DO UPDATE
unfoldable pub upserted_row : ℕ → AssetRef → Option AssetRow → AssetRow
upserted_row now asset none = record {
  media_type = asset.media_type;
  immich_checksum_or_version = asset.checksum;
  first_seen = now;
  last_processed = none;
}
upserted_row now asset (some row) = record row {
  media_type = asset.media_type;
  immich_checksum_or_version = asset.checksum;
}

unfoldable pub upsert_asset : AssetRef → Store → Store
unfolding upserted_row
upsert_asset asset s = record s {
  assets =
      Dict.put s.assets asset.asset_id
        (upserted_row s.clock asset (Dict.get s.assets asset.asset_id));
}

unfoldable pub mark_asset_processed : String → Store → Store
mark_asset_processed asset_id s = elim (Dict.get s.assets asset_id) [
  | none ↦ s
  | some row ↦ record s {
    assets = Dict.put s.assets asset_id (record row { last_processed = some s.clock });
  }
]

-- `record_classification_run`; a result for another asset raises before anything is written.
unfoldable pub record_classification_run :
    ℕ → AssetRef → String → String → Option ℕ → Option ℕ → Store → Outcome Fault Store
record_classification_run run_id asset result_asset_id category_id config_snapshot_id
      model_version_id s =
    let inserted = upsert_asset asset s in
    if not (result_asset_id == asset.asset_id)
    then raised value_error
    else returned (
        mark_asset_processed asset.asset_id (record inserted {
          classification_runs = insert_row s.classification_runs (record {
            run_id = run_id;
            asset_id = asset.asset_id;
            config_snapshot_id = config_snapshot_id;
            model_version_id = model_version_id;
            category_id = category_id;
          });
        }))

unfoldable pub record_action_run :
    ℕ → String → String → Bool → Bool → Option Bool → Option String → Store → Store
record_action_run run_id asset_id action_name dry_run would_apply success error_code s = record s {
  action_runs = insert_row s.action_runs (record {
    run_id = run_id;
    asset_id = asset_id;
    action_name = action_name;
    dry_run = dry_run;
    would_apply = would_apply;
    success = success;
    error_code = error_code;
  });
}

is_safe_char : Char → Bool
is_safe_char c =
    let n = code c in
    (leb b'A' n && leb n b'Z')
    || (leb b'a' n && leb n b'z')
    || (leb b'0' n && leb n b'9')
    || nat_eq n b'_'
    || nat_eq n b'.'
    || nat_eq n b':'
    || nat_eq n b'-'

-- `SAFE_CODE_RE.sub("_", s)`: each run of other characters becomes one underscore.
replace_unsafe : Bool → String → String
replace_unsafe in_run String.[] = ""
replace_unsafe in_run (String.◌∷◌ c s) =
    let safe = is_safe_char c in
    let rest = replace_unsafe (not safe) s in
    if safe then String.◌∷◌ c rest else if in_run then rest else String.◌∷◌ "_" rest

cut : ℕ → String → String
cut zero s = ""
cut (suc n) String.[] = ""
cut (suc n) (String.◌∷◌ c s) = String.◌∷◌ c (cut n s)

is_underscore : Char → Bool
is_underscore c = nat_eq (code c) b'_'

unfoldable pub safe_code : String → String
unfolding replace_unsafe cut is_underscore is_safe_char
safe_code value =
    let safe = strip_where is_underscore (cut 80 (replace_unsafe false (strip value))) in
    if is_empty safe then "unknown" else safe

unfoldable pub record_error : String → String → Option ℕ → Option String → Store → Store
record_error stage message_code run_id asset_id s = record s {
  errors = insert_row s.errors (record {
    run_id = run_id;
    asset_id = asset_id;
    stage = safe_code stage;
    message_code = safe_code message_code;
  });
}

-- `needs_processing` on the row of the asset.
unfoldable pub row_needs_processing : Option AssetRow → Option String → Bool
row_needs_processing none checksum = true
row_needs_processing (some row) checksum = elim row.last_processed [
  | none ↦ true
  | some t ↦ elim checksum [
    | none ↦ false
    | some c ↦ elim row.immich_checksum_or_version [ none ↦ true | some stored ↦ not (stored == c) ]
  ]
]

unfoldable pub needs_processing : AssetRef → Bool → Store → Bool
unfolding row_needs_processing
needs_processing asset reprocess s =
    if reprocess
    then true
    else row_needs_processing (Dict.get s.assets asset.asset_id) asset.checksum
