-- ===== src/Scanner.antt =====
-- scanner.py: which assets of the library a scan looks at. The listing of the pages is the loop of
-- `Pipeline`, which consumes the candidates one by one.
pub mod Laws
pub mod Pages
use media_refinery.Common.{
  is_nil, Bool, Fault, List, Option, Outcome, String, [], contains, false, if◌then◌else◌, is_empty,
  leb, none, not, raised, replace_zulu, returned, some, strip, true, type_error, value_error, ℕ,
  ◌&&◌, ◌>>=◌, ◌∷◌,
}
use media_refinery.Actions.{flag}
use media_refinery.Client.{AssetRef, DateTime, aware, naive}
use media_refinery.Config.{AppConfig}
use media_refinery.Values.{
  Items, Platform, Value, cons, date, get_value, nil, null, seq, str, to_text, truthy,
}
use media_refinery.Config

pub record ScannerFilters : Type 0 where
  pub mode : String
  pub since : Option ℕ
  pub include_albums : List String
  pub exclude_albums : List String
  pub include_archived : Bool
  pub include_favorites : Bool
  pub media_types : List String
  pub reprocess : Bool

-- `_normalize_datetime`: an instant, in seconds; no zone is UTC.
unfoldable pub normalize_datetime : DateTime → ℕ
normalize_datetime (naive t) = t
normalize_datetime (aware t) = t

-- `asset.updated_at or asset.created_at`, normalized
unfoldable pub asset_timestamp : AssetRef → Option ℕ
unfolding normalize_datetime
asset_timestamp asset = elim asset.updated_at [
  | some t ↦ some (normalize_datetime t)
  | none ↦ elim asset.created_at [ some t ↦ some (normalize_datetime t) | none ↦ none ]
]

-- `parse_scanner_datetime`
unfoldable pub parse_scanner_datetime : Platform → Value → Outcome Fault (Option ℕ)
parse_scanner_datetime platform null = returned none
parse_scanner_datetime platform (date t) = returned (some t)
parse_scanner_datetime platform (str s) =
    let text = strip s in
    if is_empty text then returned none else elim (platform.from_iso_format (replace_zulu text)) [
      | none ↦ raised value_error
      | some t ↦ returned (some t)
    ]
parse_scanner_datetime platform v = raised type_error

-- `frozenset(value or default)` of a list of texts; a text is a set of its characters, and other
-- truthy values raise. Members that are no text equal no name, and are left out.
texts_of : Items → List String
texts_of nil = []
texts_of (cons (str s) vs) = s ∷ texts_of vs
texts_of (cons v vs) = texts_of vs

unfoldable pub text_set : Value → List String → Outcome Fault (List String)
unfolding texts_of
text_set (seq (cons v vs)) default = returned (texts_of (cons v vs))
text_set v default = if truthy v then raised type_error else returned default

-- `str(scanner.get("mode") or "incremental")`
unfoldable pub mode_of : Platform → Value → String
mode_of platform v = if truthy v then to_text platform v else "incremental"

unfoldable pub filters_from_config : Platform → AppConfig → Outcome Fault ScannerFilters
unfolding parse_scanner_datetime text_set mode_of
filters_from_config platform config = do
  section ← Config.scanner config
  since ← parse_scanner_datetime platform (get_value section "since")
  include_albums ← text_set (get_value section "include_albums") []
  exclude_albums ← text_set (get_value section "exclude_albums") []
  media_types ← text_set (get_value section "media_types") ("image" ∷ [])
  returned (record {
    mode = mode_of platform (get_value section "mode");
    since = since;
    include_albums = include_albums;
    exclude_albums = exclude_albums;
    include_archived = flag section "include_archived" false;
    include_favorites = flag section "include_favorites" true;
    media_types = media_types;
    reprocess = flag section "reprocess" false;
  })

-- `xs.isdisjoint(ys)`
unfoldable pub is_disjoint : List String → List String → Bool
is_disjoint [] ys = true
is_disjoint (x ∷ xs) ys = not (contains ys x) && is_disjoint xs ys

-- The test on `since`.
unfoldable pub is_recent : Option ℕ → Option ℕ → Bool
is_recent none t = true
is_recent (some since) none = false
is_recent (some since) (some t) = leb since t

unfoldable pub matches_filters : ScannerFilters → AssetRef → Bool
unfolding is_disjoint is_recent asset_timestamp
matches_filters f asset =
    if not (contains f.media_types asset.media_type)
    then false
    else if asset.archived && not f.include_archived
    then false
    else if asset.favorite && not f.include_favorites
    then false
    else if not (is_nil f.include_albums) && is_disjoint asset.albums f.include_albums
    then false
    else if not (is_nil f.exclude_albums) && not (is_disjoint asset.albums f.exclude_albums)
    then false
    else is_recent f.since (asset_timestamp asset)
