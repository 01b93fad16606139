-- ===== src/Config/Sections.antt =====
-- config.py: the checks of the sections that keep no value: the version, the client, the scanner, the
-- video settings, and the actions.
use media_refinery.Common.{
  Bool, Fault, List, Outcome, String, [], eqb_ℤ, false, is_empty, is_some, none, not, pos,
  replace_zulu, returned, some, strip, ℕ, ◌&&◌, ◌++◌, ◌+◌, ◌<>◌, ◌==◌, ◌>>=◌, ◌||◌, ◌∷◌,
}
use media_refinery.Config.{allowed_media_types, allowed_scanner_modes}
use media_refinery.Config.Checks.{
  at_index, complain, is_bool, is_null, is_positive_int, is_text, member, non_empty_string, outside,
  present_but_not, validate_string_list,
}
use media_refinery.Values.{
  Fields, Items, Platform, Value, as_mapping, bool, cons, date, get, get_value, int, mapping, nil,
  non_empty_text, null, seq, str, truthy,
}

-- `_validate_config_version`
unfoldable pub validate_config_version : Platform → Value → List String
validate_config_version platform null =
    "version: required and must be integer 1 for the YAML config schema" ∷ []
validate_config_version platform (int z) = complain (not (eqb_ℤ z (pos 1))) (
    "version: unsupported config schema version "
    <> platform.show (int z)
    <> "; this MediaRefinery release supports only version 1")
validate_config_version platform v = "version: must be integer 1 for the YAML config schema" ∷ []

-- `_validate_immich`, of the mapping `immich`
unfoldable pub validate_immich_settings : Platform → Fields → List String
unfolding is_text
validate_immich_settings platform immich = elim (non_empty_text (get_value immich "url")) [
  | none ↦ "integration.immich.url: must be a non-empty string" ∷ []
  | some url ↦
      complain (not (platform.is_http_url url)) "integration.immich.url: must be an http(s) URL"
      ++ complain (present_but_not is_text (get_value immich "api_key_env"))
          "integration.immich.api_key_env: must name an env var"
]

unfoldable pub validate_immich : Platform → Value → List String
unfolding validate_immich_settings
validate_immich platform (mapping d) = elim (as_mapping (get_value d "immich")) [
  | none ↦ "integration.immich: must be a mapping" ∷ []
  | some immich ↦ validate_immich_settings platform immich
]
validate_immich platform v = "integration: must be a mapping" ∷ []

-- The checks of `scanner.since`.
unfoldable pub validate_since : Platform → Value → List String
validate_since platform null = []
validate_since platform (date t) = []
validate_since platform (str s) =
    complain
      (is_empty (strip s) || not (is_some (platform.from_iso_format (replace_zulu (strip s)))))
      "scanner.since: must be an ISO8601 string or null"
validate_since platform v = "scanner.since: must be an ISO8601 string or null" ∷ []

-- `if key in data and not isinstance(data[key], bool)`
unfoldable pub validate_flag : Fields → String → List String
unfolding is_bool
validate_flag d key = elim (get d key) [
  | none ↦ []
  | some v ↦ complain (not (is_bool v)) ("scanner." <> key <> ": must be true or false")
]

media_type_items : ℕ → Items → Outcome Fault (List String)
unfolding member
media_type_items index nil = returned []
media_type_items index (cons v vs) = do
  known ← member v allowed_media_types
  rest ← media_type_items (index + 1) vs
  returned (
      complain (not known) (at_index "scanner.media_types" index <> ": must be one of image, video")
      ++ rest)

unfoldable pub validate_media_types : Value → Outcome Fault (List String)
unfolding media_type_items
validate_media_types null = returned []
validate_media_types (seq (cons v vs)) = media_type_items 0 (cons v vs)
validate_media_types v = returned ("scanner.media_types: must be a non-empty list" ∷ [])

-- `mode == name`
is_mode : String → Value → Bool
is_mode name (str s) = s == name
is_mode name v = false

unfoldable pub validate_scanner_settings : Platform → Fields → Outcome Fault (List String)
unfolding is_mode validate_since validate_flag validate_media_types
validate_scanner_settings platform d = do
  let mode = get_value d "mode"
  let since = get_value d "since"
  bad_mode ← outside mode allowed_scanner_modes
  media_types ← validate_media_types (get_value d "media_types")
  returned (
      complain bad_mode "scanner.mode: must be one of album, date_range, full, incremental"
      ++ validate_since platform since
      ++ validate_string_list (get_value d "include_albums") "scanner.include_albums"
      ++ validate_string_list (get_value d "exclude_albums") "scanner.exclude_albums"
      ++ complain (is_mode "album" mode && not (truthy (get_value d "include_albums")))
          "scanner.include_albums: album mode requires at least one album"
      ++ complain (is_mode "date_range" mode && is_null since)
          "scanner.since: date_range mode requires since"
      ++ validate_flag d "include_archived"
      ++ validate_flag d "include_favorites"
      ++ validate_flag d "reprocess"
      ++ media_types)

-- `_validate_scanner`
unfoldable pub validate_scanner : Platform → Value → Outcome Fault (List String)
unfolding validate_scanner_settings
validate_scanner platform null = returned []
validate_scanner platform (mapping d) = validate_scanner_settings platform d
validate_scanner platform v = returned ("scanner: must be a mapping" ∷ [])

-- A setting of the video section that must be a positive int where it is given.
abbrev validate_count : Fields → String → List String
validate_count d key =
    complain (present_but_not is_positive_int (get_value d key))
      ("video." <> key <> ": must be a positive integer")

unfoldable pub validate_video_settings : Fields → Outcome Fault (List String)
unfolding is_bool is_positive_int non_empty_string
validate_video_settings d = do
  bad_strategy ← outside (get_value d "frame_strategy") ("uniform" ∷ [])
  returned (
      complain (present_but_not is_bool (get_value d "enabled"))
        "video.enabled: must be true or false"
      ++ validate_count d "frame_count"
      ++ validate_count d "max_frames"
      ++ complain bad_strategy "video.frame_strategy: must be one of uniform"
      ++ validate_count d "max_duration_seconds"
      ++ validate_count d "max_original_bytes"
      ++ validate_count d "extraction_timeout_seconds"
      ++ complain (present_but_not non_empty_string (get_value d "ffmpeg_path"))
          "video.ffmpeg_path: must be a non-empty string")

-- `_validate_video`
unfoldable pub validate_video : Value → Outcome Fault (List String)
unfolding validate_video_settings
validate_video null = returned []
validate_video (mapping d) = validate_video_settings d
validate_video v = returned ("video: must be a mapping" ∷ [])

is_true_value : Value → Bool
is_true_value (bool b) = b
is_true_value v = false

-- `_validate_actions`: the messages, and whether archiving is enabled
unfoldable pub validate_actions : Value → List String × Bool
unfolding is_true_value is_bool
validate_actions null = ([], false)
validate_actions (mapping d) = (
  elim (get d "archive_enabled") [
    | none ↦ []
    | some v ↦ complain (not (is_bool v)) "actions.archive_enabled: must be true or false"
  ]
      ++ elim (get d "never_delete") [
        | none ↦ []
        | some v ↦
            complain (not (is_true_value v))
              "actions.never_delete: must be true; delete/trash is not a product feature"
      ],
  is_true_value (get_value d "archive_enabled"),
)
validate_actions v = ("actions: must be a mapping" ∷ [], false)
