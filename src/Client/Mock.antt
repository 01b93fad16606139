-- ===== src/Client/Mock.antt =====
-- immich.py, `MockImmichClient`: the deterministic client of the tests and of runs without a network.
pub mod Assets
use media_refinery.Common.Dict
use media_refinery.Common.{
  Fault, List, Option, Outcome, String, [], contains, decimal_text, drop, filter, if◌then◌else◌,
  is_empty, key_error, length, ltb, ltb_ℤ, none, not, not_implemented, or_default, pos, pos_part,
  raised, read_decimal, returned, some, take, value_error, ℕ, ℤ, ◌++◌, ◌+◌, ◌<>◌, ◌==◌, ◌>>=◌, ◌∷◌,
}
use media_refinery.Client.{
  AssetRef, Call, Client, ImmichCapabilities, and_then, capable, fail, give,
}
use media_refinery.Common.Dict.{Dict}

pub record AddToAlbum : Type 0 where
  pub album_id : String
  pub asset_ids : List String

pub record AddTag : Type 0 where
  pub asset_id : String
  pub tag_id : String

pub record SetVisibility : Type 0 where
  pub asset_id : String
  pub visibility : String

pub record MockState : Type 0 where
  pub assets : List AssetRef
  pub capabilities : ImmichCapabilities
  pub preview_bytes_by_asset_id : Dict (Option (List ℕ))
  pub album_ids_by_name : Dict String
  pub album_assets : Dict (List String)
  pub tag_ids_by_name : Dict String
  pub asset_tags : Dict (List String)
  pub archived_asset_ids : List String
  pub locked_asset_ids : List String
  pub list_requests : List (Option String × ℤ)
  pub preview_requests : List String
  pub album_find_requests : List String
  pub album_create_requests : List String
  pub add_to_album_requests : List AddToAlbum
  pub tag_find_requests : List String
  pub tag_create_requests : List String
  pub add_tag_requests : List AddTag
  pub archive_requests : List String
  pub visibility_requests : List SetVisibility

-- s.add(x), s.update(xs) and s.discard(x) of a set of texts
unfoldable pub set_add : List String → String → List String
unfolding contains
set_add xs x = if contains xs x then xs else xs ++ x ∷ []

unfoldable pub set_update : List String → List String → List String
set_update xs [] = xs
set_update xs (y ∷ ys) = set_update (set_add xs y) ys

unfoldable pub set_discard : List String → String → List String
set_discard xs x = filter (λ y. not (y == x)) xs

unfoldable pub find_in : List AssetRef → String → Option AssetRef
find_in [] asset_id = none
find_in (a ∷ assets) asset_id = if a.asset_id == asset_id then some a else find_in assets asset_id

unfoldable pub find : MockState → String → Outcome Fault AssetRef
unfolding find_in
find s asset_id = elim (find_in s.assets asset_id) [ none ↦ raised key_error | some a ↦ returned a ]

-- The loop `for asset_id in asset_ids: self._find(asset_id)`.
unfoldable pub find_all : MockState → List String → Outcome Fault Unit
unfolding find
find_all s [] = returned tt
find_all s (x ∷ xs) = find s x >>= λ _. find_all s xs

unfoldable pub list_page : ℕ → ℕ → Call MockState (List AssetRef × Option String)
list_page start page_size s =
    let stop = start + page_size in
    give
      (
        take page_size (drop start s.assets),
        if ltb stop (length s.assets) then some (decimal_text stop) else none,
      )
      s

-- `start = int(page_token or "0")`
unfoldable pub start_of : Option String → Option ℕ
start_of none = some 0
start_of (some token) = if is_empty token then some 0 else read_decimal token

-- A scan gives no `media_types`, so no asset is left out of the pages.
unfoldable pub list_assets : Option String → ℤ → Call MockState (List AssetRef × Option String)
unfolding list_page
list_assets page_token page_size s =
    let logged = record s { list_requests = s.list_requests ++ (page_token, page_size) ∷ [] } in
    if ltb_ℤ page_size (pos 1) then fail value_error s else elim (start_of page_token) [
      | none ↦ fail value_error logged
      | some start ↦ list_page start (pos_part page_size) logged
    ]

unfoldable pub synthetic_image_preview_bytes : List ℕ
synthetic_image_preview_bytes =
    137 ∷ 80 ∷ 78 ∷ 71 ∷ 13 ∷ 10 ∷ 26 ∷ 10 ∷ 0 ∷ 0 ∷ 0 ∷ 13 ∷ 73 ∷ 72 ∷ 68 ∷ 82 ∷ 0 ∷ 0 ∷ 0 ∷ 1 ∷ 0
    ∷ 0 ∷ 0 ∷ 1 ∷ 8 ∷ 6 ∷ 0 ∷ 0 ∷ 0 ∷ 31 ∷ 21 ∷ 196 ∷ 137 ∷ 0 ∷ 0 ∷ 0 ∷ 10 ∷ 73 ∷ 68 ∷ 65 ∷ 84 ∷ 120
    ∷ 156 ∷ 99 ∷ 0 ∷ 1 ∷ 0 ∷ 0 ∷ 5 ∷ 0 ∷ 1 ∷ 13 ∷ 10 ∷ 45 ∷ 180 ∷ 0 ∷ 0 ∷ 0 ∷ 0 ∷ 73 ∷ 69 ∷ 78 ∷ 68
    ∷ 174 ∷ 66 ∷ 96 ∷ 130 ∷ []

unfoldable pub get_preview_bytes : String → Call MockState (List ℕ)
unfolding find
get_preview_bytes asset_id s =
    let logged = record s { preview_requests = s.preview_requests ++ asset_id ∷ [] } in
    elim (find s asset_id) [
      | raised e ↦ fail e logged
      | returned _ ↦ elim (Dict.get s.preview_bytes_by_asset_id asset_id) [
        | none ↦ give synthetic_image_preview_bytes logged
        | some stored ↦ give (or_default stored []) logged
      ]
    ]

unfoldable pub find_album_by_name : String → Call MockState (Option String)
find_album_by_name name s =
    give (Dict.get s.album_ids_by_name name)
      (record s { album_find_requests = s.album_find_requests ++ name ∷ [] })

unfoldable pub create_album : String → Call MockState String
create_album name s =
    let logged = record s { album_create_requests = s.album_create_requests ++ name ∷ [] } in
    let album_id = "mock-album-" <> decimal_text (length s.album_ids_by_name + 1) in
    elim (Dict.get s.album_ids_by_name name) [
      | some existing ↦ give existing logged
      | none ↦ give album_id (record logged {
        album_ids_by_name = Dict.put s.album_ids_by_name name album_id;
        album_assets = Dict.put s.album_assets album_id [];
      })
    ]

unfoldable pub create_or_get_album : String → Call MockState String
unfolding find_album_by_name create_album
create_or_get_album name =
    and_then (find_album_by_name name)
      λ found. elim found [ some album_id ↦ give album_id | none ↦ create_album name ]

unfoldable pub add_to_album : String → List String → Call MockState Unit
unfolding find_all
add_to_album album_id asset_ids s = elim (Dict.get s.album_assets album_id) [
  | none ↦ fail key_error s
  | some members ↦ elim (find_all s asset_ids) [
    | raised e ↦ fail e s
    | returned _ ↦ give tt (record s {
      add_to_album_requests =
          s.add_to_album_requests ++ record { album_id = album_id; asset_ids = asset_ids } ∷ [];
      album_assets = Dict.put s.album_assets album_id (set_update members asset_ids);
    })
  ]
]

unfoldable pub find_tag_by_name : String → Call MockState (Option String)
find_tag_by_name name s =
    give (Dict.get s.tag_ids_by_name name)
      (record s { tag_find_requests = s.tag_find_requests ++ name ∷ [] })

unfoldable pub create_tag : String → Call MockState String
create_tag name s =
    let tag_id = "mock-tag-" <> decimal_text (length s.tag_ids_by_name + 1) in
    if not s.capabilities.tags
    then fail not_implemented s
    else give tag_id (record s {
      tag_create_requests = s.tag_create_requests ++ name ∷ [];
      tag_ids_by_name = Dict.put s.tag_ids_by_name name tag_id;
    })

unfoldable pub create_or_get_tag : String → Call MockState String
unfolding find_tag_by_name create_tag
create_or_get_tag name s =
    if not s.capabilities.tags
    then fail not_implemented s
    else and_then (find_tag_by_name name)
        (λ found. elim found [ some tag_id ↦ give tag_id | none ↦ create_tag name ]) s

unfoldable pub add_tag_to_asset : String → String → Call MockState Unit
unfolding find
add_tag_to_asset asset_id tag_id s =
    if not s.capabilities.tags then fail not_implemented s else elim (find s asset_id) [
      | raised e ↦ fail e s
      | returned _ ↦
          if not (contains (Dict.values s.tag_ids_by_name) tag_id)
          then fail key_error s
          else let tags = or_default (Dict.get s.asset_tags asset_id) [] in
            give tt (record s {
              add_tag_requests =
                  s.add_tag_requests ++ record { asset_id = asset_id; tag_id = tag_id } ∷ [];
              asset_tags = Dict.put s.asset_tags asset_id (set_add tags tag_id);
            })
    ]

unfoldable pub archive_asset : String → Call MockState Unit
unfolding find
archive_asset asset_id s =
    if not s.capabilities.archive then fail not_implemented s else elim (find s asset_id) [
      | raised e ↦ fail e s
      | returned _ ↦ give tt (record s {
        archive_requests = s.archive_requests ++ asset_id ∷ [];
        archived_asset_ids = set_add s.archived_asset_ids asset_id;
      })
    ]

unfoldable pub set_asset_visibility : String → String → Call MockState Unit
unfolding find
set_asset_visibility asset_id visibility s =
    if not s.capabilities.locked_folder
    then fail not_implemented s
    else if not (contains ("locked" ∷ "timeline" ∷ []) visibility)
    then fail value_error s
    else elim (find s asset_id) [
      | raised e ↦ fail e s
      | returned _ ↦ give tt (record s {
        visibility_requests =
            s.visibility_requests ++ record { asset_id = asset_id; visibility = visibility } ∷ [];
        locked_asset_ids =
            if visibility == "locked"
            then set_add s.locked_asset_ids asset_id
            else set_discard s.locked_asset_ids asset_id;
      })
    ]

-- The mock as a client.
abbrev pub mock_client : Client MockState
mock_client = record {
  reported = λ s. capable s.capabilities;
  list_assets = list_assets;
  get_preview_bytes = get_preview_bytes;
  find_album_by_name = find_album_by_name;
  create_or_get_album = create_or_get_album;
  add_to_album = add_to_album;
  find_tag_by_name = find_tag_by_name;
  create_or_get_tag = create_or_get_tag;
  add_tag_to_asset = add_tag_to_asset;
  archive_asset = archive_asset;
  set_asset_visibility = set_asset_visibility;
}
