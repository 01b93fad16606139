-- ===== src/Client/Mock/Assets.antt =====
-- immich.py: the calls of the mock client and its list of assets.
use media_refinery.Common.{List, Option, Option-cases, String, arith, inl, inr, refl, ℤ, ◌≡◌}
use media_refinery.Client.{AssetRef}
use media_refinery.Client.Mock.{MockState, create_album, create_tag, mock_client, start_of}
use media_refinery.Client.View.{Preserves}
use media_refinery.Client.Mock

abbrev pub assets_of : MockState → List AssetRef
assets_of s = s.assets

assets-list_assets :
    (token : Option String) (size : ℤ) (s : MockState)
    → assets_of (Mock.list_assets token size s).1 ≡ assets_of s
unfolding Mock.list_assets
assets-list_assets token size s = elim (Option-cases (start_of token)) [
  | inl e ↦ rw (Mock.list_assets, e) (ground arith)
  | inr (n, e) ↦ rw (Mock.list_assets, e) (ground arith)
]

assets-get_preview_bytes :
    (id : String) (s : MockState) → assets_of (Mock.get_preview_bytes id s).1 ≡ assets_of s
unfolding Mock.get_preview_bytes
assets-get_preview_bytes id s = ground arith

assets-create_album :
    (name : String) (s : MockState) → assets_of (create_album name s).1 ≡ assets_of s
unfolding create_album
assets-create_album name s = ground arith

assets-create_tag : (name : String) (s : MockState) → assets_of (create_tag name s).1 ≡ assets_of s
unfolding create_tag
assets-create_tag name s = ground arith

assets-create_or_get_album :
    (name : String) (s : MockState) → assets_of (Mock.create_or_get_album name s).1 ≡ assets_of s
unfolding Mock.create_or_get_album
assets-create_or_get_album name s =
    ground (arith, assets-create_album name (Mock.find_album_by_name name s).1)

assets-add_to_album :
    (id : String) (ids : List String) (s : MockState)
    → assets_of (Mock.add_to_album id ids s).1 ≡ assets_of s
unfolding Mock.add_to_album
assets-add_to_album id ids s = ground arith

assets-create_or_get_tag :
    (name : String) (s : MockState) → assets_of (Mock.create_or_get_tag name s).1 ≡ assets_of s
unfolding Mock.create_or_get_tag
assets-create_or_get_tag name s =
    ground (arith, assets-create_tag name (Mock.find_tag_by_name name s).1)

assets-add_tag_to_asset :
    (id tag : String) (s : MockState) → assets_of (Mock.add_tag_to_asset id tag s).1 ≡ assets_of s
unfolding Mock.add_tag_to_asset
assets-add_tag_to_asset id tag s = ground arith

assets-archive_asset :
    (id : String) (s : MockState) → assets_of (Mock.archive_asset id s).1 ≡ assets_of s
unfolding Mock.archive_asset
assets-archive_asset id s = ground arith

assets-set_asset_visibility :
    (id v : String) (s : MockState) → assets_of (Mock.set_asset_visibility id v s).1 ≡ assets_of s
unfolding Mock.set_asset_visibility
assets-set_asset_visibility id v s = ground arith

-- No call of the mock client changes its list of assets.
pub mock_client-Preserves : Preserves mock_client assets_of
unfolding Mock.find_album_by_name Mock.find_tag_by_name
mock_client-Preserves = record {
  list_assets = assets-list_assets;
  get_preview_bytes = assets-get_preview_bytes;
  find_album_by_name = λ name s. refl;
  create_or_get_album = assets-create_or_get_album;
  add_to_album = assets-add_to_album;
  find_tag_by_name = λ name s. refl;
  create_or_get_tag = assets-create_or_get_tag;
  add_tag_to_asset = assets-add_tag_to_asset;
  archive_asset = assets-archive_asset;
  set_asset_visibility = assets-set_asset_visibility;
}
