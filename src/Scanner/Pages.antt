-- ===== src/Scanner/Pages.antt =====
-- scanner.py, `AssetScanner.iter_candidates`, read to its end by a caller that changes neither the
-- store nor the client: page after page, until a page has no token for the next.
pub mod Complete
use media_refinery.Common.{
  Bool, Fault, List, Option, Outcome, String, [], if◌then◌else◌, none, not, raised, returned, some,
  suc, zero, ℕ, ℤ, ◌++◌, ◌+◌, ◌∷◌,
}
use media_refinery.Client.{AssetRef, Client}
use media_refinery.Scanner.{ScannerFilters, matches_filters}

-- `self._skipped_count`, and the assets yielded so far.
pub record Yielded : Type 0 where
  pub candidates : List AssetRef
  pub skipped_count : ℕ

abbrev pub nothing_yielded : Yielded
nothing_yielded = record { candidates = []; skipped_count = 0 }

module _ (filters : ScannerFilters) (needs : AssetRef → Bool) where
  unfoldable pub scan_asset : AssetRef → Yielded → Yielded
  scan_asset asset y =
      if not (matches_filters filters asset)
      then y
      else if needs asset
      then record y { candidates = y.candidates ++ asset ∷ [] }
      else record y { skipped_count = y.skipped_count + 1 }

  unfoldable pub scan_page : List AssetRef → Yielded → Yielded
  unfolding scan_asset
  scan_page [] y = y
  scan_page (a ∷ assets) y = scan_page assets (scan_asset a y)

  module _ {W : Type 0} (client : Client W) (page_size : ℤ) where
    abbrev Listing : Type 0
    Listing = Option (Outcome Fault Yielded × W)

    abbrev next_page :
        Outcome Fault (List AssetRef × Option String) × W
        → Yielded
        → (String → Yielded → W → Listing)
        → Listing
    next_page (raised e, w) y next = some (raised e, w)
    next_page (returned (assets, none), w) y next = some (returned (scan_page assets y), w)
    next_page (returned (assets, some token), w) y next = next token (scan_page assets y) w

    -- `while True`; `none` means that the fuel ran out.
    unfoldable pub iter_pages : ℕ → Option String → Yielded → W → Listing
    unfolding scan_page
    iter_pages zero token y w = none
    iter_pages (suc fuel) token y w =
        next_page (client.list_assets token page_size w) y
          (λ token' y' w'. iter_pages fuel (some token') y' w')

    unfoldable pub iter_candidates : ℕ → W → Listing
    unfolding iter_pages
    iter_candidates fuel w = iter_pages fuel none nothing_yielded w
