-- ===== src/Scanner/Pages/Complete.antt =====
-- scanner.py and immich.py: `iter_candidates` over the mock client.
use media_refinery.Common.{
  Fault, Outcome, drop-drop, sym, take-append-drop, ap, is_empty-decimal_text, length-drop,
  read_decimal-decimal_text, ◌∙◌, ◌≤◌, decimal_text, false, none, take, take_all, true, Bool-cases,
  Option, String, arith, drop, inl, inr, ltb, pos, returned, some, suc, zero, ℕ, ◌<◌, Bool, List,
  [], filter, length, not, refl, ◌&&◌, ◌++◌, ◌+◌, ◌∷◌, ◌≡◌,
}
use media_refinery.Scanner.Pages.{
  iter_candidates, nothing_yielded, iter_pages, scan_asset, Yielded, scan_page,
}
use mathlib.Core.List.{append-nil, append_assoc}
use media_refinery.Client.Mock.{MockState, list_assets, mock_client, start_of}
use media_refinery.Client.{AssetRef}
use media_refinery.Scanner.{ScannerFilters, matches_filters}

pub start_of-decimal_text : (n : ℕ) → start_of (some (decimal_text n)) ≡ some n
unfolding start_of
start_of-decimal_text n = rw (read_decimal-decimal_text n, is_empty-decimal_text n)

-- What the mock remembers of a request.
abbrev pub logged : Option String → ℕ → MockState → MockState
logged token page_size s = record s {
  list_requests = s.list_requests ++ (token, pos page_size) ∷ [];
}

module _ (page_size start : ℕ) (token : Option String) (s : MockState) (positive : 0 < page_size)
    (reads : start_of token ≡ some start) where
  pub list_assets_last :
      ltb (start + page_size) (length s.assets) ≡ false
      → list_assets token (pos page_size) s
        ≡ (returned (drop start s.assets, none), logged token page_size s)
  unfolding list_assets
  list_assets_last done =
      let short : length (drop start s.assets) ≤ page_size =
        ground (arith, length-drop start s.assets) in
      rw (reads, done, take_all page_size (drop start s.assets) short) (ground arith)

  pub list_assets_more :
      ltb (start + page_size) (length s.assets) ≡ true
      → list_assets token (pos page_size) s ≡ (
        returned (take page_size (drop start s.assets), some (decimal_text (start + page_size))),
        logged token page_size s,
      )
  unfolding list_assets
  list_assets_more more = rw (reads, more) (ground arith)

module _ (filters : ScannerFilters) (needs : AssetRef → Bool) where
  abbrev pub is_candidate : AssetRef → Bool
  is_candidate a = matches_filters filters a && needs a

  abbrev pub is_skipped : AssetRef → Bool
  is_skipped a = matches_filters filters a && not (needs a)

  abbrev pub scanned : List AssetRef → Yielded → Yielded
  scanned assets y = record {
    candidates = y.candidates ++ filter is_candidate assets;
    skipped_count = y.skipped_count + length (filter is_skipped assets);
  }

  scan_page-append :
      (xs ys : List AssetRef) (y : Yielded)
      → scan_page filters needs (xs ++ ys) y
        ≡ scan_page filters needs ys (scan_page filters needs xs y)
  unfolding scan_page
  scan_page-append [] ys y = refl
  scan_page-append (x ∷ xs) ys y = scan_page-append xs ys _

  scan_page-eq-scanned :
      (xs : List AssetRef) (y : Yielded) → scan_page filters needs xs y ≡ scanned xs y
  unfolding scan_page
  scan_page-eq-scanned [] y = ground (arith, append-nil y.candidates)
  scan_page-eq-scanned (x ∷ xs) y = ground (
    arith,
    scan_page-eq-scanned xs (scan_asset filters needs x y),
    append_assoc y.candidates (x ∷ []) (filter is_candidate xs),
  )

  -- A page and what is left after it are what was left before it.
  two_parts :
      (size start : ℕ) (xs : List AssetRef) (y : Yielded)
      → scanned (drop (start + size) xs) (scan_page filters needs (take size (drop start xs)) y)
        ≡ scanned (drop start xs) y
  two_parts size start xs y =
      let page = take size (drop start xs) in
      let joined : page ++ drop (start + size) xs ≡ drop start xs =
        ap (λ l. page ++ l) (sym (drop-drop size start xs))
        ∙ take-append-drop size (drop start xs) in
      sym (scan_page-eq-scanned (drop (start + size) xs) (scan_page filters needs page y))
      ∙ sym (scan_page-append page (drop (start + size) xs) y)
      ∙ ap (λ l. scan_page filters needs l y) joined
      ∙ scan_page-eq-scanned (drop start xs) y

  abbrev count_is : List AssetRef → MockState → ℕ → Option (Outcome Fault Yielded × MockState)
  count_is cs s n = some (returned (record { candidates = cs; skipped_count = n }), s)

  zero-add_left : (n : ℕ) → 0 + n ≡ n
  zero-add_left n = omega arith

  module _ (page_size : ℕ) (positive : 0 < page_size) where
    -- What is left to list from a token.
    iter_pages_from :
        (fuel start : ℕ) (y : Yielded) (s : MockState) (token : Option String)
        → start_of token ≡ some start
        → length (drop start s.assets) < fuel
        → (s' : MockState) × (iter_pages filters needs mock_client (pos page_size) fuel token y s
            ≡ some (returned (scanned (drop start s.assets) y), s'))
          × (s'.assets ≡ s.assets)
    unfolding iter_pages
    iter_pages_from zero start y s token t h = elim h [ ]
    iter_pages_from (suc fuel) start y s token t h =
        elim (Bool-cases (ltb (start + page_size) (length s.assets))) [
          | inl more ↦
              let rest = drop (start + page_size) s.assets in
              let seen = take page_size (drop start s.assets) in
              let (s', e, kept) =
                iter_pages_from fuel (start + page_size) (scan_page filters needs seen y)
                  (logged token page_size s) (some (decimal_text (start + page_size)))
                  (start_of-decimal_text (start + page_size))
                  (ground (
                    arith,
                    length-drop start s.assets,
                    length-drop (start + page_size) s.assets,
                  )) in
              (
                s',
                rw (list_assets_more page_size start token s positive t more)
                    (e ∙ ap (λ z. some (returned z, s')) (two_parts page_size start s.assets y)),
                kept,
              )
          | inr done ↦ (
            logged token page_size s,
            rw (list_assets_last page_size start token s positive t done) (
                ap (λ z. some (returned z, logged token page_size s))
                  (scan_page-eq-scanned (drop start s.assets) y)),
            refl,
          )
        ]

    -- Over the mock client, with a page size of at least 1 and more fuel than there are assets, the
    -- listing of the candidates ends; it yields exactly the assets that match the filters and need
    -- processing, in order, counts those that match and do not need it, and leaves the assets as
    -- they were.
    pub iter_candidates_complete :
        (fuel : ℕ) (s : MockState)
        → length s.assets < fuel
        → (s' : MockState) × (iter_candidates filters needs mock_client (pos page_size) fuel s
            ≡ some (
              returned (record {
                candidates = filter is_candidate s.assets;
                skipped_count = length (filter is_skipped s.assets);
              }),
              s',
            ))
          × (s'.assets ≡ s.assets)
    unfolding iter_candidates start_of
    iter_candidates_complete fuel s h =
        let (s', e, kept) = iter_pages_from fuel 0 nothing_yielded s none refl h in
        (
          s',
          e
              ∙ ap (count_is (filter is_candidate s.assets) s')
                  (zero-add_left (length (filter is_skipped s.assets))),
          kept,
        )
