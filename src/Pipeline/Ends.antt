-- ===== src/Pipeline/Ends.antt =====
-- pipeline.py: the end of a scan over the mock client.
use media_refinery.Common.{
  Outcome-cases, decimal_text, none, take, Bool-cases, ap, length-drop, ltb, value_error, ◌+◌, ◌∙◌,
  Fault, List, Option, Outcome, String, arith, drop, inl, inr, length, ltb_ℤ, negsuc, pos, raised,
  refl, returned, some, subst, suc, sym, true, zero, ℕ, ℤ, ◌<◌, ◌≡◌, ◌⊎◌,
}
use media_refinery.Pipeline.Run.{finish_scan, start_scan, Setup, run_scan}
use media_refinery.Pipeline.Start.{start_scan_at}
use media_refinery.Scanner.Pages.Complete.{
  logged, list_assets_last, list_assets_more, start_of-decimal_text,
}
use media_refinery.Client.{Client, AssetRef}
use media_refinery.Reporter.{ScanSummary}
use media_refinery.Store.{Store}
use media_refinery.Actions.{execute}
use media_refinery.Actions.View.{execute-Preserves}
use media_refinery.Classifier.{Scores}
use media_refinery.Client.Mock.{MockState, mock_client, start_of}
use media_refinery.Client.Mock.Assets.{assets_of, mock_client-Preserves}
use media_refinery.Client.View.{Preserves}
use media_refinery.Decision.{ActionPlan}
use media_refinery.Pipeline.{Progress, Scan, continue_pages, visit_all, visit_pages}
use media_refinery.Pipeline.Loop.{visit_all-keeps}
use media_refinery.Pipeline.View.{Sees, visit-Sees}
use media_refinery.Client.Mock

-- A page size is refused by the listing, or a positive number.
page_size_cases : (size : ℤ) → (ltb_ℤ size (pos 1) ≡ true) ⊎ ((n : ℕ) × (size ≡ pos n) × (0 < n))
page_size_cases (pos zero) = inl refl
page_size_cases (pos (suc n)) = inr (suc n, refl, omega arith)
page_size_cases (negsuc n) = inl (ground arith)

list_assets_refused :
    (token : Option String) (size : ℤ) (s : MockState)
    → ltb_ℤ size (pos 1) ≡ true
    → Mock.list_assets token size s ≡ (raised value_error, s)
unfolding Mock.list_assets
list_assets_refused token size s h = ground arith

module _ {scores : Scores} (scan : Scan scores MockState) (mocked : scan.client ≡ mock_client) where
  abbrev SameAssets : Progress MockState → Progress MockState → Type 0
  SameAssets p q = q.world.assets ≡ p.world.assets

  mocked-Preserves : Preserves scan.client assets_of
  mocked-Preserves = subst (λ c. Preserves c assets_of) (sym mocked) mock_client-Preserves

  visit_all-SameAssets :
      (assets : List AssetRef) (p : Progress MockState) {q : Progress MockState}
      → visit_all scan assets p ≡ returned q
      → SameAssets p q
  visit_all-SameAssets assets p {q} h =
      visit_all-keeps scan
        (Sees scan assets_of mocked-Preserves.list_assets mocked-Preserves.get_preview_bytes
          executes p.world.assets)
        (λ a x y.
          visit-Sees scan assets_of mocked-Preserves.list_assets mocked-Preserves.get_preview_bytes
            executes p.world.assets a x)
        assets p h refl
    where
      executes :
          (plan : ActionPlan) (w : MockState)
          → plan.dry_run ≡ scan.dry_run
          → assets_of (execute scan.platform scan.client scan.executor plan w).1 ≡ assets_of w
      executes plan w same =
          execute-Preserves scan.platform scan.client scan.executor plan assets_of mocked-Preserves
            w

  abbrev Ends : Option (Outcome Fault (Progress MockState)) → Type 0
  Ends o = (r : Outcome Fault (Progress MockState)) × (o ≡ some r)

  continue_pages-Ends :
      (token : String) (r : Outcome Fault (Progress MockState))
      (next : String → Progress MockState → Option (Outcome Fault (Progress MockState)))
      → ((q : Progress MockState) → r ≡ returned q → Ends (next token q))
      → Ends (continue_pages scan (some token) r next)
  continue_pages-Ends token (raised e) next h = (raised e, refl)
  continue_pages-Ends token (returned q) next h = h q refl

  visit_pages-Ends :
      (fuel start : ℕ) (token : Option String) (p : Progress MockState)
      → start_of token ≡ some start
      → length (drop start p.world.assets) < fuel
      → Ends (visit_pages scan fuel token p)
  unfolding visit_pages
  visit_pages-Ends zero start token p t h = absurd (omega arith)
  visit_pages-Ends (suc fuel) start token p t h = elim (page_size_cases scan.page_size) [
    | inl refused ↦
        rw (as_mocked ∙ list_assets_refused token scan.page_size p.world refused)
          (raised value_error, refl)
    | inr (n, size, positive) ↦ elim (Bool-cases (ltb (start + n) (length p.world.assets))) [
      | inr done ↦
          rw
            (as_mocked
              ∙ ap (λ z. Mock.list_assets token z p.world) size
              ∙ list_assets_last n start token p.world positive t done)
            (_, refl)
      | inl more ↦
          let listed =
            as_mocked
            ∙ ap (λ z. Mock.list_assets token z p.world) size
            ∙ list_assets_more n start token p.world positive t more in
          let next = decimal_text (start + n) in
          let page = take n (drop start p.world.assets) in
          let noted = record p { world = logged token n p.world } in
          rw listed (
            continue_pages-Ends next (visit_all scan page noted)
              (λ t' q. visit_pages scan fuel (some t') q)
              (λ q visited.
                visit_pages-Ends fuel (start + n) (some next) q (start_of-decimal_text (start + n))
                  (shorter n positive more q (visit_all-SameAssets page noted visited))))
    ]
  ]
    where
      as_mocked :
          scan.client.list_assets token scan.page_size p.world
          ≡ Mock.list_assets token scan.page_size p.world
      as_mocked = ap (λ (c : Client MockState). c.list_assets token scan.page_size p.world) mocked

      shorter :
          (n : ℕ)
          → 0 < n
          → ltb (start + n) (length p.world.assets) ≡ true
          → (q : Progress MockState) → q.world.assets ≡ p.world.assets
          → length (drop (start + n) q.world.assets) < fuel
      shorter n positive more q same = ground (
        arith,
        ap (λ l. length (drop (start + n) l)) same,
        length-drop start p.world.assets,
        length-drop (start + n) p.world.assets,
      )

-- A scan of the mock client ends, with a summary or with an exception, if it has more fuel than the
-- client has assets.
pub run_scan_ends :
    {scores : Scores} (setup : Setup scores MockState) (fuel : ℕ) (store : Store) (w : MockState)
    → setup.client ≡ mock_client
    → length w.assets < fuel
    → (r : Outcome Fault (ScanSummary × Store × MockState)) × (run_scan fuel setup store w ≡ some r)
unfolding run_scan start_of
run_scan_ends setup fuel store w mocked h = elim (Outcome-cases (start_scan setup store w)) [
  | inr (e, failed) ↦ (raised e, rw (run_scan, failed) refl)
  | inl ((scan, p), started) ↦
      let begun = start_scan_at setup store w started in
      let (r, visited) =
        visit_pages-Ends scan (begun.client_eq ∙ mocked) fuel 0 none p refl
          (ground (arith, ap (λ u. length (MockState.assets u)) begun.world_eq)) in
      elim (Outcome-cases r) [
        | inr (e, raises) ↦ (raised e, rw (run_scan, started, visited, raises) refl)
        | inl (last, ended) ↦
            (returned (finish_scan scan last), rw (run_scan, started, visited, ended) refl)
      ]
]
