-- ===== src/Pipeline/DryRun.antt =====
-- pipeline.py: `run_scan` as a dry run.
use media_refinery.Pipeline.Start.{start_scan_at}
use media_refinery.Common.{
  IfReturned, IfReturned_at, Option, Option-cases, Outcome-cases, String, ap, inl, inr, none,
  none-ne-some, raised, raised-ne-returned, refl, returned, returned-injective, some, sym, true, ℕ,
  ℤ, ◌∙◌, ◌≡◌,
}
use media_refinery.Actions.Laws.{execute-untouched}
use media_refinery.Classifier.{Scores}
use media_refinery.Client.{Client}
use media_refinery.Pipeline.{visit_pages}
use media_refinery.Pipeline.Run.{Setup, dry_run_of, finish_scan, run_scan, start_scan}
use media_refinery.Pipeline.View.{visit_pages-Sees}
use media_refinery.Reporter.{ScanSummary}
use media_refinery.Store.{Store}
use media_refinery.Config
use mathlib.Core.Option.{some-injective}

module _ {scores : Scores} {W V : Type 0} (setup : Setup scores W) (view : W → V) where
  -- A run that is dry, by its override or by its configuration, and that ends with a summary leaves
  -- every view of the client's world that listings and previews keep as it was.
  pub run_scan_dry :
      ((token : Option String) (size : ℤ) (w : W)
        → view (setup.client.list_assets token size w).1 ≡ view w)
      → ((id : String) (w : W) → view (setup.client.get_preview_bytes id w).1 ≡ view w)
      → (fuel : ℕ) (store : Store) (w : W) {summary : ScanSummary} {store' : Store} {w' : W}
      → IfReturned
          (λ settings. dry_run_of setup.dry_run_override settings ≡ true)
          (Config.actions setup.config)
      → run_scan fuel setup store w ≡ some (returned (summary, store', w'))
      → view w' ≡ view w
  unfolding run_scan finish_scan
  run_scan_dry list_keeps preview_keeps fuel store w dry h =
      elim (Outcome-cases (start_scan setup store w)) [
        | inr (e, failed) ↦
            absurd (raised-ne-returned (some-injective _ _ (rw (run_scan, failed) at h)))
        | inl ((scan, p), started) ↦ elim (Option-cases (visit_pages scan fuel none p)) [
          | inl out ↦ absurd (none-ne-some (rw (run_scan, started, out) at h))
          | inr (raised e, failed) ↦
              absurd (raised-ne-returned (some-injective _ _ (rw (run_scan, started, failed) at h)))
          | inr (returned last, visited) ↦
              let ended =
                returned-injective (some-injective _ _ (rw (run_scan, started, visited) at h)) in
              let begun = start_scan_at setup store w started in
              let mode =
                begun.mode_eq
                ∙ IfReturned_at (λ settings. dry_run_of setup.dry_run_override settings ≡ true) dry
                    begun.settings_eq in
              let same = begun.client_eq in
              sym (ap (λ t. view t.2) ended)
              ∙ visit_pages-Sees scan view
                  (λ token size w.
                    ap (λ (c : Client W). view (c.list_assets token size w).1) same
                    ∙ list_keeps token size w)
                  (λ id w.
                    ap (λ (c : Client W). view (c.get_preview_bytes id w).1) same
                    ∙ preview_keeps id w)
                  (λ plan u same_mode. ap view (
                    execute-untouched scan.platform scan.client scan.executor plan u
                      (inl (same_mode ∙ mode))))
                  (view p.world) fuel none p last visited refl
              ∙ ap view begun.world_eq
        ]
      ]
