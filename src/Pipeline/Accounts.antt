-- ===== src/Pipeline/Accounts.antt =====
-- The summary of a run and the tables that it leaves.
use media_refinery.Pipeline.Start.{start_scan_at}
use media_refinery.Common.{
  none-ne-some, Option-cases, Outcome-cases, ap, inl, inr, none, raised, raised-ne-returned, arith,
  returned-injective, length, returned, some, ℕ, ◌+◌, ◌≡◌,
}
use media_refinery.Pipeline.Laws.{visit_pages-IsAccounted}
use media_refinery.Reporter.{summarize_scan, ScanSummary}
use media_refinery.Reporter.Laws.{processed-summarize_scan}
use media_refinery.Store.{finish_run, Store}
use media_refinery.Classifier.{Scores}
use media_refinery.Pipeline.Run.{Setup, finish_scan, run_scan, start_scan}
use mathlib.Core.Option.{some-injective}
use media_refinery.Pipeline.{visit_pages}

module _ {scores : Scores} {W : Type 0} where
  -- After a run that ends with a summary, the table of errors has one row more for each error that
  -- the summary counts, and the table of classifications one for each asset that it counts as
  -- processed.
  pub run_scan_accounts :
      (fuel : ℕ) (setup : Setup scores W) (store : Store) (w : W) {summary : ScanSummary}
      {store' : Store} {w' : W}
      → run_scan fuel setup store w ≡ some (returned (summary, store', w'))
      → (length store'.errors ≡ length store.errors + summary.errors)
        × (length store'.classification_runs ≡ length store.classification_runs + summary.processed)
  unfolding run_scan finish_scan finish_run summarize_scan
  run_scan_accounts fuel setup store w {summary} {store'} {w'} h =
      elim (Outcome-cases (start_scan setup store w)) [
        | inr (e, failed) ↦
            absurd (raised-ne-returned (some-injective _ _ (rw (run_scan, failed) at h)))
        | inl ((scan, p), started) ↦ elim (Option-cases (visit_pages scan fuel none p)) [
          | inl out ↦ absurd (none-ne-some (rw (run_scan, started, out) at h))
          | inr (raised e, failed) ↦
              absurd (raised-ne-returned (some-injective _ _ (rw (run_scan, started, failed) at h)))
          | inr (returned last, visited) ↦
              let ended =
                returned-injective (some-injective _ _ (rw (run_scan, started, visited) at h)) in
              let accounted =
                visit_pages-IsAccounted scan (length store.errors)
                  (length store.classification_runs) fuel none p last visited
                  (start_scan_at setup store w started).accounted in
              omega (
                arith,
                accounted,
                processed-summarize_scan last.action_plans last.skipped last.error_count
                    scan.dry_run,
                ap (λ t. t.0.errors) ended,
                ap (λ t. t.0.processed) ended,
                ap (λ t. length t.1.errors) ended,
                ap (λ t. length t.1.classification_runs) ended,
              )
        ]
      ]
