-- ===== src/Pipeline/Failures.antt =====
-- pipeline.py: the handlers of a failed extraction or classification, and a later scan.
use media_refinery.Store.{
  upserted_row, AssetRow, Store, needs_processing, record_error, row_needs_processing, upsert_asset,
}
use media_refinery.Common.{
  Bool, Option, Option-cases, String, ap, arith, code, eq_refl, false, inl, inr, is_some, none, not,
  some, ℕ, ◌∙◌, ◌≡◌,
}
use media_refinery.Classifier.{Scores}
use media_refinery.Client.{AssetRef}
use media_refinery.Pipeline.{Progress, Scan, record_failure}
use media_refinery.Common.Dict

-- Whether an asset was classified before.
abbrev pub was_processed : Store → String → Bool
was_processed s id = elim (Dict.get s.assets id) [
  | none ↦ false
  | some row ↦ is_some row.last_processed
]

needs_of_upserted :
    (now : ℕ) (asset : AssetRef) (o : Option AssetRow)
    → row_needs_processing (some (upserted_row now asset o)) asset.checksum
      ≡ not (elim o [ none ↦ false | some row ↦ is_some row.last_processed ])
unfolding row_needs_processing upserted_row
needs_of_upserted now asset none = ground arith
needs_of_upserted now asset (some row) = elim (Option-cases asset.checksum) [
  | inl e ↦ rw e (ground arith)
  | inr (c, e) ↦ rw e (ground (arith, eq_refl c))
]

-- After a failed extraction or classification of an asset, a later scan looks at the asset again
-- exactly if it was never processed.
pub needs_processing-record_failure :
    {scores : Scores} {W : Type 0} (scan : Scan scores W) (asset : AssetRef) (stage code : String)
    (p : Progress W)
    → needs_processing asset false (record_failure scan asset stage code p).store
      ≡ not (was_processed p.store asset.asset_id)
unfolding needs_processing record_failure record_error upsert_asset
needs_processing-record_failure scan asset stage code p =
    ap (λ o. row_needs_processing o asset.checksum)
      (Dict.get-put_self p.store.assets asset.asset_id _)
    ∙ needs_of_upserted p.store.clock asset (Dict.get p.store.assets asset.asset_id)
