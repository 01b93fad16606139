-- ===== src/Store/Laws.antt =====
-- state.py: `needs_processing` after the store's writes.
use media_refinery.Common.{
  ap, ◌∙◌, Bool-cases, List, arith, inl, inr, raised-ne-returned, returned-injective, Bool, Option,
  String, false, if◌then◌else◌, none, not, refl, returned, some, subst, true, ℕ, ◌==◌, ◌≡◌,
}
use media_refinery.Store.{
  upserted_row, ClassificationRow, mark_asset_processed, AssetRow, Store, needs_processing,
  record_classification_run, row_needs_processing, upsert_asset,
}
use media_refinery.Client.{AssetRef}
use media_refinery.Common.Dict

-- Whether `needs_processing` finds the checksum of an asset that was processed out of date.
abbrev pub is_stale : Option String → Option String → Bool
is_stale stored none = false
is_stale none (some c) = true
is_stale (some d) (some c) = not (d == c)

mark_asset_processed_lem :
    (id : String) (row : AssetRow) (s : Store)
    → Dict.get s.assets id ≡ some row
    → mark_asset_processed id s
      ≡ record s { assets = Dict.put s.assets id (record row { last_processed = some s.clock }) }
unfolding mark_asset_processed
mark_asset_processed_lem id row s h = rw (h, mark_asset_processed)

get-mark_asset_processed :
    (asset : AssetRef) (j : String) (rows : List ClassificationRow) (s : Store)
    → Dict.get
        (mark_asset_processed asset.asset_id
          (record (upsert_asset asset s) { classification_runs = rows })).assets
        j
      ≡ (if asset.asset_id == j
          then some (record (upserted_row s.clock asset (Dict.get s.assets asset.asset_id)) {
            last_processed = some s.clock;
          })
          else Dict.get s.assets j)
unfolding upsert_asset
get-mark_asset_processed asset j rows s =
    let row = upserted_row s.clock asset (Dict.get s.assets asset.asset_id) in
    let written = record (upsert_asset asset s) { classification_runs = rows } in
    ap (λ (u : Store). Dict.get u.assets j)
      (mark_asset_processed_lem asset.asset_id row written
        (Dict.get-put_self s.assets asset.asset_id row))
    ∙ simp Dict.get-put (ground arith)

checksum-upserted_row :
    (now : ℕ) (asset : AssetRef) (o : Option AssetRow)
    → (upserted_row now asset o).immich_checksum_or_version ≡ asset.checksum
unfolding upserted_row
checksum-upserted_row now asset none = refl
checksum-upserted_row now asset (some row) = refl

-- `row_needs_processing` of a row that was just processed.
needs_of_processed :
    (row : AssetRow) (t : ℕ) (checksum : Option String)
    → row_needs_processing (some (record row { last_processed = some t })) checksum
      ≡ is_stale row.immich_checksum_or_version checksum
unfolding row_needs_processing
needs_of_processed row t checksum = ground arith

-- After a classification is recorded, an asset of its id needs processing exactly if its checksum
-- is stale, and any other asset exactly if it did before.
pub needs_processing-record_classification_run :
    (run_id : ℕ) (asset b : AssetRef) (result_id category_id : String) (c m : Option ℕ) (s : Store)
    {s' : Store}
    → record_classification_run run_id asset result_id category_id c m s ≡ returned s'
    → needs_processing b false s' ≡ (
        if asset.asset_id == b.asset_id
        then is_stale asset.checksum b.checksum
        else needs_processing b false s)
unfolding record_classification_run needs_processing
needs_processing-record_classification_run run_id asset b result_id category_id c m s {s'} h =
    elim (Bool-cases (result_id == asset.asset_id)) [
      | inl same ↦
          subst
            (λ t. needs_processing b false t ≡ (
              if asset.asset_id == b.asset_id
              then is_stale asset.checksum b.checksum
              else needs_processing b false s))
            (returned-injective (rw same at h))
            (rw (get-mark_asset_processed asset b.asset_id _ s) (
              ground (
                arith,
                needs_of_processed (upserted_row s.clock asset (Dict.get s.assets asset.asset_id))
                    s.clock b.checksum,
                checksum-upserted_row s.clock asset (Dict.get s.assets asset.asset_id),
              )))
      | inr other ↦ absurd (raised-ne-returned (rw other at h))
    ]
