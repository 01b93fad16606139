-- ===== src/Pipeline/View.antt =====
-- pipeline.py: a view of the client's world through the loops of a scan.
use media_refinery.Common.{
  >>=-eq-returned, Bool-cases, Fault, List, Option, Option-cases, Outcome, String, [], ap, arith,
  code, inl, inr, raised, raised-ne-returned, refl, returned, returned-injective, some, subst, ℕ, ℤ,
  ◌++◌, ◌∙◌, ◌∷◌, ◌≡◌,
}
use media_refinery.Actions.{ActionExecutionResult, execute}
use media_refinery.Classifier.{ClassificationResult, Scores}
use media_refinery.Client.{AssetRef}
use media_refinery.Decision.{ActionPlan, decide}
use media_refinery.Decision.Laws.{decide-IsPlanFor}
use media_refinery.Pipeline.{
  Failure, Progress, Scan, act, after_classify, classification, classify_asset, classify_image,
  extraction, process_asset, process_result, record_failure, record_plan_error, record_results,
  uncaught, visit, visit_pages,
}
use media_refinery.Pipeline.Loop.{visit_pages-keeps}
use media_refinery.Scanner.{matches_filters}
use media_refinery.Store.{needs_processing, record_classification_run}

module _ {scores : Scores} {W V : Type 0} (scan : Scan scores W) (view : W → V)
    (list_keeps : (token : Option String) (size : ℤ) (w : W)
      → view (scan.client.list_assets token size w).1 ≡ view w)
    (preview_keeps : (id : String) (w : W) → view (scan.client.get_preview_bytes id w).1 ≡ view w)
    (execute_keeps : (plan : ActionPlan) (w : W)
      → plan.dry_run ≡ scan.dry_run
      → view (execute scan.platform scan.client scan.executor plan w).1 ≡ view w)
    (v : V) where
  abbrev pub Sees : Progress W → Type 0
  Sees p = view p.world ≡ v

  world-record_results :
      (id : String) (rs : List ActionExecutionResult) (p : Progress W)
      → (record_results scan id rs p).world ≡ p.world
  unfolding record_results
  world-record_results id [] p = refl
  world-record_results id (r ∷ rs) p = world-record_results id rs _ ∙ ground arith

  world-record_plan_error :
      (id : String) (plan : ActionPlan) (p : Progress W)
      → (record_plan_error scan id plan p).world ≡ p.world
  unfolding record_plan_error
  world-record_plan_error id plan p = elim (Option-cases plan.error_code) [
    | inl e ↦ rw e
    | inr (code, e) ↦ rw e
  ]

  act-Sees :
      (asset : AssetRef) (plan : ActionPlan) (p : Progress W)
      → plan.dry_run ≡ scan.dry_run
      → Sees p
      → Sees (act scan asset plan p)
  unfolding act
  act-Sees asset plan p mode h =
      let noted = record p { action_plans = p.action_plans ++ plan ∷ [] } in
      let planned = record_plan_error scan asset.asset_id plan noted in
      ap view (world-record_results asset.asset_id _ (record planned { world = _ }))
      ∙ execute_keeps plan planned.world mode
      ∙ ap view (world-record_plan_error asset.asset_id plan noted)
      ∙ h

  process_result-Sees :
      (asset : AssetRef) (result : ClassificationResult scores) (p : Progress W) {p' : Progress W}
      → process_result scan asset result p ≡ returned p'
      → Sees p
      → Sees p'
  unfolding process_result
  process_result-Sees asset result p {p'} h k =
      let (plan, decided, h₁) =
        >>=-eq-returned
          (decide scan.platform result.category_id asset.media_type scan.dry_run
            (some asset.asset_id) scan.config)
          _ h in
      let (s, recorded, h₂) =
        >>=-eq-returned
          (record_classification_run scan.run_id asset result.asset_id result.category_id
            scan.config_snapshot_id scan.model_version_id p.store)
          _ h₁ in
      let planned =
        decide-IsPlanFor scan.platform result.category_id asset.media_type scan.dry_run
          (some asset.asset_id) scan.config decided in
      subst Sees (returned-injective h₂)
        (act-Sees asset plan (record p { store = s }) planned.mode k)

  after_classify-Sees :
      (asset : AssetRef) (r : Outcome Failure (ClassificationResult scores)) (p : Progress W)
      {p' : Progress W}
      → after_classify scan asset r p ≡ returned p'
      → Sees p
      → Sees p'
  unfolding after_classify record_failure
  after_classify-Sees asset (raised (extraction message)) p h k =
      subst Sees (returned-injective h) k
  after_classify-Sees asset (raised (classification x)) p h k = subst Sees (returned-injective h) k
  after_classify-Sees asset (raised (uncaught x)) p h k = absurd (raised-ne-returned h)
  after_classify-Sees asset (returned result) p h k = process_result-Sees asset result p h k

  classify_image-Sees :
      (asset : AssetRef) (r : Outcome Fault (List ℕ) × W) → (classify_image scan asset r).1 ≡ r.1
  unfolding classify_image
  classify_image-Sees asset (raised e, w) = refl
  classify_image-Sees asset (returned b, w) = refl

  classify_asset-Sees : (asset : AssetRef) (w : W) → view (classify_asset scan asset w).1 ≡ view w
  unfolding classify_asset
  classify_asset-Sees asset w = ground (
    arith,
    classify_image-Sees asset (scan.client.get_preview_bytes asset.asset_id w),
    preview_keeps asset.asset_id w,
  )

  pub visit-Sees :
      (asset : AssetRef) (p : Progress W) {p' : Progress W}
      → visit scan asset p ≡ returned p'
      → Sees p
      → Sees p'
  unfolding visit process_asset
  visit-Sees asset p {p'} h k = elim (Bool-cases (matches_filters scan.filters asset)) [
    | inr out ↦ subst Sees (returned-injective (rw out at h)) k
    | inl matched ↦ elim (Bool-cases (needs_processing asset scan.filters.reprocess p.store)) [
      | inr known ↦ subst Sees (returned-injective (rw (matched, known) at h)) k
      | inl fresh ↦
          after_classify-Sees asset _ _ (rw (matched, fresh) at h)
            (classify_asset-Sees asset p.world ∙ k)
    ]
  ]

  pub visit_pages-Sees :
      (fuel : ℕ) (token : Option String) (p p' : Progress W)
      → visit_pages scan fuel token p ≡ some (returned p')
      → Sees p
      → Sees p'
  visit_pages-Sees =
      visit_pages-keeps scan Sees (λ asset p p'. visit-Sees asset p)
        (λ token p k. list_keeps token scan.page_size p.world ∙ k)
