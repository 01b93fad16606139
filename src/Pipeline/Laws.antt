-- ===== src/Pipeline/Laws.antt =====
-- pipeline.py: the rows of errors and of classifications through the loops of a scan.
use media_refinery.Pipeline.Loop.{visit_pages-keeps}
use media_refinery.Common.{
  >>=-eq-returned, Option-cases, Outcome, ap, raised, sym, ◌∙◌, Bool, Bool-cases, List, Option,
  String, [], arith, inl, inr, length, length-append, or_default, raised-ne-returned, returned,
  returned-injective, some, subst, ℕ, ◌++◌, ◌+◌, ◌==◌, ◌∷◌, ◌≡◌,
}
use media_refinery.Pipeline.{
  visit_pages, Failure, act, after_classify, classification, extraction, process_asset,
  process_result, uncaught, visit, Progress, Scan, record_failure, record_plan_error, record_result,
  record_results,
}
use media_refinery.Actions.{ActionExecutionResult}
use media_refinery.Classifier.{ClassificationResult, Scores}
use media_refinery.Decision.{decide, ActionPlan}
use media_refinery.Scanner.{matches_filters}
use media_refinery.Store.{
  needs_processing, Store, mark_asset_processed, record_action_run, record_classification_run,
  record_error, upsert_asset,
}
use media_refinery.Client.{AssetRef}

-- The rows that a scan has added to the tables of errors and of classifications.
pub record IsAccounted {W : Type 0} (errors_before classified_before : ℕ) (p : Progress W)
    : Type 0 where
  pub errors_eq : length p.store.errors ≡ errors_before + p.error_count
  pub classified_eq : length p.store.classification_runs ≡ classified_before + length p.action_plans

-- How many rows a store has more than another in these two tables.
pub record Adds (s s' : Store) (errors classified : ℕ) : Type 0 where
  pub more_errors : length s'.errors ≡ length s.errors + errors
  pub more_classified : length s'.classification_runs ≡ length s.classification_runs + classified

length-insert {ℓ} : {A : Type ℓ} (xs : List A) (x : A) → length (xs ++ x ∷ []) ≡ length xs + 1
length-insert xs x = length-append xs (x ∷ [])

upsert_asset-Adds : (a : AssetRef) (s : Store) → Adds s (upsert_asset a s) 0 0
unfolding upsert_asset
upsert_asset-Adds a s = omega arith

record_error-Adds :
    (stage message : String) (r : Option ℕ) (a : Option String) (s : Store)
    → Adds s (record_error stage message r a s) 1 0
unfolding record_error
record_error-Adds stage message r a s = omega (arith, length-insert {0})

record_action_run-Adds :
    (r : ℕ) (a n : String) (d w : Bool) (o : Option Bool) (x : Option String) (s : Store)
    → Adds s (record_action_run r a n d w o x s) 0 0
unfolding record_action_run
record_action_run-Adds r a n d w o x s = omega arith

mark_asset_processed-Adds : (id : String) (s : Store) → Adds s (mark_asset_processed id s) 0 0
unfolding mark_asset_processed
mark_asset_processed-Adds id s = ground arith

record_classification_run-Adds :
    (r : ℕ) (a : AssetRef) (i cat : String) (c m : Option ℕ) (s : Store) {s' : Store}
    → record_classification_run r a i cat c m s ≡ returned s'
    → Adds s s' 0 1
unfolding record_classification_run
record_classification_run-Adds r a i cat c m s {s'} h = elim (Bool-cases (i == a.asset_id)) [
  | inl same ↦
      subst (λ t. Adds s t 0 1) (returned-injective (rw same at h))
        (grind (arith, mark_asset_processed-Adds, upsert_asset-Adds, length-insert))
  | inr other ↦ absurd (raised-ne-returned (rw other at h))
]

module _ {scores : Scores} {W : Type 0} (scan : Scan scores W) (e c : ℕ) where
  record_failure-IsAccounted :
      (asset : AssetRef) (stage message : String) (p : Progress W)
      → IsAccounted e c p
      → IsAccounted e c (record_failure scan asset stage message p)
  unfolding record_failure
  record_failure-IsAccounted asset stage message p h = omega (
    arith,
    upsert_asset-Adds asset p.store,
    record_error-Adds stage message (some scan.run_id) (some asset.asset_id)
        (upsert_asset asset p.store),
  )

  record_result-IsAccounted :
      (id : String) (r : ActionExecutionResult) (p : Progress W)
      → IsAccounted e c p
      → IsAccounted e c (record_result scan id r p)
  unfolding record_result
  record_result-IsAccounted id r p h = ground (
    arith,
    record_action_run-Adds scan.run_id id r.action_name r.dry_run r.would_apply (some r.success)
        r.error_code p.store,
    record_error-Adds "action" (or_default r.error_code "action_failed") (some scan.run_id)
        (some id)
        (record_action_run scan.run_id id r.action_name r.dry_run r.would_apply (some r.success)
          r.error_code p.store),
  )

  record_results-IsAccounted :
      (id : String) (rs : List ActionExecutionResult) (p : Progress W)
      → IsAccounted e c p
      → IsAccounted e c (record_results scan id rs p)
  unfolding record_results
  record_results-IsAccounted id [] p h = h
  record_results-IsAccounted id (r ∷ rs) p h =
      record_results-IsAccounted id rs (record_result scan id r p)
        (record_result-IsAccounted id r p h)

  record_plan_error-IsAccounted :
      (id : String) (plan : ActionPlan) (p : Progress W)
      → IsAccounted e c p
      → IsAccounted e c (record_plan_error scan id plan p)
  unfolding record_plan_error
  record_plan_error-IsAccounted id plan p h = elim (Option-cases plan.error_code) [
    | inl fine ↦ rw (fine, record_plan_error) h
    | inr (message, found) ↦
        rw (found, record_plan_error)
          (omega (arith, record_error-Adds "decision" message (some scan.run_id) (some id) p.store))
  ]

  act-IsAccounted :
      (asset : AssetRef) (plan : ActionPlan) (p : Progress W)
      → length p.store.errors ≡ e + p.error_count
      → length p.store.classification_runs ≡ c + (length p.action_plans + 1)
      → IsAccounted e c (act scan asset plan p)
  unfolding act
  act-IsAccounted asset plan p h k =
      let noted = record p { action_plans = p.action_plans ++ plan ∷ [] } in
      let planned = record_plan_error scan asset.asset_id plan noted in
      let ok : IsAccounted e c planned =
        record_plan_error-IsAccounted asset.asset_id plan noted (record {
          errors_eq = h;
          classified_eq = k ∙ ap (λ n. c + n) (sym (length-insert p.action_plans plan));
        }) in
      record_results-IsAccounted asset.asset_id _ (record planned { world = _ })
        (record { errors_eq = ok.errors_eq; classified_eq = ok.classified_eq })

  process_result-IsAccounted :
      (asset : AssetRef) (result : ClassificationResult scores) (p : Progress W) {p' : Progress W}
      → process_result scan asset result p ≡ returned p'
      → IsAccounted e c p
      → IsAccounted e c p'
  unfolding process_result
  process_result-IsAccounted asset result p {p'} h k =
      let (plan, _, h₁) =
        >>=-eq-returned
          (decide scan.platform result.category_id asset.media_type scan.dry_run
            (some asset.asset_id) scan.config)
          _ h in
      let (s, recorded, h₂) =
        >>=-eq-returned
          (record_classification_run scan.run_id asset result.asset_id result.category_id
            scan.config_snapshot_id scan.model_version_id p.store)
          _ h₁ in
      let adds =
        record_classification_run-Adds scan.run_id asset result.asset_id result.category_id
          scan.config_snapshot_id scan.model_version_id p.store recorded in
      subst (IsAccounted e c) (returned-injective h₂)
        (act-IsAccounted asset plan (record p { store = s }) (omega arith) (omega arith))

  after_classify-IsAccounted :
      (asset : AssetRef) (r : Outcome Failure (ClassificationResult scores)) (p : Progress W)
      {p' : Progress W}
      → after_classify scan asset r p ≡ returned p'
      → IsAccounted e c p
      → IsAccounted e c p'
  unfolding after_classify
  after_classify-IsAccounted asset (raised (extraction message)) p h k =
      subst (IsAccounted e c) (returned-injective h)
        (record_failure-IsAccounted asset "extractor" message p k)
  after_classify-IsAccounted asset (raised (classification x)) p h k =
      subst (IsAccounted e c) (returned-injective h)
        (record_failure-IsAccounted asset "classifier" "classifier_failed" p k)
  after_classify-IsAccounted asset (raised (uncaught x)) p h k = absurd (raised-ne-returned h)
  after_classify-IsAccounted asset (returned result) p h k =
      process_result-IsAccounted asset result p h k

  visit-IsAccounted :
      (asset : AssetRef) (p : Progress W) {p' : Progress W}
      → visit scan asset p ≡ returned p'
      → IsAccounted e c p
      → IsAccounted e c p'
  unfolding visit process_asset
  visit-IsAccounted asset p {p'} h k = elim (Bool-cases (matches_filters scan.filters asset)) [
    | inr out ↦ subst (IsAccounted e c) (returned-injective (rw out at h)) k
    | inl matched ↦ elim (Bool-cases (needs_processing asset scan.filters.reprocess p.store)) [
      | inr known ↦
          subst (IsAccounted e c) (returned-injective (rw (matched, known) at h))
            (record { errors_eq = k.errors_eq; classified_eq = k.classified_eq })
      | inl fresh ↦
          after_classify-IsAccounted asset _ _ (rw (matched, fresh) at h)
            (record { errors_eq = k.errors_eq; classified_eq = k.classified_eq })
    ]
  ]

  -- The rows that a scan adds to the table of errors are as many as it counts errors, and those that it
  -- adds to the table of classifications as many as it has plans.
  pub visit_pages-IsAccounted :
      (fuel : ℕ) (token : Option String) (p p' : Progress W)
      → visit_pages scan fuel token p ≡ some (returned p')
      → IsAccounted e c p
      → IsAccounted e c p'
  visit_pages-IsAccounted =
      visit_pages-keeps scan (IsAccounted e c) (λ asset p p'. visit-IsAccounted asset p)
        (λ token p k. record { errors_eq = k.errors_eq; classified_eq = k.classified_eq })
