-- ===== src/Classifier/Mapping.antt =====
-- classifier.py: the asset and the category of a result.
use media_refinery.Common.{
  eq_iff, >>=-eq-returned, AllPairs, Bool-cases, List, Option-cases, String, [], ap, arith, inl,
  inr, length, nat_eq, raised-ne-returned, refl, returned, returned-injective, some, subst, ◌==◌,
  ◌∙◌, ◌∷◌, ◌≡◌,
}
use media_refinery.Classifier.{
  ClassificationResult, ClassifierInput, ConfiguredClassifier, RawModelOutput, Scores, check_ids,
  predict_batch, predict_raw_batch, resolve_all, resolve_model_output,
}
use media_refinery.Config.{ClassifierProfile}
use media_refinery.Common.Dict

module _ (scores : Scores) where
  -- A result is for the input, and its category is that of its raw label.
  pub record IsMapped (profile : ClassifierProfile) (asset_id : String)
      (r : ClassificationResult scores) : Type 0 where
    pub asset_eq : r.asset_id ≡ asset_id
    pub label : String
    pub label_eq : r.raw_label ≡ some label
    pub category_eq : Dict.get profile.output_mapping label ≡ some r.category_id

  abbrev IsFor : ClassifierInput → RawModelOutput scores → Type 0
  IsFor i o = o.asset_id ≡ i.asset_id

  abbrev Resolves : ClassifierProfile → RawModelOutput scores → ClassificationResult scores → Type 0
  Resolves profile o r = IsMapped profile o.asset_id r

  abbrev pub Classifies : ClassifierProfile → ClassifierInput → ClassificationResult scores → Type 0
  Classifies profile i r = IsMapped profile i.asset_id r

  resolve_model_output-IsMapped :
      (profile : ClassifierProfile) (o : RawModelOutput scores) {r : ClassificationResult scores}
      → resolve_model_output scores profile o ≡ returned r
      → IsMapped profile o.asset_id r
  unfolding resolve_model_output
  resolve_model_output-IsMapped profile o {r} h =
      elim (Option-cases (Dict.get profile.output_mapping o.raw_label)) [
        | inl unmapped ↦ absurd (raised-ne-returned (rw (resolve_model_output, unmapped) at h))
        | inr (category, mapped) ↦
            subst (IsMapped profile o.asset_id)
              (returned-injective (rw (resolve_model_output, mapped) at h))
              (record {
                asset_eq = refl;
                label = o.raw_label;
                label_eq = refl;
                category_eq = mapped;
              })
      ]

  resolve_all-AllMapped :
      (profile : ClassifierProfile) (outputs : List (RawModelOutput scores))
      {rs : List (ClassificationResult scores)}
      → resolve_all scores profile outputs ≡ returned rs
      → AllPairs (Resolves profile) outputs rs
  unfolding resolve_all
  resolve_all-AllMapped profile [] {rs} h =
      subst (λ l. AllPairs (Resolves profile) [] l) (returned-injective h) tt
  resolve_all-AllMapped profile (o ∷ outputs) {rs} h =
      let (r, e, h₁) = >>=-eq-returned (resolve_model_output scores profile o) _ h in
      let (rest, e₁, h₂) = >>=-eq-returned (resolve_all scores profile outputs) _ h₁ in
      subst (λ l. AllPairs (Resolves profile) (o ∷ outputs) l) (returned-injective h₂)
        (resolve_model_output-IsMapped profile o e, resolve_all-AllMapped profile outputs e₁)

  check_ids-AllPairs :
      (inputs : List ClassifierInput) (outputs : List (RawModelOutput scores))
      → length outputs ≡ length inputs
      → check_ids scores inputs outputs ≡ returned tt
      → AllPairs IsFor inputs outputs
  unfolding check_ids
  check_ids-AllPairs [] [] e h = tt
  check_ids-AllPairs [] (o ∷ outputs) e h = absurd (omega arith)
  check_ids-AllPairs (i ∷ inputs) [] e h = absurd (omega arith)
  check_ids-AllPairs (i ∷ inputs) (o ∷ outputs) e h = elim (Bool-cases (o.asset_id == i.asset_id)) [
    | inl same ↦ (
      ground (arith, eq_iff o.asset_id i.asset_id),
      check_ids-AllPairs inputs outputs (omega arith) (rw same at h),
    )
    | inr other ↦ absurd (raised-ne-returned (rw other at h))
  ]

  AllMapped_of_outputs :
      (profile : ClassifierProfile) (inputs : List ClassifierInput)
      (outputs : List (RawModelOutput scores)) (rs : List (ClassificationResult scores))
      → AllPairs IsFor inputs outputs
      → AllPairs (Resolves profile) outputs rs
      → AllPairs (Classifies profile) inputs rs
  AllMapped_of_outputs profile [] [] [] h k = tt
  AllMapped_of_outputs profile (i ∷ inputs) (o ∷ outputs) (r ∷ rs) h k = (
    subst (λ a. IsMapped profile a r) h.0 k.0,
    AllMapped_of_outputs profile inputs outputs rs h.1 k.1,
  )
  AllMapped_of_outputs profile [] [] (r ∷ rs) h k = absurd k
  AllMapped_of_outputs profile [] (o ∷ outputs) rs h k = absurd h
  AllMapped_of_outputs profile (i ∷ inputs) [] rs h k = absurd h
  AllMapped_of_outputs profile (i ∷ inputs) (o ∷ outputs) [] h k = absurd k

  -- Whatever the backend answers, a batch that is classified has one result for each input, in the
  -- order of the inputs, for that input's asset and with the category that the profile's mapping
  -- gives its raw label.
  pub predict_batch-AllMapped :
      (c : ConfiguredClassifier scores) (inputs : List ClassifierInput)
      {rs : List (ClassificationResult scores)}
      → predict_batch scores c inputs ≡ returned rs
      → AllPairs (Classifies c.profile) inputs rs
  unfolding predict_batch predict_raw_batch
  predict_batch-AllMapped c inputs {rs} h =
      let (outputs, e, h₁) = >>=-eq-returned (predict_raw_batch scores c.backend inputs) _ h in
      let (raw, e₁, h₂) = >>=-eq-returned (c.backend.predict_batch inputs) _ e in
      elim (Bool-cases (nat_eq (length raw) (length inputs))) [
        | inr short ↦ absurd (raised-ne-returned (rw short at h₂))
        | inl counted ↦
            let (_, checked, h₃) =
              >>=-eq-returned (check_ids scores inputs raw) _ (rw counted at h₂) in
            let same = returned-injective h₃ in
            AllMapped_of_outputs c.profile inputs raw rs
              (check_ids-AllPairs inputs raw (ground (arith, counted)) checked)
              (resolve_all-AllMapped c.profile raw (ap (resolve_all scores c.profile) same ∙ h₁))
      ]
