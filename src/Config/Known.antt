-- ===== src/Config/Known.antt =====
-- config.py: the profiles of a document that `validate_config_data` takes, and the categories that their
-- labels stand for.
use media_refinery.Common.{
  Option, ap, map, refl, returned, ℕ, ◌∷◌, >>=-IfReturned, Bool-cases, IfReturned, IfReturned_at,
  Option-cases, append-eq-nil, cons-ne-nil, inl, inr, is_empty, subst, ◌<>◌, ◌==◌, List, String, [],
  arith, contains, false, is_nil, none-ne-some, some, true, ◌≡◌,
}
use media_refinery.Config.{
  AppConfig, Category, active_profile, category_ids, allowed_video_aggregations, ClassifierProfile,
}
use media_refinery.Config.Accepted.{validate_config_data-IsAccepted}
use media_refinery.Config.Profiles.{
  validate_categories, validate_category, validate_category_items, validate_classifier_profiles,
  validate_classifier_selection, validate_profile_fields, add_label, validate_label,
  validate_output_mapping, validate_profile, validate_profile_entry, validate_labels,
}
use media_refinery.Config.Validate.{validate_config_data}
use media_refinery.Values.{
  Platform, cons, seq, Value, as_mapping, get_value, mapping, non_empty_text, str, Fields, end,
  field,
}
use media_refinery.Config.Checks.{complain, outside}
use media_refinery.Common.Dict.{Dict}
use media_refinery.Common.Dict

-- Every label of the mapping stands for one of the categories.
abbrev pub AreKnown : List String → Dict String → Type 0
AreKnown ids labels = (label id : String) → Dict.get labels label ≡ some id → contains ids id ≡ true

-- There is a profile.
abbrev IsFilled : Dict ClassifierProfile → Type 0
IsFilled profiles = is_nil (Dict.keys profiles) ≡ false

put-IsFilled :
    (profiles : Dict ClassifierProfile) (name : String) (p : ClassifierProfile)
    → IsFilled (Dict.put profiles name p)
unfolding Dict.put Dict.keys
put-IsFilled [] name p = refl
put-IsFilled ((j, q) ∷ rest) name p = ground arith

module _ (ids : List String) (some_ids : is_nil ids ≡ false) where
  empty-AreKnown : AreKnown ids []
  unfolding Dict.get
  empty-AreKnown label id h = absurd (none-ne-some h)

  put-AreKnown :
      (labels : Dict String) (label id : String)
      → contains ids id ≡ true
      → AreKnown ids labels
      → AreKnown ids (Dict.put labels label id)
  put-AreKnown labels label id known h other found e =
      ground (arith, Dict.get-put labels label other id, h other found)

  text_label-AreKnown :
      (path raw id : String) (labels : Dict String)
      → (validate_label path ids (str raw) (str id)).0 ≡ []
      → AreKnown ids labels
      → AreKnown ids (add_label (validate_label path ids (str raw) (str id)).1 labels)
  unfolding validate_label non_empty_text
  text_label-AreKnown path raw id labels clean h = elim (Bool-cases (is_empty raw)) [
    | inl empty ↦ rw (add_label, validate_label, non_empty_text, empty) h
    | inr given ↦
        rw (add_label, validate_label, non_empty_text, given)
          (put-AreKnown labels raw id (ground arith) h)
  ]

  label-AreKnown :
      (path : String) (key v : Value) (labels : Dict String)
      → (validate_label path ids key v).0 ≡ []
      → AreKnown ids labels
      → AreKnown ids (add_label (validate_label path ids key v).1 labels)
  unfolding validate_label non_empty_text
  label-AreKnown path (str raw) (str id) labels clean h =
      text_label-AreKnown path raw id labels clean h
  label-AreKnown path (str raw) v labels clean h = elim (Bool-cases (is_empty raw)) [
    | inl empty ↦ rw (add_label, validate_label, non_empty_text, empty) h
    | inr given ↦ absurd (cons-ne-nil (rw (validate_label, non_empty_text, given) at clean))
  ]
  label-AreKnown path key v labels clean h = h

  validate_labels-AreKnown :
      (path : String) (d : Fields) (labels : Dict String)
      → (validate_labels path ids d labels).0 ≡ []
      → AreKnown ids labels
      → AreKnown ids (validate_labels path ids d labels).1
  unfolding validate_labels
  validate_labels-AreKnown path end labels clean h = h
  validate_labels-AreKnown path (field key v rest) labels clean h =
      let parts = append-eq-nil (validate_label path ids key v).0 _ clean in
      validate_labels-AreKnown path rest (add_label (validate_label path ids key v).1 labels)
        parts.1 (label-AreKnown path key v labels parts.0 h)

  validate_output_mapping-AreKnown :
      (path : String) (v : Value)
      → (validate_output_mapping path ids v).0 ≡ []
      → AreKnown ids (validate_output_mapping path ids v).1
  unfolding validate_output_mapping
  validate_output_mapping-AreKnown path (mapping (field k v r)) clean =
      validate_labels-AreKnown path (field k v r) [] clean empty-AreKnown
  validate_output_mapping-AreKnown path v clean = empty-AreKnown

  abbrev IsKnownProfile : List String × ClassifierProfile → Type 0
  IsKnownProfile (errors, p) = errors ≡ [] → AreKnown ids p.output_mapping

  validate_profile-IsKnownProfile :
      (name : String) (d : Fields) → IfReturned IsKnownProfile (validate_profile name ids d)
  unfolding validate_profile
  validate_profile-IsKnownProfile name d =
      >>=-IfReturned IsKnownProfile
        (outside (get_value d "video_aggregation") allowed_video_aggregations) _
        (λ bad _ clean.
          validate_output_mapping-AreKnown ("classifier_profiles." <> name)
            (get_value d "output_mapping")
            (append-eq-nil _
              (validate_output_mapping ("classifier_profiles." <> name) ids
                (get_value d "output_mapping")).0
              (append-eq-nil _ (complain bad _) clean).0).1)

  -- Every profile of the dictionary has known labels.
  abbrev AllKnown : Dict ClassifierProfile → Type 0
  AllKnown profiles =
      (name : String) (p : ClassifierProfile)
      → Dict.get profiles name ≡ some p
      → AreKnown ids p.output_mapping

  put-AllKnown :
      (profiles : Dict ClassifierProfile) (name : String) (p : ClassifierProfile)
      → AreKnown ids p.output_mapping
      → AllKnown profiles
      → AllKnown (Dict.put profiles name p)
  put-AllKnown profiles name p known h other q e = elim (Bool-cases (name == other)) [
    | inl same ↦
        let chosen : p ≡ q = ground (arith, Dict.get-put profiles name other p, e) in
        subst (λ (x : ClassifierProfile). AreKnown ids x.output_mapping) chosen known
    | inr differs ↦ h other q (ground (arith, Dict.get-put profiles name other p))
  ]

  abbrev KeepsKnown : Dict ClassifierProfile → List String × Dict ClassifierProfile → Type 0
  KeepsKnown profiles (errors, after) =
      errors ≡ [] → AllKnown profiles → AllKnown after × IsFilled after

  validate_profile_entry-KeepsKnown :
      (key v : Value) (profiles : Dict ClassifierProfile)
      → IfReturned (KeepsKnown profiles) (validate_profile_entry ids key v profiles)
  unfolding validate_profile_entry
  validate_profile_entry-KeepsKnown key v profiles = elim (Option-cases (non_empty_text key)) [
    | inl unnamed ↦ rw (validate_profile_entry, unnamed) (λ clean. absurd (cons-ne-nil clean))
    | inr (name, named) ↦ elim (Option-cases (as_mapping v)) [
      | inl other ↦ rw (validate_profile_entry, named, other) (λ clean. absurd (cons-ne-nil clean))
      | inr (d, given) ↦
          rw (validate_profile_entry, named, given)
            (>>=-IfReturned (KeepsKnown profiles) (validate_profile name ids d) _
              (λ checked e clean h. (
                put-AllKnown profiles name checked.1
                    (IfReturned_at IsKnownProfile (validate_profile-IsKnownProfile name d) e clean)
                    h,
                put-IsFilled profiles name checked.1,
              )))
    ]
  ]

  abbrev KeepsAllKnown : Dict ClassifierProfile → List String × Dict ClassifierProfile → Type 0
  KeepsAllKnown profiles (errors, after) =
      errors ≡ [] → AllKnown profiles → AllKnown after × (IsFilled profiles → IsFilled after)

  validate_profile_fields-KeepsAllKnown :
      (d : Fields) (profiles : Dict ClassifierProfile)
      → IfReturned (KeepsAllKnown profiles) (validate_profile_fields ids d profiles)
  unfolding validate_profile_fields
  validate_profile_fields-KeepsAllKnown end profiles = λ clean h. (h, λ filled. filled)
  validate_profile_fields-KeepsAllKnown (field key v rest) profiles =
      >>=-IfReturned (KeepsAllKnown profiles) (validate_profile_entry ids key v profiles) _
        (λ entry e.
          >>=-IfReturned (KeepsAllKnown profiles) (validate_profile_fields ids rest entry.1) _
            (λ others o clean h.
              let parts = append-eq-nil entry.0 others.0 clean in
              let here =
                IfReturned_at (KeepsKnown profiles)
                  (validate_profile_entry-KeepsKnown key v profiles) e parts.0 h in
              let there =
                IfReturned_at (KeepsAllKnown entry.1)
                  (validate_profile_fields-KeepsAllKnown rest entry.1) o parts.1 here.0 in
              (there.0, λ filled. there.1 here.1)))

  abbrev HoldsKnown : List String × Dict ClassifierProfile → Type 0
  HoldsKnown (errors, profiles) = errors ≡ [] → AllKnown profiles × IsFilled profiles

  pub validate_classifier_profiles-HoldsKnown :
      (v : Value) → IfReturned HoldsKnown (validate_classifier_profiles v ids)
  unfolding validate_classifier_profiles validate_profile_fields Dict.get
  validate_classifier_profiles-HoldsKnown (mapping (field key v rest)) =
      >>=-IfReturned HoldsKnown (validate_profile_entry ids key v []) _ (λ entry e.
        >>=-IfReturned HoldsKnown (validate_profile_fields ids rest entry.1) _ (λ others o clean.
          let parts = append-eq-nil entry.0 others.0 clean in
          let here =
            IfReturned_at (KeepsKnown []) (validate_profile_entry-KeepsKnown key v []) e parts.0
              (λ name p missed. absurd (none-ne-some missed)) in
          let there =
            IfReturned_at (KeepsAllKnown entry.1)
              (validate_profile_fields-KeepsAllKnown rest entry.1) o parts.1 here.0 in
          (there.0, there.1 here.1)))
  validate_classifier_profiles-HoldsKnown v = λ clean. absurd (cons-ne-nil clean)

validate_category-is_some :
    (index : ℕ) (seen : List String) (v : Value)
    → (validate_category index seen v).0 ≡ []
    → (c : Category) × ((validate_category index seen v).1 ≡ some c)
unfolding validate_category
validate_category-is_some index seen (mapping d) clean =
    elim (Option-cases (non_empty_text (get_value d "id"))) [
      | inl unnamed ↦ absurd (cons-ne-nil (rw (validate_category, unnamed) at clean))
      | inr (id, named) ↦ (
        record { id = id; description = get_value d "description" },
        rw (validate_category, named) refl,
      )
    ]
validate_category-is_some index seen v clean = absurd (cons-ne-nil clean)

validate_categories-is_filled :
    (v : Value)
    → (validate_categories v).0 ≡ []
    → is_nil (map (λ c. c.id) (validate_categories v).1) ≡ false
unfolding validate_categories validate_category_items
validate_categories-is_filled (seq (cons v vs)) clean =
    let (c, found) =
      validate_category-is_some 0 [] v (append-eq-nil (validate_category 0 [] v).0 _ clean).0 in
    rw (validate_categories, found) refl
validate_categories-is_filled v clean = absurd (cons-ne-nil clean)

validate_classifier_selection-is_known :
    (v : Value) (profiles : Dict ClassifierProfile)
    → is_nil (Dict.keys profiles) ≡ false
    → (validate_classifier_selection v profiles).0 ≡ []
    → (p : ClassifierProfile) × (Dict.get profiles (validate_classifier_selection v profiles).1
        ≡ some p)
unfolding validate_classifier_selection
validate_classifier_selection-is_known (mapping d) profiles filled clean =
    elim (Option-cases (non_empty_text (get_value d "profile"))) [
      | inl unnamed ↦ absurd (cons-ne-nil (rw (validate_classifier_selection, unnamed) at clean))
      | inr (name, named) ↦ elim (Option-cases (Dict.get profiles name)) [
        | inl missed ↦
            absurd
              (cons-ne-nil (rw (validate_classifier_selection, named, filled, missed) at clean))
        | inr (p, found) ↦ (p, rw (validate_classifier_selection, named) found)
      ]
    ]
validate_classifier_selection-is_known v profiles filled clean = absurd (cons-ne-nil clean)

module _ (platform : Platform) (source : Option String) (document : Value) where
  -- A configuration that validate_config_data takes has the active profile that it names, and every
  -- label of this profile's mapping stands for a category of the document.
  pub validated_labels_known :
      {config : AppConfig}
      → validate_config_data platform source document ≡ returned config
      → (p : ClassifierProfile) × (active_profile config ≡ some p)
        × AreKnown (category_ids config) p.output_mapping
  unfolding active_profile category_ids
  validated_labels_known {config} h =
      let accepted = validate_config_data-IsAccepted platform source document h in
      let c = accepted.checked in
      let ids = map (λ x. x.id) c.categories in
      let categories = accepted.passes.categories_eq in
      let some_ids : is_nil ids ≡ false =
        subst (λ (r : List String × List Category). is_nil (map (λ x. x.id) r.1) ≡ false) categories
          (validate_categories-is_filled (get_value config.raw "categories")
            (ap (λ r. r.0) categories)) in
      let (known, filled) =
        IfReturned_at (HoldsKnown ids some_ids)
          (validate_classifier_profiles-HoldsKnown ids some_ids
            (get_value config.raw "classifier_profiles"))
          accepted.passes.profiles_eq refl in
      let selection = accepted.passes.selection_eq in
      let (p, found) =
        validate_classifier_selection-is_known (get_value config.raw "classifier") c.profiles filled
          (ap (λ r. r.0) selection) in
      let at_name : Dict.get c.profiles c.active_profile_name ≡ some p =
        subst (λ (n : String). Dict.get c.profiles n ≡ some p) (ap (λ r. r.1) selection) found in
      (
        p,
        rw (accepted.profiles_eq, accepted.name_eq) at_name,
        rw (accepted.categories_eq) (known c.active_profile_name p at_name),
      )
